-- ===== src/Boost/Sample/Trees.antt =====
-- The trees of the sample: keys and values, and what `find`, `put` and `get` do with a path.
use Prim.Native.Char.{Char, code}
use Prim.Native.String.{◌++◌}
use mathlib.Core.Option as O
use text.Mathlib.TextLemmas.{append_assoc, append-nil, nil-append, cons-append}
use mathlib.Core.Bool.{false≢true}
use se3313a_lab.Base.{
  String, ◌≡◌, refl, ap, ◌∙◌, ◌≢◌, true, false, Option, none, some, ◌==◌, if◌then◌else◌, arith,
  text_eq, eq_iff, eq_refl, Bool-cases, inl, inr,
}
use se3313a_lab.Boost.{is_simple}

mutual
  pub data Tree : Type 0 where
    node : String → Children → Tree

  pub data Children : Type 0 where
    nil : Children
    child : String → Tree → Children → Children

abbrev pub value : Tree → String
value (node v cs) = v

abbrev pub children : Tree → Children
children (node v cs) = cs

unfoldable pub find_in : String → Children → Option Tree
find_in k nil = none
find_in k (child j t cs) = if text_eq j k then some t else find_in k cs

-- gives the child at a key, made if it is missing, a new tree
unfoldable pub put_in : String → Tree → Children → Children
put_in k t nil = child k t nil
put_in k t (child j u cs) = if text_eq j k then child j t cs else child j u (put_in k t cs)

pub find_in-put_in : (k : String) (t : Tree) (cs : Children) → find_in k (put_in k t cs) ≡ some t
unfolding find_in put_in
find_in-put_in k t nil = rw eq_refl
find_in-put_in k t (child j u cs) = ground (arith, find_in-put_in k t cs)

pub find_in-put_in_ne :
    (j k : String) (t : Tree) (cs : Children) → j ≢ k → find_in j (put_in k t cs) ≡ find_in j cs
unfolding find_in put_in
find_in-put_in_ne j k t nil h = ground (arith, eq_iff k j)
find_in-put_in_ne j k t (child i u cs) h =
    ground (arith, eq_iff k j, eq_iff i k, eq_iff i j, find_in-put_in_ne j k t cs h)

unfoldable pub find : String → Tree → Option Tree
unfolding find_in
find k t = find_in k (children t)

unfoldable pub put_child : String → Tree → Tree → Tree
unfolding put_in
put_child k c t = node (value t) (put_in k c (children t))

-- the children that a node already has at the key
abbrev pub kept : Option Tree → Children
kept none = nil
kept (some t) = children t

unfoldable pub put : String → String → Tree → Tree
unfolding put_child find
put k v t = put_child k (node v (kept (find k t))) t

-- `get`: the keys of a path are read off up to each dot.
unfoldable pub walk : String → String → Tree → Option String
unfolding find
walk key String.[] t = O.map value (find key t)
walk key (String.◌∷◌ c s) t =
    let deeper = O.bind (find key t) (walk "" s) in
    let longer = walk (key ++ String.◌∷◌ c "") s t in if code c == b'.' then deeper else longer

simple-tail :
    (c : Char) (s : String)
    → is_simple (String.◌∷◌ c s) ≡ true
    → ((code c == b'.') ≡ false) × (is_simple s ≡ true)
simple-tail c s h = elim (Bool-cases (code c == b'.')) [
  | inl dot ↦ absurd (false≢true (rw dot at h))
  | inr other ↦ (other, rw other at h)
]

-- a key and its next character
grow :
    (key : String) (c : Char) (s : String) → (key ++ String.◌∷◌ c "") ++ s ≡ key ++ String.◌∷◌ c s
grow key c s =
    append_assoc key _ s ∙ ap (◌++◌ key) (cons-append c "" s ∙ ap (String.◌∷◌ c) (nil-append s))

pub walk-key :
    (key k : String) (t : Tree)
    → is_simple k ≡ true
    → walk key k t ≡ O.map value (find (key ++ k) t)
unfolding walk
walk-key key String.[] t h = rw (append-nil key) refl
walk-key key (String.◌∷◌ c s) t h =
    let (other, rest) = simple-tail c s h in
    rw (other, ← grow key c s) (walk-key (key ++ String.◌∷◌ c "") s t rest)

pub walk-dot :
    (key k j : String) (t : Tree)
    → is_simple k ≡ true
    → walk key (k ++ ("." ++ j)) t ≡ O.bind (find (key ++ k) t) (walk "" j)
unfolding walk
walk-dot key String.[] j t h =
    rw (nil-append ("." ++ j), cons-append "." "" j, nil-append j, append-nil key) refl
walk-dot key (String.◌∷◌ c s) j t h =
    let (other, rest) = simple-tail c s h in
    rw (cons-append c s ("." ++ j), other, ← grow key c s)
      (walk-dot (key ++ String.◌∷◌ c "") s j t rest)
