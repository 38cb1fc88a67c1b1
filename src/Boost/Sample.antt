-- ===== src/Boost/Sample.antt =====
-- A small property tree that has the behaviour of `Library`, so that its laws can be met. Numbers
-- and times are written as so many strokes, and the JSON reader knows the texts of one table.
pub mod Trees
use Prim.Native.Char.{Char, code}
use Prim.Native.String.{◌++◌}
use mathlib.Core.Option as O
use text.Mathlib.TextLemmas.{append_assoc, append-nil, nil-append, cons-append}
use mathlib.Core.Bool.{false≢true}
use se3313a_lab.Base.{
  String, ℕ, zero, suc, ◌≡◌, refl, ap, ◌∙◌, ◌≢◌, Bool, true, false, Option, none, some, ◌==◌,
  if◌then◌else◌, arith, text_eq, eq_iff, eq_refl, Bool-cases, inl, inr,
}
use se3313a_lab.Boost.{is_simple, Library}
pub use se3313a_lab.Boost.Sample.Trees.{Tree, node, Children, nil, child, value, children, kept}
unfoldable pub use se3313a_lab.Boost.Sample.Trees.{find, put_child, put, walk}
use se3313a_lab.Boost.Sample.Trees.{
  find_in, put_in, find_in-put_in, find_in-put_in_ne, walk-key, walk-dot,
}

unfoldable pub strokes : ℕ → String
strokes zero = ""
strokes (suc n) = String.◌∷◌ "|" (strokes n)

abbrev pub size : String → ℕ
size String.[] = 0
size (String.◌∷◌ c s) = suc (size s)

size-strokes : (n : ℕ) → size (strokes n) ≡ n
unfolding strokes
size-strokes zero = refl
size-strokes (suc n) = ap suc (size-strokes n)

mutual
  render : Tree → String
  render (node v nil) = "\"" ++ (v ++ "\"")
  render (node v (child k t cs)) = "{\"" ++ (k ++ ("\":" ++ (render t ++ render_rest cs)))

  render_rest : Children → String
  render_rest nil = "}"
  render_rest (child k t cs) = ",\"" ++ (k ++ ("\":" ++ (render t ++ render_rest cs)))

unfoldable pub write_json : Bool → Tree → String
unfolding render
write_json pretty t = render t ++ "\n"

pub write_json-leaf :
    (k v : String)
    → write_json false (node "" (child k (node v nil) nil))
      ≡ ("{\"" ++ (k ++ ("\":" ++ (("\"" ++ (v ++ "\"")) ++ "}")))) ++ "\n"
unfolding write_json
write_json-leaf k v = refl

-- a request under a type, with its time and its sender
abbrev pub request : String → String → String → Tree
request type time sender = node "" (
    child "type" (node type nil) (
      child "object"
        (node "" (child "datetime" (node time nil) (child "sender" (node sender nil) nil))) nil))

abbrev pub quoted : String → String
quoted v = "\"" ++ (v ++ "\"")

pub write_json-request :
    (type time sender : String)
    → write_json false (request type time sender)
      ≡ ("{\""
          ++ ("type"
              ++ ("\":"
                  ++ (quoted type
                      ++ (",\""
                          ++ ("object"
                              ++ ("\":"
                                  ++ (("{\""
                                        ++ ("datetime"
                                            ++ ("\":"
                                                ++ (quoted time
                                                    ++ (",\""
                                                        ++ ("sender"
                                                            ++ ("\":"
                                                            ++ (quoted sender ++ "}"))))))))
                                      ++ "}"))))))))
        ++ "\n"
unfolding write_json
write_json-request type time sender = refl

pub put_child-request :
    (type time sender : String)
    → put_child "object"
        (put "sender" sender (put "datetime" time (node "" nil)))
        (put "type" type (node "" nil))
      ≡ request type time sender
unfolding put put_child find put_in find_in
put_child-request type time sender = refl

pub put_law : (k v : String) (t : Tree) → (c : Tree) × (find k (put k v t) ≡ some c) × (value c ≡ v)
unfolding find put put_child
put_law k v t = (node v (kept (find_in k (children t))), find_in-put_in k _ _, refl)

pub put_ne : (j k v : String) (t : Tree) → j ≢ k → find j (put k v t) ≡ find j t
unfolding find put put_child
put_ne j k v t h = find_in-put_in_ne j k _ _ h

pub number_law :
    (k : String) (n : ℕ) (t : Tree)
    → (c : Tree) × (find k (put k (strokes n) t) ≡ some c) × (some (size (value c)) ≡ some n)
number_law k n t =
    let (c, found, same) = put_law k (strokes n) t in
    (c, found, ap some (ap size same ∙ size-strokes n))

pub time_law :
    (k : String) (n : ℕ) (t : Tree)
    → (c : Tree) × (find k (put k (strokes n) t) ≡ some c) × ((q : ℕ) → size (value c) ≡ n)
time_law k n t =
    let (c, found, same) = put_law k (strokes n) t in (c, found, λ q. ap size same ∙ size-strokes n)

pub child_law : (k : String) (c t : Tree) → find k (put_child k c t) ≡ some c
unfolding find put_child
child_law k c t = find_in-put_in k c (children t)

pub child_ne : (j k : String) (c t : Tree) → j ≢ k → find j (put_child k c t) ≡ find j t
unfolding find put_child
child_ne j k c t h = find_in-put_in_ne j k c (children t) h

pub get_law : (k : String) (t : Tree) → is_simple k ≡ true → walk "" k t ≡ O.map value (find k t)
get_law k t h = walk-key "" k t h ∙ ap (λ i. O.map value (find i t)) (nil-append k)

pub dot_law :
    (k j : String) (t : Tree)
    → is_simple k ≡ true
    → is_simple j ≡ true
    → walk "" (k ++ ("." ++ j)) t ≡ O.map value (O.bind (find k t) (find j))
unfolding O.bind
dot_law k j t h i =
    walk-dot "" k j t h ∙ ap (λ l. O.bind (find l t) (walk "" j)) (nil-append k) ∙ last (find k t)
  where
    last : (o : Option Tree) → O.bind o (walk "" j) ≡ O.map value (O.bind o (find j))
    last none = refl
    last (some c) = get_law j c i

pub find_empty : (k : String) → find k (node "" nil) ≡ none
unfolding find find_in
find_empty k = refl

-- A library whose JSON reader knows the trees of `parse`.
abbrev pub sample : (String → Option Tree) → Library
sample parse = record {
  Tree = Tree;
  Time = ℕ;
  empty = node "" nil;
  find = find;
  put = put;
  put_u16 = λ k n. put k (strokes n);
  put_time = λ k n. put k (strokes n);
  put_child = put_child;
  get_value = value;
  get_value_u16 = λ t. some (size (value t));
  get = walk "";
  read_json = parse;
  write_json = write_json;
  can_write = λ t. text_eq (value t) "";
  epoch = 0;
  read_time = λ s t. size s;
  to_micros = λ t. t;
  find-empty = find_empty;
  find-put = λ k v t h. put_law k v t;
  find-put_u16 = λ k n t h b. number_law k n t;
  find-put_time = λ k n t h. time_law k n t;
  find-put_child = λ k c t h. child_law k c t;
  find-put_ne = λ j k v t h. put_ne j k v t;
  find-put_u16_ne = λ j k n t h. put_ne j k (strokes n) t;
  find-put_time_ne = λ j k n t h. put_ne j k (strokes n) t;
  find-put_child_ne = λ j k c t h. child_ne j k c t;
  get-key = get_law;
  get-dot = dot_law;
}
