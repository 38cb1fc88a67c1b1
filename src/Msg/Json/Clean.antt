-- ===== src/Msg/Json/Clean.antt =====
-- What the trimming of server/lib/include/msg/json.hpp keeps of a received text.
use Prim.Native.Char.{Char}
use Prim.Native.String.{◌++◌}
use text.Mathlib.TextLemmas.{append_assoc, append-nil, nil-append, cons-append}
use se3313a_lab.Base.{
  String, ◌+◌, ◌-◌, ◌≡◌, refl, sym, ap, ◌∙◌, false, some, ok, rfind, erase_from, size, ◌==◌,
  if◌then◌else◌, contains, rfind-eq-none, rfind_last, erase_from_last, size-append, arith,
  Option-cases, inl, inr, erase_from_prefix, Bool-cases, ==_ne, contains-append,
}
use native.Mathlib.Numerals.{add-one}
use se3313a_lab.Boost.{Library}
use se3313a_lab.Msg.Json.{cut_at_newline, cut_at_brace, clean, from, to, to_compact}

one_append : (c : Char) (s : String) → String.◌∷◌ c "" ++ s ≡ String.◌∷◌ c s
one_append c s = cons-append c "" s ∙ ap (String.◌∷◌ c) (nil-append s)

newline_none : (s : String) → contains b'\n' s ≡ false → cut_at_newline s ≡ s
unfolding cut_at_newline
newline_none s h = rw (rfind-eq-none b'\n' s h, cut_at_newline) refl

newline_last :
    (a b : String)
    → contains b'\n' b ≡ false
    → cut_at_newline (a ++ String.◌∷◌ "\n" b) ≡ a ++ String.◌∷◌ "\n" ""
unfolding cut_at_newline
newline_last a b h =
    rw (rfind_last b'\n' "\n" a b refl h, cut_at_newline)
      (rw (add-one (size a)) (erase_from_last "\n" a b))

-- The erasure leaves out nothing if the brace is the last character.
brace_kept :
    (a b : String)
    → (if size a == size (a ++ String.◌∷◌ "}" b) - 1
        then a ++ String.◌∷◌ "}" b
        else erase_from (size a + 1) (a ++ String.◌∷◌ "}" b))
      ≡ a ++ String.◌∷◌ "}" ""
brace_kept a String.[] = elim (Bool-cases (size a == size (a ++ "}") - 1)) [
  | inl e ↦ rw e refl
  | inr e ↦ rw (e, add-one (size a)) (erase_from_last "}" a "")
]
brace_kept a (String.◌∷◌ c b) =
    let longer : (size a == size (a ++ String.◌∷◌ "}" (String.◌∷◌ c b)) - 1) ≡ false =
      ==_ne _ _ (omega (arith, size-append a (String.◌∷◌ "}" (String.◌∷◌ c b)))) in
    rw (longer, add-one (size a)) (erase_from_last "}" a (String.◌∷◌ c b))

brace_last :
    (a b : String)
    → contains b'}' b ≡ false
    → cut_at_brace (a ++ String.◌∷◌ "}" b) ≡ a ++ String.◌∷◌ "}" ""
unfolding cut_at_brace
brace_last a b h = rw (rfind_last b'}' "}" a b refl h, cut_at_brace) (brace_kept a b)

regroup :
    (body gap rest : String)
    → body ++ ("}" ++ (gap ++ ("\n" ++ rest))) ≡ (body ++ ("}" ++ gap)) ++ String.◌∷◌ "\n" rest
regroup body gap rest = rw (one_append "\n" rest) (simp append_assoc)

reframe :
    (body gap : String) → (body ++ ("}" ++ gap)) ++ "\n" ≡ body ++ String.◌∷◌ "}" (gap ++ "\n")
reframe body gap = simp (append_assoc, one_append "}" (gap ++ "\n"))

-- A text with a closing brace `}` and a later newline is cut after the last closing brace, if
-- between that brace and the last newline there is no other brace and after the newline no newline.
pub clean_framed :
    (body gap rest : String)
    → contains b'}' gap ≡ false
    → contains b'\n' rest ≡ false
    → clean (body ++ ("}" ++ (gap ++ ("\n" ++ rest)))) ≡ body ++ "}"
unfolding clean
clean_framed body gap rest h k =
    ap cut_at_brace (
      ap cut_at_newline (regroup body gap rest)
      ∙ newline_last (body ++ ("}" ++ gap)) rest k
      ∙ reframe body gap)
    ∙ brace_last body (gap ++ "\n") (rw (contains-append b'}' gap "\n", h) refl)

-- Whatever follows the last newline is dropped, a closing brace too.
pub clean-after_newline :
    (line rest : String)
    → contains b'\n' rest ≡ false
    → clean (line ++ ("\n" ++ rest)) ≡ clean (line ++ "\n")
unfolding clean
clean-after_newline line rest h = ap cut_at_brace (
    ap cut_at_newline
      (ap (◌++◌ line) (cons-append "\n" "" rest ∙ ap (String.◌∷◌ "\n") (nil-append rest)))
    ∙ newline_last line rest h
    ∙ sym (newline_last line "" refl))

-- A text with no newline is cut after its last closing brace.
pub clean_line :
    (body rest : String)
    → contains b'}' rest ≡ false
    → contains b'\n' (body ++ ("}" ++ rest)) ≡ false
    → clean (body ++ ("}" ++ rest)) ≡ body ++ "}"
unfolding clean
clean_line body rest h k =
    ap cut_at_brace (newline_none _ k ∙ ap (◌++◌ body) (one_append "}" rest))
    ∙ brace_last body rest h

cut_at_newline_prefix : (s : String) → (t : String) × (cut_at_newline s ++ t ≡ s)
unfolding cut_at_newline
cut_at_newline_prefix s = elim (Option-cases (rfind b'\n' s)) [
  | inl e ↦ ("", rw (e, cut_at_newline) (append-nil s))
  | inr (i, e) ↦ let (t, p) = erase_from_prefix (i + 1) s in (t, rw (e, cut_at_newline) p)
]

cut_at_brace_prefix : (s : String) → (t : String) × (cut_at_brace s ++ t ≡ s)
unfolding cut_at_brace
cut_at_brace_prefix s = elim (Option-cases (rfind b'}' s)) [
  | inl e ↦ ("", rw (e, cut_at_brace) (append-nil s))
  | inr (i, e) ↦ elim (Bool-cases (i == size s - 1)) [
    | inl last ↦ ("", rw (e, cut_at_brace) (rw last (append-nil s)))
    | inr inside ↦
        let (t, p) = erase_from_prefix (i + 1) s in (t, rw (e, cut_at_brace) (rw inside p))
  ]
]

-- The trimmed text is a beginning of the received one.
pub clean_prefix : (s : String) → (t : String) × (clean s ++ t ≡ s)
unfolding clean
clean_prefix s =
    let (t, p) = cut_at_newline_prefix s in
    let (u, q) = cut_at_brace_prefix (cut_at_newline s) in
    (u ++ t, sym (append_assoc _ u t) ∙ ap (λ x. x ++ t) q ∙ p)

-- A tree whose compact text ends with a brace and a newline, as the text of an object does, and
-- whose text without that newline reads back as the tree, comes back from `to` and `from`.
pub from-to :
    (L : Library) (t : L.Tree) (body : String)
    → L.write_json false t ≡ body ++ ("}" ++ "\n")
    → L.read_json (body ++ "}") ≡ some t
    → from L (to_compact L t) ≡ ok t
unfolding from to
from-to L t body w r =
    let trimmed : clean (body ++ ("}" ++ "\n")) ≡ body ++ "}" = clean_framed body "" "" refl refl in
    rw w (rw (trimmed, from) (rw r refl))
