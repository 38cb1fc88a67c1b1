-- ===== src/Base/Text.antt =====
-- The operations of std::string that the source calls, with one character for each byte.
use Prim.Native.Char.{Char, code}
use Prim.Native.String.{◌++◌}
use mathlib.Core.Bool.{Bool, false, ◌||◌}
use mathlib.Core.Path.{◌≡◌, refl, ap, ◌∙◌}
use mathlib.Core.Option.{Option, none, some}
use Prim.Native.Nat.{ℕ, zero, suc, ◌+◌}
use Prim.Native.String.{String}
use native.Mathlib.Omega.{arith}
use text.Mathlib.TextLemmas.{nil-append, cons-append}
use se3313a_lab.Base.Tests.{◌==◌, if◌then◌else◌}

abbrev pub size : String → ℕ
size String.[] = 0
size (String.◌∷◌ c s) = suc (size s)

-- the index of the last character `k`, or none for npos
abbrev last_index : ℕ → Option ℕ → Char → Option ℕ
last_index k (some i) c = some (suc i)
last_index k none c = if code c == k then some 0 else none

unfoldable pub rfind : ℕ → String → Option ℕ
rfind k String.[] = none
rfind k (String.◌∷◌ c s) = last_index k (rfind k s) c

-- `erase(i, npos)`: the first `i` characters stay
unfoldable pub erase_from : ℕ → String → String
erase_from zero s = ""
erase_from (suc i) String.[] = ""
erase_from (suc i) (String.◌∷◌ c s) = String.◌∷◌ c (erase_from i s)

abbrev pub contains : ℕ → String → Bool
contains k String.[] = false
contains k (String.◌∷◌ c s) = code c == k || contains k s

module _ (k : ℕ) where
  pub rfind-eq-none : (s : String) → contains k s ≡ false → rfind k s ≡ none
  unfolding rfind
  rfind-eq-none String.[] h = refl
  rfind-eq-none (String.◌∷◌ c s) h = ground (arith, rfind-eq-none s)

  pub rfind_last :
      (c : Char) (a b : String)
      → code c ≡ k
      → contains k b ≡ false
      → rfind k (a ++ String.◌∷◌ c b) ≡ some (size a)
  unfolding rfind
  rfind_last c String.[] b e h =
      rw (nil-append (String.◌∷◌ c b)) (rw (rfind-eq-none b h) (ground arith))
  rfind_last c (String.◌∷◌ d a) b e h =
      rw (cons-append d a (String.◌∷◌ c b)) (rw (rfind_last c a b e h) refl)

pub erase_from_last :
    (c : Char) (a b : String)
    → erase_from (suc (size a)) (a ++ String.◌∷◌ c b) ≡ a ++ String.◌∷◌ c ""
unfolding erase_from
erase_from_last c String.[] b = rw (nil-append (String.◌∷◌ c b), nil-append (String.◌∷◌ c "")) refl
erase_from_last c (String.◌∷◌ d a) b =
    rw (cons-append d a (String.◌∷◌ c b), cons-append d a (String.◌∷◌ c ""))
      (ap (String.◌∷◌ d) (erase_from_last c a b))

pub size-append : (a b : String) → size (a ++ b) ≡ size a + size b
size-append String.[] b = rw (nil-append b) (omega arith)
size-append (String.◌∷◌ c a) b = rw (cons-append c a b) (omega (arith, size-append a b))

-- What is left is a prefix of what there was.
pub erase_from_prefix : (i : ℕ) (s : String) → (t : String) × (erase_from i s ++ t ≡ s)
unfolding erase_from
erase_from_prefix zero s = (s, nil-append s)
erase_from_prefix (suc i) String.[] = ("", nil-append "")
erase_from_prefix (suc i) (String.◌∷◌ c s) =
    let (t, e) = erase_from_prefix i s in
    (t, cons-append c (erase_from i s) t ∙ ap (String.◌∷◌ c) e)

pub contains-append : (k : ℕ) (a b : String) → contains k (a ++ b) ≡ (contains k a || contains k b)
contains-append k String.[] b = rw (nil-append b) refl
contains-append k (String.◌∷◌ c a) b =
    rw (cons-append c a b) (ground (arith, contains-append k a b))

pub contains-cons :
    (k : ℕ) (c : Char) (s : String)
    → contains k (String.◌∷◌ c s) ≡ false
    → ((code c == k) ≡ false) × (contains k s ≡ false)
contains-cons k c s h = (ground arith, ground arith)
