-- ===== src/Base/Result.antt =====
-- Exceptions as values. `Except` is the result of a function that may throw and touches no state;
-- `Outcome` is the result of one that also changes a state, which a throw leaves as it stands then.
use Prim.Native.String.{String}
use mathlib.Core.Path.{◌≡◌, refl}
use mathlib.Core.Logic.{◌⊎◌, inl, inr, ◌≢◌}

-- What ends a call: an exception of the standard library or of Boost, or undefined behaviour.
pub data Fault : Type 0 where
  runtime_error : String → Fault
  json_parser_error : Fault
  ptree_bad_data : Fault
  ptree_bad_path : Fault
  null_dereference : Fault
  buffer_overread : Fault

pub data Except {ℓ} (A : Type ℓ) : Type ℓ where
  ok : A → Except A
  throw : Fault → Except A

infixl 5 ◌>>=◌ ◌>>◌
abbrev pub ◌>>=◌ {ℓ κ} : {A : Type ℓ} {B : Type κ} → Except A → (A → Except B) → Except B
ok a >>= f = f a
throw e >>= f = throw e

abbrev pub ◌>>◌ {ℓ} : {B : Type ℓ} → Except (Unit {0}) → Except B → Except B
m >> k = m >>= λ _. k

pub Except-cases {ℓ} :
    {A : Type ℓ} (m : Except A) → ((a : A) × (m ≡ ok a)) ⊎ ((e : Fault) × (m ≡ throw e))
Except-cases (ok a) = inl (a, refl)
Except-cases (throw e) = inr (e, refl)

pub data Outcome {ℓ} (S A : Type ℓ) : Type ℓ where
  done : A → S → Outcome S A
  thrown : Fault → S → Outcome S A

-- The state that a call leaves, also when it throws.
abbrev pub left {ℓ} : {S A : Type ℓ} → Outcome S A → S
left (done a s) = s
left (thrown e s) = s

pub Outcome-cases {ℓ} :
    {S A : Type ℓ} (o : Outcome S A)
    → ((a : A) × (s : S) × (o ≡ done a s)) ⊎ ((e : Fault) × (s : S) × (o ≡ thrown e s))
Outcome-cases (done a s) = inl (a, s, refl)
Outcome-cases (thrown e s) = inr (e, s, refl)

pub thrown-ne-done {ℓ} :
    {S A : Type ℓ} {f : Fault} {s s' : S} {a : A} → ◌≢◌ {A = Outcome S A} (thrown f s) (done a s')
thrown-ne-done e = cc
