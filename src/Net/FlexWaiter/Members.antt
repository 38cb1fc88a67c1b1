-- ===== src/Net/FlexWaiter/Members.antt =====
-- The set of sockets of a waiter under insertion and removal.
use se3313a_lab.Base.{
  ℕ, ◌≡◌, refl, sym, ap, ◌∙◌, true, false, Option, List, [], ◌∷◌, ◌==◌, ◌||◌, ==_iff, if◌then◌else◌,
  arith, Bool-cases, inl, inr, mem,
}
use se3313a_lab.Net.FlexWaiter.{
  FlexWaiter, waiter, waiter_of, add_all, remove_socket, add_socket, without,
}

mem-without : (h j : ℕ) (js : List ℕ) → mem j (without h js) ≡ (if j == h then false else mem j js)
mem-without h j [] = ground arith
mem-without h j (i ∷ js) = ground (arith, mem-without h j js)

pub mem-remove_socket :
    (h j : ℕ) (w : FlexWaiter)
    → mem j (remove_socket h w).sockets ≡ (if j == h then false else mem j w.sockets)
unfolding remove_socket
mem-remove_socket h j w = elim (Bool-cases (mem h w.sockets)) [
  | inl e ↦ rw e (mem-without h j w.sockets)
  | inr e ↦ rw e (ground (arith, e))
]

add_present : (h j : ℕ) (js : List ℕ) → mem h js ≡ true → mem j js ≡ ((h == j) || mem j js)
add_present h j js m = elim (Bool-cases (h == j)) [
  | inl e ↦ rw e (ap (λ i. mem i js) (sym ((==_iff h j).0 e)) ∙ m)
  | inr e ↦ rw e refl
]

pub mem-add_socket :
    (h j : ℕ) (w : FlexWaiter) → mem j (add_socket h w).sockets ≡ ((h == j) || mem j w.sockets)
unfolding add_socket
mem-add_socket h j w = elim (Bool-cases (mem h w.sockets)) [
  | inl e ↦ rw e (add_present h j w.sockets e)
  | inr e ↦ rw e refl
]

mem-add_all :
    (hs : List ℕ) (j : ℕ) (w : FlexWaiter)
    → mem j (add_all hs w).sockets ≡ (mem j hs || mem j w.sockets)
unfolding add_all
mem-add_all [] j w = refl
mem-add_all (h ∷ hs) j w =
    mem-add_all hs j (add_socket h w)
    ∙ ap (λ b. mem j hs || b) (mem-add_socket h j w)
    ∙ ground arith

-- A waiter made from sockets watches those and no others.
pub mem-waiter_of :
    (master : Option ℕ) (hs : List ℕ) (j : ℕ) → mem j (waiter_of master hs).sockets ≡ mem j hs
unfolding waiter_of
mem-waiter_of master hs j = mem-add_all hs j (waiter master) ∙ ground arith
