-- ===== src/Net/FlexWaiter/Keeps.antt =====
-- What a wait changes in the waiter: the kill event.
use se3313a_lab.Base.{
  Outcome-cases, Fault, runtime_error, ◌≢◌, ℕ, ◌≡◌, refl, sym, ap, ◌∙◌, false, Option, none, some,
  List, [], ◌∷◌, Outcome, done, thrown, arith, inl, inr, ◌⊎◌, Option-cases,
}
use se3313a_lab.Net.World.{World}
use se3313a_lab.Net.FlexWaiter.Dispatch.{wait-timeout, wait-dispatch}
use se3313a_lab.Net.FlexWaiter.{FlexWaiter, Activity, nothing, Answers, dispatch, kill_event, wait}

-- The descriptor of the kill event is the one of before, or ::eventfd has just made it.
pub kill_event-cases :
    (efd : Option ℕ) (w w' : FlexWaiter) (k : ℕ)
    → kill_event efd w ≡ done k w'
    → ((w.kill_event_fd ≡ some k) × (w ≡ w'))
      ⊎ ((w.kill_event_fd ≡ none) × (efd ≡ some k) × (record w { kill_event_fd = some k } ≡ w'))
unfolding kill_event
kill_event-cases efd w w' k e = ground arith

pub kill_event-rest :
    (efd : Option ℕ) (w w' : FlexWaiter) (k : ℕ)
    → kill_event efd w ≡ done k w'
    → (w.sockets ≡ w'.sockets) × (w.master ≡ w'.master)
kill_event-rest efd w w' k e = elim (kill_event-cases efd w w' k e) [
  | inl (_, same) ↦ (ap (λ x. x.sockets) same, ap (λ x. x.master) same)
  | inr (_, _, made) ↦ (ap (λ x. x.sockets) made, ap (λ x. x.master) made)
]

-- Beside that a wait changes at most whether a signal is waiting.
abbrev pub Calmed : FlexWaiter → FlexWaiter → Type 0
Calmed w w' = (w ≡ w') ⊎ (record w { signalled = false } ≡ w')

dispatch-Calmed :
    (order : List ℕ) (a : Answers) (k : ℕ) (ready : List ℕ) (net : World) (w w' : FlexWaiter)
    (act : Activity)
    → dispatch order a k ready net w ≡ done act w'
    → Calmed w w'
unfolding dispatch
dispatch-Calmed order a k ready net w w' act e = ground arith

pub wait-Calmed :
    (order : List ℕ → List ℕ) (a : Answers) (net : World) (w w' : FlexWaiter) (act : Activity)
    → wait order a net w ≡ done act w'
    → (k : ℕ) × (v : FlexWaiter) × (ready : List ℕ) × (kill_event a.eventfd w ≡ done k v)
      × (a.select ≡ some ready)
      × Calmed v w'
unfolding wait
wait-Calmed order a net w w' act e = elim (Outcome-cases (kill_event a.eventfd w)) [
  | inr (f, v, p) ↦ absurd (thrown-ne f v (sym (wait-thrown f v p) ∙ e))
  | inl (k, v, p) ↦ elim (Option-cases a.select) [
    | inl q ↦ absurd (
        thrown-ne (runtime_error "Unexpected error in synchronization object") v
          (sym (wait-failed k v p q) ∙ e))
    | inr (ready, q) ↦ (k, v, ready, p, q, calmed k v ready p q)
  ]
]
  where
    thrown-ne :
        (f : Fault) (v : FlexWaiter)
        → ◌≢◌ {A = Outcome FlexWaiter Activity} (thrown f v) (done act w')
    thrown-ne f v q = cc

    wait-thrown :
        (f : Fault) (v : FlexWaiter)
        → kill_event a.eventfd w ≡ thrown f v
        → wait order a net w ≡ thrown f v
    wait-thrown f v p = rw (p, wait) refl

    wait-failed :
        (k : ℕ) (v : FlexWaiter)
        → kill_event a.eventfd w ≡ done k v
        → a.select ≡ none
        → wait order a net w ≡ thrown (runtime_error "Unexpected error in synchronization object") v
    wait-failed k v p q = rw (p, wait) (rw q refl)

    quiet :
        (v : FlexWaiter)
        → ◌≡◌ {A = Outcome FlexWaiter Activity} (done nothing v) (done act w')
        → v ≡ w'
    quiet v q = cc

    calmed :
        (k : ℕ) (v : FlexWaiter) (ready : List ℕ)
        → kill_event a.eventfd w ≡ done k v
        → a.select ≡ some ready
        → Calmed v w'
    calmed k v [] p q = inl (quiet v (sym (wait-timeout order a net w v k p q) ∙ e))
    calmed k v (fd ∷ fds) p q =
        dispatch-Calmed (order v.sockets) a k (fd ∷ fds) net v w' act
          (sym (wait-dispatch order a net w v k fd fds p q) ∙ e)
