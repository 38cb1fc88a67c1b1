-- ===== src/Server/Locks/Deadlock.antt =====
-- Freedom from deadlock.
use mathlib.Core.Bool.{false≢true}
use se3313a_lab.Base.{
  zero, suc, ◌≡◌, refl, ◌⊎◌, inl, inr, Bool, true, false, Option, none, some, sym, ◌∙◌, Bool-cases,
}
use se3313a_lab.Server.Locks.{
  Thread, main, sender, MainAt, SenderAt, Shared, perform, MainGoes, SenderGoes, System, Step,
  Reach, main_steps, sender_steps, looping, waiting, at_erase, erasing, at_check, checking,
  at_associate, associating, at_enqueue, enqueueing, at_accept, accepting, at_stop, stopping,
  returned, testing, sleeping, between, at_write, writing, ended, lock_sockets, lock_queue, erase,
  check, associate, enqueue, accept, stop, timed_out, erased, refused, associated, enqueued,
  push_back, pushed, swept, sweep, accepted_client, stopped, wake, next_message, write_all,
  written_all, cleared, threw, broken, main_threw, sender_threw,
}
use se3313a_lab.Server.Locks.Exclusion.{
  Owned, Exclusive, Reach-Exclusive, main_has_sockets, main_has_queue,
}

-- Both threads have left their loops.
abbrev pub Over : System → Type 0
Over s = (s.main_at ≡ returned) × (s.sender_at ≡ ended)

abbrev pub CanStep : System → Type 0
CanStep s = (s' : System) × Step s s'

abbrev at_points : MainAt → SenderAt → Shared → System
at_points p r s = record { main_at = p; sender_at = r; shared = s }

module _ (r : SenderAt) (s : Shared) (up : sender_threw r ≡ false) where
  -- A main thread in a section leaves it.
  main_leaves_sockets : (p : MainAt) → main_has_sockets p ≡ true → CanStep (at_points p r s)
  unfolding perform
  main_leaves_sockets erasing h = (_, main_steps erased refl up)
  main_leaves_sockets checking h = (_, main_steps refused refl up)
  main_leaves_sockets associating h = (_, main_steps associated refl up)
  main_leaves_sockets accepting h = (_, main_steps accepted_client refl up)
  main_leaves_sockets stopping h = (_, main_steps stopped refl up)
  main_leaves_sockets p h = cc

  main_leaves_queue : (p : MainAt) → main_has_queue p ≡ true → CanStep (at_points p r s)
  unfolding perform
  main_leaves_queue enqueueing h = (_, main_steps push_back refl up)
  main_leaves_queue pushed h = (_, main_steps enqueued refl up)
  main_leaves_queue p h = cc

lock_free :
    (t : Thread) (s : Shared)
    → s.sockets_lock ≡ none
    → perform t lock_sockets s ≡ some (record s { sockets_lock = some t })
unfolding perform
lock_free t s e = rw e refl

queue_free :
    (t : Thread) (s : Shared)
    → s.queue_lock ≡ none
    → perform t lock_queue s ≡ some (record s { queue_lock = some t })
unfolding perform
queue_free t s e = rw e refl

-- A lock that neither thread holds is free.
free : (o : Option Thread) (m n : Bool) → Owned o m n → m ≡ false → n ≡ false → o ≡ none
free none m n v a b = refl
free (some main) m n (x, y) a b = absurd (false≢true (sym a ∙ x))
free (some sender) m n (x, y) a b = absurd (false≢true (sym b ∙ y))

-- A lock that the sender does not hold is free, or the main thread holds it.
free_or_main : (o : Option Thread) (m n : Bool) → Owned o m n → n ≡ false → (o ≡ none) ⊎ (m ≡ true)
free_or_main none m n v b = inl refl
free_or_main (some main) m n (x, y) b = inr x
free_or_main (some sender) m n (x, y) b = absurd (false≢true (sym b ∙ y))

-- When the sender has ended, the main thread can step until it has returned.
main_alone :
    (p : MainAt) (s : Shared)
    → Exclusive (at_points p ended s)
    → main_threw p ≡ false
    → CanStep (at_points p ended s) ⊎ (p ≡ returned)
unfolding perform
main_alone looping s v m = elim (Bool-cases s.killed) [
  | inl e ↦ inl (_, main_steps (MainGoes.finish e) refl refl)
  | inr e ↦ inl (_, main_steps (MainGoes.go_on e) refl refl)
]
main_alone waiting s v m = inl (_, main_steps timed_out refl refl)
main_alone at_erase s v m =
    inl (_, main_steps erase (lock_free main s (free _ _ _ v.sockets refl refl)) refl)
main_alone at_check s v m =
    inl (_, main_steps check (lock_free main s (free _ _ _ v.sockets refl refl)) refl)
main_alone at_associate s v m =
    inl (_, main_steps associate (lock_free main s (free _ _ _ v.sockets refl refl)) refl)
main_alone at_accept s v m =
    inl (_, main_steps accept (lock_free main s (free _ _ _ v.sockets refl refl)) refl)
main_alone at_stop s v m =
    inl (_, main_steps stop (lock_free main s (free _ _ _ v.sockets refl refl)) refl)
main_alone at_enqueue s v m =
    inl (_, main_steps enqueue (queue_free main s (free _ _ _ v.queue refl refl)) refl)
main_alone enqueueing s v m = inl (main_leaves_queue ended s refl enqueueing refl)
main_alone pushed s v m = inl (main_leaves_queue ended s refl pushed refl)
main_alone returned s v m = inr refl
main_alone threw s v m = absurd (false≢true (sym m))
main_alone p s v m = inl (main_leaves_sockets ended s refl p refl)

steps :
    (p : MainAt) (r : SenderAt) (s : Shared)
    → Exclusive (at_points p r s)
    → main_threw p ≡ false
    → sender_threw r ≡ false
    → CanStep (at_points p r s) ⊎ Over (at_points p r s)
unfolding perform
steps p testing s v m u = elim (Bool-cases s.killed) [
  | inl e ↦ inl (_, sender_steps (SenderGoes.finish e) refl m)
  | inr e ↦ inl (_, sender_steps (SenderGoes.go_on e) refl m)
]
steps p sleeping s v m u = elim (free_or_main s.queue_lock _ _ v.queue refl) [
  | inl e ↦ inl (_, sender_steps wake (queue_free sender s e) m)
  | inr e ↦ inl (main_leaves_queue sleeping s refl p e)
]
steps p (between zero) s v m u = inl (_, sender_steps sweep refl m)
steps p swept s v m u = inl (_, sender_steps cleared refl m)
steps p (between (suc n)) s v m u = inl (_, sender_steps (next_message n) refl m)
steps p (at_write n) s v m u = elim (free_or_main s.sockets_lock _ _ v.sockets refl) [
  | inl e ↦ inl (_, sender_steps (write_all n) (lock_free sender s e) m)
  | inr e ↦ inl (main_leaves_sockets (at_write n) s refl p e)
]
steps p (writing n) s v m u = inl (_, sender_steps (written_all n) refl m)
steps p ended s v m u = elim (main_alone p s v m) [ inl step ↦ inl step | inr e ↦ inr (e, refl) ]
steps p broken s v m u = absurd (false≢true (sym u))

-- In every state that the two threads reach from the start of the server, however their steps
-- interleave, one of them can make a step, or both have left their loops, unless one has thrown,
-- which ends the process.
pub no_deadlock :
    (s : System)
    → Reach s
    → main_threw s.main_at ≡ false
    → sender_threw s.sender_at ≡ false
    → CanStep s ⊎ Over s
no_deadlock s reach = steps s.main_at s.sender_at s.shared (Reach-Exclusive s reach)
