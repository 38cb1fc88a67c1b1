-- ===== src/Server/Locks/Exclusion.antt =====
-- Mutual exclusion.
use se3313a_lab.Base.{ℕ, ◌≡◌, refl, Bool, true, false, Option, none, some, arith}
use se3313a_lab.Server.Locks.{
  Thread, main, sender, MainAt, SenderAt, Op, Shared, perform, MainGoes, SenderGoes, System, Step,
  Reach, main_steps, sender_steps, begun, later, erasing, checking, associating, enqueueing, pushed,
  swept, broken, accepting, stopping, between, at_write, writing, shut, wake,
}

-- Which locks a thread holds where it stands; a thread that has thrown with a lock has it still.
abbrev pub main_has_sockets : MainAt → Bool
main_has_sockets erasing = true
main_has_sockets checking = true
main_has_sockets associating = true
main_has_sockets accepting = true
main_has_sockets stopping = true
main_has_sockets _ = false

abbrev pub main_has_queue : MainAt → Bool
main_has_queue enqueueing = true
main_has_queue pushed = true
main_has_queue _ = false

abbrev pub sender_has_sockets : SenderAt → Bool
sender_has_sockets (writing n) = true
sender_has_sockets broken = true
sender_has_sockets _ = false

abbrev pub sender_has_queue : SenderAt → Bool
sender_has_queue (between n) = true
sender_has_queue (at_write n) = true
sender_has_queue (writing n) = true
sender_has_queue swept = true
sender_has_queue broken = true
sender_has_queue _ = false

-- The owner of a lock is the one thread that holds it, given whether each does.
abbrev pub Owned : Option Thread → Bool → Bool → Type 0
Owned none m s = (m ≡ false) × (s ≡ false)
Owned (some main) m s = (m ≡ true) × (s ≡ false)
Owned (some sender) m s = (m ≡ false) × (s ≡ true)

pub record Exclusive (s : System) : Type 0 where
  pub sockets :
      Owned s.shared.sockets_lock (main_has_sockets s.main_at) (sender_has_sockets s.sender_at)
  pub queue : Owned s.shared.queue_lock (main_has_queue s.main_at) (sender_has_queue s.sender_at)

module _ (s s' : Shared) where
  sockets_main :
      {k : Bool} {p p' : MainAt} {o : Op} (r : SenderAt)
      → MainGoes k p o p'
      → perform main o s ≡ some s'
      → Owned s.sockets_lock (main_has_sockets p) (sender_has_sockets r)
      → Owned s'.sockets_lock (main_has_sockets p') (sender_has_sockets r)
  unfolding perform
  sockets_main r shut e v = ground arith
  sockets_main r g e v = ground arith

  queue_main :
      {k : Bool} {p p' : MainAt} {o : Op} (r : SenderAt)
      → MainGoes k p o p'
      → perform main o s ≡ some s'
      → Owned s.queue_lock (main_has_queue p) (sender_has_queue r)
      → Owned s'.queue_lock (main_has_queue p') (sender_has_queue r)
  unfolding perform
  queue_main r shut e v = ground arith
  queue_main r g e v = ground arith

  sockets_sender :
      {k : Bool} {c : ℕ} {r r' : SenderAt} {o : Op} (p : MainAt)
      → SenderGoes k c r o r'
      → perform sender o s ≡ some s'
      → Owned s.sockets_lock (main_has_sockets p) (sender_has_sockets r)
      → Owned s'.sockets_lock (main_has_sockets p) (sender_has_sockets r')
  unfolding perform
  sockets_sender p wake e v = ground arith
  sockets_sender p g e v = ground arith

  queue_sender :
      {k : Bool} {c : ℕ} {r r' : SenderAt} {o : Op} (p : MainAt)
      → SenderGoes k c r o r'
      → perform sender o s ≡ some s'
      → Owned s.queue_lock (main_has_queue p) (sender_has_queue r)
      → Owned s'.queue_lock (main_has_queue p) (sender_has_queue r')
  unfolding perform
  queue_sender p wake e v = ground arith
  queue_sender p g e v = ground arith

Exclusive-Step : {s s' : System} → Step s s' → Exclusive s → Exclusive s'
Exclusive-Step (main_steps {p} {p'} {r} {s} {s'} g e up) v = record {
  sockets = sockets_main s s' r g e v.sockets;
  queue = queue_main s s' r g e v.queue;
}
Exclusive-Step (sender_steps {p} {r} {r'} {s} {s'} g e up) v = record {
  sockets = sockets_sender s s' p g e v.sockets;
  queue = queue_sender s s' p g e v.queue;
}

-- In every state that the two threads reach from the start of the server, however their steps
-- interleave, each mutex is owned by the one thread that stands in a section which it guards, and
-- by none if neither does: the two are never in sections of one mutex at once.
pub Reach-Exclusive : (s : System) → Reach s → Exclusive s
Reach-Exclusive _ begun = record { sockets = (refl, refl); queue = (refl, refl) }
Reach-Exclusive _ (later {s} reach step) = Exclusive-Step step (Reach-Exclusive s reach)
