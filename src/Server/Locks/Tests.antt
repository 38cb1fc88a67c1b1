-- ===== src/Server/Locks/Tests.antt =====
-- A schedule in which the main thread queues a message, and the sender, holding the queue's mutex,
-- then waits for the sockets' mutex while the main thread looks up a username; and one in which the
-- server is stopped while the sender has that message to send.
use se3313a_lab.Base.{Bool, Option, refl, true, false, none, some, ◌⊎◌}
use se3313a_lab.Server.Locks.{
  Thread, main, sender, MainAt, SenderAt, waiting, MainGoes, SenderGoes, System, Reach, begun,
  later, main_steps, sender_steps, perform, checking, at_write, login_came, check, wake,
  next_message, message_came, enqueue, push_back, enqueued, at_stop,
}
use se3313a_lab.Server.Locks.Exclusion.{Exclusive, Reach-Exclusive}
use se3313a_lab.Server.Locks.Deadlock.{CanStep, Over, no_deadlock}

abbrev at_points : MainAt → SenderAt → Option Thread → Option Thread → Bool → System
at_points p r sockets queue killed = record {
  main_at = p;
  sender_at = r;
  shared = record { sockets_lock = sockets; queue_lock = queue; killed = killed; queued = 1 };
}

-- one message is queued, and the sender has woken up
queued-Reach : Reach (at_points waiting (at_write 0) none (some sender) false)
unfolding perform
queued-Reach =
    let goes = main_steps (MainGoes.go_on refl) refl refl in
    let pushed =
      later
        (later (later (later begun goes) (main_steps message_came refl refl))
          (main_steps enqueue refl refl))
        (main_steps push_back refl refl) in
    later
      (later
        (later
          (later (later pushed (main_steps enqueued refl refl))
            (main_steps (MainGoes.go_on refl) refl refl))
          (sender_steps (SenderGoes.go_on refl) refl refl))
        (sender_steps wake refl refl))
      (sender_steps (next_message 0) refl refl)

abbrev blocked : System
blocked = at_points checking (at_write 0) (some main) (some sender) false

blocked-Reach : Reach blocked
unfolding perform
blocked-Reach =
    later (later queued-Reach (main_steps login_came refl refl)) (main_steps check refl refl)

Reach-Exclusive_example : Exclusive blocked
Reach-Exclusive_example = Reach-Exclusive blocked blocked-Reach

no_deadlock_example : CanStep blocked ⊎ Over blocked
no_deadlock_example = no_deadlock blocked blocked-Reach refl refl

abbrev stopped_server : System
stopped_server = at_points at_stop (at_write 0) none (some sender) true
