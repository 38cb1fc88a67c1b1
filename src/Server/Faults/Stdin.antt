-- ===== src/Server/Faults/Stdin.antt =====
-- `listen` when standard input is at its end: ::select reports it in every round.
use se3313a_lab.Base.{
  arith, ℕ, ◌≡◌, refl, ap, ◌∙◌, true, false, Option, some, List, [], ◌∷◌, done, mem, All,
}
use se3313a_lab.Boost.{Library}
use se3313a_lab.Net.FlexWaiter.{
  FlexWaiter, Answers, stdin_fileno, on_stdin, wait, dispatch, kill_event, hold_event, strip,
}
use se3313a_lab.Server.{Server}
use se3313a_lab.Server.Invariant.KillEvent.{waited}
use se3313a_lab.Net.World.{World}
use se3313a_lab.Net.FlexWaiter.Dispatch.{wait-dispatch}
use se3313a_lab.Server.Entry.Exit.{after, listen_alive}
use se3313a_lab.Server.Listen.{Round, listen, listen_round, notify, stdin_event}

module _ {Time : Type 0} where
  -- A round in which ::select reports standard input and not the kill event `k`, and ::read finds the
  -- end of standard input. Clients and new connections may be ready as well.
  pub record AtEnd (k : ℕ) (r : Round Time) : Type 0 where
    pub ready : List ℕ
    pub selected : r.answers.select ≡ some ready
    pub no_kill : mem k ready ≡ false
    pub stdin_ready : mem stdin_fileno ready ≡ true
    pub at_end : r.answers.stdin_read ≡ some ""

  -- Nobody was accepted, read from, or written to, nobody has left, and every socket object is as it
  -- was.
  pub record Idle (s s' : Server Time) : Type 0 where
    pub same_sockets : s'.sockets ≡ s.sockets
    pub same_queue : s'.message_queue ≡ s.message_queue
    pub same_heap : s'.world.heap ≡ s.world.heap
    pub same_next : s'.world.next ≡ s.world.next
    pub same_written : s'.world.written ≡ s.world.written
    pub same_killed : s'.killed ≡ s.killed
    pub same_waiter : s'.flex_waiter ≡ s.flex_waiter
    pub same_listener : s'.server_socket ≡ s.server_socket

  Idle-refl : (s : Server Time) → Idle s s
  Idle-refl s = record {
    same_sockets = refl;
    same_queue = refl;
    same_heap = refl;
    same_next = refl;
    same_written = refl;
    same_killed = refl;
    same_waiter = refl;
    same_listener = refl;
  }

  Idle-trans : {a b c : Server Time} → Idle a b → Idle b c → Idle a c
  Idle-trans x y = record {
    same_sockets = y.same_sockets ∙ x.same_sockets;
    same_queue = y.same_queue ∙ x.same_queue;
    same_heap = y.same_heap ∙ x.same_heap;
    same_next = y.same_next ∙ x.same_next;
    same_written = y.same_written ∙ x.same_written;
    same_killed = y.same_killed ∙ x.same_killed;
    same_waiter = y.same_waiter ∙ x.same_waiter;
    same_listener = y.same_listener ∙ x.same_listener;
  }

  Idle-waited :
      (k : ℕ) (s : Server Time)
      → s.flex_waiter.kill_event_fd ≡ some k
      → Idle s (waited s.flex_waiter s)
  unfolding hold_event
  Idle-waited k s e = record {
    same_sockets = refl;
    same_queue = refl;
    same_heap = rw e refl;
    same_next = rw e refl;
    same_written = rw e refl;
    same_killed = refl;
    same_waiter = refl;
    same_listener = refl;
  }

pub kill_event-held :
    (efd : Option ℕ) (k : ℕ) (w : FlexWaiter)
    → w.kill_event_fd ≡ some k
    → kill_event efd w ≡ done k w
unfolding kill_event
kill_event-held efd k w e = ground arith

dispatch_end :
    (order : List ℕ) (a : Answers) (k : ℕ) (ready : List ℕ) (net : World) (w : FlexWaiter)
    → mem k ready ≡ false
    → mem stdin_fileno ready ≡ true
    → a.stdin_read ≡ some ""
    → dispatch order a k ready net w ≡ done (on_stdin "") w
unfolding dispatch strip
dispatch_end order a k ready net w x y z = rw (x, y) (simp z)

module _ (L : Library) (order : List ℕ → List ℕ) where
  open L use {Time}

  wait-stdin_end :
      (k : ℕ) (r : Round Time) (w : FlexWaiter) (net : World) (ready : List ℕ)
      → w.kill_event_fd ≡ some k
      → r.answers.select ≡ some ready
      → mem k ready ≡ false
      → mem stdin_fileno ready ≡ true
      → r.answers.stdin_read ≡ some ""
      → wait order r.answers net w ≡ done (on_stdin "") w
  wait-stdin_end k r w net [] e s x y z = cc
  wait-stdin_end k r w net (fd ∷ fds) e s x y z =
      wait-dispatch order r.answers net w w k fd fds (kill_event-held r.answers.eventfd k w e) s
      ∙ dispatch_end (order w.sockets) r.answers k (fd ∷ fds) net w x y z

  round-AtEnd :
      (k : ℕ) (r : Round Time) (s : Server Time)
      → AtEnd k r
      → s.flex_waiter.kill_event_fd ≡ some k
      → listen_round L order r s ≡ done tt (waited s.flex_waiter s)
  unfolding listen_round notify stdin_event
  round-AtEnd k r s v e =
      rw
        (
          wait-stdin_end k r s.flex_waiter s.world v.ready e v.selected v.no_kill v.stdin_ready
              v.at_end,
          listen_round,
        )
        refl

  -- If the server is not killed and has its kill event, rounds of `listen` in which ::select
  -- reports standard input and not the kill event, and ::read finds the end of standard input,
  -- return, and leave the clients, the queue, the socket objects in use and what was written as
  -- they were, however many such rounds come and whoever else is ready: no connection is accepted
  -- and no client is read.
  pub stdin_end_starves :
      (k : ℕ) (rounds : List (Round Time)) (s : Server Time)
      → s.killed ≡ false
      → s.flex_waiter.kill_event_fd ≡ some k
      → All (AtEnd k) rounds
      → (s' : Server Time) × (listen L order rounds s ≡ done tt s') × Idle s s'
  unfolding listen
  stdin_end_starves k [] s alive e v = (s, refl, Idle-refl s)
  stdin_end_starves k (r ∷ rounds) s alive e (v, vs) =
      let (s', p, idle) = stdin_end_starves k rounds (waited s.flex_waiter s) alive e vs in
      (
        s',
        listen_alive L order r rounds s alive
            ∙ ap (after L order rounds) (round-AtEnd k r s v e)
            ∙ p,
        Idle-trans (Idle-waited k s e) idle,
      )
