-- ===== src/Server/Entry.antt =====
-- server/server/src/main.cpp, and the destructors at the end of the program.
pub mod Exit
pub mod Release
pub mod Tests
use se3313a_lab.Base.{
  String, ℕ, Bool, true, false, Option, none, some, List, [], ◌∷◌, if◌then◌else◌, Outcome, done,
  thrown, mem,
}
use se3313a_lab.Boost.{Library}
use se3313a_lab.Net.World.{World}
use se3313a_lab.Net.Socket
use se3313a_lab.Net.FlexWaiter
use se3313a_lab.Net.FlexWaiter.{FlexWaiter}
use se3313a_lab.Server.{Server, Writes, start, send_messages}
use se3313a_lab.Server.Clients.{Client}
use se3313a_lab.Server.Listen.{Round, listen_round}

-- The sockets of the vector that the waiter's set does not hold too: their objects end with it.
unfoldable pub destroy_clients : FlexWaiter → List Client → World → World
destroy_clients w [] net = net
destroy_clients w ((h, name) ∷ cs) net =
    destroy_clients w cs (if mem h w.sockets then net else Socket.destroy h net)

-- The objects of the waiter's set.
unfoldable pub destroy_sockets : List ℕ → World → World
destroy_sockets [] net = net
destroy_sockets (h ∷ hs) net = destroy_sockets hs (Socket.destroy h net)

-- `~server()` and the members that end with it: the vector, and the waiter with its kill event and
-- then its set. The listening socket is shut down once more, and its descriptor is not closed.
unfoldable pub destroy_server : {Time : Type 0} → Server Time → World
unfolding destroy_clients destroy_sockets
destroy_server s =
    destroy_sockets s.flex_waiter.sockets
      (FlexWaiter.destroy s.flex_waiter (destroy_clients s.flex_waiter s.sockets s.world))

-- A turn of one of the two threads: a round of `listen`, the test of `killed` in `sendMessages`, or
-- a round of it once it has slept. What ::write answers is part of the last.
pub data Turn (Time : Type 0) : Type 0 where
  listens : Round Time → Turn Time
  tests : Turn Time
  sends : Writes → Turn Time

module _ (L : Library) (order : List ℕ → List ℕ) where
  open L use {Time}

  -- The two threads that `start` leaves, over the turns that the scheduler and the environment grant;
  -- `asleep` tells that the sender has found `killed` not set and is to send next. The results are
  -- whether `listen` has returned, and `asleep`. An exception of either thread ends the process.
  unfoldable pub run : Bool → List (Turn Time) → Server Time → Outcome (Server Time) (Bool × Bool)
  run asleep [] s = done (false, asleep) s
  run asleep (listens r ∷ turns) s =
      if s.killed then done (true, asleep) s else elim (listen_round L order r s) [
        | thrown e s' ↦ thrown e s'
        | done _ s' ↦ run asleep turns s'
      ]
  run true (tests ∷ turns) s = run true turns s
  run false (tests ∷ turns) s = run (if s.killed then false else true) turns s
  run true (sends writes ∷ turns) s = elim (send_messages L writes s) [
    | thrown e s' ↦ thrown e s'
    | done _ s' ↦ run false turns s'
  ]
  run false (sends writes ∷ turns) s = run false turns s

  -- `main` once `listen` has returned, or the turns are used up or a thread has thrown: its exit
  -- status, or none while it goes on; before it returns, the server is destroyed
  abbrev pub status : Outcome (Server Time) (Bool × Bool) → Outcome World (Option ℕ)
  status (thrown e s) = thrown e s.world
  status (done (returned, asleep) s) =
      if returned then done (some 0) (destroy_server s) else done none s.world

  -- `main`, from the port that it reads, the answers of ::socket and ::bind, and the turns of the
  -- main thread and of the sender thread that `start` makes
  unfoldable pub main :
      ℕ → Option ℕ → Bool → String → List (Turn Time) → World → Outcome World (Option ℕ)
  unfolding run
  main port made bound errno turns w = elim (start port made bound errno w) [
    | thrown e w' ↦ thrown e w'
    | done srv w' ↦ status (run false turns srv)
  ]
