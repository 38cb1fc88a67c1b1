-- ===== src/Server/Entry/Exit.antt =====
-- The program on the line "exit".
use se3313a_lab.Base.{
  String, ℕ, Bool, Fault, ◌≢◌, true, false, ◌≡◌, refl, sym, ap, ◌∙◌, some, List, [], ◌∷◌, ◌++◌,
  if◌then◌else◌, Outcome, done, thrown, All, Bool-cases, inl, inr, Outcome-cases,
}
use se3313a_lab.Boost.{Library}
use se3313a_lab.Net.World.{World, open_at}
use se3313a_lab.Net.FlexWaiter.{FlexWaiter, on_stdin, wait}
use se3313a_lab.Server.{Server, Writes, start, send_messages}
use se3313a_lab.Server.Clients.{Client, handles}
use se3313a_lab.Server.Entry.{Turn, listens, tests, sends, run, main, status, destroy_server}
use se3313a_lab.Msg.AnyInstance.{AnyInstance}
use se3313a_lab.Server.Faults.{stop_then_send}
use se3313a_lab.Server.Entry.Release.{stop-closed}
use se3313a_lab.Server.Invariant.KillEvent.{waited}
use se3313a_lab.Server.Listen.{Round, listen, listen_round, notify, stop, stdin_event}

module _ (L : Library) (order : List ℕ → List ℕ) where
  open L use {Time}

  -- the rounds after one
  abbrev pub after :
      List (Round Time) → Outcome (Server Time) (Unit {0}) → Outcome (Server Time) (Unit {0})
  after rs (thrown e s) = thrown e s
  after rs (done _ s) = listen L order rs s

  pub listen_alive :
      (r : Round Time) (rs : List (Round Time)) (s : Server Time)
      → s.killed ≡ false
      → listen L order (r ∷ rs) s ≡ after rs (listen_round L order r s)
  unfolding listen
  listen_alive r rs s k = ap (λ b. if b then done tt s else after rs (listen_round L order r s)) k

  exit_round :
      (r : Round Time) (s : Server Time) (w : FlexWaiter)
      → wait order r.answers s.world s.flex_waiter ≡ done (on_stdin "exit") w
      → listen_round L order r s ≡ done tt (stop (waited w s))
  unfolding listen_round notify stdin_event
  exit_round r s w e = rw (e, listen_round) refl

  module _ (asleep : Bool) (turns : List (Turn Time)) where
    -- the turns after a round of `listen`
    abbrev on_listen : Outcome (Server Time) (Unit {0}) → Outcome (Server Time) (Bool × Bool)
    on_listen (thrown e s) = thrown e s
    on_listen (done _ s) = run L order asleep turns s

    run_alive :
        (r : Round Time) (s : Server Time)
        → s.killed ≡ false
        → run L order asleep (listens r ∷ turns) s ≡ on_listen (listen_round L order r s)
    unfolding run
    run_alive r s k =
        ap (λ b. if b then done (true, asleep) s else on_listen (listen_round L order r s)) k

    run_killed :
        (r : Round Time) (s : Server Time)
        → s.killed ≡ true
        → run L order asleep (listens r ∷ turns) s ≡ done (true, asleep) s
    unfolding run
    run_killed r s k =
        ap (λ b. if b then done (true, asleep) s else on_listen (listen_round L order r s)) k

  -- the turns after a round of `sendMessages`
  abbrev on_send :
      List (Turn Time) → Outcome (Server Time) (Unit {0}) → Outcome (Server Time) (Bool × Bool)
  on_send turns (thrown e s) = thrown e s
  on_send turns (done _ s) = run L order false turns s

  run_asleep :
      (writes : Writes) (turns : List (Turn Time)) (s : Server Time)
      → run L order true (sends writes ∷ turns) s ≡ on_send turns (send_messages L writes s)
  unfolding run
  run_asleep writes turns s = split (send_messages L writes s)
    where
      split :
          (o : Outcome (Server Time) (Unit {0}))
          → elim o [ thrown e s' ↦ thrown e s' | done _ s' ↦ run L order false turns s' ]
            ≡ on_send turns o
      split (thrown e s') = refl
      split (done _ s') = refl

  returned-ne :
      (a b : Bool) (s s' : Server Time)
      → ◌≢◌ {A = Outcome (Server Time) (Bool × Bool)} (done (true, a) s) (done (false, b) s')
  returned-ne a b s s' e = cc

  threw-ne :
      (f : Fault) (b : Bool) (s s' : Server Time)
      → ◌≢◌ {A = Outcome (Server Time) (Bool × Bool)} (thrown f s) (done (false, b) s')
  threw-ne f b s s' e = cc

  -- where the threads stand after turns that have not ended `listen`
  go_on :
      (turns : List (Turn Time))
      → Outcome (Server Time) (Bool × Bool)
      → Outcome (Server Time) (Bool × Bool)
  unfolding run
  go_on turns (thrown e s) = thrown e s
  go_on turns (done (returned, a) s) = run L order a turns s

  -- More turns go on from where the first ones end.
  run-append :
      (a b : Bool) (turns more : List (Turn Time)) (s s' : Server Time)
      → run L order a turns s ≡ done (false, b) s'
      → run L order a (turns ++ more) s ≡ run L order b more s'
  unfolding run go_on
  run-append a b [] more s s' e = ap (go_on more) e
  run-append a b (listens r ∷ turns) more s s' e = elim (Bool-cases s.killed) [
    | inl k ↦ absurd (returned-ne a b s s' (sym (run_killed a turns r s k) ∙ e))
    | inr k ↦ elim (Outcome-cases (listen_round L order r s)) [
      | inl (_, s1, p) ↦
          run_alive a (turns ++ more) r s k
          ∙ ap (on_listen a (turns ++ more)) p
          ∙ run-append a b turns more s1 s'
              (sym (run_alive a turns r s k ∙ ap (on_listen a turns) p) ∙ e)
      | inr (f, s1, p) ↦
          absurd (threw-ne f b s1 s' (sym (run_alive a turns r s k ∙ ap (on_listen a turns) p) ∙ e))
    ]
  ]
  run-append true b (tests ∷ turns) more s s' e = run-append true b turns more s s' e
  run-append false b (tests ∷ turns) more s s' e =
      run-append (if s.killed then false else true) b turns more s s' e
  run-append false b (sends writes ∷ turns) more s s' e = run-append false b turns more s s' e
  run-append true b (sends writes ∷ turns) more s s' e =
      elim (Outcome-cases (send_messages L writes s)) [
        | inl (_, s1, p) ↦
            run_asleep writes (turns ++ more) s
            ∙ ap (on_send (turns ++ more)) p
            ∙ run-append false b turns more s1 s'
                (sym (run_asleep writes turns s ∙ ap (on_send turns) p) ∙ e)
        | inr (f, s1, p) ↦
            absurd (threw-ne f b s1 s' (sym (run_asleep writes turns s ∙ ap (on_send turns) p) ∙ e))
      ]

  module _ (port fd : ℕ) (errno : String) (v v' : World) (s s' : Server Time)
      (turns : List (Turn Time)) (asleep : Bool) (r : Round Time) (w : FlexWaiter)
      (started : start port (some fd) true errno v ≡ done s v')
      (ran : run L order false turns s ≡ done (false, asleep) s') (alive : s'.killed ≡ false)
      (exit : wait order r.answers s'.world s'.flex_waiter ≡ done (on_stdin "exit") w) where
    exited :
        (more : List (Turn Time))
        → main L order port (some fd) true errno (turns ++ listens r ∷ more) v
          ≡ status L order (run L order asleep more (stop (waited w s')))
    unfolding main
    exited more =
        rw (started, main)
          (ap (status L order) (
            run-append false asleep turns (listens r ∷ more) s s' ran
            ∙ run_alive asleep more r s' alive
            ∙ ap (on_listen asleep more) (exit_round r s' w exit)))

    -- If the server starts, some turns of the two threads leave it running and the wait of the next
    -- round reads the line "exit" from standard input, and the main thread is the next to go on,
    -- `main` returns 0 after the destructors, whatever turns would still come; the sockets of all
    -- clients are closed then.
    pub exit_ends :
        (next : Round Time) (more : List (Turn Time))
        → (main L order port (some fd) true errno (turns ++ listens r ∷ listens next ∷ more) v
            ≡ done (some 0) (destroy_server (stop (waited w s'))))
          × All (λ h. open_at (destroy_server (stop (waited w s'))) h ≡ false) (handles s'.sockets)
    unfolding stop
    exit_ends next more = (
      exited (listens next ∷ more)
          ∙ ap (status L order) (run_killed asleep more next (stop (waited w s')) refl),
      stop-closed (waited w s'),
    )

    -- If the server starts, some turns of the two threads leave it running with the sender asleep, a
    -- client connected and a message queued, the wait of the next round reads the line "exit" from
    -- standard input, and the sender is the next to go on, it throws on a socket that `stop` has
    -- closed, which ends the process: `main` does not return, whatever turns would still come.
    pub exit_aborts :
        (writes : Writes) (more : List (Turn Time)) (m : AnyInstance Time)
        (ms : List (AnyInstance Time)) (c : Client) (cs : List Client)
        → asleep ≡ true
        → s'.message_queue ≡ m ∷ ms
        → s'.sockets ≡ c ∷ cs
        → (e : Fault) × (v'' : World) × (main L order port
              (some fd)
              true
              errno
              (turns ++ listens r ∷ sends writes ∷ more)
              v
            ≡ thrown e v'')
    exit_aborts writes more m ms c cs a q k =
        let (_, _, _, (e, s2, p)) = stop_then_send L writes (waited w s') m ms c cs q k in
        (
          e,
          s2.world,
          exited (sends writes ∷ more)
              ∙ ap (λ b. status L order (run L order b (sends writes ∷ more) (stop (waited w s'))))
                  a
              ∙ ap (status L order)
                  (run_asleep writes more (stop (waited w s')) ∙ ap (on_send more) p),
        )
