-- ===== src/Server/Threads/Delivery/Answered.antt =====
-- Whose requests the errors that a client receives answer.
use se3313a_lab.Base.{
  String, ℕ, ◌≡◌, refl, sym, ap, ◌∙◌, ◌≢◌, subst, true, false, Bool, Option, none, some, List, [],
  ◌∷◌, ◌++◌, ◌==◌, if◌then◌else◌, All, mem, Outcome, done, thrown,
}
use se3313a_lab.Boost.{Library}
use se3313a_lab.Msg.AnyInstance.{AnyInstance}
use se3313a_lab.Net.World.{World, fd_of}
use se3313a_lab.Net.Socket.{read_vector}
use se3313a_lab.Net.FlexWaiter.{stdin_fileno}
use se3313a_lab.Net.FlexWaiter.Dispatch.{Iterates}
use se3313a_lab.Server.{Server, SocketCall, start, is_zero}
use se3313a_lab.Server.Clients.{handles}
use se3313a_lab.Server.Invariant.KillEvent.{waited}
use se3313a_lab.Server.Room.{Event, departed}
use se3313a_lab.Server.Threads.{
  MainAt, free, closing, heard, refusing, resting, hear, MainStep, waits, reads_line, reads_exit,
  stops, accepts, enters, hears, removes, replies, refuses, names, pushes, System, system, Step,
  main_steps, looks, begins, sends, clears, Run, here, follows,
}
use se3313a_lab.Server.Threads.Ends.Heard.{Replied, refused, named, pushed, reply-Replied}
use se3313a_lab.Server.Threads.Delivery.{texts_for, text_of, WholeRun, due, due_in}
use se3313a_lab.Server.Threads.Delivery.Client.{client_due}

-- The client whose connection the main thread has read last, if any.
abbrev Asked : {Time : Type 0} → Option ℕ → MainAt Time → Type 0
Asked last (heard h c text) = last ≡ some h
Asked last (refusing h c m) = last ≡ some h
Asked last _ = Unit {0}

-- whether that is the client `h`
abbrev pub is_last : Option ℕ → ℕ → Bool
is_last none h = false
is_last (some j) h = j == h

Replied-Asked : {Time : Type 0} (h : ℕ) (p : MainAt Time) → Replied h p → Asked (some h) p
Replied-Asked h _ refused = refl
Replied-Asked h _ named = tt
Replied-Asked h _ pushed = tt

module _ (L : Library) where
  open L use {Time}

  abbrev WhenAsked : ℕ → Outcome (Server Time) (MainAt Time) → Type 0
  WhenAsked h (thrown f s) = Unit {0}
  WhenAsked h (done p s) = Asked (some h) p

  hear-WhenAsked : (h : ℕ) (c : SocketCall Time) (s : Server Time) → WhenAsked h (hear L h c s)
  unfolding hear
  hear-WhenAsked h c s = read (read_vector c.received h "" s.world)
    where
      split :
          (b : Bool) (text : String) (w : World)
          → WhenAsked h (
              if b
              then done (closing h) (record s { world = w })
              else done (heard h c text) (record s { world = w }))
      split true text w = tt
      split false text w = refl

      read :
          (o : Outcome World (Option ℕ × String))
          → WhenAsked h (elim o [
            | thrown e w ↦ thrown e (record s { world = w })
            | done (n, text) w ↦
                if is_zero n
                then done (closing h) (record s { world = w })
                else done (heard h c text) (record s { world = w })
          ])
      read (thrown e w) = tt
      read (done (n, text) w) = split (is_zero n) text w

  module _ (order : List ℕ → List ℕ) where
    -- the client whose connection was read last, after a step
    abbrev last_main :
        {s s' : Server Time} {p p' : MainAt Time} {e : Event (AnyInstance Time)}
        → Option ℕ
        → MainStep L order s p e s' p'
        → Option ℕ
    last_main last (hears r w h s' p' k legal x y) = some h
    last_main last _ = last

    abbrev pub last_step :
        {t t' : System L} {e : Event (AnyInstance Time)} → Option ℕ → Step L order t e t' → Option ℕ
    last_step last (main_steps x g) = last_main last x
    last_step last _ = last

    abbrev pub last_read :
        {t t' : System L} {es : List (Event (AnyInstance Time))}
        → Option ℕ
        → Run L order t es t'
        → Option ℕ
    last_read last here = last
    last_read last (follows x run) = last_read (last_step last x) run

    -- What the client `h` is to receive by a step: every broadcast, and every error that is written
    -- while it is the client whose request was read last, whichever socket that error is written to.
    abbrev answer_main :
        {s s' : Server Time} {p p' : MainAt Time} {e : Event (AnyInstance Time)}
        → ℕ
        → Option ℕ
        → MainStep L order s p e s' p'
        → List String
    answer_main h last (refuses j c m n w y) = if is_last last h then text_of L m ∷ [] else []
    answer_main h last _ = []

    abbrev pub answer_step :
        {t t' : System L} {e : Event (AnyInstance Time)}
        → ℕ
        → Option ℕ
        → Step L order t e t'
        → List String
    answer_step h last (main_steps x g) = answer_main h last x
    answer_step h last (sends {m} writes w e) = text_of L m ∷ []
    answer_step h last _ = []

    abbrev pub answers_in :
        {t t' : System L} {es : List (Event (AnyInstance Time))}
        → ℕ
        → Option ℕ
        → Run L order t es t'
        → List String
    answers_in h last here = []
    answers_in h last (follows x run) = answer_step h last x ++ answers_in h (last_step last x) run

    MainStep-Asked :
        {s s' : Server Time} {p p' : MainAt Time} {e : Event (AnyInstance Time)} (last : Option ℕ)
        (x : MainStep L order s p e s' p')
        → Asked last p
        → Asked (last_main last x) p'
    MainStep-Asked {s} last (hears r w h s' p' k legal x y) a =
        subst (WhenAsked h) y (hear-WhenAsked h r.call (waited w s))
    MainStep-Asked {s} last (replies h c text s' p' y) a =
        subst (λ l. Asked l p') (sym a) (Replied-Asked h p' (reply-Replied L h c text s s' p' y).0)
    MainStep-Asked last (waits r w k legal x) a = tt
    MainStep-Asked last (reads_line r w line k legal x y) a = tt
    MainStep-Asked last (reads_exit r w line k legal x y) a = tt
    MainStep-Asked last stops a = tt
    MainStep-Asked last (accepts r w h net k legal x y) a = tt
    MainStep-Asked last (enters h) a = tt
    MainStep-Asked last (removes h) a = tt
    MainStep-Asked last (refuses h c m n w y) a = tt
    MainStep-Asked last (names h username m) a = tt
    MainStep-Asked last (pushes m) a = tt

    Step-Asked :
        {t t' : System L} {e : Event (AnyInstance Time)} (last : Option ℕ) (x : Step L order t e t')
        → Asked last t.main_at
        → Asked (last_step last x) t'.main_at
    Step-Asked last (main_steps x g) a = MainStep-Asked last x a
    Step-Asked last (looks k) a = a
    Step-Asked last begins a = a
    Step-Asked last (sends writes w e) a = a
    Step-Asked last clears a = a

    Run-Asked :
        {t t' : System L} {es : List (Event (AnyInstance Time))} (last : Option ℕ)
        (run : Run L order t es t')
        → Asked last t.main_at
        → Asked (last_read last run) t'.main_at
    Run-Asked last here a = a
    Run-Asked last (follows x run) a = Run-Asked (last_step last x) run (Step-Asked last x a)

    -- An error goes to the socket that was read last.
    answer_step-due :
        {t t' : System L} {e : Event (AnyInstance Time)} (h : ℕ) (last : Option ℕ)
        (x : Step L order t e t')
        → Asked last t.main_at
        → due L order h x ≡ answer_step h last x
    answer_step-due h last (main_steps (refuses j c m n w y) g) a =
        ap (λ l. if is_last l h then text_of L m ∷ [] else []) (sym a)
    answer_step-due h last (main_steps (hears r w j s' p' k legal x y) g) a = refl
    answer_step-due h last (main_steps (replies j c text s' p' y) g) a = refl
    answer_step-due h last (main_steps (waits r w k legal x) g) a = refl
    answer_step-due h last (main_steps (reads_line r w line k legal x y) g) a = refl
    answer_step-due h last (main_steps (reads_exit r w line k legal x y) g) a = refl
    answer_step-due h last (main_steps stops g) a = refl
    answer_step-due h last (main_steps (accepts r w j net k legal x y) g) a = refl
    answer_step-due h last (main_steps (enters j) g) a = refl
    answer_step-due h last (main_steps (removes j) g) a = refl
    answer_step-due h last (main_steps (names j username m) g) a = refl
    answer_step-due h last (main_steps (pushes m) g) a = refl
    answer_step-due h last (looks k) a = refl
    answer_step-due h last begins a = refl
    answer_step-due h last (sends writes w e) a = refl
    answer_step-due h last clears a = refl

    answers_in-due :
        {t t' : System L} {es : List (Event (AnyInstance Time))} (h : ℕ) (last : Option ℕ)
        (run : Run L order t es t')
        → Asked last t.main_at
        → due_in L order h run ≡ answers_in h last run
    answers_in-due h last here a = refl
    answers_in-due h last (follows x run) a =
        ap (λ (y : List String). y ++ due_in L order h run) (answer_step-due h last x a)
        ∙ ap (◌++◌ (answer_step h last x))
            (answers_in-due h (last_step last x) run (Step-Asked last x a))

    module _ (it : Iterates order) (port fd : ℕ) (errno : String) (w w' : World) (s : Server Time)
        (held : w.fds stdin_fileno ≡ true) (e : start port (some fd) true errno w ≡ done s w') where
      -- However the sections of a callback and the single broadcasts interleave, a client that is
      -- in the vector at one point and does not depart up to a later one, at which the server is
      -- not stopped, receives in between, whole, once and in their order, all messages that are
      -- broadcast, which are the same for every client, and every error that is written after its
      -- own connection was the last one that the main thread read, and nothing else, if the system
      -- takes whole what is written. It is given that both points are reached from the start of the
      -- server, that the process holds standard input at the start and that the iteration of a set
      -- visits its elements; what else the system may answer is part of the steps, which throw
      -- nothing.
      pub client_receives :
          (t t' : System L) (es es' : List (Event (AnyInstance Time)))
          → (before : Run L order (system L s free resting) es t) → (run : Run L order t es' t')
          → WholeRun L order run
          → t'.server.killed ≡ false
          → (h : ℕ) → mem h (handles t.server.sockets) ≡ true
          → All (λ e. e ≢ departed h) es'
          → texts_for (fd_of t.server.world h) t'.server.world.written
            ≡ texts_for (fd_of t.server.world h) t.server.world.written
              ++ answers_in h (last_read none before) run
      client_receives t t' es es' before run whole k h m stays =
          client_due L order it port fd errno w w' s held e t t' es es' before run whole k h m stays
          ∙ ap (◌++◌ (texts_for (fd_of t.server.world h) t.server.world.written))
              (answers_in-due h (last_read none before) run (Run-Asked none before tt))
