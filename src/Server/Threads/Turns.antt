-- ===== src/Server/Threads/Turns.antt =====
-- How many steps of the sender a broadcast takes, whatever the main thread does in between.
use se3313a_lab.Base.{
  String, ℕ, ◌+◌, ◌-◌, ◌≤◌, ◌≡◌, refl, ap, true, some, List, [], ◌∷◌, ◌++◌, length, length-append,
  arith, done,
}
use se3313a_lab.Boost.{Library}
use se3313a_lab.Msg.AnyInstance.{AnyInstance}
use se3313a_lab.Net.World.{World}
use se3313a_lab.Net.FlexWaiter.{stdin_fileno}
use se3313a_lab.Net.FlexWaiter.Dispatch.{Iterates}
use se3313a_lab.Server.{Server, start}
use se3313a_lab.Server.Room.{Event, quiet, entered, departed, named, announced, broadcast}
use se3313a_lab.Server.Room.Fifo.{announcements, broadcasts, Fifo-RoomRun}
use se3313a_lab.Server.Threads.{
  SenderAt, free, resting, sleeping, sending, System, system, Step, main_steps, looks, begins,
  sends, clears, Run, here, follows,
}
use se3313a_lab.Server.Threads.Good.{Good, Step-Good, Run-Good}
use se3313a_lab.Server.Threads.Refines.{pending_of, Run-RoomRun}
use se3313a_lab.Server.Threads.Runs.{started-Good}
use se3313a_lab.Server.Threads.Settled.{announces}

broadcasts-cons :
    {Message : Type 0} (e : Event Message) (es : List (Event Message))
    → length (broadcasts (e ∷ es)) ≡ length (broadcasts (e ∷ [])) + length (broadcasts es)
broadcasts-cons quiet es = omega arith
broadcasts-cons (entered h) es = omega arith
broadcasts-cons (departed h) es = omega arith
broadcasts-cons (named h name) es = omega arith
broadcasts-cons (announced m) es = omega arith
broadcasts-cons (broadcast m) es = omega arith

-- A list that is long enough begins with the other.
begins_with :
    {A : Type 0} (xs ys us vs : List A)
    → xs ++ ys ≡ us ++ vs
    → length xs ≤ length us
    → (rest : List A) × (us ≡ xs ++ rest)
begins_with [] ys us vs e l = (us, refl)
begins_with (x ∷ xs) ys [] vs e l = absurd (omega (arith, l))
begins_with (x ∷ xs) ys (u ∷ us) vs e l =
    let tail : xs ++ ys ≡ us ++ vs = cc in
    let (rest, p) = begins_with xs ys us vs tail (omega (arith, l)) in (rest, cc)

module _ (L : Library) (order : List ℕ → List ℕ) where
  open L use {Time}

  -- the steps of the sender in a run
  abbrev turn : {t t' : System L} {e : Event (AnyInstance Time)} → Step L order t e t' → ℕ
  turn (main_steps x g) = 0
  turn (looks k) = 1
  turn begins = 1
  turn (sends writes w e) = 1
  turn clears = 1

  abbrev pub turns :
      {t t' : System L} {es : List (Event (AnyInstance Time))} → Run L order t es t' → ℕ
  turns here = 0
  turns (follows x run) = turn x + turns run

module _ (L : Library) (order : List ℕ → List ℕ) (it : Iterates order) where
  open L use {Time}

  -- its steps before it sends
  abbrev before_round : SenderAt Time → ℕ
  before_round resting = 2
  before_round sleeping = 1
  before_round (sending ms) = 0

  Run-pending :
      {t t' : System L} {es : List (Event (AnyInstance Time))}
      → Run L order t es t'
      → Good L order t
      → pending_of t.sender_at t.server ++ announcements es
        ≡ broadcasts es ++ pending_of t'.sender_at t'.server
  Run-pending run g = Fifo-RoomRun announces (Run-RoomRun L order it run g)

  Step-pending :
      {t t' : System L} {e : Event (AnyInstance Time)}
      → Step L order t e t'
      → Good L order t
      → length (pending_of t.sender_at t.server)
        ≤ length (broadcasts (e ∷ [])) + length (pending_of t'.sender_at t'.server)
  Step-pending {t} {t'} {e} x g = omega (
    arith,
    ap length (Run-pending (follows x here) g),
    length-append (pending_of t.sender_at t.server) (announcements (e ∷ [])),
    length-append (broadcasts (e ∷ [])) (pending_of t'.sender_at t'.server),
  )

  turns-broadcasts :
      {t t' : System L} {es : List (Event (AnyInstance Time))} (run : Run L order t es t')
      → Good L order t
      → (k : ℕ) → k ≤ length (pending_of t.sender_at t.server)
      → before_round t.sender_at + k ≤ turns L order run
      → k ≤ length (broadcasts es)
  turns-broadcasts here g k l n = omega (arith, n)
  turns-broadcasts (follows {t' = u} {e} {es} (main_steps x m) run) g k l n =
      let b = length (broadcasts (e ∷ [])) in
      omega (
        arith,
        broadcasts-cons e es,
        turns-broadcasts run (Step-Good L order it (main_steps x m) g) (k - b)
            (omega (arith, l, Step-pending (main_steps x m) g)) (omega (arith, n)),
      )
  turns-broadcasts (follows (looks y) run) g k l n =
      turns-broadcasts run (Step-Good L order it (looks y) g) k l (omega (arith, n))
  turns-broadcasts (follows begins run) g k l n =
      turns-broadcasts run (Step-Good L order it begins g) k l (omega (arith, n))
  turns-broadcasts (follows (sends writes w y) run) g k l n = omega (
    arith,
    turns-broadcasts run (Step-Good L order it (sends writes w y) g) (k - 1) (omega (arith, l))
        (omega (arith, n)),
  )
  turns-broadcasts (follows clears run) g k l n = omega (arith, l)

  before_round-le : (q : SenderAt Time) → before_round q ≤ 2
  before_round-le resting = omega arith
  before_round-le sleeping = omega arith
  before_round-le (sending ms) = omega arith

  module _ (port fd : ℕ) (errno : String) (w w' : World) (s : Server Time)
      (held : w.fds stdin_fileno ≡ true) (e : start port (some fd) true errno w ≡ done s w') where
    -- However the two threads interleave, a run in which the sender makes at least two steps more
    -- than there are messages pending at its beginning broadcasts all of these messages, in their
    -- order and before any other, whatever the main thread does in between and however many messages
    -- it queues. It is given that the run begins at a point that is reached from the start of the
    -- server, that the process holds standard input at the start and that the iteration of a set
    -- visits its elements; what the system may answer is part of the steps, which throw nothing.
    pub pending_broadcast :
        (t t' : System L) (es es' : List (Event (AnyInstance Time)))
        → Run L order (system L s free resting) es t
        → (run : Run L order t es' t')
        → 2 + length (pending_of t.sender_at t.server) ≤ turns L order run
        → (rest : List (AnyInstance Time)) × (broadcasts es'
            ≡ pending_of t.sender_at t.server ++ rest)
    pending_broadcast t t' es es' before run n =
        let good =
          Run-Good L order it before (started-Good L order it port fd errno w w' s held e) in
        begins_with (pending_of t.sender_at t.server) (announcements es') (broadcasts es')
          (pending_of t'.sender_at t'.server) (Run-pending run good)
          (turns-broadcasts run good (length (pending_of t.sender_at t.server)) (omega arith)
            (omega (arith, n, before_round-le t.sender_at)))
