-- ===== src/Server/Threads/Delivery.antt =====
-- What the writes of server/server/src/server.cpp bring to one client while the two threads run.
pub mod Texts
pub mod Steps
pub mod Client
pub mod Answered
pub mod Pending
pub mod Tests
use se3313a_lab.Base.{String, ℕ, ◌≡◌, some, List, [], ◌∷◌, ◌++◌, ◌==◌, if◌then◌else◌, size}
use se3313a_lab.Boost.{Library}
use se3313a_lab.Msg.AnyInstance.{AnyInstance, to_json}
use se3313a_lab.Msg.Json.{to_compact}
use se3313a_lab.Server.{Server}
use se3313a_lab.Server.Broadcast.{Accepts}
use se3313a_lab.Server.Room.{Event}
use se3313a_lab.Server.Threads.{
  MainAt, MainStep, waits, reads_line, reads_exit, stops, accepts, enters, hears, removes, replies,
  refuses, names, pushes, System, Step, main_steps, looks, begins, sends, clears, Run, here,
  follows,
}

-- the texts of a log that went to a descriptor
abbrev pub texts_for : ℕ → List (ℕ × String) → List String
texts_for fd [] = []
texts_for fd ((d, text) ∷ log) = if d == fd then text ∷ texts_for fd log else texts_for fd log

module _ (L : Library) where
  open L use {Time}

  abbrev pub text_of : AnyInstance Time → String
  text_of m = to_compact L (to_json L m)

  module _ (order : List ℕ → List ℕ) where
    -- The system takes the texts of the step whole.
    abbrev pub WholeMain :
        {s s' : Server Time} {p p' : MainAt Time} {e : Event (AnyInstance Time)}
        → MainStep L order s p e s' p'
        → Type 0
    WholeMain (refuses h c m n w y) = c.written ≡ some (size (text_of m))
    WholeMain (hears r w h s' p' k legal x y) = Unit {0}
    WholeMain (waits r w k legal x) = Unit {0}
    WholeMain (reads_line r w line k legal x y) = Unit {0}
    WholeMain (reads_exit r w line k legal x y) = Unit {0}
    WholeMain stops = Unit {0}
    WholeMain (accepts r w h net k legal x y) = Unit {0}
    WholeMain (enters h) = Unit {0}
    WholeMain (removes h) = Unit {0}
    WholeMain (replies h c text s' p' y) = Unit {0}
    WholeMain (names h username m) = Unit {0}
    WholeMain (pushes m) = Unit {0}

    abbrev pub Whole :
        {t t' : System L} {e : Event (AnyInstance Time)} → Step L order t e t' → Type 0
    Whole (main_steps x g) = WholeMain x
    Whole (sends writes w e) = Accepts writes
    Whole (looks k) = Unit {0}
    Whole begins = Unit {0}
    Whole clears = Unit {0}

    abbrev pub WholeRun :
        {t t' : System L} {es : List (Event (AnyInstance Time))} → Run L order t es t' → Type 0
    WholeRun here = Unit {0}
    WholeRun (follows x run) = Whole x × WholeRun run

    -- What the client `h` is to receive by a step: every broadcast, and the errors that answer its own
    -- requests.
    abbrev pub due_main :
        {s s' : Server Time} {p p' : MainAt Time} {e : Event (AnyInstance Time)}
        → ℕ
        → MainStep L order s p e s' p'
        → List String
    due_main h (refuses j c m n w y) = if j == h then text_of m ∷ [] else []
    due_main h (hears r w j s' p' k legal x y) = []
    due_main h (waits r w k legal x) = []
    due_main h (reads_line r w line k legal x y) = []
    due_main h (reads_exit r w line k legal x y) = []
    due_main h stops = []
    due_main h (accepts r w j net k legal x y) = []
    due_main h (enters j) = []
    due_main h (removes j) = []
    due_main h (replies j c text s' p' y) = []
    due_main h (names j username m) = []
    due_main h (pushes m) = []

    abbrev pub due :
        {t t' : System L} {e : Event (AnyInstance Time)} → ℕ → Step L order t e t' → List String
    due h (main_steps x g) = due_main h x
    due h (sends {m} writes w e) = text_of m ∷ []
    due h (looks k) = []
    due h begins = []
    due h clears = []

    abbrev pub due_in :
        {t t' : System L} {es : List (Event (AnyInstance Time))}
        → ℕ
        → Run L order t es t'
        → List String
    due_in h here = []
    due_in h (follows x run) = due h x ++ due_in h run
