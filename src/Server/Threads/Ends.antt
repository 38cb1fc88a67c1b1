-- ===== src/Server/Threads/Ends.antt =====
-- The steps of the two threads of server/server/src/server.cpp that throw. Nothing in server.cpp or
-- main.cpp catches an exception, so that such a step ends the process.
pub mod Open
pub mod Calls
pub mod Heard
pub mod Keeps
pub mod Shut
pub mod Race
pub mod Progress
pub mod Tests
use se3313a_lab.Base.{
  String, ℕ, ◌<◌, ◌≡◌, false, Option, none, some, List, [], ◌∷◌, ◌⊎◌, ok, Fault, done, thrown, size,
}
use se3313a_lab.Boost.{Library}
use se3313a_lab.Msg.AnyInstance.{AnyInstance, to_json}
use se3313a_lab.Msg.Json.{from, to_compact}
use se3313a_lab.Net.World.{World}
use se3313a_lab.Net.Socket.{write}
use se3313a_lab.Net.SocketServer.{accept}
use se3313a_lab.Net.FlexWaiter.{FlexWaiter, on_socket_server, on_socket, wait, buffer_size}
use se3313a_lab.Server.{Server, SocketCall, Writes, send_all}
use se3313a_lab.Server.Broadcast.{Takes}
use se3313a_lab.Server.Faults.Requests.{IsRequest}
use se3313a_lab.Server.Invariant.KillEvent.{Legal, waited}
use se3313a_lab.Server.Listen.{Round}
use se3313a_lab.Server.Room.{Event}
use se3313a_lab.Server.Threads.{
  MainAt, free, closing, heard, refusing, SenderAt, sending, hear, reply, MainStep, waits,
  reads_line, reads_exit, stops, accepts, enters, hears, removes, replies, refuses, names, pushes,
  System, system, Step, main_steps, looks, begins, sends, clears, Run, here, follows,
}

-- The calls of the system in a round of `listen` succeed, the line on standard input fits the
-- buffer, and the kill event, if it is read, gives a whole number or nothing.
pub record Serves {Time : Type 0} (r : Round Time) : Type 0 where
  pub event : ℕ
  pub event_made : r.answers.eventfd ≡ some event
  pub ready : List ℕ
  pub selected : r.answers.select ≡ some ready
  pub kill_whole : (r.answers.kill_read ≡ 8) ⊎ (r.answers.kill_read ≡ 0)
  pub line : String
  pub line_read : r.answers.stdin_read ≡ some line
  pub line_fits : size line < buffer_size
  pub client : ℕ
  pub accepted : r.accepted ≡ some client

-- ::recv does not fail; the empty text stands for a connection that the peer has shut.
abbrev pub Receives : {Time : Type 0} → SocketCall Time → Type 0
Receives c = (text : String) × (c.received ≡ some text)

module _ (L : Library) where
  open L use {Tree, Time}

  -- The text is a well-formed request.
  abbrev pub Request : String → Type 0
  Request text = (t : Tree) × (from L text ≡ ok t) × IsRequest L t

  module _ (order : List ℕ → List ℕ) where
    -- A step of a thread that throws.
    pub data Ends : System L → Fault → Type 0 where
      wait_throws :
          {s : Server Time} {q : SenderAt Time} {f : Fault} (r : Round Time) (w : FlexWaiter)
          → s.killed ≡ false
          → Legal order r s
          → wait order r.answers s.world s.flex_waiter ≡ thrown f w
          → Ends (system L s free q) f
      accept_throws :
          {s : Server Time} {q : SenderAt Time} {f : Fault} (r : Round Time) (w : FlexWaiter)
          (net : World)
          → s.killed ≡ false
          → Legal order r s
          → wait order r.answers s.world s.flex_waiter ≡ done on_socket_server w
          → accept r.accepted r.errno (waited w s).world ≡ thrown f net
          → Ends (system L s free q) f
      read_throws :
          {s : Server Time} {q : SenderAt Time} {f : Fault} (r : Round Time) (w : FlexWaiter)
          (h : ℕ) (s' : Server Time)
          → s.killed ≡ false
          → Legal order r s
          → wait order r.answers s.world s.flex_waiter ≡ done (on_socket h) w
          → hear L h r.call (waited w s) ≡ thrown f s'
          → Ends (system L s free q) f
      reply_throws :
          {s : Server Time} {q : SenderAt Time} {f : Fault} {h : ℕ} {c : SocketCall Time}
          {text : String} (s' : Server Time)
          → reply L h c text s ≡ thrown f s'
          → Ends (system L s (heard h c text) q) f
      refuse_throws :
          {s : Server Time} {q : SenderAt Time} {f : Fault} {h : ℕ} {c : SocketCall Time}
          {m : AnyInstance Time} (w : World)
          → write c.written h (to_compact L (to_json L m)) s.world ≡ thrown f w
          → Ends (system L s (refusing h c m) q) f
      send_throws :
          {s : Server Time} {p : MainAt Time} {f : Fault} {m : AnyInstance Time}
          {ms : List (AnyInstance Time)} (writes : Writes) (w : World)
          → send_all writes (to_compact L (to_json L m)) s.sockets s.world ≡ thrown f w
          → Ends (system L s p (sending (m ∷ ms))) f

    -- What it answers to the step are successes, and a text that came is a request.
    abbrev pub Fair : {t : System L} {f : Fault} → Ends t f → Type 0
    Fair (wait_throws r w k legal x) = Serves r
    Fair (accept_throws r w net k legal x y) = Serves r
    Fair (read_throws r w h s' k legal x y) = Receives r.call
    Fair (reply_throws {text} s' y) = Request text
    Fair (refuse_throws {c} w y) = (n : ℕ) × (c.written ≡ some n)
    Fair (send_throws writes w y) = Takes writes

    abbrev pub CalmMain :
        {s s' : Server Time} {p p' : MainAt Time} {e : Event (AnyInstance Time)}
        → MainStep L order s p e s' p'
        → Type 0
    CalmMain (hears r w h s' p' k legal x y) = Receives r.call
    CalmMain (refuses h c m n w y) = (n : ℕ) × (c.written ≡ some n)
    CalmMain (waits r w k legal x) = Unit {0}
    CalmMain (reads_line r w line k legal x y) = Unit {0}
    CalmMain (reads_exit r w line k legal x y) = Unit {0}
    CalmMain stops = Unit {0}
    CalmMain (accepts r w h net k legal x y) = Unit {0}
    CalmMain (enters h) = Unit {0}
    CalmMain (removes h) = Unit {0}
    CalmMain (replies h c text s' p' y) = Unit {0}
    CalmMain (names h username m) = Unit {0}
    CalmMain (pushes m) = Unit {0}

    -- No ::recv and no ::write fails in the step.
    abbrev pub Calm :
        {t t' : System L} {e : Event (AnyInstance Time)} → Step L order t e t' → Type 0
    Calm (main_steps x g) = CalmMain x
    Calm (sends writes w e) = Takes writes
    Calm (looks k) = Unit {0}
    Calm begins = Unit {0}
    Calm clears = Unit {0}

    abbrev pub CalmRun :
        {t t' : System L} {es : List (Event (AnyInstance Time))} → Run L order t es t' → Type 0
    CalmRun here = Unit {0}
    CalmRun (follows x run) = Calm x × CalmRun run
