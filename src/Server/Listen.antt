-- ===== src/Server/Listen.antt =====
-- The loop of the main thread in server/server/src/server.cpp: `listen`, `onSTDIN` and `stop`.
use se3313a_lab.Base.{
  String, ℕ, true, Option, List, [], ◌∷◌, if◌then◌else◌, text_eq, Outcome, done, thrown,
}
use se3313a_lab.Boost.{Library}
use se3313a_lab.Net.SocketServer
use se3313a_lab.Net.FlexWaiter.{
  kill, Answers, Activity, nothing, on_stdin, on_socket_server, on_socket, wait, hold_event,
}
use se3313a_lab.Server.{Server, SocketCall, socket_event, socket_server_event}
use se3313a_lab.Server.Clients.{close_all}

module _ {Time : Type 0} where
  -- `stop()`. Its call `sockets.empty()` asks whether the vector is empty and changes nothing.
  unfoldable pub stop : Server Time → Server Time
  stop s = record s {
    killed = true;
    world = close_all s.sockets s.world;
    server_socket = SocketServer.close s.server_socket;
    flex_waiter = kill s.flex_waiter;
  }

  -- `onSTDIN`
  unfoldable pub stdin_event : String → Server Time → Server Time
  stdin_event line s = if text_eq line "exit" then stop s else s

-- What the environment answers in one round of `listen`.
pub record Round (Time : Type 0) : Type 0 where
  pub answers : Answers
  pub call : SocketCall Time
  pub accepted : Option ℕ
  pub errno : String

module _ (L : Library) where
  open L use {Time}

  -- the call of a visitor's method by `wait`
  unfoldable pub notify : Round Time → Activity → Server Time → Outcome (Server Time) (Unit {0})
  notify r nothing s = done tt s
  notify r (on_stdin line) s = done tt (stdin_event line s)
  notify r on_socket_server s = socket_server_event r.accepted r.errno s
  notify r (on_socket h) s = socket_event L h r.call s

  -- one round of the loop of `listen`; `order` is the order in which the waiter's set is iterated
  unfoldable pub listen_round :
      (List ℕ → List ℕ) → Round Time → Server Time → Outcome (Server Time) (Unit {0})
  listen_round order r s = elim (wait order r.answers s.world s.flex_waiter) [
    | thrown e w ↦ thrown e (record s { flex_waiter = w; world = hold_event w s.world })
    | done activity w ↦
        notify r activity (record s { flex_waiter = w; world = hold_event w s.world })
  ]

  -- `listen()` over the rounds that the environment grants; it stops by `killed`.
  unfoldable pub listen :
      (List ℕ → List ℕ) → List (Round Time) → Server Time → Outcome (Server Time) (Unit {0})
  listen order [] s = done tt s
  listen order (r ∷ rs) s = if s.killed then done tt s else elim (listen_round order r s) [
    | thrown e s' ↦ thrown e s'
    | done _ s' ↦ listen order rs s'
  ]
