-- ===== src/Server.antt =====
-- The chat server: server/server/include/server.hpp and server/server/src/server.cpp.
-- The queue and the list of clients each have a lock. Each function here runs with the locks that it
-- takes, and the two threads' rounds come one after the other; Threads and Locks have them interleave.
pub mod Clients
pub mod Listen
pub mod Names
pub mod Login
pub mod Broadcast
pub mod Announce
pub mod Room
pub mod Threads
pub mod Invariant
pub mod Faults
pub mod Locks
pub mod Entry
pub mod Sample
pub mod Tests
use se3313a_lab.Base.{
  String, ℕ, Bool, true, false, Option, none, some, List, [], ◌∷◌, ◌++◌, ◌==◌, if◌then◌else◌,
  text_eq, Except, ok, throw, Fault, null_dereference, Outcome, done, thrown, size,
}
use se3313a_lab.Boost.{Library}
use se3313a_lab.Msg.Json.{from, to_compact}
use se3313a_lab.Msg.Instance.{get_or_throw, property_type}
use se3313a_lab.Msg.ErrorCode.{ErrorCode, user_name_in_use}
use se3313a_lab.Msg.LoginRequest.{LoginRequest}
use se3313a_lab.Msg.MessageRequest.{MessageRequest}
use se3313a_lab.Msg.LoginResponse
use se3313a_lab.Msg.MessageResponse
use se3313a_lab.Msg.ErrorResponse
use se3313a_lab.Msg.AnyInstance.{
  AnyInstance, login_response, message_response, error_response, to_json,
}
use se3313a_lab.Msg.RequestVisitor.{Visitor, visit}
use se3313a_lab.Net.World.{World, fd_of}
use se3313a_lab.Net.Socket.{read_vector, write, close}
use se3313a_lab.Net.SocketServer
use se3313a_lab.Net.SocketServer.{SocketServer, bind_to, accept}
use se3313a_lab.Net.FlexWaiter.{
  FlexWaiter, waiter, add_socket, remove_socket, kill, Answers, Activity, nothing, on_stdin,
  on_socket_server, on_socket, wait, hold_event,
}
use Clients.{Client, name_in_use, has_fd, erase_client, associate, close_all}

-- `sockets` pairs the handle of each client's socket with the username, empty before a login.
pub record Server (Time : Type 0) : Type 0 where
  pub port : ℕ
  pub killed : Bool
  pub sockets : List Client
  pub message_queue : List (AnyInstance Time)
  pub flex_waiter : FlexWaiter
  pub server_socket : SocketServer
  pub world : World

-- `start()` up to the thread of `sendMessages` that it makes, from the answers of ::socket and ::bind;
-- Entry, Threads and Locks go on with the two threads
unfoldable pub start :
    {Time : Type 0} → ℕ → Option ℕ → Bool → String → World → Outcome World (Server Time)
start port made bound errno w = elim (bind_to made bound errno w) [
  | thrown e w' ↦ thrown e w'
  | done listener w' ↦
      done
        (record {
          port = port;
          killed = false;
          sockets = [];
          message_queue = [];
          flex_waiter = waiter (some listener.fd);
          server_socket = listener;
          world = w';
        })
        w'
]

-- `visitLogin` at the time `now`
unfoldable pub visit_login :
    {Time : Type 0} → Time → List Client → LoginRequest Time → Option (AnyInstance Time)
visit_login now sockets login =
    if name_in_use login.sender sockets
    then some (
        error_response (record {
          date_time = now;
          sender = "@server";
          originator = "@server";
          code = user_name_in_use;
          message = "Username in use.";
        }))
    else some (login_response (LoginResponse.login now login.sender))

-- `visitMessage` at the time `now`
unfoldable pub visit_message :
    {Time : Type 0} → Time → MessageRequest Time → Option (AnyInstance Time)
visit_message now msg = some (message_response (MessageResponse.message now msg.sender msg.content))

-- The server as a visitor. It leaves `error` as the base class has it, which returns a null pointer.
abbrev pub visitor : {Time : Type 0} → Time → List Client → Visitor Time (Option (AnyInstance Time))
visitor now sockets = record {
  visit_login = visit_login now sockets;
  visit_message = visit_message now;
  error = λ originator code message. none;
}

-- What the environment answers while `onSocket` runs: ::recv, the clock, and ::write.
pub record SocketCall (Time : Type 0) : Type 0 where
  pub received : Option String
  pub now : Time
  pub written : Option ℕ

abbrev pub in_world :
    {Time A B : Type 0} → Outcome World A → Server Time → B → Outcome (Server Time) B
in_world (done a w) s b = done b (record s { world = w })
in_world (thrown e w) s b = thrown e (record s { world = w })

abbrev pub is_zero : Option ℕ → Bool
is_zero none = false
is_zero (some n) = n == 0

-- `onSocket` for a connection that the peer has shut
unfoldable pub disconnect : {Time : Type 0} → ℕ → Server Time → Server Time
disconnect h s =
    let fd = fd_of s.world h in
    if has_fd s.world fd s.sockets
    then record s {
      flex_waiter = remove_socket h s.flex_waiter;
      sockets = erase_client s.world fd s.sockets;
    }
    else s

-- What ::write answers, given the state at the call, the handle and the text.
abbrev pub Writes : Type 0
Writes = World → ℕ → String → Option ℕ

-- `sendMessages`: one text to every client
unfoldable pub send_all : Writes → String → List Client → World → Outcome World (Unit {0})
send_all writes text [] w = done tt w
send_all writes text ((h, name) ∷ cs) w = elim (write (writes w h text) h text w) [
  | thrown e w' ↦ thrown e w'
  | done n w' ↦ send_all writes text cs w'
]

module _ (L : Library) where
  open L use {Tree, Time}

  -- `onSocket` for an accepted login: the username of the response goes to the client's entry
  unfoldable pub name_client : ℕ → AnyInstance Time → Server Time → Outcome (Server Time) (Unit {0})
  name_client h response s = elim (get_or_throw L "object.joiningUsername" (to_json L response)) [
    | throw e ↦ thrown e s
    | ok username ↦
        done tt (record s { sockets = associate s.world (fd_of s.world h) username s.sockets })
  ]

  abbrev pub enqueue :
      AnyInstance Time → Outcome (Server Time) (Unit {0}) → Outcome (Server Time) (Unit {0})
  enqueue response (thrown e s) = thrown e s
  enqueue response (done _ s) =
      done tt (record s { message_queue = s.message_queue ++ response ∷ [] })

  -- `onSocket` from the type of the response on
  unfoldable pub respond :
      ℕ
      → SocketCall Time
      → AnyInstance Time
      → String
      → Server Time
      → Outcome (Server Time) (Unit {0})
  respond h c response type s =
      if text_eq type ErrorResponse.type
      then in_world (write c.written h (to_compact L (to_json L response)) s.world) s tt
      else if text_eq type LoginResponse.type
      then enqueue response (name_client h response s)
      else enqueue response (done tt s)

  -- `onSocket` for what the visitor returned; a null pointer is dereferenced
  unfoldable pub answer :
      ℕ
      → SocketCall Time
      → Option (AnyInstance Time)
      → Server Time
      → Outcome (Server Time) (Unit {0})
  answer h c none s = thrown null_dereference s
  answer h c (some response) s = elim (get_or_throw L property_type (to_json L response)) [
    | throw e ↦ thrown e s
    | ok type ↦ respond h c response type s
  ]

  -- `onSocket` for a message: parse, visit, answer
  unfoldable pub handle :
      ℕ → SocketCall Time → String → Server Time → Outcome (Server Time) (Unit {0})
  handle h c msg s = elim (from L msg) [
    | throw e ↦ thrown e s
    | ok parsed ↦ elim (visit L (visitor c.now s.sockets) parsed) [
      | throw e ↦ thrown e s
      | ok response ↦ answer h c response s
    ]
  ]

  -- `onSocket`
  unfoldable pub socket_event : ℕ → SocketCall Time → Server Time → Outcome (Server Time) (Unit {0})
  socket_event h c s = elim (read_vector c.received h "" s.world) [
    | thrown e w ↦ thrown e (record s { world = w })
    | done (bytes_read, contents) w ↦
        if is_zero bytes_read
        then done tt (disconnect h (record s { world = w }))
        else handle h c contents (record s { world = w })
  ]

  -- `sendMessages`: every message of the queue to every client
  unfoldable pub send_queue :
      Writes → List (AnyInstance Time) → List Client → World → Outcome World (Unit {0})
  send_queue writes [] cs w = done tt w
  send_queue writes (m ∷ ms) cs w = elim (send_all writes (to_compact L (to_json L m)) cs w) [
    | thrown e w' ↦ thrown e w'
    | done _ w' ↦ send_queue writes ms cs w'
  ]

  -- the end of a round that had messages to send
  abbrev pub clear_queue : Outcome World (Unit {0}) → Server Time → Outcome (Server Time) (Unit {0})
  clear_queue (thrown e w) s = thrown e (record s { world = w })
  clear_queue (done _ w) s = done tt (record s { world = w; message_queue = [] })

  unfoldable pub send_pending :
      Writes → List (AnyInstance Time) → Server Time → Outcome (Server Time) (Unit {0})
  send_pending writes [] s = done tt s
  send_pending writes (m ∷ ms) s = clear_queue (send_queue writes (m ∷ ms) s.sockets s.world) s

  -- one round of the loop of `sendMessages`, between taking and leaving the queue's lock
  unfoldable pub send_messages : Writes → Server Time → Outcome (Server Time) (Unit {0})
  send_messages writes s = send_pending writes s.message_queue s

module _ {Time : Type 0} where
  -- `onSocketServer`, from the answer of ::accept
  unfoldable pub socket_server_event :
      Option ℕ → String → Server Time → Outcome (Server Time) (Unit {0})
  socket_server_event fd errno s = elim (accept fd errno s.world) [
    | thrown e w ↦ thrown e (record s { world = w })
    | done h w ↦ done tt (record s {
      world = w;
      sockets = s.sockets ++ (h, "") ∷ [];
      flex_waiter = add_socket h s.flex_waiter;
    })
  ]
