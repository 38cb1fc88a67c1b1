-- ===== src/Server/Tests.antt =====
-- The server on concrete inputs: two clients, of which the first is logged in as "bob".
pub mod Framing
pub mod Sending
pub mod Starving
use se3313a_lab.Base.{
  All, String, ℕ, ◌≡◌, refl, true, false, none, some, [], ◌∷◌, ◌==◌, ltb, if◌then◌else◌, done,
  thrown, left, arith, inl, inr, ok, Fault, size, null_dereference, json_parser_error, erase_from,
}
use se3313a_lab.Boost.{Library}
use se3313a_lab.Boost.Sample.{Tree, find, node, nil, sample}
use se3313a_lab.Msg.Json.{from, clean, to_compact}
use se3313a_lab.Msg.Instance
use se3313a_lab.Msg.Instance.{extract_from}
use se3313a_lab.Msg.LoginRequest
use se3313a_lab.Msg.MessageRequest
use se3313a_lab.Msg.LoginResponse
use se3313a_lab.Msg.MessageResponse
use se3313a_lab.Msg.AnyInstance.{AnyInstance, login_response, message_response, to_json}
use se3313a_lab.Net.World.{World, open_at, set_open}
use se3313a_lab.Net.FlexWaiter.{waiter}
use se3313a_lab.Server.{Server, SocketCall, Writes, socket_event, send_messages}
use se3313a_lab.Server.Listen.{Round, listen, stop}
use se3313a_lab.Server.Faults.Stdin.{AtEnd, Idle, stdin_end_starves}
use se3313a_lab.Server.Clients.{name_in_use, associate}
use se3313a_lab.Server.Announce.{sent, login_announced, message_relayed}
use se3313a_lab.Server.Login.{login_accepted, login_refused, message_accepted, refusal}
use se3313a_lab.Server.Broadcast.{copies, add_log, deliveries, send_messages_open}
use se3313a_lab.Server.Faults.{send_messages_closed, stop_then_send}
use se3313a_lab.Server.Faults.Requests.{
  IsRequest, answered_only_requests, foreign_null, failed_receive_throws,
}
use se3313a_lab.Server.Invariant.{Inv}
use se3313a_lab.Server.Invariant.Requests.{socket_event-Inv}

abbrev world : World
world = record {
  heap = λ h. record { fd = if h == 0 then 5 else 6; is_open = true };
  next = 2;
  fds = λ d. ltb d 7;
  written = [];
}

abbrev pub server : Server ℕ
server = record {
  port = 3313;
  killed = false;
  sockets = (0, "bob") ∷ (1, "") ∷ [];
  message_queue = [];
  flex_waiter = record (waiter (some 3)) { sockets = 1 ∷ 0 ∷ [] };
  server_socket = record { fd = 3; shut_down = false };
  world = world;
}

abbrev pub call : SocketCall ℕ
call = record { received = some "{}"; now = 7; written = some 4 }

-- the ways that the one text may read
abbrev no_json : Library
no_json = sample (λ s. none)

abbrev login_of : String → Library
login_of name = sample (λ s. some (LoginRequest.to_json no_json (LoginRequest.login 3 name)))

abbrev message_of : Library
message_of =
    sample (λ s. some (MessageRequest.to_json no_json (MessageRequest.message 3 "eve" "hi")))

abbrev foreign : Library
foreign = sample (λ s. some (node "" nil))

login_text :
    (name : String)
    → from (login_of name) "{}"
      ≡ ok (LoginRequest.to_json (login_of name) (LoginRequest.login 3 name))
unfolding from clean LoginRequest.to_json LoginRequest.sub_to_json Instance.to_json
    Instance.base_json
login_text name = refl

message_text :
    from message_of "{}"
    ≡ ok (MessageRequest.to_json message_of (MessageRequest.message 3 "eve" "hi"))
unfolding from clean MessageRequest.to_json MessageRequest.sub_to_json Instance.to_json
    Instance.base_json
message_text = refl

login_answer :
    socket_event (login_of "ann") 1 call server
    ≡ done tt (record server {
      sockets = associate world 6 "ann" ((0, "bob") ∷ (1, "") ∷ []);
      message_queue = login_response (LoginResponse.login 7 "ann") ∷ [];
    })
unfolding name_in_use
login_answer =
    login_accepted (login_of "ann") 1 call "{}" (LoginRequest.login 3 "ann") server refl refl
      (λ e. cc) (login_text "ann") refl

login_refused_example :
    socket_event (login_of "bob") 1 call server
    ≡ done tt (record server {
      world = record world {
        written =
            (
              6,
              erase_from 4 (
                  to_compact
                    (login_of "bob")
                    (to_json (login_of "bob") (refusal (login_of "bob") 1 call))),
            )
            ∷ [];
      };
    })
login_refused_example =
    login_refused (login_of "bob") 1 call "{}" (LoginRequest.login 3 "bob") server 4 refl refl
      (λ e. cc) (login_text "bob") (inl refl) refl

answered_only_requests_example :
    (t : Tree) × (from (login_of "ann") "{}" ≡ ok t) × IsRequest (login_of "ann") t
answered_only_requests_example =
    answered_only_requests (login_of "ann") 1 call server "{}" _ refl refl (λ e. cc) login_answer

foreign_null_example : socket_event foreign 1 call server ≡ thrown null_dereference server
unfolding from clean extract_from find
foreign_null_example =
    foreign_null foreign 1 call server "{}" (node "" nil) refl refl (λ e. cc) refl
      (inl (refl, refl))

failed_receive_throws_example :
    socket_event no_json 1 (record call { received = none }) server
    ≡ thrown json_parser_error (record server { world = set_open 1 false world })
failed_receive_throws_example =
    failed_receive_throws no_json 1 (record call { received = none }) server refl refl refl

pub server-Inv : Inv server
server-Inv = record {
  distinct = ((λ e. ground arith, tt), (tt, tt));
  held = (omega arith, refl, (omega arith, refl, tt));
  apart = λ fd m. (λ e. ground arith, (λ e. ground arith, tt));
  reserved_held = λ fd m. ground arith;
  unique = (inr ((λ e. cc), tt), (inl refl, tt));
  watched = λ h. ground arith;
}

socket_event-Inv_example : Inv (left (socket_event (login_of "ann") 1 call server))
socket_event-Inv_example = socket_event-Inv (login_of "ann") 1 call server refl server-Inv

-- The descriptor of standard input, at its end, is reported together with that of a client.
abbrev at_end : Round ℕ
at_end = record {
  answers = record {
    eventfd = none;
    select = some (0 ∷ 5 ∷ []);
    kill_read = 0;
    stdin_read = some "";
  };
  call = call;
  accepted = none;
  errno = "";
}

abbrev listening : Server ℕ
listening = record server { flex_waiter = record (server.flex_waiter) { kill_event_fd = some 4 } }

at_end-AtEnd : AtEnd 4 at_end
at_end-AtEnd = record {
  ready = 0 ∷ 5 ∷ [];
  selected = refl;
  no_kill = refl;
  stdin_ready = refl;
  at_end = refl;
}

stdin_end_starves_example :
    (s : Server ℕ) × (listen no_json (λ hs. hs) (at_end ∷ at_end ∷ []) listening ≡ done tt s)
    × Idle listening s
stdin_end_starves_example =
    stdin_end_starves no_json (λ hs. hs) 4 (at_end ∷ at_end ∷ []) listening refl refl
      (at_end-AtEnd, (at_end-AtEnd, tt))
