-- ===== src/Server/Tests/Sending.antt =====
-- The sender of Server on concrete inputs: the queue written to the two clients of Tests.
use se3313a_lab.Base.{
  if◌then◌else◌, ◌==◌, All, List, String, ℕ, ◌≡◌, refl, false, some, [], ◌∷◌, done, thrown, Fault,
  size,
}
use se3313a_lab.Msg.Json.{to_compact}
use se3313a_lab.Msg.LoginRequest
use se3313a_lab.Msg.MessageRequest
use se3313a_lab.Msg.LoginResponse
use se3313a_lab.Msg.MessageResponse
use se3313a_lab.Msg.AnyInstance.{AnyInstance, login_response, message_response, to_json}
use se3313a_lab.Net.World.{open_at, set_open}
use se3313a_lab.Server.{Server, Writes, socket_event, send_messages}
use se3313a_lab.Server.Listen.{stop}
use se3313a_lab.Server.Clients.{Client, handles}
use se3313a_lab.Server.Threads.Members.{name_of}
use se3313a_lab.Msg.Instance.Fields.{text_ne}
use se3313a_lab.Server.Announce.{sent, login_announced, message_relayed}
use se3313a_lab.Server.Broadcast.{copies, add_log}
use se3313a_lab.Server.Broadcast.Parts.{Took, deliveries_to, send_messages-Took}
use se3313a_lab.Server.Faults.{send_messages_closed, stop_then_send}
use se3313a_lab.Server.Tests.{
  world, server, server-Inv, call, no_json, login_of, message_of, login_text, message_text,
}

abbrev hello : AnyInstance ℕ
hello = message_response (MessageResponse.message 7 "bob" "hello")

abbrev queued : Server ℕ
queued = record server { message_queue = hello ∷ hello ∷ [] }

abbrev whole : Writes
whole w h text = some (size text)

abbrev three : Writes
three w h text = some 3

send_messages-Took_example :
    (log : List (ℕ × String)) × (send_messages no_json three queued
      ≡ done tt (record queued { world = add_log world log; message_queue = [] }))
    × Took three world log (deliveries_to no_json (hello ∷ hello ∷ []) server.sockets)
send_messages-Took_example =
    send_messages-Took no_json three queued (λ w h text. (3, refl)) (refl, (refl, tt))

send_messages_closed_example :
    (e : Fault) × (s : Server ℕ) × (send_messages no_json whole
        (record queued { world = set_open 1 false world })
      ≡ thrown e s)
send_messages_closed_example =
    send_messages_closed no_json whole (record queued { world = set_open 1 false world }) hello
      (hello ∷ []) 1 refl refl refl

stop_then_send_example :
    ((stop queued).sockets ≡ (0, "bob") ∷ (1, "") ∷ [])
    × ((stop queued).message_queue ≡ hello ∷ hello ∷ [])
    × All (λ h. open_at (stop queued).world h ≡ false) (0 ∷ 1 ∷ [])
    × ((e : Fault) × (s : Server ℕ) × (send_messages no_json whole (stop queued) ≡ thrown e s))
stop_then_send_example =
    stop_then_send no_json whole queued hello (hello ∷ []) (0, "bob") ((1, "") ∷ []) refl refl

abbrev welcome : AnyInstance ℕ
welcome = login_response (LoginResponse.login 7 "ann")

login_announced_example :
    (cs : List Client) × (socket_event (login_of "ann") 1 call server
      ≡ done tt (record server { sockets = cs; message_queue = welcome ∷ [] }))
    × (handles cs ≡ 0 ∷ 1 ∷ [])
    × ((j : ℕ) → name_of j cs ≡ (if 1 == j then some "ann" else name_of j server.sockets))
    × (send_messages
          (login_of "ann")
          whole
          (record server { sockets = cs; message_queue = welcome ∷ [] })
        ≡ done tt (
            sent
              (login_of "ann")
              whole
              (copies world
                (to_compact (login_of "ann") (to_json (login_of "ann") welcome))
                server.sockets)
              (record server { sockets = cs })))
login_announced_example =
    login_announced (login_of "ann") whole 1 call "{}" server (LoginRequest.login 3 "ann")
      (λ w h text. refl) (refl, (refl, tt)) server-Inv.distinct refl refl refl refl (λ e. cc)
      (login_text "ann") (text_ne "bob" "ann" refl, (text_ne "" "ann" refl, tt))

message_relayed_example :
    (s : Server ℕ) × (socket_event message_of 1 call server ≡ done tt s)
    × (send_messages message_of whole s
        ≡ done tt (
            sent message_of whole
              (copies world
                (to_compact message_of
                  (to_json message_of (message_response (MessageResponse.message 7 "eve" "hi"))))
                server.sockets)
              server))
message_relayed_example =
    message_relayed message_of whole 1 call "{}" server (MessageRequest.message 3 "eve" "hi")
      (λ w h text. refl) (refl, (refl, tt)) refl refl refl (λ e. cc) message_text
