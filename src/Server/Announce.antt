-- ===== src/Server/Announce.antt =====
-- A login or a message from its arrival in `onSocket` to the writes of the sender thread.
use mathlib.Core.List.{append-nil}
use se3313a_lab.Base.{
  String, ℕ, ◌≡◌, refl, ap, ◌∙◌, ◌≢◌, true, some, List, [], ◌∷◌, ◌++◌, ok, done, mem, ◌==◌,
  if◌then◌else◌,
}
use se3313a_lab.Boost.{Library}
use se3313a_lab.Msg.Json.{from, to_compact}
use se3313a_lab.Msg.LoginRequest
use se3313a_lab.Msg.LoginRequest.{LoginRequest}
use se3313a_lab.Msg.MessageRequest
use se3313a_lab.Msg.MessageRequest.{MessageRequest}
use se3313a_lab.Msg.LoginResponse
use se3313a_lab.Msg.MessageResponse
use se3313a_lab.Msg.AnyInstance.{AnyInstance, login_response, message_response, to_json}
use se3313a_lab.Net.World.{World, fd_of, open_at}
use se3313a_lab.Server.{Server, SocketCall, Writes, socket_event, send_messages}
use se3313a_lab.Server.Clients.{Client, associate, handles}
use se3313a_lab.Server.Clients.Fds.{Distinct, handles-associate}
use se3313a_lab.Server.Names.{Unused, Unused-name_in_use}
use se3313a_lab.Server.Threads.Members.{name_of, name_of-associate}
use se3313a_lab.Server.Login.{login_accepted, message_accepted}
use se3313a_lab.Server.Broadcast.{AllOpen, Accepts, copies, add_log, deliveries, send_messages_open}

module _ (w : World) (fd : ℕ) (username : String) where
  AllOpen-associate :
      (v : World) (cs : List Client) → AllOpen v cs → AllOpen v (associate w fd username cs)
  unfolding associate
  AllOpen-associate v [] o = tt
  AllOpen-associate v ((h, name) ∷ cs) (o, os) = (o, AllOpen-associate v cs os)

  copies-associate :
      (v : World) (text : String) (cs : List Client)
      → copies v text (associate w fd username cs) ≡ copies v text cs
  unfolding associate
  copies-associate v text [] = refl
  copies-associate v text ((h, name) ∷ cs) = ap (◌∷◌ (fd_of v h, text)) (copies-associate v text cs)

module _ (L : Library) (writes : Writes) where
  open L use {Time}

  -- the server after a round of the sender has written `log`
  abbrev pub sent : List (ℕ × String) → Server Time → Server Time
  sent log s = record s { world = add_log s.world log; message_queue = [] }

  one_message :
      (m : AnyInstance Time) (s : Server Time)
      → Accepts writes
      → AllOpen s.world s.sockets
      → s.message_queue ≡ m ∷ []
      → send_messages L writes s
        ≡ done tt (sent (copies s.world (to_compact L (to_json L m)) s.sockets) s)
  one_message m s accepts o q =
      send_messages_open L writes s accepts o
      ∙ ap (λ (x : List (ℕ × String)). done tt (sent x s))
          (ap (λ x. deliveries L s.world x s.sockets) q ∙ append-nil _)

  module _ (h : ℕ) (c : SocketCall Time) (text : String) (s : Server Time) where
    -- From an open socket to all clients: if the clients have descriptors of their own, every client's
    -- socket is open, the queue is empty and the system takes every text whole, a text that is not
    -- empty and comes from a client of the vector and parses to the tree of a login request under a
    -- name that no client has makes `onSocket` give that name to this client and leave the other
    -- clients' names, and queue the login response with that name; the next round of the sender
    -- writes it once to each client of the vector, in its order, and leaves the queue empty. Nothing
    -- else of the server changes.
    pub login_announced :
        (m : LoginRequest Time)
        → Accepts writes
        → AllOpen s.world s.sockets
        → Distinct s.world s.sockets
        → mem h (handles s.sockets) ≡ true
        → s.message_queue ≡ []
        → open_at s.world h ≡ true
        → c.received ≡ some text
        → text ≢ ""
        → from L text ≡ ok (LoginRequest.to_json L m)
        → Unused m.sender s.sockets
        → let response = login_response (LoginResponse.login c.now m.sender) in
          (cs : List Client) × (socket_event L h c s
            ≡ done tt (record s { sockets = cs; message_queue = response ∷ [] }))
          × (handles cs ≡ handles s.sockets)
          × ((j : ℕ) → name_of j cs ≡ (if h == j then some m.sender else name_of j s.sockets))
          × (send_messages L writes (record s { sockets = cs; message_queue = response ∷ [] })
              ≡ done tt (
                  sent
                    (copies s.world (to_compact L (to_json L response)) s.sockets)
                    (record s { sockets = cs })))
    login_announced m accepts all apart listed q o r n f free =
        let fd = fd_of s.world h in
        let cs = associate s.world fd m.sender s.sockets in
        let response = login_response (LoginResponse.login c.now m.sender) in
        let s' : Server Time = record s { sockets = cs; message_queue = response ∷ [] } in
        (
          cs,
          login_accepted L h c text m s o r n f (Unused-name_in_use m.sender s.sockets free)
              ∙ ap
                  (λ (x : List (AnyInstance Time)).
                    done tt (record s { sockets = cs; message_queue = x ++ response ∷ [] }))
                  q,
          handles-associate s.world fd m.sender s.sockets,
          λ j. name_of-associate s.world h j m.sender s.sockets apart listed,
          one_message response s' accepts
                (AllOpen-associate s.world fd m.sender s.world s.sockets all) refl
              ∙ ap (λ (x : List (ℕ × String)). done tt (sent x s'))
                  (copies-associate s.world fd m.sender s.world (to_compact L (to_json L response))
                    s.sockets),
        )

    -- From an open socket to all clients: if every client's socket is open, the queue is empty and
    -- the system takes every text whole, a text that is not empty and parses to the tree of a
    -- message request makes the next round of the sender write the message, under the sender that
    -- the text names, once to each client of the vector, in its order; beside what is written, the
    -- server is then as it was before the text came.
    pub message_relayed :
        (m : MessageRequest Time)
        → Accepts writes
        → AllOpen s.world s.sockets
        → s.message_queue ≡ []
        → open_at s.world h ≡ true
        → c.received ≡ some text
        → text ≢ ""
        → from L text ≡ ok (MessageRequest.to_json L m)
        → let response =
            to_compact L
              (to_json L (message_response (MessageResponse.message c.now m.sender m.content))) in
          (s' : Server Time) × (socket_event L h c s ≡ done tt s')
          × (send_messages L writes s' ≡ done tt (sent (copies s.world response s.sockets) s))
    message_relayed m accepts all q o r n f =
        let response = message_response (MessageResponse.message c.now m.sender m.content) in
        let s' : Server Time = record s { message_queue = s.message_queue ++ response ∷ [] } in
        (
          s',
          message_accepted L h c text m s o r n f,
          one_message response s' accepts all (ap (λ x. x ++ response ∷ []) q),
        )
