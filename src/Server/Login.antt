-- ===== src/Server/Login.antt =====
-- What `onSocket` does with the requests of clients.
use mathlib.Core.Option as O
use se3313a_lab.Base.{
  String, ℕ, ◌≡◌, refl, ap, ◌∙◌, ◌≢◌, true, false, Option, some, [], ◌∷◌, ◌++◌, ◌==◌, ok, done,
  arith, size, erase_from,
}
use se3313a_lab.Boost.{Library}
use se3313a_lab.Msg.Json.{from, to_compact}
use se3313a_lab.Msg.Instance.{get_or_throw, property_type, property_object}
use se3313a_lab.Msg.Instance
use se3313a_lab.Msg.ErrorCode.{user_name_in_use}
use se3313a_lab.Msg.LoginRequest
use se3313a_lab.Msg.LoginRequest.{LoginRequest}
use se3313a_lab.Msg.MessageRequest
use se3313a_lab.Msg.MessageRequest.{MessageRequest}
use se3313a_lab.Msg.LoginResponse
use se3313a_lab.Msg.MessageResponse
use se3313a_lab.Msg.LoginResponse.{LoginResponse}
use se3313a_lab.Msg.AnyInstance.{
  AnyInstance, login_response, message_response, error_response, to_json, get_type-of, type_of,
}
use se3313a_lab.Msg.RequestVisitor.{visit}
use se3313a_lab.Msg.RequestVisitor.Dispatch.{visit-login, visit-message}
use se3313a_lab.Net.World.{fd_of, open_at}
use se3313a_lab.Net.Socket.{read_vector, write}
use se3313a_lab.Net.Socket.Laws.{read_vector_text, write_open}
use se3313a_lab.Server.{
  Server, SocketCall, visitor, visit_login, visit_message, in_world, name_client, respond, answer,
  handle, socket_event,
}
use se3313a_lab.Server.Clients.{name_in_use, associate}
use se3313a_lab.Server.Names.{Taken, Taken-name_in_use}

module _ (L : Library) where
  open L use {Tree, Time}

  -- The path at which `onSocket` looks for the username finds the one of the response.
  pub username-found :
      (m : LoginResponse Time)
      → get_or_throw L "object.joiningUsername" (to_json L (login_response m))
        ≡ ok m.joining_username
  unfolding to_json get_or_throw LoginResponse.to_json LoginResponse.sub_to_json Instance.to_json
      O.bind
  username-found m =
      let sub = LoginResponse.sub_to_json L m in
      let inner = L.put property_type LoginResponse.type L.empty in
      let tree = L.put_child property_object sub inner in
      let (c, found, same) =
        L.find-put "joiningUsername" m.joining_username (Instance.base_json L m.date_time "@server")
          refl in
      let got : L.get "object.joiningUsername" tree ≡ some m.joining_username =
        L.get-dot property_object "joiningUsername" tree refl refl
        ∙ ap (λ o. O.map L.get_value (O.bind o (L.find "joiningUsername")))
            (L.find-put_child property_object sub inner refl)
        ∙ ap (O.map L.get_value) found
        ∙ ap some same in
      rw (got, get_or_throw) refl

  size-pos : (text : String) → text ≢ "" → (size text == 0) ≡ false
  size-pos String.[] n = absurd (n refl)
  size-pos (String.◌∷◌ d t) n = ground arith

  module _ (h : ℕ) (c : SocketCall Time) where
    -- A received text goes to `handle`, and nothing changes before.
    pub socket_event-handle :
        (text : String) (s : Server Time)
        → open_at s.world h ≡ true
        → c.received ≡ some text
        → text ≢ ""
        → socket_event L h c s ≡ handle L h c text s
    unfolding socket_event
    socket_event-handle text s o r n =
        let e : read_vector c.received h "" s.world ≡ done (some (size text), text) s.world =
          ap (λ x. read_vector x h "" s.world) r ∙ read_vector_text text "" h s.world o n in
        rw (e, socket_event) (rw (size-pos text n) refl)

    pub answer-of :
        (m : AnyInstance Time) (s : Server Time)
        → answer L h c (some m) s ≡ respond L h c m (type_of m) s
    unfolding answer
    answer-of m s = rw (get_type-of L m, answer) refl

    handle-visit :
        (text : String) (tree : Tree) (o : Option (AnyInstance Time)) (s : Server Time)
        → from L text ≡ ok tree
        → visit L (visitor c.now s.sockets) tree ≡ ok o
        → handle L h c text s ≡ answer L h c o s
    unfolding handle
    handle-visit text tree o s f v = rw (f, handle) (rw v refl)

    pub respond-login :
        (m : LoginResponse Time) (s : Server Time)
        → respond L h c (login_response m) LoginResponse.type s
          ≡ done tt (record s {
            sockets = associate s.world (fd_of s.world h) m.joining_username s.sockets;
            message_queue = s.message_queue ++ login_response m ∷ [];
          })
    unfolding respond name_client
    respond-login m s = rw (username-found m, name_client) refl

    -- When `onSocket` receives, from an open socket, a text that is not empty and parses to the
    -- tree of a login request under a name that no client has, it gives that name to the entries
    -- with the descriptor of the socket and queues a login response with it for all clients;
    -- nothing else of the server changes and nobody is written to yet.
    pub login_accepted :
        (text : String) (m : LoginRequest Time) (s : Server Time)
        → open_at s.world h ≡ true
        → c.received ≡ some text
        → text ≢ ""
        → from L text ≡ ok (LoginRequest.to_json L m)
        → name_in_use m.sender s.sockets ≡ false
        → socket_event L h c s
          ≡ done tt (record s {
            sockets = associate s.world (fd_of s.world h) m.sender s.sockets;
            message_queue =
                s.message_queue ++ login_response (LoginResponse.login c.now m.sender) ∷ [];
          })
    unfolding visit_login
    login_accepted text m s o r n f free =
        let response = LoginResponse.login c.now m.sender in
        let visited : visit L (visitor c.now s.sockets) (LoginRequest.to_json L m)
            ≡ ok (some (login_response response)) =
          visit-login L (visitor c.now s.sockets) m ∙ rw free refl in
        socket_event-handle text s o r n
        ∙ handle-visit text _ _ s f visited
        ∙ answer-of (login_response response) s
        ∙ respond-login response s

    -- The error that a login under a used name is answered with.
    abbrev pub refusal : AnyInstance Time
    refusal = error_response (record {
      date_time = c.now;
      sender = "@server";
      originator = "@server";
      code = user_name_in_use;
      message = "Username in use.";
    })

    -- When `onSocket` receives, from an open socket, a text that is not empty and parses to the
    -- tree of a login request under the username of a client in the vector, the requesting one
    -- included and the empty username of one that has not logged in too, it
    -- writes the error USER_NAME_IN_USE to that socket alone, of which the system takes some
    -- characters; the usernames, the queue and the rest of the server stay as they are.
    pub login_refused :
        (text : String) (m : LoginRequest Time) (s : Server Time) (taken : ℕ)
        → open_at s.world h ≡ true
        → c.received ≡ some text
        → text ≢ ""
        → from L text ≡ ok (LoginRequest.to_json L m)
        → Taken m.sender s.sockets
        → c.written ≡ some taken
        → socket_event L h c s
          ≡ done tt (record s {
            world = record (s.world) {
              written =
                  s.world.written
                  ++ (fd_of s.world h, erase_from taken (to_compact L (to_json L refusal))) ∷ [];
            };
          })
    unfolding visit_login respond
    login_refused text m s taken o r n f used k =
        let visited : visit L (visitor c.now s.sockets) (LoginRequest.to_json L m)
            ≡ ok (some refusal) =
          visit-login L (visitor c.now s.sockets) m
          ∙ rw (Taken-name_in_use m.sender s.sockets used) refl in
        socket_event-handle text s o r n
        ∙ handle-visit text _ _ s f visited
        ∙ answer-of refusal s
        ∙ ap (λ x. in_world x s tt)
            (ap (λ x. write x h (to_compact L (to_json L refusal)) s.world) k
              ∙ write_open (to_compact L (to_json L refusal)) h taken s.world o)

    -- When `onSocket` receives, from an open socket, a text that is not empty and parses to the
    -- tree of a message request, it queues the message for all clients under the sender that the
    -- text names, whichever client it comes from; nothing else of the server changes.
    pub message_accepted :
        (text : String) (m : MessageRequest Time) (s : Server Time)
        → open_at s.world h ≡ true
        → c.received ≡ some text
        → text ≢ ""
        → from L text ≡ ok (MessageRequest.to_json L m)
        → socket_event L h c s
          ≡ done tt (record s {
            message_queue =
                s.message_queue
                ++ message_response (MessageResponse.message c.now m.sender m.content) ∷ [];
          })
    unfolding visit_message respond
    message_accepted text m s o r n f =
        socket_event-handle text s o r n
        ∙ handle-visit text _ _ s f (visit-message L (visitor c.now s.sockets) m)
        ∙ answer-of (message_response (MessageResponse.message c.now m.sender m.content)) s
