-- ===== src/Server/Threads/Ends/Heard.antt =====
-- `onSocket` between its sections: where it comes to, and that a request does not make it throw.
use se3313a_lab.Base.{
  String, ℕ, suc, ◌≡◌, refl, ap, ◌∙◌, subst, Bool, true, false, Option, none, some, ◌==◌,
  if◌then◌else◌, Except, ok, throw, Outcome, done, thrown, inl, inr, ◌⊎◌, text_eq, size, arith,
}
use se3313a_lab.Boost.{Library}
use se3313a_lab.Msg.Json.{from}
use se3313a_lab.Msg.Instance.{get_or_throw, property_type}
use se3313a_lab.Msg.LoginRequest.{LoginRequest}
use se3313a_lab.Msg.ErrorResponse
use se3313a_lab.Msg.LoginResponse
use se3313a_lab.Msg.MessageResponse
use se3313a_lab.Msg.AnyInstance.{
  AnyInstance, login_request, message_request, login_response, message_response, error_response,
  get_type-of, type_of, to_json,
}
use se3313a_lab.Msg.RequestVisitor.{visit, handle_login, handle_message}
use se3313a_lab.Net.World.{World, open_at, set_open}
use se3313a_lab.Net.Socket.{read_vector}
use se3313a_lab.Server.{Server, SocketCall, visitor, is_zero, visit_login, visit_message}
use se3313a_lab.Server.Clients.{name_in_use}
use se3313a_lab.Server.Faults.Requests.{IsRequest}
use se3313a_lab.Server.Login.{username-found}
use se3313a_lab.Server.Threads.{
  MainAt, closing, heard, refusing, naming, pushing, hear, settle, conclude, reply,
}
use se3313a_lab.Server.Threads.Ends.{Request, Receives}
use se3313a_lab.Server.Threads.Ends.Calls.{Returns}

-- where `reply` may come to
pub data Replied {Time : Type 0} (h : ℕ) : MainAt Time → Type 0 where
  refused : {c : SocketCall Time} {m : AnyInstance Time} → Replied h (refusing h c m)
  named : {username : String} {m : AnyInstance Time} → Replied h (naming h username m)
  pushed : {m : AnyInstance Time} → Replied h (pushing m)

-- A client that is about to be taken out of the vector has a closed socket.
abbrev pub ShutAt : {Time : Type 0} → MainAt Time → World → Type 0
ShutAt (closing h) w = open_at w h ≡ false
ShutAt _ w = Unit {0}

module _ (L : Library) (h : ℕ) (c : SocketCall L.Time) where
  open L use {Tree, Time}

  -- A read from an open socket of a connection that has been shut, or of a text.
  pub hear-Receives :
      (s : Server Time)
      → open_at s.world h ≡ true
      → Receives c
      → (hear L h c s ≡ done (closing h) (record s { world = set_open h false s.world }))
        ⊎ ((text : String) × (hear L h c s ≡ done (heard h c text) s))
  unfolding hear read_vector
  hear-Receives s o (String.[], e) =
      let found : read_vector c.received h "" s.world
          ≡ done (some 0, "") (set_open h false s.world) =
        ap (λ x. read_vector x h "" s.world) e ∙ rw (o, read_vector) refl in
      inl (rw (found, hear) refl)
  hear-Receives s o (String.◌∷◌ d t, e) =
      let found : read_vector c.received h "" s.world
          ≡ done (some (suc (size t)), String.◌∷◌ d t) s.world =
        ap (λ x. read_vector x h "" s.world) e ∙ rw (o, read_vector) refl in
      let some_bytes : (suc (size t) == 0) ≡ false = ground arith in
      inr (String.◌∷◌ d t, rw (found, hear) (rw some_bytes refl))

  -- A read with the result 0 closes the socket.
  abbrev ReadShut : Outcome World (Option ℕ × String) → Type 0
  ReadShut (thrown f w) = Unit {0}
  ReadShut (done (n, text) w) = is_zero n ≡ true → open_at w h ≡ false

  read-ReadShut : (r : Option String) (vec : String) (w : World) → ReadShut (read_vector r h vec w)
  unfolding read_vector
  read-ReadShut none vec w = ground arith
  read-ReadShut (some String.[]) vec w = ground arith
  read-ReadShut (some (String.◌∷◌ d t)) vec w = ground arith

  abbrev WhenHeard : Outcome (Server Time) (MainAt Time) → Type 0
  WhenHeard (thrown f s') = Unit {0}
  WhenHeard (done p s') = ShutAt p s'.world

  hear-WhenHeard : (s : Server Time) → WhenHeard (hear L h c s)
  unfolding hear
  hear-WhenHeard s =
      read (read_vector c.received h "" s.world) (read-ReadShut c.received "" s.world)
    where
      told :
          (b : Bool) (text : String) (w : World)
          → (b ≡ true → open_at w h ≡ false)
          → WhenHeard (
              if b
              then done (closing h) (record s { world = w })
              else done (heard h c text) (record s { world = w }))
      told true text w shut = shut refl
      told false text w shut = tt

      read :
          (o : Outcome World (Option ℕ × String))
          → ReadShut o
          → WhenHeard (elim o [
            | thrown e w ↦ thrown e (record s { world = w })
            | done (bytes_read, contents) w ↦
                if is_zero bytes_read
                then done (closing h) (record s { world = w })
                else done (heard h c contents) (record s { world = w })
          ])
      read (thrown e w) shut = tt
      read (done (n, text) w) shut = told (is_zero n) text w shut

  -- A connection that `onSocket` finds shut has its socket closed.
  pub hear-ShutAt :
      (s s' : Server Time) (p : MainAt Time) → hear L h c s ≡ done p s' → ShutAt p s'.world
  hear-ShutAt s s' p e = subst WhenHeard e (hear-WhenHeard s)

  abbrev WhenReplied : Server Time → Outcome (Server Time) (MainAt Time) → Type 0
  WhenReplied s (thrown f s') = Unit {0}
  WhenReplied s (done p s') = Replied h p × (s' ≡ s)

  settle-WhenReplied :
      (m : AnyInstance Time) (type : String) (s : Server Time)
      → WhenReplied s (settle L h c m type s)
  unfolding settle
  settle-WhenReplied m type s =
      typed (text_eq type ErrorResponse.type) (text_eq type LoginResponse.type)
        (get_or_throw L "object.joiningUsername" (to_json L m))
    where
      typed :
          (a b : Bool) (r : Except String)
          → WhenReplied s (
              if a
              then done (refusing h c m) s
              else if b
              then elim r [ throw e ↦ thrown e s | ok username ↦ done (naming h username m) s ]
              else done (pushing m) s)
      typed true b r = (refused, refl)
      typed false true (throw f) = tt
      typed false true (ok username) = (named, refl)
      typed false false r = (pushed, refl)

  conclude-WhenReplied :
      (o : Option (AnyInstance Time)) (s : Server Time) → WhenReplied s (conclude L h c o s)
  unfolding conclude
  conclude-WhenReplied none s = tt
  conclude-WhenReplied (some m) s = typed (get_or_throw L property_type (to_json L m))
    where
      typed :
          (r : Except String)
          → WhenReplied s (elim r [ throw e ↦ thrown e s | ok type ↦ settle L h c m type s ])
      typed (throw f) = tt
      typed (ok type) = settle-WhenReplied m type s

  reply-WhenReplied : (text : String) (s : Server Time) → WhenReplied s (reply L h c text s)
  unfolding reply
  reply-WhenReplied text s = parsed (from L text)
    where
      visited :
          (r : Except (Option (AnyInstance Time)))
          → WhenReplied s (elim r [ throw f ↦ thrown f s | ok o ↦ conclude L h c o s ])
      visited (throw f) = tt
      visited (ok o) = conclude-WhenReplied o s

      parsed :
          (r : Except Tree)
          → WhenReplied s (elim r [
            | throw f ↦ thrown f s
            | ok t ↦ elim (visit L (visitor c.now s.sockets) t) [
              | throw f ↦ thrown f s
              | ok o ↦ conclude L h c o s
            ]
          ])
      parsed (throw f) = tt
      parsed (ok t) = visited (visit L (visitor c.now s.sockets) t)

  -- The part of `onSocket` from the parse on leaves the server as it is.
  pub reply-Replied :
      (text : String) (s s' : Server Time) (p : MainAt Time)
      → reply L h c text s ≡ done p s'
      → Replied h p × (s' ≡ s)
  reply-Replied text s s' p e = subst (WhenReplied s) e (reply-WhenReplied text s)

  one_of :
      (b : Bool) (x y : AnyInstance Time)
      → (m : AnyInstance Time) × ((if b then some x else some y) ≡ some m)
  one_of true x y = (x, refl)
  one_of false x y = (y, refl)

  visit_login-some :
      (m : LoginRequest Time) (s : Server Time)
      → (r : AnyInstance Time) × (visit_login c.now s.sockets m ≡ some r)
  unfolding visit_login
  visit_login-some m s = one_of (name_in_use m.sender s.sockets) _ _

  settle-Returns : (m : AnyInstance Time) (s : Server Time) → Returns (settle L h c m (type_of m) s)
  unfolding settle
  settle-Returns (login_response m) s =
      (naming h m.joining_username (login_response m), s, rw (username-found L m) refl)
  settle-Returns (error_response m) s = (_, s, refl)
  settle-Returns (message_response m) s = (_, s, refl)
  settle-Returns (login_request m) s = (_, s, refl)
  settle-Returns (message_request m) s = (_, s, refl)

  conclude-Returns : (m : AnyInstance Time) (s : Server Time) → Returns (conclude L h c (some m) s)
  unfolding conclude
  conclude-Returns m s = rw (get_type-of L m, conclude) (settle-Returns m s)

  IsRequest-visit :
      (t : Tree) (s : Server Time)
      → IsRequest L t
      → (m : AnyInstance Time) × (visit L (visitor c.now s.sockets) t ≡ ok (some m))
  unfolding visit handle_login handle_message visit_message
  IsRequest-visit t s (inl (obj, m, e, p)) =
      let (response, v) = visit_login-some m s in (response, rw (e, visit) (rw p (ap ok v)))
  IsRequest-visit t s (inr (obj, m, e, p)) = (
    message_response (MessageResponse.message c.now m.sender m.content),
    rw (e, visit) (rw p refl),
  )

  -- A request is answered: nothing throws up to the next section.
  pub reply-Request :
      (text : String) (s : Server Time) → Request L text → Returns (reply L h c text s)
  unfolding reply
  reply-Request text s (t, e, request) =
      let (m, v) = IsRequest-visit t s request in rw (e, reply) (rw v (conclude-Returns m s))
