-- ===== src/Server/Threads/Sections.antt =====
-- The sections of `onSocket`, one after the other with nothing between.
use se3313a_lab.Base.{
  String, ℕ, Bool, true, false, ◌≡◌, refl, Option, none, some, if◌then◌else◌, text_eq, Except, ok,
  throw, Outcome, done, thrown, null_dereference, Bool-cases, inl, inr,
}
use se3313a_lab.Boost.{Library}
use se3313a_lab.Msg.Json.{from, to_compact}
use se3313a_lab.Msg.Instance.{get_or_throw, property_type}
use se3313a_lab.Msg.LoginResponse
use se3313a_lab.Msg.ErrorResponse
use se3313a_lab.Msg.AnyInstance.{AnyInstance, to_json}
use se3313a_lab.Msg.RequestVisitor.{visit}
use se3313a_lab.Net.World.{World}
use se3313a_lab.Net.Socket.{read_vector, write}
use se3313a_lab.Server.{
  Server, SocketCall, visitor, in_world, is_zero, disconnect, name_client, enqueue, respond, answer,
  handle, socket_event,
}
use se3313a_lab.Server.Listen.{stop}
use se3313a_lab.Server.Threads.{
  MainAt, free, entering, closing, heard, refusing, stopping, naming, pushing, enter_section, hear,
  settle, conclude, reply, name_section, push_section,
}

module _ (L : Library) where
  open L use {Tree, Time}

  -- The sections from one point to the end of the callback. None leads back to `heard`: that place
  -- is a fault here, so that what is equal to the callback does not come to it.
  abbrev pub last_sections : MainAt Time → Server Time → Outcome (Server Time) (Unit {0})
  last_sections free s = done tt s
  last_sections (closing h) s = done tt (disconnect h s)
  last_sections (heard h c text) s = thrown null_dereference s
  last_sections (refusing h c m) s =
      in_world (write c.written h (to_compact L (to_json L m)) s.world) s tt
  last_sections (naming h username m) s = done tt (push_section L m (name_section L h username s))
  last_sections (pushing m) s = done tt (push_section L m s)
  last_sections (entering h) s = done tt (enter_section L h s)
  last_sections stopping s = done tt (stop s)

  abbrev pub finished : Outcome (Server Time) (MainAt Time) → Outcome (Server Time) (Unit {0})
  finished (thrown e s) = thrown e s
  finished (done p s) = last_sections p s

  abbrev pub sections : Outcome (Server Time) (MainAt Time) → Outcome (Server Time) (Unit {0})
  sections (thrown e s) = thrown e s
  sections (done (heard h c text) s) = finished (reply L h c text s)
  sections (done p s) = last_sections p s

  module _ (h : ℕ) (c : SocketCall Time) where
    settle-respond :
        (m : AnyInstance Time) (type : String) (s : Server Time)
        → finished (settle L h c m type s) ≡ respond L h c m type s
    unfolding settle respond name_client
    settle-respond m type s = elim (Bool-cases (text_eq type ErrorResponse.type)) [
      | inl e ↦ rw e refl
      | inr e ↦ elim (Bool-cases (text_eq type LoginResponse.type)) [
        | inl l ↦ rw (e, l) (given (get_or_throw L "object.joiningUsername" (to_json L m)))
        | inr l ↦ rw (e, l) refl
      ]
    ]
      where
        given :
            (r : Except String)
            → finished
                (elim r [ throw f ↦ thrown f s | ok username ↦ done (naming h username m) s ])
              ≡ enqueue L m (elim r [
                | throw f ↦ thrown f s
                | ok username ↦ done tt (name_section L h username s)
              ])
        given (throw f) = refl
        given (ok username) = refl

    conclude-answer :
        (o : Option (AnyInstance Time)) (s : Server Time)
        → finished (conclude L h c o s) ≡ answer L h c o s
    unfolding conclude answer
    conclude-answer none s = refl
    conclude-answer (some m) s = typed (get_or_throw L property_type (to_json L m))
      where
        typed :
            (r : Except String)
            → finished (elim r [ throw f ↦ thrown f s | ok type ↦ settle L h c m type s ])
              ≡ elim r [ throw f ↦ thrown f s | ok type ↦ respond L h c m type s ]
        typed (throw f) = refl
        typed (ok type) = settle-respond m type s

    reply-handle :
        (text : String) (s : Server Time) → finished (reply L h c text s) ≡ handle L h c text s
    unfolding reply handle
    reply-handle text s = parsed (from L text)
      where
        visited :
            (r : Except (Option (AnyInstance Time)))
            → finished (elim r [ throw f ↦ thrown f s | ok o ↦ conclude L h c o s ])
              ≡ elim r [ throw f ↦ thrown f s | ok o ↦ answer L h c o s ]
        visited (throw f) = refl
        visited (ok o) = conclude-answer o s

        parsed :
            (r : Except Tree)
            → finished (elim r [
              | throw f ↦ thrown f s
              | ok t ↦ elim (visit L (visitor c.now s.sockets) t) [
                | throw f ↦ thrown f s
                | ok o ↦ conclude L h c o s
              ]
            ])
              ≡ elim r [
                | throw f ↦ thrown f s
                | ok t ↦ elim (visit L (visitor c.now s.sockets) t) [
                  | throw f ↦ thrown f s
                  | ok o ↦ answer L h c o s
                ]
              ]
        parsed (throw f) = refl
        parsed (ok t) = visited (visit L (visitor c.now s.sockets) t)

    -- For every server, handle and answer of the system, the sections of `onSocket`, one after the
    -- other with nothing in between, do what `onSocket` does as one function, exceptions and the
    -- state they leave included.
    pub sections-socket_event : (s : Server Time) → sections (hear L h c s) ≡ socket_event L h c s
    unfolding hear socket_event
    sections-socket_event s = read (read_vector c.received h "" s.world)
      where
        told :
            (b : Bool) (text : String) (s' : Server Time)
            → sections (if b then done (closing h) s' else done (heard h c text) s')
              ≡ (if b then done tt (disconnect h s') else handle L h c text s')
        told true text s' = refl
        told false text s' = reply-handle text s'

        read :
            (o : Outcome World (Option ℕ × String))
            → sections (elim o [
              | thrown f w ↦ thrown f (record s { world = w })
              | done (n, text) w ↦
                  if is_zero n
                  then done (closing h) (record s { world = w })
                  else done (heard h c text) (record s { world = w })
            ])
              ≡ elim o [
                | thrown f w ↦ thrown f (record s { world = w })
                | done (n, text) w ↦
                    if is_zero n
                    then done tt (disconnect h (record s { world = w }))
                    else handle L h c text (record s { world = w })
              ]
        read (thrown f w) = refl
        read (done (n, text) w) = told (is_zero n) text (record s { world = w })
