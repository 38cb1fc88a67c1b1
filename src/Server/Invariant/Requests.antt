-- ===== src/Server/Invariant/Requests.antt =====
-- `onSocket` keeps the invariant, whatever it receives.
use se3313a_lab.Base.{
  String, ℕ, ◌≡◌, Bool, true, false, Option, none, some, List, Outcome, done, thrown, left,
  Bool-cases, inl, inr, mem, Except, ok, throw, Except-cases, sym, ap, ◌∙◌, if◌then◌else◌,
}
use se3313a_lab.Boost.{Library}
use se3313a_lab.Msg.Json.{from, to_compact}
use se3313a_lab.Msg.AnyInstance.{
  AnyInstance, login_request, message_request, login_response, message_response, error_response,
  to_json, type_of,
}
use se3313a_lab.Msg.RequestVisitor.{visit}
use se3313a_lab.Msg.RequestVisitor.Dispatch.{
  Answer, logged_in, messaged, threw, untyped, unwritten, visit-Answer,
}
use se3313a_lab.Net.World.{World, fd_of}
use se3313a_lab.Net.Socket.{read_vector, write}
use se3313a_lab.Server.{
  Server, SocketCall, visitor, visit_login, visit_message, in_world, is_zero, respond, answer,
  handle, socket_event, disconnect,
}
use se3313a_lab.Server.Clients.{Client, name_in_use, associate, handles}
use se3313a_lab.Server.Clients.Fds.{
  Apart-associate, Distinct-associate, Held-associate, handles-associate, Like,
}
use se3313a_lab.Server.Names.{Unused, Unique-associate, name_in_use-Unused}
use se3313a_lab.Server.Login.{respond-login, answer-of}
use se3313a_lab.Server.Invariant.{Inv, Inv-Like}
use se3313a_lab.Server.Invariant.Frame.{Like-read, Like-write}
use se3313a_lab.Server.Invariant.Events.{disconnect-Inv}

module _ (L : Library) where
  open L use {Tree, Time}

  -- A login response of the visitor names a username that no client has.
  abbrev pub Vetted : List Client → Except (Option (AnyInstance Time)) → Type 0
  Vetted cs (ok (some (login_response m))) = Unused m.joining_username cs
  Vetted cs _ = Unit {0}

  pub visit-Vetted :
      (now : Time) (cs : List Client) (t : Tree) → Vetted cs (visit L (visitor now cs) t)
  unfolding visit_login visit_message
  visit-Vetted now cs t = vetted (visit-Answer L (visitor now cs) t)
    where
      vetted :
          {r : Except (Option (AnyInstance Time))} → Answer L (visitor now cs) t r → Vetted cs r
      vetted (logged_in {obj} {m} e p) = elim (Bool-cases (name_in_use m.sender cs)) [
        | inl used ↦ rw used tt
        | inr free ↦ rw free (name_in_use-Unused m.sender cs free)
      ]
      vetted (messaged e p) = tt
      vetted (threw x) = tt
      vetted (untyped x) = tt
      vetted (unwritten x k) = tt

  pub Inv-queue :
      (q : List (AnyInstance Time)) (s : Server Time) → Inv s → Inv (record s { message_queue = q })
  Inv-queue q s v = record {
    distinct = v.distinct;
    held = v.held;
    apart = v.apart;
    reserved_held = v.reserved_held;
    unique = v.unique;
    watched = v.watched;
  }

  pub Inv-associate :
      (fd : ℕ) (username : String) (s : Server Time)
      → Unused username s.sockets
      → Inv s
      → Inv (record s { sockets = associate s.world fd username s.sockets })
  Inv-associate fd username s u v =
      let w = s.world in
      record {
        distinct = Distinct-associate w fd username w s.sockets v.distinct;
        held = Held-associate w fd username w s.sockets v.held;
        apart = λ d m. Apart-associate w fd username w d s.sockets (v.apart d m);
        reserved_held = v.reserved_held;
        unique = Unique-associate w fd username s.sockets v.distinct u v.unique;
        watched = λ j. v.watched j ∙ ap (mem j) (sym (handles-associate w fd username s.sockets));
      }

  Inv-in_world :
      {A : Type 0} (o : Outcome World A) (s : Server Time)
      → Like s.world (left o)
      → Inv s
      → Inv (left (in_world o s tt))
  Inv-in_world (done a w) s like v = Inv-Like like v
  Inv-in_world (thrown e w) s like v = Inv-Like like v

  module _ (h : ℕ) (c : SocketCall Time) where
    respond-Inv :
        (m : AnyInstance Time) (s : Server Time)
        → Vetted s.sockets (ok (some m))
        → Inv s
        → Inv (left (respond L h c m (type_of m) s))
    unfolding respond
    respond-Inv (login_response m) s u v =
        rw (respond-login L h c m s, left)
          (Inv-queue _ _ (Inv-associate (fd_of s.world h) m.joining_username s u v))
    respond-Inv (error_response m) s u v =
        Inv-in_world (write c.written h (to_compact L (to_json L (error_response m))) s.world) s
          (Like-write c.written h (to_compact L (to_json L (error_response m))) s.world) v
    respond-Inv (message_response m) s u v = Inv-queue _ s v
    respond-Inv (login_request m) s u v = Inv-queue _ s v
    respond-Inv (message_request m) s u v = Inv-queue _ s v

    answer-Inv :
        (o : Option (AnyInstance Time)) (s : Server Time)
        → Vetted s.sockets (ok o)
        → Inv s
        → Inv (left (answer L h c o s))
    unfolding answer
    answer-Inv none s u v = v
    answer-Inv (some m) s u v = rw (answer-of L h c m s, left) (respond-Inv m s u v)

    handle-Inv : (text : String) (s : Server Time) → Inv s → Inv (left (handle L h c text s))
    unfolding handle
    handle-Inv text s v = elim (Except-cases (from L text)) [
      | inr (f, p) ↦ rw (p, handle, left) v
      | inl (t, p) ↦
          rw (p, handle, left)
            (after (visit L (visitor c.now s.sockets) t) (visit-Vetted c.now s.sockets t))
    ]
      where
        after :
            (r : Except (Option (AnyInstance Time)))
            → Vetted s.sockets r
            → Inv (left (elim r [ throw f ↦ thrown f s | ok o ↦ answer L h c o s ]))
        after (throw f) u = v
        after (ok o) u = answer-Inv o s u v

    -- If the server has the invariant and the socket is one of its clients, the server that
    -- `onSocket` leaves has the invariant too, also when it throws, whatever the connection
    -- brings: an end, a failure, or a text that parses or not. In particular no two clients have
    -- the same username.
    pub socket_event-Inv :
        (s : Server Time)
        → mem h (handles s.sockets) ≡ true
        → Inv s
        → Inv (left (socket_event L h c s))
    unfolding socket_event
    socket_event-Inv s listed v =
        after (read_vector c.received h "" s.world) (Like-read c.received h "" s.world)
      where
        told :
            (b : Bool) (contents : String) (s' : Server Time)
            → mem h (handles s'.sockets) ≡ true
            → Inv s'
            → Inv (left (if b then done tt (disconnect h s') else handle L h c contents s'))
        told true contents s' m i = disconnect-Inv h s' m i
        told false contents s' m i = handle-Inv contents s' i

        after :
            (o : Outcome World (Option ℕ × String))
            → Like s.world (left o)
            → Inv (
                left (elim o [
                  | thrown e w ↦ thrown e (record s { world = w })
                  | done (bytes_read, contents) w ↦
                      if is_zero bytes_read
                      then done tt (disconnect h (record s { world = w }))
                      else handle L h c contents (record s { world = w })
                ]))
        after (thrown e w) like = Inv-Like like v
        after (done (bytes_read, contents) w) like =
            told (is_zero bytes_read) contents (record s { world = w }) listed (Inv-Like like v)
