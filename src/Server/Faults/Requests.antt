-- ===== src/Server/Faults/Requests.antt =====
-- Which texts of a client end the server in `onSocket`.
use se3313a_lab.Base.{
  String, ℕ, ◌≡◌, refl, sym, ap, ◌∙◌, ◌≢◌, true, false, Option, none, some, Except, ok, throw,
  Outcome, done, thrown, Fault, null_dereference, json_parser_error, inl, inr, ◌⊎◌, Except-cases,
  List, Bool-cases,
}
use se3313a_lab.Boost.{Library}
use se3313a_lab.Msg.Json.{from, clean}
use se3313a_lab.Msg.Instance.{extract_from}
use se3313a_lab.Msg.LoginRequest
use se3313a_lab.Msg.LoginRequest.{LoginRequest}
use se3313a_lab.Msg.MessageRequest
use se3313a_lab.Msg.MessageRequest.{MessageRequest}
use se3313a_lab.Msg.AnyInstance.{AnyInstance}
use se3313a_lab.Msg.RequestVisitor.{visit}
use se3313a_lab.Msg.RequestVisitor.Dispatch.{
  Answer, logged_in, messaged, threw, untyped, unwritten, visit-Answer, IsForeign, visit-foreign,
}
use se3313a_lab.Net.World.{open_at, set_open}
use se3313a_lab.Net.Socket.{read_vector}
use se3313a_lab.Net.Socket.Laws.{read_vector_failed}
use se3313a_lab.Server.{
  visit_login, visit_message, Server, SocketCall, visitor, answer, handle, socket_event,
}
use se3313a_lab.Server.Clients.{Client, name_in_use}
use se3313a_lab.Server.Login.{socket_event-handle}

module _ (L : Library) where
  open L use {Tree, Time}

  -- The tree is a login request or a message request that parses.
  abbrev pub IsRequest : Tree → Type 0
  IsRequest t =
      ((obj : Tree) × (m : LoginRequest Time) × (extract_from L t ≡ some (LoginRequest.type, obj))
        × (LoginRequest.from_json L obj ≡ ok (some m)))
      ⊎ ((obj : Tree) × (m : MessageRequest Time) × (extract_from L t
            ≡ some (MessageRequest.type, obj))
          × (MessageRequest.from_json L obj ≡ ok (some m)))

  -- How the visit of a tree ends, told from the tree alone.
  abbrev pub Ending : Tree → Except (Option (AnyInstance Time)) → Type 0
  Ending t (ok none) = IsForeign L t
  Ending t (ok (some m)) = IsRequest t
  Ending t (throw e) = Unit {0}

  login-Ending :
      (now : Time) (cs : List Client) (t : Tree) (m : LoginRequest Time)
      → IsRequest t
      → Ending t (ok (visit_login now cs m))
  unfolding visit_login
  login-Ending now cs t m r = elim (Bool-cases (name_in_use m.sender cs)) [
    | inl e ↦ rw e r
    | inr e ↦ rw e r
  ]

  visit-Ending : (now : Time) (cs : List Client) (t : Tree) → Ending t (visit L (visitor now cs) t)
  unfolding visit_message
  visit-Ending now cs t = ending (visit-Answer L (visitor now cs) t)
    where
      ending : {r : Except (Option (AnyInstance Time))} → Answer L (visitor now cs) t r → Ending t r
      ending (logged_in {obj} {m} e p) = login-Ending now cs t m (inl (obj, m, e, p))
      ending (messaged {obj} {m} e p) = inr (obj, m, e, p)
      ending (threw x) = tt
      ending (untyped x) = x
      ending (unwritten x k) = tt

  from-empty : L.read_json "" ≡ none → from L "" ≡ throw json_parser_error
  unfolding from clean
  from-empty j = rw (j, from) refl

  pub handle-throw :
      (h : ℕ) (c : SocketCall Time) (s : Server Time) (text : String) (f : Fault)
      → from L text ≡ throw f
      → handle L h c text s ≡ thrown f s
  unfolding handle
  handle-throw h c s text f p = rw (p, handle) refl

  module _ (h : ℕ) (c : SocketCall Time) (s : Server Time) where
    -- the end of `handle`, from what the visitor returned
    abbrev concluded : Except (Option (AnyInstance Time)) → Outcome (Server Time) (Unit {0})
    concluded (throw f) = thrown f s
    concluded (ok o) = answer L h c o s

    IsRequest-of :
        (t : Tree) (s' : Server Time) (r : Except (Option (AnyInstance Time)))
        → Ending t r
        → concluded r ≡ done tt s'
        → IsRequest t
    unfolding answer
    IsRequest-of t s' (throw f) x q = cc
    IsRequest-of t s' (ok none) x q = cc
    IsRequest-of t s' (ok (some m)) x q = x

    handle-concluded :
        (text : String) (t : Tree)
        → from L text ≡ ok t
        → handle L h c text s ≡ concluded (visit L (visitor c.now s.sockets) t)
    unfolding handle
    handle-concluded text t p = rw (p, handle) (split (visit L (visitor c.now s.sockets) t))
      where
        split :
            (r : Except (Option (AnyInstance Time)))
            → elim r [ throw f ↦ thrown f s | ok o ↦ answer L h c o s ] ≡ concluded r
        split (throw f) = refl
        split (ok o) = refl

    thrown-ne-done :
        (f : Fault) (s' : Server Time)
        → ◌≢◌ {A = Outcome (Server Time) (Unit {0})} (thrown f s) (done tt s')
    thrown-ne-done f s' q = cc

    answered_visit :
        (text : String) (s' : Server Time)
        → handle L h c text s ≡ done tt s'
        → (t : Tree) × (from L text ≡ ok t) × IsRequest t
    answered_visit text s' e = elim (Except-cases (from L text)) [
      | inr (f, p) ↦ absurd (thrown-ne-done f s' (sym (handle-throw h c s text f p) ∙ e))
      | inl (t, p) ↦ (
        t,
        p,
        IsRequest-of t s' (visit L (visitor c.now s.sockets) t) (visit-Ending c.now s.sockets t)
            (sym (handle-concluded text t p) ∙ e),
      )
    ]

    -- If `onSocket` returns after it has received, from an open socket, a text that is not empty,
    -- then the text parses to a tree that is a login request or a message request whose fields
    -- parse too: any other text makes it throw or dereference a null pointer.
    pub answered_only_requests :
        (text : String) (s' : Server Time)
        → open_at s.world h ≡ true
        → c.received ≡ some text
        → text ≢ ""
        → socket_event L h c s ≡ done tt s'
        → (t : Tree) × (from L text ≡ ok t) × IsRequest t
    answered_only_requests text s' o r n e =
        answered_visit text s' (sym (socket_event-handle L h c text s o r n) ∙ e)

    -- When `onSocket` receives, from an open socket, a text that is not empty and parses to a tree
    -- without "type" or "object" that the JSON writer takes, or of a type that is neither request's,
    -- it dereferences the null pointer that `error` returns.
    pub foreign_null :
        (text : String) (t : Tree)
        → open_at s.world h ≡ true
        → c.received ≡ some text
        → text ≢ ""
        → from L text ≡ ok t
        → IsForeign L t
        → socket_event L h c s ≡ thrown null_dereference s
    unfolding handle answer
    foreign_null text t o r n p x =
        let (message, v) = visit-foreign L (visitor c.now s.sockets) t x in
        socket_event-handle L h c text s o r n ∙ rw (p, handle) (rw v refl)

    -- If the JSON reader refuses the empty text, a failed ::recv on an open socket closes the
    -- socket object and makes `onSocket` throw the exception of the reader.
    pub failed_receive_throws :
        open_at s.world h ≡ true
        → c.received ≡ none
        → L.read_json "" ≡ none
        → socket_event L h c s
          ≡ thrown json_parser_error (record s { world = set_open h false s.world })
    unfolding socket_event
    failed_receive_throws o r j =
        let e : read_vector c.received h "" s.world ≡ done (none, "") (set_open h false s.world) =
          ap (λ x. read_vector x h "" s.world) r ∙ read_vector_failed "" h s.world o in
        rw (e, socket_event)
          (handle-throw h c (record s { world = set_open h false s.world }) "" json_parser_error
            (from-empty j))
