-- ===== src/Msg/RequestVisitor/Dispatch.antt =====
-- Which method `visit` calls.
use Prim.Native.String.{◌++◌}
use se3313a_lab.Base.{
  String, ◌≡◌, refl, ◌≢◌, true, false, json_parser_error, none, some, Except, ok, throw, text_eq,
  text_eq-ne, sym, Fault, eq_iff, Bool-cases, Option-cases, ◌⊎◌, inl, inr, Except-cases,
}
use se3313a_lab.Boost.{Library}
use se3313a_lab.Msg.Instance
use se3313a_lab.Msg.Instance.{unknown_sender, extract_from, property_type, property_object}
use se3313a_lab.Msg.Instance.Fields.{extract_from-to_json, text_ne}
use se3313a_lab.Msg.ErrorCode.{malformed_request_no_type}
use se3313a_lab.Msg.LoginRequest
use se3313a_lab.Msg.LoginRequest.{LoginRequest}
use se3313a_lab.Msg.MessageRequest
use se3313a_lab.Msg.MessageRequest.{MessageRequest}
use se3313a_lab.Msg.RequestVisitor.{
  Visitor, find_handler, handle_login, handle_message, prop_map, visit,
}

-- The tree lacks "type" or "object" and the JSON writer takes it, or its type is not one of the two
-- known.
abbrev pub IsForeign : (L : Library) → L.Tree → Type 0
IsForeign L json =
    ((extract_from L json ≡ none) × (L.can_write json ≡ true))
    ⊎ ((type : String) × (obj : L.Tree) × (extract_from L json ≡ some (type, obj))
        × (type ≢ LoginRequest.type)
        × (type ≢ MessageRequest.type))

module _ (L : Library) {R : Type 0} (v : Visitor L.Time R) where
  open L use {Tree, Time}

  -- The tree of a login request reaches `visitLogin` with the request, its time as printed.
  pub visit-login :
      (m : LoginRequest Time)
      → visit L v (LoginRequest.to_json L m) ≡ ok (v.visit_login (LoginRequest.printed L m))
  unfolding visit LoginRequest.to_json handle_login
  visit-login m =
      rw (extract_from-to_json L LoginRequest.type (LoginRequest.sub_to_json L m), visit)
        (rw (LoginRequest.from_json-login_request L m) refl)

  -- The tree of a message request reaches `visitMessage` with the request, its time as printed.
  pub visit-message :
      (m : MessageRequest Time)
      → visit L v (MessageRequest.to_json L m) ≡ ok (v.visit_message (MessageRequest.printed L m))
  unfolding visit MessageRequest.to_json handle_message
  visit-message m =
      rw (extract_from-to_json L MessageRequest.type (MessageRequest.sub_to_json L m), visit)
        (rw (MessageRequest.from_json-message_request L m) refl)

  find_handler-none :
      (type : String)
      → type ≢ LoginRequest.type
      → type ≢ MessageRequest.type
      → find_handler type (prop_map L v) ≡ none
  unfolding find_handler
  find_handler-none type a b =
      rw (text_eq-ne LoginRequest.type type (λ e. a (sym e)))
        (rw (text_eq-ne MessageRequest.type type (λ e. b (sym e))) refl)

  -- A tree of any other type is answered with the code for a request without a type.
  pub visit-unknown :
      (type : String) (sub : Tree)
      → type ≢ LoginRequest.type
      → type ≢ MessageRequest.type
      → visit L v (Instance.to_json L type sub)
        ≡ ok (
            v.error unknown_sender malformed_request_no_type
              ("Invalid object type tag specified (type=\"" ++ (type ++ "\")")))
  unfolding visit
  visit-unknown type sub a b =
      rw (extract_from-to_json L type sub, visit) (rw (find_handler-none type a b) refl)

  -- A foreign tree calls `error` with the unknown sender and the code for a request without a type.
  pub visit-foreign :
      (json : Tree)
      → IsForeign L json
      → (text : String) × (visit L v json
          ≡ ok (v.error unknown_sender malformed_request_no_type text))
  unfolding visit
  visit-foreign json (inl (e, k)) = (
    "Invalid request specified (json=\"" ++ (L.write_json false json ++ "\")"),
    rw (e, visit) (rw k refl),
  )
  visit-foreign json (inr (type, obj, e, a, b)) = (
    "Invalid object type tag specified (type=\"" ++ (type ++ "\")"),
    rw (e, visit) (rw (find_handler-none type a b) refl),
  )

  -- How a visit can end, with the code `malformed_request_bad_object_def` not among the answers.
  pub data Answer (json : Tree) : Except R → Type 0 where
    logged_in :
        {obj : Tree} {m : LoginRequest Time}
        → extract_from L json ≡ some (LoginRequest.type, obj)
        → LoginRequest.from_json L obj ≡ ok (some m)
        → Answer json (ok (v.visit_login m))
    messaged :
        {obj : Tree} {m : MessageRequest Time}
        → extract_from L json ≡ some (MessageRequest.type, obj)
        → MessageRequest.from_json L obj ≡ ok (some m)
        → Answer json (ok (v.visit_message m))
    threw :
        {obj : Tree} {e : Fault}
        → ((extract_from L json ≡ some (LoginRequest.type, obj))
            × (LoginRequest.from_json L obj ≡ throw e))
          ⊎ ((extract_from L json ≡ some (MessageRequest.type, obj))
              × (MessageRequest.from_json L obj ≡ throw e))
        → Answer json (throw e)
    untyped :
        {text : String}
        → IsForeign L json
        → Answer json (ok (v.error unknown_sender malformed_request_no_type text))
    unwritten :
        extract_from L json ≡ none
        → L.can_write json ≡ false
        → Answer json (throw json_parser_error)

  login-Answer :
      (json obj : Tree)
      → extract_from L json ≡ some (LoginRequest.type, obj)
      → Answer json (handle_login L v obj)
  unfolding handle_login
  login-Answer json obj e = elim (Except-cases (LoginRequest.from_json L obj)) [
    | inl (none, p) ↦ absurd (LoginRequest.from_json-ne-null L obj p)
    | inl (some m, p) ↦ rw (p, handle_login) (logged_in e p)
    | inr (f, p) ↦ rw (p, handle_login) (threw (inl (e, p)))
  ]

  message-Answer :
      (json obj : Tree)
      → extract_from L json ≡ some (MessageRequest.type, obj)
      → Answer json (handle_message L v obj)
  unfolding handle_message
  message-Answer json obj e = elim (Except-cases (MessageRequest.from_json L obj)) [
    | inl (none, p) ↦ absurd (MessageRequest.from_json-ne-null L obj p)
    | inl (some m, p) ↦ rw (p, handle_message) (messaged e p)
    | inr (f, p) ↦ rw (p, handle_message) (threw (inr (e, p)))
  ]

  tell : {a b : String} → text_eq a b ≡ false → b ≢ a
  tell h e = text_ne _ _ h (sym e)

  dispatched :
      (json obj : Tree) (type : String)
      → extract_from L json ≡ some (type, obj)
      → Answer json (visit L v json)
  unfolding visit find_handler
  dispatched json obj type e = elim (Bool-cases (text_eq LoginRequest.type type)) [
    | inl login ↦
        rw (e, visit) (rw login (login-Answer json obj (rw (sym ((eq_iff _ _).0 login)) at e)))
    | inr other ↦ elim (Bool-cases (text_eq MessageRequest.type type)) [
      | inl message ↦
          rw (e, visit)
            (rw (other, message) (message-Answer json obj (rw (sym ((eq_iff _ _).0 message)) at e)))
      | inr unknown ↦
          rw (e, visit)
            (rw (other, unknown) (untyped (inr (type, obj, e, tell other, tell unknown))))
    ]
  ]

  -- A visit calls `visitLogin` or `visitMessage` with the request that the tree holds, or throws
  -- what the request's parse throws, or calls `error` with the code for a request without a type,
  -- the latter only for a tree that lacks "type" or "object" or has another type. For a tree that
  -- lacks "type" or "object" and that the JSON writer does not take, it throws the exception of the
  -- writer instead.
  pub visit-Answer : (json : Tree) → Answer json (visit L v json)
  unfolding visit
  visit-Answer json = elim (Option-cases (extract_from L json)) [
    | inl e ↦ elim (Bool-cases (L.can_write json)) [
      | inl k ↦ rw (e, visit) (rw k (untyped (inl (e, k))))
      | inr k ↦ rw (e, visit) (rw k (unwritten e k))
    ]
    | inr ((type, obj), e) ↦ dispatched json obj type e
  ]
