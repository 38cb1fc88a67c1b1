-- ===== src/Msg/ResponseVisitor/Dispatch.antt =====
-- Which method `visit` calls.
use Prim.Native.String.{◌++◌}
use se3313a_lab.Base.{
  String, ◌≡◌, refl, ◌≢◌, true, false, json_parser_error, none, some, Except, ok, throw, text_eq,
  text_eq-ne, sym, Fault, eq_iff, Bool-cases, Option-cases, ◌⊎◌, inl, inr, Except-cases,
}
use se3313a_lab.Boost.{Library}
use se3313a_lab.Msg.Instance
use se3313a_lab.Msg.Instance.{unknown_sender, extract_from, property_type, property_object}
use se3313a_lab.Msg.Instance.Fields.{extract_from-to_json, text_ne}
use se3313a_lab.Msg.ErrorCode.{malformed_request_no_type}
use se3313a_lab.Msg.RequestVisitor.{find_handler}
use se3313a_lab.Msg.ErrorResponse
use se3313a_lab.Msg.ErrorResponse.{ErrorResponse}
use se3313a_lab.Msg.LoginResponse
use se3313a_lab.Msg.LoginResponse.{LoginResponse}
use se3313a_lab.Msg.MessageResponse
use se3313a_lab.Msg.MessageResponse.{MessageResponse}
use se3313a_lab.Msg.ResponseVisitor.{Visitor, handle_login, handle_message, prop_map, visit}

-- The tree lacks "type" or "object" and the JSON writer takes it, or its type is not one of the two
-- known.
abbrev pub IsForeign : (L : Library) → L.Tree → Type 0
IsForeign L json =
    ((extract_from L json ≡ none) × (L.can_write json ≡ true))
    ⊎ ((type : String) × (obj : L.Tree) × (extract_from L json ≡ some (type, obj))
        × (type ≢ LoginResponse.type)
        × (type ≢ MessageResponse.type))

module _ (L : Library) {R : Type 0} (v : Visitor L.Time R) where
  open L use {Tree, Time}

  -- The tree of a login response reaches `visitLogin` with the response, its time as printed.
  pub visit-login :
      (m : LoginResponse Time)
      → visit L v (LoginResponse.to_json L m) ≡ ok (v.visit_login (LoginResponse.printed L m))
  unfolding visit LoginResponse.to_json handle_login
  visit-login m =
      rw (extract_from-to_json L LoginResponse.type (LoginResponse.sub_to_json L m), visit)
        (rw (LoginResponse.from_json-login_response L m) refl)

  -- The tree of a message response reaches `visitMessage` with the response, its time as printed.
  pub visit-message :
      (m : MessageResponse Time)
      → visit L v (MessageResponse.to_json L m) ≡ ok (v.visit_message (MessageResponse.printed L m))
  unfolding visit MessageResponse.to_json handle_message
  visit-message m =
      rw (extract_from-to_json L MessageResponse.type (MessageResponse.sub_to_json L m), visit)
        (rw (MessageResponse.from_json-message_response L m) refl)

  find_handler-none :
      (type : String)
      → type ≢ LoginResponse.type
      → type ≢ MessageResponse.type
      → find_handler type (prop_map L v) ≡ none
  unfolding find_handler
  find_handler-none type a b =
      rw (text_eq-ne LoginResponse.type type (λ e. a (sym e)))
        (rw (text_eq-ne MessageResponse.type type (λ e. b (sym e))) refl)

  -- A tree of any other type is answered with the code for a request without a type.
  pub visit-unknown :
      (type : String) (sub : Tree)
      → type ≢ LoginResponse.type
      → type ≢ MessageResponse.type
      → visit L v (Instance.to_json L type sub)
        ≡ ok (
            v.error unknown_sender malformed_request_no_type
              ("Invalid object type tag specified (type=\"" ++ (type ++ "\")")))
  unfolding visit
  visit-unknown type sub a b =
      rw (extract_from-to_json L type sub, visit) (rw (find_handler-none type a b) refl)

  -- An error response is not recognised: `error` is called with the code for a request without a
  -- type, and neither the code nor the text of the response reaches the visitor.
  pub visit-error :
      (m : ErrorResponse Time)
      → visit L v (ErrorResponse.to_json L m)
        ≡ ok (
            v.error unknown_sender malformed_request_no_type
              ("Invalid object type tag specified (type=\"" ++ (ErrorResponse.type ++ "\")")))
  unfolding ErrorResponse.to_json
  visit-error m =
      visit-unknown ErrorResponse.type (ErrorResponse.sub_to_json L m) (text_ne _ _ refl)
        (text_ne _ _ refl)

  -- A foreign tree calls `error` with the unknown sender and the code for a request without a type.
  pub visit-foreign :
      (json : Tree)
      → IsForeign L json
      → (text : String) × (visit L v json
          ≡ ok (v.error unknown_sender malformed_request_no_type text))
  unfolding visit
  visit-foreign json (inl (e, k)) = (
    "Invalid response specified (json=\"" ++ (L.write_json false json ++ "\")"),
    rw (e, visit) (rw k refl),
  )
  visit-foreign json (inr (type, obj, e, a, b)) = (
    "Invalid object type tag specified (type=\"" ++ (type ++ "\")"),
    rw (e, visit) (rw (find_handler-none type a b) refl),
  )

  -- How a visit can end, with the code `malformed_request_bad_object_def` not among the answers.
  pub data Answer (json : Tree) : Except R → Type 0 where
    logged_in :
        {obj : Tree} {m : LoginResponse Time}
        → extract_from L json ≡ some (LoginResponse.type, obj)
        → LoginResponse.from_json L obj ≡ ok (some m)
        → Answer json (ok (v.visit_login m))
    messaged :
        {obj : Tree} {m : MessageResponse Time}
        → extract_from L json ≡ some (MessageResponse.type, obj)
        → MessageResponse.from_json L obj ≡ ok (some m)
        → Answer json (ok (v.visit_message m))
    threw :
        {obj : Tree} {e : Fault}
        → ((extract_from L json ≡ some (LoginResponse.type, obj))
            × (LoginResponse.from_json L obj ≡ throw e))
          ⊎ ((extract_from L json ≡ some (MessageResponse.type, obj))
              × (MessageResponse.from_json L obj ≡ throw e))
        → Answer json (throw e)
    untyped :
        {text : String}
        → IsForeign L json
        → Answer json (ok (v.error unknown_sender malformed_request_no_type text))
    unwritten :
        extract_from L json ≡ none
        → L.can_write json ≡ false
        → Answer json (throw json_parser_error)

  login-Answer :
      (json obj : Tree)
      → extract_from L json ≡ some (LoginResponse.type, obj)
      → Answer json (handle_login L v obj)
  unfolding handle_login
  login-Answer json obj e = elim (Except-cases (LoginResponse.from_json L obj)) [
    | inl (none, p) ↦ absurd (LoginResponse.from_json-ne-null L obj p)
    | inl (some m, p) ↦ rw (p, handle_login) (logged_in e p)
    | inr (f, p) ↦ rw (p, handle_login) (threw (inl (e, p)))
  ]

  message-Answer :
      (json obj : Tree)
      → extract_from L json ≡ some (MessageResponse.type, obj)
      → Answer json (handle_message L v obj)
  unfolding handle_message
  message-Answer json obj e = elim (Except-cases (MessageResponse.from_json L obj)) [
    | inl (none, p) ↦ absurd (MessageResponse.from_json-ne-null L obj p)
    | inl (some m, p) ↦ rw (p, handle_message) (messaged e p)
    | inr (f, p) ↦ rw (p, handle_message) (threw (inr (e, p)))
  ]

  tell : {a b : String} → text_eq a b ≡ false → b ≢ a
  tell h e = text_ne _ _ h (sym e)

  dispatched :
      (json obj : Tree) (type : String)
      → extract_from L json ≡ some (type, obj)
      → Answer json (visit L v json)
  unfolding visit find_handler
  dispatched json obj type e = elim (Bool-cases (text_eq LoginResponse.type type)) [
    | inl login ↦
        rw (e, visit) (rw login (login-Answer json obj (rw (sym ((eq_iff _ _).0 login)) at e)))
    | inr other ↦ elim (Bool-cases (text_eq MessageResponse.type type)) [
      | inl message ↦
          rw (e, visit)
            (rw (other, message) (message-Answer json obj (rw (sym ((eq_iff _ _).0 message)) at e)))
      | inr unknown ↦
          rw (e, visit)
            (rw (other, unknown) (untyped (inr (type, obj, e, tell other, tell unknown))))
    ]
  ]

  -- A visit calls `visitLogin` or `visitMessage` with the response that the tree holds, or throws
  -- what the response's parse throws, or calls `error` with the code for a request without a type,
  -- the latter only for a tree that lacks "type" or "object" or has another type.
  pub visit_response-Answer : (json : Tree) → Answer json (visit L v json)
  unfolding visit
  visit_response-Answer json = elim (Option-cases (extract_from L json)) [
    | inl e ↦ elim (Bool-cases (L.can_write json)) [
      | inl k ↦ rw (e, visit) (rw k (untyped (inl (e, k))))
      | inr k ↦ rw (e, visit) (rw k (unwritten e k))
    ]
    | inr ((type, obj), e) ↦ dispatched json obj type e
  ]
