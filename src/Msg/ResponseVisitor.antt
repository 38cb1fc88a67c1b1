-- ===== src/Msg/ResponseVisitor.antt =====
-- response::abstract_message_visitor of server/lib/include/msg/visitor.hpp.
pub mod Dispatch
use Prim.Native.String.{◌++◌}
use se3313a_lab.Base.{
  String, Bool, false, Option, none, some, Except, ok, ◌>>=◌, List, [], ◌∷◌, text_eq, if◌then◌else◌,
}
use se3313a_lab.Boost.{Library, write_or_throw}
use se3313a_lab.Msg.Instance.{unknown_sender, extract_from}
use se3313a_lab.Msg.ErrorCode.{
  ErrorCode, malformed_request_no_type, malformed_request_bad_object_def,
}
use se3313a_lab.Msg.RequestVisitor.{find_handler}
use se3313a_lab.Msg.LoginResponse
use se3313a_lab.Msg.LoginResponse.{LoginResponse}
use se3313a_lab.Msg.MessageResponse
use se3313a_lab.Msg.MessageResponse.{MessageResponse}

-- The methods that a derived class may override; `R` is the template's return type. A method that
-- changes the visitor's state returns a function of that state.
pub record Visitor (Time R : Type 0) : Type 0 where
  pub visit_login : LoginResponse Time → R
  pub visit_message : MessageResponse Time → R
  pub error : String → ErrorCode → String → R

-- The base class, whose methods return `return_t()`.
abbrev pub default_visitor : {Time R : Type 0} → R → Visitor Time R
default_visitor r = record {
  visit_login = λ m. r;
  visit_message = λ m. r;
  error = λ originator code message. r;
}

module _ (L : Library) {R : Type 0} (v : Visitor L.Time R) where
  open L use {Tree, Time}

  -- the constructor's `onError`
  unfoldable pub on_error : String → Tree → Except R
  on_error type json = do
    text ← write_or_throw L false json
    ok (
        v.error unknown_sender malformed_request_bad_object_def
          ("Object was incorrectly defined for " ++ (type ++ (", json=" ++ text))))

  -- the function that the constructor stores under response::login::TYPE
  unfoldable pub handle_login : Tree → Except R
  unfolding on_error
  handle_login json = do
    value ← LoginResponse.from_json L json
    elim value [ none ↦ on_error "login" json | some response ↦ ok (v.visit_login response) ]

  -- the one under response::message::TYPE
  unfoldable pub handle_message : Tree → Except R
  unfolding on_error
  handle_message json = do
    value ← MessageResponse.from_json L json
    elim value [ none ↦ on_error "message" json | some response ↦ ok (v.visit_message response) ]

  abbrev pub prop_map : List (String × (Tree → Except R))
  prop_map = (LoginResponse.type, handle_login) ∷ (MessageResponse.type, handle_message) ∷ []

  unfoldable pub visit : Tree → Except R
  unfolding extract_from find_handler
  visit json = elim (extract_from L json) [
    | none ↦ do
      text ← write_or_throw L false json
      ok (
          v.error unknown_sender malformed_request_no_type
            ("Invalid response specified (json=\"" ++ (text ++ "\")")))
    | some (type, obj) ↦ elim (find_handler type prop_map) [
      | some handler ↦ handler obj
      | none ↦ ok (
          v.error unknown_sender malformed_request_no_type
            ("Invalid object type tag specified (type=\"" ++ (type ++ "\")")))
    ]
  ]
