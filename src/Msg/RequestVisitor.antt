-- ===== src/Msg/RequestVisitor.antt =====
-- request::abstract_message_visitor of server/lib/include/msg/visitor.hpp.
pub mod Dispatch
use Prim.Native.String.{◌++◌}
use se3313a_lab.Base.{
  String, Bool, false, Option, none, some, Except, ok, ◌>>=◌, List, [], ◌∷◌, text_eq, if◌then◌else◌,
}
use se3313a_lab.Boost.{Library, write_or_throw}
use se3313a_lab.Msg.Instance.{unknown_sender, extract_from}
use se3313a_lab.Msg.ErrorCode.{
  ErrorCode, malformed_request_no_type, malformed_request_bad_object_def,
}
use se3313a_lab.Msg.LoginRequest
use se3313a_lab.Msg.LoginRequest.{LoginRequest}
use se3313a_lab.Msg.MessageRequest
use se3313a_lab.Msg.MessageRequest.{MessageRequest}

-- The methods that a derived class may override; `R` is the template's return type. A method that
-- changes the visitor's state returns a function of that state.
pub record Visitor (Time R : Type 0) : Type 0 where
  pub visit_login : LoginRequest Time → R
  pub visit_message : MessageRequest Time → R
  pub error : String → ErrorCode → String → R

-- The base class, whose methods return `return_t()`.
abbrev pub default_visitor : {Time R : Type 0} → R → Visitor Time R
default_visitor r = record {
  visit_login = λ m. r;
  visit_message = λ m. r;
  error = λ originator code message. r;
}

-- `_propMap.find`
unfoldable pub find_handler : {H : Type 0} → String → List (String × H) → Option H
find_handler type [] = none
find_handler type ((t, h) ∷ map) = if text_eq t type then some h else find_handler type map

module _ (L : Library) {R : Type 0} (v : Visitor L.Time R) where
  open L use {Tree, Time}

  -- the constructor's `onError`
  unfoldable pub on_error : String → Tree → Except R
  on_error type json = do
    text ← write_or_throw L false json
    ok (
        v.error unknown_sender malformed_request_bad_object_def
          ("Object was incorrectly defined for " ++ (type ++ (", json=" ++ text))))

  -- the function that the constructor stores under request::login::TYPE
  unfoldable pub handle_login : Tree → Except R
  unfolding on_error
  handle_login json = do
    value ← LoginRequest.from_json L json
    elim value [ none ↦ on_error "login" json | some request ↦ ok (v.visit_login request) ]

  -- the one under request::message::TYPE
  unfoldable pub handle_message : Tree → Except R
  unfolding on_error
  handle_message json = do
    value ← MessageRequest.from_json L json
    elim value [ none ↦ on_error "message" json | some request ↦ ok (v.visit_message request) ]

  abbrev pub prop_map : List (String × (Tree → Except R))
  prop_map = (LoginRequest.type, handle_login) ∷ (MessageRequest.type, handle_message) ∷ []

  unfoldable pub visit : Tree → Except R
  unfolding extract_from find_handler
  visit json = elim (extract_from L json) [
    | none ↦ do
      text ← write_or_throw L false json
      ok (
          v.error unknown_sender malformed_request_no_type
            ("Invalid request specified (json=\"" ++ (text ++ "\")")))
    | some (type, obj) ↦ elim (find_handler type prop_map) [
      | some handler ↦ handler obj
      | none ↦ ok (
          v.error unknown_sender malformed_request_no_type
            ("Invalid object type tag specified (type=\"" ++ (type ++ "\")")))
    ]
  ]
