-- ===== src/Msg/AnyInstance.antt =====
-- The five classes that derive from msg::instance, as one type; `toJson` and the message tests.
use se3313a_lab.Base.{String, Bool, true, false, Option, none, some, ◌≡◌, refl, text_eq}
use se3313a_lab.Boost.{Library}
use se3313a_lab.Msg.Instance.{get_or_throw, property_type}
use se3313a_lab.Msg.Instance.Fields.{get_type-to_json}
use se3313a_lab.Msg.LoginRequest
use se3313a_lab.Msg.LoginRequest.{LoginRequest}
use se3313a_lab.Msg.MessageRequest
use se3313a_lab.Msg.MessageRequest.{MessageRequest}
use se3313a_lab.Msg.LoginResponse
use se3313a_lab.Msg.LoginResponse.{LoginResponse}
use se3313a_lab.Msg.MessageResponse
use se3313a_lab.Msg.MessageResponse.{MessageResponse}
use se3313a_lab.Msg.ErrorResponse
use se3313a_lab.Msg.ErrorResponse.{ErrorResponse}
use se3313a_lab.Base.{ok}

pub data AnyInstance (Time : Type 0) : Type 0 where
  login_request : LoginRequest Time → AnyInstance Time
  message_request : MessageRequest Time → AnyInstance Time
  login_response : LoginResponse Time → AnyInstance Time
  message_response : MessageResponse Time → AnyInstance Time
  error_response : ErrorResponse Time → AnyInstance Time

-- S::TYPE
abbrev pub type_of : {Time : Type 0} → AnyInstance Time → String
type_of (login_request m) = LoginRequest.type
type_of (message_request m) = MessageRequest.type
type_of (login_response m) = LoginResponse.type
type_of (message_response m) = MessageResponse.type
type_of (error_response m) = ErrorResponse.type

-- `is_error_msg`, a dynamic cast of a pointer that may be null
abbrev pub is_error_msg : {Time : Type 0} → Option (AnyInstance Time) → Bool
is_error_msg none = false
is_error_msg (some (error_response m)) = true
is_error_msg (some _) = false

module _ (L : Library) where
  open L use {Tree, Time}

  unfoldable pub to_json : AnyInstance Time → Tree
  to_json (login_request m) = LoginRequest.to_json L m
  to_json (message_request m) = MessageRequest.to_json L m
  to_json (login_response m) = LoginResponse.to_json L m
  to_json (message_response m) = MessageResponse.to_json L m
  to_json (error_response m) = ErrorResponse.to_json L m

  -- The text at "type" in a message's tree is the type of the message's class.
  pub get_type-of :
      (m : AnyInstance Time) → get_or_throw L property_type (to_json m) ≡ ok (type_of m)
  unfolding to_json LoginRequest.to_json MessageRequest.to_json LoginResponse.to_json
      MessageResponse.to_json ErrorResponse.to_json
  get_type-of (login_request m) = get_type-to_json L _ _
  get_type-of (message_request m) = get_type-to_json L _ _
  get_type-of (login_response m) = get_type-to_json L _ _
  get_type-of (message_response m) = get_type-to_json L _ _
  get_type-of (error_response m) = get_type-to_json L _ _

  -- The test for an error by the text at "type" agrees with the test by the class.
  pub error_by_type :
      (m : AnyInstance Time) → text_eq (type_of m) ErrorResponse.type ≡ is_error_msg (some m)
  error_by_type (login_request m) = refl
  error_by_type _ = refl
