-- ===== src/Msg/Printing.antt =====
-- Every message under the methods of msg::instance: `sender`, `dateTime`, `fromJson<T>` and `<<` of
-- server/lib/include/msg/instance.hpp.
pub mod RoundTrip
use Prim.Native.String.{◌++◌}
use se3313a_lab.Base.{false, String, ℕ, ◌<◌, ◌^◌, ◌≡◌, Option, none, some, Except, ok, throw}
use se3313a_lab.Boost.{Library}
use se3313a_lab.Msg.Instance
use se3313a_lab.Msg.ErrorCode.{to_u16, IsCanonical}
use se3313a_lab.Msg.LoginRequest
use se3313a_lab.Msg.MessageRequest
use se3313a_lab.Msg.LoginResponse
use se3313a_lab.Msg.MessageResponse
use se3313a_lab.Msg.ErrorResponse
use se3313a_lab.Msg.AnyInstance.{
  AnyInstance, login_request, message_request, login_response, message_response, error_response,
  to_json,
}

-- the method `sender`, which response::login overrides
abbrev pub sender : {Time : Type 0} → AnyInstance Time → String
sender (login_request m) = m.sender
sender (message_request m) = m.sender
sender (login_response m) = LoginResponse.sender m
sender (message_response m) = m.sender
sender (error_response m) = m.sender

-- the method `dateTime`
abbrev pub date_time : {Time : Type 0} → AnyInstance Time → Time
date_time (login_request m) = m.date_time
date_time (message_request m) = m.date_time
date_time (login_response m) = m.date_time
date_time (message_response m) = m.date_time
date_time (error_response m) = m.date_time

-- the class `T` of a template argument
pub data Class : Type 0 where
  request_login request_message response_login response_message response_error : Class

abbrev pub class_of : {Time : Type 0} → AnyInstance Time → Class
class_of (login_request m) = request_login
class_of (message_request m) = request_message
class_of (login_response m) = response_login
class_of (message_response m) = response_message
class_of (error_response m) = response_error

-- the conversion of the pointer to a derived class
abbrev pub as_instance :
    {Time T : Type 0}
    → (T → AnyInstance Time)
    → Except (Option T)
    → Except (Option (AnyInstance Time))
as_instance f (throw e) = throw e
as_instance f (ok none) = ok none
as_instance f (ok (some m)) = ok (some (f m))

module _ (L : Library) where
  open L use {Tree, Time, write_json}

  -- `instance::fromJson<T>`
  unfoldable pub from_json : Class → Tree → Except (Option (AnyInstance Time))
  from_json request_login json =
      as_instance login_request (Instance.from_json L (LoginRequest.from_json L) json)
  from_json request_message json =
      as_instance message_request (Instance.from_json L (MessageRequest.from_json L) json)
  from_json response_login json =
      as_instance login_response (Instance.from_json L (LoginResponse.from_json L) json)
  from_json response_message json =
      as_instance message_response (Instance.from_json L (MessageResponse.from_json L) json)
  from_json response_error json =
      as_instance error_response (Instance.from_json L (ErrorResponse.from_json L) json)

  -- `<<`, from what the stream held to what it holds then
  unfoldable pub print : String → AnyInstance Time → String
  print os inst = os ++ write_json false (to_json L inst)

  -- what a message's text keeps of it
  abbrev pub printed : AnyInstance Time → AnyInstance Time
  printed (login_request m) = login_request (LoginRequest.printed L m)
  printed (message_request m) = message_request (MessageRequest.printed L m)
  printed (login_response m) = login_response (LoginResponse.printed L m)
  printed (message_response m) = message_response (MessageResponse.printed L m)
  printed (error_response m) = error_response (ErrorResponse.printed L m)

-- An error's code fits 16 bits and is an enumerator, or no enumerator's number.
abbrev pub HasCode : {Time : Type 0} → AnyInstance Time → Type 0
HasCode (error_response m) = (to_u16 m.code < 2 ^ 16) × IsCanonical m.code
HasCode _ = Unit {0}
