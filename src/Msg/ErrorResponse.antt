-- ===== src/Msg/ErrorResponse.antt =====
-- response::error of server/lib/include/msg/error.hpp and server/lib/src/msg/error.cpp.
use se3313a_lab.Base.{
  String, ◌≡◌, refl, some, Option, Except, ok, ◌>>=◌, none, throw, runtime_error, ptree_bad_data, ℕ,
  ◌<◌, ◌^◌, ap, ◌∙◌,
}
use se3313a_lab.Boost.{Library}
use se3313a_lab.Msg.Instance.{server_sender, required, base_json, extract_common_params}
use se3313a_lab.Msg.Instance
use se3313a_lab.Msg.Instance.Fields.{
  Field-put, Field-put_ne, Common-put, Common-put_u16, base_json-Common, required-Field,
  extract_common_params-Common,
}
use se3313a_lab.Msg.Instance.Fields.{text_ne}
use se3313a_lab.Msg.ErrorCode.{ErrorCode, to_u16, of_u16, IsCanonical}

pub record ErrorResponse (Time : Type 0) : Type 0 where
  pub date_time : Time
  pub sender : String
  pub originator : String
  pub code : ErrorCode
  pub message : String

abbrev pub type : String
type = "ca.uwo.eng.se3313.lab4.network.response.ServerError"

abbrev pub property_code : String
property_code = "code"

abbrev pub property_message : String
property_message = "message"

abbrev pub property_originator : String
property_originator = "originator"

-- The constructor that takes the time from the clock, `now`.
abbrev pub error : {Time : Type 0} → Time → String → ErrorCode → String → ErrorResponse Time
error now originator code message = record {
  date_time = now;
  sender = server_sender;
  originator = originator;
  code = code;
  message = message;
}

module _ (L : Library) where
  open L use {Tree, Time, put, put_u16, find, get_value_u16}

  -- `find` with its exception, then `get_value<uint16_t>`
  unfoldable pub required_code : Tree → Except ℕ
  required_code json = elim (find property_code json) [
    | none ↦ throw (runtime_error "Can not get error code from JSON")
    | some it ↦ elim (get_value_u16 it) [ none ↦ throw ptree_bad_data | some n ↦ ok n ]
  ]

  unfoldable pub from_json : Tree → Except (Option (ErrorResponse Time))
  unfolding required required_code extract_common_params of_u16
  from_json json = do
    (date_time, from) ← extract_common_params L json
    code ← required_code json
    message ← required L property_message "Can not get message from JSON" json
    originator ← required L property_originator "Can not get originator from JSON" json
    ok (
        some (record {
          date_time = date_time;
          sender = from;
          originator = originator;
          code = of_u16 code;
          message = message;
        }))

  unfoldable pub sub_to_json : ErrorResponse Time → Tree
  unfolding base_json to_u16
  sub_to_json m = put property_originator m.originator (
      put property_message m.message
        (put_u16 property_code (to_u16 m.code) (base_json L m.date_time m.sender)))

  unfoldable pub to_json : ErrorResponse Time → Tree
  to_json m = Instance.to_json L type (sub_to_json m)

  abbrev pub printed : ErrorResponse Time → ErrorResponse Time
  printed m = record m { date_time = L.to_micros m.date_time }

  required_code-put :
      (n : ℕ) (base : Tree) (m o : String)
      → n < 2 ^ 16
      → required_code
          (put property_originator o (put property_message m (put_u16 property_code n base)))
        ≡ ok n
  unfolding required_code
  required_code-put n base m o h =
      let (c, found, same) = L.find-put_u16 property_code n base refl h in
      let inner = put_u16 property_code n base in
      rw
        (
          L.find-put_ne property_code property_originator o (put property_message m inner) refl
                (text_ne _ _ refl)
              ∙ L.find-put_ne property_code property_message m inner refl (text_ne _ _ refl)
              ∙ found,
          required_code,
        )
        (rw same refl)

  -- An error response whose code fits 16 bits and is an enumerator, or no enumerator's number, comes
  -- back from its tree with its sender, originator, code and message, and with its time, as printed.
  pub from_json-error_response :
      (m : ErrorResponse Time)
      → to_u16 m.code < 2 ^ 16
      → IsCanonical m.code
      → from_json (sub_to_json m) ≡ ok (some (printed m))
  unfolding from_json sub_to_json
  from_json-error_response m small canonical =
      let base = base_json L m.date_time m.sender in
      let coded = put_u16 property_code (to_u16 m.code) base in
      let inner = put property_message m.message coded in
      rw
        (extract_common_params-Common L m.date_time m.sender _ (
          Common-put L property_originator m.originator m.date_time m.sender inner refl refl refl (
            Common-put L property_message m.message m.date_time m.sender coded refl refl refl (
              Common-put_u16 L property_code (to_u16 m.code) m.date_time m.sender base refl refl
                refl (base_json-Common L m.date_time m.sender)))))
        (rw (required_code-put (to_u16 m.code) base m.message m.originator small) (
          rw
            (required-Field L property_message m.message "Can not get message from JSON" _ (
              Field-put_ne L property_message property_originator m.originator m.message inner refl
                refl (Field-put L property_message m.message coded refl)))
            (rw
              (required-Field L property_originator m.originator "Can not get originator from JSON"
                _ (Field-put L property_originator m.originator inner refl))
              (ap (λ (c : ErrorCode). ok (some (record (printed m) { code = c }))) canonical))))
