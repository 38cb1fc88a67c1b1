-- ===== src/Msg/MessageRequest.antt =====
-- request::message of server/lib/include/msg/message.hpp and server/lib/src/msg/message.cpp.
use se3313a_lab.Base.{String, ◌≡◌, ◌≢◌, refl, none, some, arith, Option, Except, ok, ◌>>=◌}
use se3313a_lab.Boost.{Library}
use se3313a_lab.Msg.Instance.{required, base_json, extract_common_params}
use se3313a_lab.Msg.Instance
use se3313a_lab.Msg.Instance.Fields.{
  Field-put, Common-put, base_json-Common, required-Field, extract_common_params-Common,
}

pub record MessageRequest (Time : Type 0) : Type 0 where
  pub date_time : Time
  pub sender : String
  pub content : String

abbrev pub type : String
type = "ca.uwo.eng.se3313.lab4.network.request.MessageRequest"

abbrev pub property_content : String
property_content = "content"

-- The constructor that takes the time from the clock, `now`.
abbrev pub message : {Time : Type 0} → Time → String → String → MessageRequest Time
message now from content = record { date_time = now; sender = from; content = content }

module _ (L : Library) where
  open L use {Tree, Time, put}

  unfoldable pub from_json : Tree → Except (Option (MessageRequest Time))
  unfolding required extract_common_params
  from_json json = do
    (date_time, sender) ← extract_common_params L json
    content ← required L property_content "Could not get message" json
    ok (some (record { date_time = date_time; sender = sender; content = content }))

  unfoldable pub sub_to_json : MessageRequest Time → Tree
  unfolding base_json
  sub_to_json m = put property_content m.content (base_json L m.date_time m.sender)

  unfoldable pub to_json : MessageRequest Time → Tree
  to_json m = Instance.to_json L type (sub_to_json m)

  abbrev pub printed : MessageRequest Time → MessageRequest Time
  printed m = record m { date_time = L.to_micros m.date_time }

  -- A message request comes back from its tree with its sender, its content and its time, as
  -- printed.
  pub from_json-message_request :
      (m : MessageRequest Time) → from_json (sub_to_json m) ≡ ok (some (printed m))
  unfolding from_json sub_to_json
  from_json-message_request m =
      let base = base_json L m.date_time m.sender in
      rw
        (extract_common_params-Common L m.date_time m.sender _ (
          Common-put L property_content m.content m.date_time m.sender base refl refl refl
            (base_json-Common L m.date_time m.sender)))
        (rw
          (required-Field L property_content m.content "Could not get message" _
            (Field-put L property_content m.content base refl))
          refl)

  -- A parse that does not throw gives no null pointer.
  pub from_json-ne-null : (json : Tree) → from_json json ≢ ok none
  unfolding from_json
  from_json-ne-null json = ground arith
