-- ===== src/Msg/MessageResponse.antt =====
-- response::message of server/lib/include/msg/message.hpp and server/lib/src/msg/message.cpp.
use se3313a_lab.Base.{String, ◌≡◌, ◌≢◌, refl, none, some, arith, Option, Except, ok, ◌>>=◌}
use se3313a_lab.Boost.{Library}
use se3313a_lab.Msg.Instance.{server_sender, required, base_json, extract_common_params}
use se3313a_lab.Msg.Instance
use se3313a_lab.Msg.Instance.Fields.{
  Field-put, Field-put_ne, Common-put, base_json-Common, required-Field,
  extract_common_params-Common,
}

pub record MessageResponse (Time : Type 0) : Type 0 where
  pub date_time : Time
  pub sender : String
  pub originator : String
  pub content : String

abbrev pub type : String
type = "ca.uwo.eng.se3313.lab4.network.response.MessageResponse"

abbrev pub property_content : String
property_content = "content"

abbrev pub property_originator : String
property_originator = "originator"

-- The constructor that takes the time from the clock, `now`.
abbrev pub message : {Time : Type 0} → Time → String → String → MessageResponse Time
message now originator content = record {
  date_time = now;
  sender = server_sender;
  originator = originator;
  content = content;
}

module _ (L : Library) where
  open L use {Tree, Time, put}

  unfoldable pub from_json : Tree → Except (Option (MessageResponse Time))
  unfolding required extract_common_params
  from_json json = do
    (date_time, from) ← extract_common_params L json
    content ← required L property_content "Could not get message." json
    originator ← required L property_originator "Could not get originator." json
    ok (
        some (record {
          date_time = date_time;
          sender = from;
          originator = originator;
          content = content;
        }))

  unfoldable pub sub_to_json : MessageResponse Time → Tree
  unfolding base_json
  sub_to_json m =
      put property_content m.content
        (put property_originator m.originator (base_json L m.date_time m.sender))

  unfoldable pub to_json : MessageResponse Time → Tree
  to_json m = Instance.to_json L type (sub_to_json m)

  abbrev pub printed : MessageResponse Time → MessageResponse Time
  printed m = record m { date_time = L.to_micros m.date_time }

  -- A message response comes back from its tree with its sender, originator and content, and with
  -- its time, as printed.
  pub from_json-message_response :
      (m : MessageResponse Time) → from_json (sub_to_json m) ≡ ok (some (printed m))
  unfolding from_json sub_to_json
  from_json-message_response m =
      let base = base_json L m.date_time m.sender in
      let inner = put property_originator m.originator base in
      rw
        (extract_common_params-Common L m.date_time m.sender _ (
          Common-put L property_content m.content m.date_time m.sender inner refl refl refl (
            Common-put L property_originator m.originator m.date_time m.sender base refl refl refl
              (base_json-Common L m.date_time m.sender))))
        (rw
          (required-Field L property_content m.content "Could not get message." _
            (Field-put L property_content m.content inner refl))
          (rw
            (required-Field L property_originator m.originator "Could not get originator." _ (
              Field-put_ne L property_originator property_content m.content m.originator inner refl
                refl (Field-put L property_originator m.originator base refl)))
            refl))

  -- A parse that does not throw gives no null pointer.
  pub from_json-ne-null : (json : Tree) → from_json json ≢ ok none
  unfolding from_json
  from_json-ne-null json = ground arith
