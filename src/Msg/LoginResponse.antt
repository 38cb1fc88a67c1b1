-- ===== src/Msg/LoginResponse.antt =====
-- response::login of server/lib/include/msg/login.hpp and server/lib/src/msg/login.cpp.
use se3313a_lab.Base.{String, ◌≡◌, ◌≢◌, refl, none, some, arith, Option, Except, ok, ◌>>=◌}
use se3313a_lab.Boost.{Library}
use se3313a_lab.Msg.Instance.{server_sender, required, base_json, extract_common_params}
use se3313a_lab.Msg.Instance
use se3313a_lab.Msg.Instance.Fields.{
  Field-put, Common-put, base_json-Common, required-Field, extract_common_params-Common,
}

-- `own_sender` is the field `_sender` of the base class.
pub record LoginResponse (Time : Type 0) : Type 0 where
  pub date_time : Time
  pub own_sender : String
  pub joining_username : String

abbrev pub type : String
type = "ca.uwo.eng.se3313.lab4.network.response.LoginResponse"

abbrev pub property_joining_username : String
property_joining_username = "joiningUsername"

-- The constructor that takes the time from the clock, `now`.
abbrev pub login : {Time : Type 0} → Time → String → LoginResponse Time
login now username = record {
  date_time = now;
  own_sender = server_sender;
  joining_username = username;
}

-- The method `sender` does not read the field.
abbrev pub sender : {Time : Type 0} → LoginResponse Time → String
sender m = server_sender

module _ (L : Library) where
  open L use {Tree, Time, put}

  unfoldable pub from_json : Tree → Except (Option (LoginResponse Time))
  unfolding required extract_common_params
  from_json json = do
    (date_time, from) ← extract_common_params L json
    name ← required L property_joining_username "Can not get joining username from JSON" json
    ok (some (record { date_time = date_time; own_sender = from; joining_username = name }))

  unfoldable pub sub_to_json : LoginResponse Time → Tree
  unfolding base_json
  sub_to_json m =
      put property_joining_username m.joining_username (base_json L m.date_time (sender m))

  unfoldable pub to_json : LoginResponse Time → Tree
  to_json m = Instance.to_json L type (sub_to_json m)

  -- The text has the server for its sender, whatever the field holds.
  abbrev pub printed : LoginResponse Time → LoginResponse Time
  printed m = record m { date_time = L.to_micros m.date_time; own_sender = server_sender }

  -- A login response comes back from its tree with its joining username and its time, as printed,
  -- and with the server as its sender, whatever sender it was made with.
  pub from_json-login_response :
      (m : LoginResponse Time) → from_json (sub_to_json m) ≡ ok (some (printed m))
  unfolding from_json sub_to_json
  from_json-login_response m =
      let base = base_json L m.date_time server_sender in
      rw
        (extract_common_params-Common L m.date_time server_sender _ (
          Common-put L property_joining_username m.joining_username m.date_time server_sender base
            refl refl refl (base_json-Common L m.date_time server_sender)))
        (rw
          (required-Field L property_joining_username m.joining_username
            "Can not get joining username from JSON" _
            (Field-put L property_joining_username m.joining_username base refl))
          refl)

  -- A parse that does not throw gives no null pointer.
  pub from_json-ne-null : (json : Tree) → from_json json ≢ ok none
  unfolding from_json
  from_json-ne-null json = ground arith
