-- ===== src/Msg/LoginRequest.antt =====
-- request::login of server/lib/include/msg/login.hpp and server/lib/src/msg/login.cpp.
use se3313a_lab.Base.{String, ◌≡◌, ◌≢◌, refl, none, some, arith, Option, Except, ok, ◌>>=◌}
use se3313a_lab.Boost.{Library}
use se3313a_lab.Msg.Instance.{base_json, extract_common_params}
use se3313a_lab.Msg.Instance
use se3313a_lab.Msg.Instance.Fields.{base_json-Common, extract_common_params-Common}

pub record LoginRequest (Time : Type 0) : Type 0 where
  pub date_time : Time
  pub sender : String

abbrev pub type : String
type = "ca.uwo.eng.se3313.lab4.network.request.LoginRequest"

-- The constructor that takes the time from the clock, `now`.
abbrev pub login : {Time : Type 0} → Time → String → LoginRequest Time
login now username = record { date_time = now; sender = username }

module _ (L : Library) where
  open L use {Tree, Time}

  unfoldable pub from_json : Tree → Except (Option (LoginRequest Time))
  unfolding extract_common_params
  from_json json = do
    (date_time, sender) ← extract_common_params L json
    ok (some (record { date_time = date_time; sender = sender }))

  unfoldable pub sub_to_json : LoginRequest Time → Tree
  unfolding base_json
  sub_to_json m = base_json L m.date_time m.sender

  unfoldable pub to_json : LoginRequest Time → Tree
  to_json m = Instance.to_json L type (sub_to_json m)

  -- What its text keeps of a request: the time is cut to what a printed time holds.
  abbrev pub printed : LoginRequest Time → LoginRequest Time
  printed m = record m { date_time = L.to_micros m.date_time }

  -- A login request comes back from its tree with its sender and its time, as printed.
  pub from_json-login_request :
      (m : LoginRequest Time) → from_json (sub_to_json m) ≡ ok (some (printed m))
  unfolding from_json sub_to_json
  from_json-login_request m =
      rw (extract_common_params-Common L m.date_time m.sender _ (base_json-Common L _ _)) refl

  -- A parse that does not throw gives no null pointer.
  pub from_json-ne-null : (json : Tree) → from_json json ≢ ok none
  unfolding from_json
  from_json-ne-null json = ground arith
