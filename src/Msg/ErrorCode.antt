-- ===== src/Msg/ErrorCode.antt =====
-- server/lib/include/msg/error.hpp: the error codes, an `enum class` over uint16_t.
use Prim.Native.Nat.{ℕ}
use mathlib.Core.Path.{◌≡◌}
use native.Mathlib.Omega.{arith}
use se3313a_lab.Base.Tests.{◌==◌, if◌then◌else◌}

-- A cast from uint16_t gives any number; `unnamed` holds those that are no enumerator.
pub data ErrorCode : Type 0 where
  none invalid_request_from_client user_name_in_use invalid_user_name : ErrorCode
  malformed_request_unknwn malformed_request_no_type malformed_request_unknown_type : ErrorCode
  malformed_request_bad_object_def malformed_request_no_obj : ErrorCode
  unnamed : ℕ → ErrorCode

-- `static_cast<uint16_t>`
unfoldable pub to_u16 : ErrorCode → ℕ
to_u16 none = 0
to_u16 invalid_request_from_client = 50
to_u16 user_name_in_use = 1
to_u16 invalid_user_name = 2
to_u16 malformed_request_unknwn = 200
to_u16 malformed_request_no_type = 201
to_u16 malformed_request_unknown_type = 202
to_u16 malformed_request_bad_object_def = 203
to_u16 malformed_request_no_obj = 210
to_u16 (unnamed n) = n

-- `static_cast<ErrorCode>`
unfoldable pub of_u16 : ℕ → ErrorCode
of_u16 n =
    if n == 0
    then none
    else if n == 50
    then invalid_request_from_client
    else if n == 1
    then user_name_in_use
    else if n == 2
    then invalid_user_name
    else if n == 200
    then malformed_request_unknwn
    else if n == 201
    then malformed_request_no_type
    else if n == 202
    then malformed_request_unknown_type
    else if n == 203
    then malformed_request_bad_object_def
    else if n == 210
    then malformed_request_no_obj
    else unnamed n

-- The value of an enumerator, or a number that no enumerator has.
abbrev pub IsCanonical : ErrorCode → Type 0
IsCanonical c = of_u16 (to_u16 c) ≡ c

-- Every number survives the cast to ErrorCode and back, and the cast gives a canonical code.
pub to_u16-of_u16 : (n : ℕ) → (to_u16 (of_u16 n) ≡ n) × IsCanonical (of_u16 n)
unfolding to_u16 of_u16
to_u16-of_u16 n = ground arith
