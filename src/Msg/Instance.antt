-- ===== src/Msg/Instance.antt =====
-- server/lib/include/msg/instance.hpp and server/lib/src/msg/instance.cpp: what all messages share.
pub mod Fields
use mathlib.Core.Option as O
use se3313a_lab.Base.{
  String, true, Option, none, some, Except, ok, throw, runtime_error, ptree_bad_path, ◌>>=◌,
}
use se3313a_lab.Boost.{Library, write_or_throw}

abbrev pub property_type : String
property_type = "type"

abbrev pub property_object : String
property_object = "object"

abbrev pub property_sender : String
property_sender = "sender"

abbrev pub property_datetime : String
property_datetime = "datetime"

abbrev pub server_sender : String
server_sender = "@server"

abbrev pub unknown_sender : String
unknown_sender = "@unknown"

module _ (L : Library) where
  open L use {Tree, Time, empty, find, put, put_time, put_child, get_value, get, epoch, read_time}

  -- `find` with its exception, then `get_value<std::string>`
  unfoldable pub required : String → String → Tree → Except String
  required key message json = elim (find key json) [
    | none ↦ throw (runtime_error message)
    | some it ↦ ok (get_value it)
  ]

  -- the same where the tree is first written to standard error, which may throw
  unfoldable pub required_shown : String → String → Tree → Except String
  required_shown key message json = elim (find key json) [
    | none ↦ do written ← write_or_throw L true json; throw (runtime_error message)
    | some it ↦ ok (get_value it)
  ]

  -- `get<std::string>`
  unfoldable pub get_or_throw : String → Tree → Except String
  get_or_throw path json = elim (get path json) [ none ↦ throw ptree_bad_path | some s ↦ ok s ]

  -- `instance::extractFrom`
  unfoldable pub extract_from : Tree → Option (String × Tree)
  extract_from json = elim (find property_type json) [
    | none ↦ none
    | some type ↦ elim (find property_object json) [
      | none ↦ none
      | some obj ↦ some (get_value type, obj)
    ]
  ]

  -- `abstract_instance<S>::toJson`, from S::TYPE and what `subToJson` returns
  unfoldable pub to_json : String → Tree → Tree
  to_json type sub = put_child property_object sub (put property_type type empty)

  -- `abstract_instance<S>::baseJson`
  unfoldable pub base_json : Time → String → Tree
  base_json date_time sender =
      put property_sender sender (put_time property_datetime date_time empty)

  -- `abstract_instance<S>::extractCommonParams`
  unfoldable pub extract_common_params : Tree → Except (Time × String)
  unfolding required_shown get_or_throw
  extract_common_params json = do
    time ← required_shown property_datetime "Could not get datetime property." json
    found ← required_shown property_sender "Could not get sender property." json
    sender ← get_or_throw property_sender json
    ok (read_time time epoch, sender)

  -- `instance::fromJson<T>`, from `T::fromJson`; an absent value is a null pointer
  unfoldable pub from_json : {T : Type 0} → (Tree → Except (Option T)) → Tree → Except (Option T)
  unfolding extract_from
  from_json parse json = elim (extract_from json) [ none ↦ ok none | some (type, obj) ↦ parse obj ]
