-- ===== src/Msg/Json.antt =====
-- server/lib/include/msg/json.hpp: text to property tree and back.
pub mod Clean
use se3313a_lab.Base.{
  String, ℕ, ◌+◌, ◌-◌, ◌≡◌, Bool, false, none, some, Except, ok, throw, json_parser_error, rfind,
  erase_from, size, ◌==◌, if◌then◌else◌,
}
use se3313a_lab.Boost.{Library}

-- `cpy` after the erasure at the last newline
unfoldable pub cut_at_newline : String → String
unfolding rfind erase_from
cut_at_newline input = elim (rfind b'\n' input) [
  | none ↦ input
  | some idx ↦ erase_from (idx + 1) input
]

-- `cpy` after the erasure at the last brace
unfoldable pub cut_at_brace : String → String
unfolding rfind erase_from
cut_at_brace cpy = elim (rfind b'}' cpy) [
  | none ↦ cpy
  | some idx ↦ if idx == size cpy - 1 then cpy else erase_from (idx + 1) cpy
]

unfoldable pub clean : String → String
unfolding cut_at_newline cut_at_brace
clean input = cut_at_brace (cut_at_newline input)

module _ (L : Library) where
  open L use {Tree, read_json, write_json}

  -- `json::from`
  unfoldable pub from : String → Except Tree
  from input = elim (read_json (clean input)) [ none ↦ throw json_parser_error | some t ↦ ok t ]

  -- `json::to`, with its default `pretty = false` given by `to_compact`, for a tree that the writer
  -- takes, as it does the trees that the code builds of its own messages, which have no root value. For
  -- a tree that was received, in the visitors' `onError`, `write_or_throw` has the refusal too.
  unfoldable pub to : Tree → Bool → String
  to t pretty = write_json pretty t

  abbrev pub to_compact : Tree → String
  to_compact t = to t false
