-- ===== src/Boost.antt =====
-- The libraries that the server calls and whose code is not the server's: Boost.PropertyTree with
-- its JSON reader and writer, and the printing and reading of time points (server/lib/include/chrono_io,
-- a copy of another project's file). They are one record of operations with documented behaviour.
-- An absent result stands for the exception that the comment beside it names.
pub mod Sample
use Prim.Native.Char.{code}
use Prim.Native.String.{◌++◌}
use mathlib.Core.Option as O
use se3313a_lab.Base.{
  String, ℕ, ◌<◌, ◌^◌, ◌≡◌, ◌≢◌, Bool, true, false, Option, none, some, ◌==◌, if◌then◌else◌, Except,
  ok, throw, json_parser_error,
}

-- A key with no dot in it; in a path of Boost a dot separates the keys.
abbrev pub is_simple : String → Bool
is_simple String.[] = true
is_simple (String.◌∷◌ c s) = if code c == b'.' then false else is_simple s

pub record Library : Type 1 where
  pub Tree : Type 0
  pub Time : Type 0
  -- ptree(), find, put, put<uint16_t>, put<time_point>, put_child
  pub empty : Tree
  pub find : String → Tree → Option Tree
  pub put : String → String → Tree → Tree
  pub put_u16 : String → ℕ → Tree → Tree
  pub put_time : String → Time → Tree → Tree
  pub put_child : String → Tree → Tree → Tree
  -- get_value<std::string>, get_value<uint16_t> (ptree_bad_data), get<std::string> (ptree_bad_path)
  pub get_value : Tree → String
  pub get_value_u16 : Tree → Option ℕ
  pub get : String → Tree → Option String
  -- read_json (json_parser_error), write_json with its flag `pretty`
  pub read_json : String → Option Tree
  pub write_json : Bool → Tree → String
  -- whether write_json takes the tree and does not throw json_parser_error, as it does for a root
  -- that has a value of its own
  pub can_write : Tree → Bool
  -- a default time point, `>>` into a time point, and what printing keeps of a time point
  pub epoch : Time
  pub read_time : String → Time → Time
  pub to_micros : Time → Time
  -- What is put at a key is found there, and the other keys keep what they have.
  pub find-empty : (k : String) → find k empty ≡ none
  pub find-put :
      (k v : String) (t : Tree)
      → is_simple k ≡ true
      → (c : Tree) × (find k (put k v t) ≡ some c) × (get_value c ≡ v)
  pub find-put_u16 :
      (k : String) (n : ℕ) (t : Tree)
      → is_simple k ≡ true
      → n < 2 ^ 16
      → (c : Tree) × (find k (put_u16 k n t) ≡ some c) × (get_value_u16 c ≡ some n)
  pub find-put_time :
      (k : String) (p : Time) (t : Tree)
      → is_simple k ≡ true
      → (c : Tree) × (find k (put_time k p t) ≡ some c)
        × ((q : Time) → read_time (get_value c) q ≡ to_micros p)
  pub find-put_child :
      (k : String) (c t : Tree) → is_simple k ≡ true → find k (put_child k c t) ≡ some c
  pub find-put_ne :
      (j k v : String) (t : Tree) → is_simple k ≡ true → j ≢ k → find j (put k v t) ≡ find j t
  pub find-put_u16_ne :
      (j k : String) (n : ℕ) (t : Tree)
      → is_simple k ≡ true
      → j ≢ k
      → find j (put_u16 k n t) ≡ find j t
  pub find-put_time_ne :
      (j k : String) (p : Time) (t : Tree)
      → is_simple k ≡ true
      → j ≢ k
      → find j (put_time k p t) ≡ find j t
  pub find-put_child_ne :
      (j k : String) (c t : Tree) → is_simple k ≡ true → j ≢ k → find j (put_child k c t) ≡ find j t
  -- `get` walks a path.
  pub get-key : (k : String) (t : Tree) → is_simple k ≡ true → get k t ≡ O.map get_value (find k t)
  pub get-dot :
      (k j : String) (t : Tree)
      → is_simple k ≡ true
      → is_simple j ≡ true
      → get (k ++ ("." ++ j)) t ≡ O.map get_value (O.bind (find k t) (find j))

-- A call of write_json with its exception.
abbrev pub write_or_throw : (L : Library) → Bool → L.Tree → Except String
write_or_throw L pretty t =
    if L.can_write t then ok (L.write_json pretty t) else throw json_parser_error
