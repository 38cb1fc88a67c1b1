-- ===== src/Net/Socket.antt =====
-- server/lib/include/networking/socket.hpp and server/lib/src/networking/socket.cpp.
pub mod Laws
use se3313a_lab.Base.{
  String, ℕ, zero, suc, ◌+◌, ◌≡◌, Bool, true, false, Option, none, some, List, [], ◌∷◌, ◌++◌, ◌==◌,
  if◌then◌else◌, Fault, runtime_error, buffer_overread, Outcome, done, thrown, size, erase_from,
  Except, ok, throw,
}
use Prim.Native.Char.{code}
use Prim.Native.String.{◌++◌ as append}
use se3313a_lab.Net.World.{Socket, World, update, fd_of, open_at, set_open}

abbrev pub max_buffer_size : ℕ
max_buffer_size = 1024

-- `socket(socketFD)`, made by `make_shared`: a new object at a new handle
abbrev pub from_fd : ℕ → World → ℕ × World
from_fd fd w = (
  w.next,
  record w { heap = update w.heap w.next (record { fd = fd; is_open = true }); next = suc w.next },
)

-- `socket(ipAddress, port)`, from the answers of ::socket, ::inet_aton and ::connect
unfoldable pub connect_to : Option ℕ → Bool → Bool → World → Outcome World ℕ
connect_to none aton connected w = thrown (runtime_error "Unable to initialize socket server") w
connect_to (some fd) aton connected w =
    let made : World = record w { fds = update w.fds fd true } in
    if aton
    then (if connected
        then (let (h, w') = from_fd fd made in done h w')
        else thrown (runtime_error "Unable to open connection") made)
    else thrown (runtime_error "IP Address provided is invalid") made

-- `read(vector)`, from the answer of ::recv; the result and what the vector then holds. The text
-- `vec` is what it held before.
unfoldable pub read_vector : Option String → ℕ → String → World → Outcome World (Option ℕ × String)
read_vector received h vec w =
    if open_at w h
    then elim received [
      | none ↦ done (none, vec) (set_open h false w)
      | some String.[] ↦ done (some 0, vec) (set_open h false w)
      | some (String.◌∷◌ c s) ↦ done (some (suc (size s)), String.◌∷◌ c s) w
    ]
    else thrown (runtime_error "Can not read from closed socket.") w

-- the characters from the `i`th on
abbrev pub drop_chars : ℕ → String → String
drop_chars zero s = s
drop_chars (suc i) String.[] = ""
drop_chars (suc i) (String.◌∷◌ c s) = drop_chars i s

-- `std::string(buffer)`: up to the first NUL, of which there must be one in the buffer
unfoldable pub c_string : String → Except String
c_string String.[] = throw buffer_overread
c_string (String.◌∷◌ c s) =
    let rest = c_string s in
    if code c == 0 then ok "" else elim rest [ ok t ↦ ok (String.◌∷◌ c t) | throw e ↦ throw e ]

-- `read(string)`. The call of memset has its last arguments swapped and so clears nothing: `raw` is
-- what the buffer on the stack held before.
unfoldable pub read_string :
    String → Option String → ℕ → String → World → Outcome World (Option ℕ × String)
unfolding c_string
read_string raw received h str w =
    if open_at w h
    then elim received [
      | none ↦ done (none, str) (set_open h false w)
      | some String.[] ↦ done (some 0, str) (set_open h false w)
      | some (String.◌∷◌ c s) ↦
          elim (c_string (append (String.◌∷◌ c s) (drop_chars (suc (size s)) raw))) [
            | ok t ↦ done (some (suc (size s)), t) w
            | throw e ↦ thrown e w
          ]
    ]
    else done (none, str) w

-- `write(buff, length)`, from the answer of ::write; the system takes the first `n` characters.
unfoldable pub write : Option ℕ → ℕ → String → World → Outcome World (Option ℕ)
unfolding erase_from
write answer h text w =
    if open_at w h
    then elim answer [
      | none ↦ done none (set_open h false w)
      | some n ↦
          done (some n) (record w { written = w.written ++ (fd_of w h, erase_from n text) ∷ [] })
    ]
    else thrown (runtime_error "Can not write to closed socket.") w

-- The overloads of `write`: for a text that ends with a NUL, whose length `strlen` finds, for a
-- std::string, and for a vector of characters.
unfoldable pub write_raw : Option ℕ → ℕ → String → World → Outcome World (Option ℕ)
unfolding write c_string
write_raw answer h raw w = elim (c_string raw) [
  | throw e ↦ thrown e w
  | ok text ↦ write answer h text w
]

unfoldable pub write_string : Option ℕ → ℕ → String → World → Outcome World (Option ℕ)
unfolding write
write_string answer h str_buff w = write answer h str_buff w

unfoldable pub write_vector : Option ℕ → ℕ → String → World → Outcome World (Option ℕ)
unfolding write
write_vector answer h vec w = write answer h vec w

-- `close()`
unfoldable pub close : ℕ → World → World
close h w =
    if open_at w h
    then (let w' : World = set_open h false w in
        record w' { fds = update w'.fds (fd_of w h) false })
    else w

-- `~socket()`
unfoldable pub destroy : ℕ → World → World
unfolding close
destroy h w = if open_at w h then close h w else w
