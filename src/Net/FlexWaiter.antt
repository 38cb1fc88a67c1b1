-- ===== src/Net/FlexWaiter.antt =====
-- server/lib/include/networking/flex_waiter.hpp and server/lib/src/networking/flex_waiter.cpp: one thread waits
-- on standard input, the listening socket and all client sockets at once.
pub mod Watch
pub mod Members
pub mod Dispatch
pub mod Serves
pub mod Keeps
use Prim.Native.Nat.{max}
use Prim.Native.Char.{code}
use Prim.Native.String.{◌++◌ as append}
use se3313a_lab.Base.{
  String, ℕ, zero, suc, ◌+◌, ◌-◌, ◌*◌, ◌/◌, ◌%◌, Bool, true, false, Option, none, some, List, [],
  ◌∷◌, ◌++◌, ◌==◌, ltb, if◌then◌else◌, Except, ok, throw, runtime_error, Outcome, done, thrown,
  size, mem, ◌||◌,
}
use se3313a_lab.Net.World.{World, update, fd_of, open_at}
use se3313a_lab.Net.Socket.{c_string}

-- `_killEventFD`, absent for -1; whether a kill signal waits to be read from it; `_sockets`, as the
-- handles of the set; and the descriptor of `_master`, absent for a null pointer.
pub record FlexWaiter : Type 0 where
  pub kill_event_fd : Option ℕ
  pub signalled : Bool
  pub sockets : List ℕ
  pub master : Option ℕ

-- the constructor from a socket server, and the one with none
abbrev pub waiter : Option ℕ → FlexWaiter
waiter master = record { kill_event_fd = none; signalled = false; sockets = []; master = master }

-- `_sockets.insert`
unfoldable pub add_socket : ℕ → FlexWaiter → FlexWaiter
add_socket h w = if mem h w.sockets then w else record w { sockets = h ∷ w.sockets }

unfoldable pub add_all : List ℕ → FlexWaiter → FlexWaiter
add_all [] w = w
add_all (h ∷ hs) w = add_all hs (add_socket h w)

-- the constructor from a socket server and sockets, of which the set is made one by one
unfoldable pub waiter_of : Option ℕ → List ℕ → FlexWaiter
unfolding add_all
waiter_of master hs = add_all hs (waiter master)

abbrev pub without : ℕ → List ℕ → List ℕ
without h [] = []
without h (j ∷ js) = if j == h then without h js else j ∷ without h js

unfoldable pub remove_socket : ℕ → FlexWaiter → FlexWaiter
remove_socket h w = if mem h w.sockets then record w { sockets = without h w.sockets } else w

-- `kill()`: with no event descriptor yet, nothing happens.
unfoldable pub kill : FlexWaiter → FlexWaiter
kill w = elim w.kill_event_fd [ none ↦ w | some fd ↦ record w { signalled = true } ]

abbrev pub set_server : ℕ → FlexWaiter → FlexWaiter
set_server fd w = record w { master = some fd }

-- a timeout of `ms` milliseconds as seconds and microseconds
unfoldable pub timeval : ℕ → ℕ × ℕ
timeval ms = (ms / 1000, ms % 1000 * 1000)

abbrev pub stdin_fileno : ℕ
stdin_fileno = 0

abbrev pub buffer_size : ℕ
buffer_size = 1024

-- the descriptors of the open sockets, in the order of the set's iteration
unfoldable pub open_fds : World → List ℕ → List ℕ
open_fds net [] = []
open_fds net (h ∷ hs) = if open_at net h then fd_of net h ∷ open_fds net hs else open_fds net hs

abbrev pub master_fds : Option ℕ → List ℕ
master_fds none = []
master_fds (some fd) = fd ∷ []

-- `theSet` when ::select is called
unfoldable pub the_set : FlexWaiter → World → List ℕ → ℕ → List ℕ
unfolding open_fds
the_set w net order kill_fd =
    stdin_fileno ∷ (master_fds w.master ++ (open_fds net order ++ kill_fd ∷ []))

-- `maxFD` before the loop over the sockets
abbrev pub first_max : Option ℕ → ℕ
first_max none = stdin_fileno
first_max (some fd) = fd

unfoldable pub raise_max : World → ℕ → List ℕ → ℕ
raise_max net most [] = most
raise_max net most (h ∷ hs) =
    raise_max net (if open_at net h then max most (fd_of net h) else most) hs

-- `maxFD` when ::select is called
unfoldable pub max_fd : FlexWaiter → World → List ℕ → ℕ → ℕ
unfolding raise_max
max_fd w net order kill_fd = max (raise_max net (first_max w.master) order) kill_fd

-- Which method of the visitor a wait calls, if any.
pub data Activity : Type 0 where
  nothing : Activity
  on_stdin : String → Activity
  on_socket_server : Activity
  on_socket : ℕ → Activity

-- The answers of ::eventfd; of ::select, the descriptors that are ready; of ::read on the kill
-- event, a size; and of ::read on standard input.
pub record Answers : Type 0 where
  pub eventfd : Option ℕ
  pub select : Option (List ℕ)
  pub kill_read : ℕ
  pub stdin_read : Option String

-- `input` without a newline at its end
unfoldable pub strip : String → String
strip String.[] = ""
strip (String.◌∷◌ c String.[]) = if code c == b'\n' then "" else String.◌∷◌ c ""
strip (String.◌∷◌ c (String.◌∷◌ d s)) = String.◌∷◌ c (strip (String.◌∷◌ d s))

unfoldable pub nuls : ℕ → String
nuls zero = ""
nuls (suc n) = String.◌∷◌ "\0" (nuls n)

-- what `input = buff` makes of the characters read into the cleared buffer
unfoldable pub line_of : String → Except String
unfolding c_string nuls
line_of s = c_string (append s (nuls (buffer_size - size s)))

-- the loop over the children
unfoldable pub first_ready : World → List ℕ → List ℕ → Activity
first_ready net ready [] = nothing
first_ready net ready (h ∷ hs) =
    if mem (fd_of net h) ready then on_socket h else first_ready net ready hs

abbrev pub master_ready : Option ℕ → List ℕ → Bool
master_ready none ready = false
master_ready (some fd) ready = mem fd ready

-- the branches after ::select has reported something
unfoldable pub dispatch :
    List ℕ → Answers → ℕ → List ℕ → World → FlexWaiter → Outcome FlexWaiter Activity
unfolding first_ready strip line_of
dispatch order a kill_fd ready net w =
    if mem kill_fd ready
    then (let w' : FlexWaiter = record w { signalled = false } in
        if ltb 0 a.kill_read
        then (if a.kill_read == 8
            then done nothing w'
            else thrown
                (runtime_error "Invalid signal read from kill, probably implementation problem.")
                w')
        else done nothing w')
    else if mem stdin_fileno ready
    then elim a.stdin_read [
      | none ↦
          thrown (runtime_error "Failed to read from stdin after being notified of being active.") w
      | some s ↦ elim (line_of s) [
        | ok input ↦ done (on_stdin (strip input)) w
        | throw e ↦ thrown e w
      ]
    ]
    else if master_ready w.master ready
    then done on_socket_server w
    else done (first_ready net ready order) w

-- the descriptor of the kill event, made at the first wait
unfoldable pub kill_event : Option ℕ → FlexWaiter → Outcome FlexWaiter ℕ
kill_event efd w = elim w.kill_event_fd [
  | some fd ↦ done fd w
  | none ↦ elim efd [
    | none ↦ thrown (runtime_error "Could not create unlock event.") w
    | some fd ↦ done fd (record w { kill_event_fd = some fd })
  ]
]

-- `wait`, with the order in which the set of sockets is iterated
unfoldable pub wait : (List ℕ → List ℕ) → Answers → World → FlexWaiter → Outcome FlexWaiter Activity
wait order a net w = elim (kill_event a.eventfd w) [
  | thrown e w' ↦ thrown e w'
  | done kill_fd w' ↦ elim a.select [
    | none ↦ thrown (runtime_error "Unexpected error in synchronization object") w'
    | some [] ↦ done nothing w'
    | some (fd ∷ fds) ↦ dispatch (order w'.sockets) a kill_fd (fd ∷ fds) net w'
  ]
]

-- ::eventfd makes the descriptor of the kill event one of the process's.
unfoldable pub hold_event : FlexWaiter → World → World
hold_event w net = elim w.kill_event_fd [
  | none ↦ net
  | some fd ↦ record net { fds = update net.fds fd true }
]

-- `~flex_waiter()`
unfoldable pub destroy : FlexWaiter → World → World
destroy w net = elim w.kill_event_fd [
  | none ↦ net
  | some fd ↦ record net { fds = update net.fds fd false }
]
