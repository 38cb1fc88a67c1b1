-- ===== src/Net/World.antt =====
-- The state below the networking classes: the socket objects, which `shared_ptr`s share, and what
-- the operating system keeps for the process. What the system answers to a call is an argument of
-- each operation: `none` stands for -1.
use se3313a_lab.Base.{String, ℕ, ◌≡◌, Bool, List, ◌==◌, if◌then◌else◌, arith}

-- net::socket: `_socketFD` and `_open`
pub record Socket : Type 0 where
  pub fd : ℕ
  pub is_open : Bool

-- A handle is the address of a socket object. `fds` tells which descriptors the process holds, and
-- `written` lists what the system has taken for each descriptor, oldest first.
pub record World : Type 0 where
  pub heap : ℕ → Socket
  pub next : ℕ
  pub fds : ℕ → Bool
  pub written : List (ℕ × String)

abbrev pub update {ℓ} : {A : Type ℓ} → (ℕ → A) → ℕ → A → ℕ → A
update f p v q = if p == q then v else f q

abbrev pub fd_of : World → ℕ → ℕ
fd_of w h = (w.heap h).fd

abbrev pub open_at : World → ℕ → Bool
open_at w h = (w.heap h).is_open

-- `_open = b` on the object at a handle
abbrev pub set_open : ℕ → Bool → World → World
set_open h b w = record w { heap = update w.heap h (record { fd = fd_of w h; is_open = b }) }

-- Setting `_open` leaves every descriptor number.
pub fd_of-set_open : (w : World) (h j : ℕ) (b : Bool) → fd_of (set_open h b w) j ≡ fd_of w j
fd_of-set_open w h j b = ground arith
