-- ===== src/Net/SocketServer.antt =====
-- server/lib/include/networking/socket_server.hpp and server/lib/src/networking/socket_server.cpp.
use Prim.Native.String.{◌++◌}
use se3313a_lab.Base.{
  String, ℕ, Bool, true, false, Option, none, some, runtime_error, Outcome, done, thrown,
}
use se3313a_lab.Net.World.{World, update}
use se3313a_lab.Net.Socket.{from_fd}

-- `_socketFD`, and whether ::shutdown was called on it
pub record SocketServer : Type 0 where
  pub fd : ℕ
  pub shut_down : Bool

-- The constructor, from the answers of ::socket and of ::bind; `errno` is the text of the error.
unfoldable pub bind_to : Option ℕ → Bool → String → World → Outcome World SocketServer
bind_to none bound errno w = thrown (runtime_error "Unable to open the socket server") w
bind_to (some fd) true errno w =
    done (record { fd = fd; shut_down = false }) (record w { fds = update w.fds fd true })
bind_to (some fd) false errno w =
    thrown (runtime_error ("Unable to bind socket to requested port, err: " ++ errno))
      (record w { fds = update w.fds fd true })

-- `accept()`, from the answer of ::accept
unfoldable pub accept : Option ℕ → String → World → Outcome World ℕ
accept none errno w = thrown (runtime_error ("Socket error: " ++ errno)) w
accept (some fd) errno w =
    let (h, w') = from_fd fd (record w { fds = update w.fds fd true }) in done h w'

-- `close()`, which is also what the destructor does
abbrev pub close : SocketServer → SocketServer
close s = record s { shut_down = true }
