-- ===== src/Server/Clients.antt =====
-- The loops of server.cpp over the vector `sockets`, whose elements pair the handle of a client's
-- socket with its username.
pub mod Fds
pub mod Accept
use se3313a_lab.Base.{
  String, ℕ, Bool, true, false, List, [], ◌∷◌, ◌==◌, ◌||◌, if◌then◌else◌, text_eq,
}
use se3313a_lab.Net.World.{World, fd_of}
use se3313a_lab.Net.Socket.{close}

abbrev pub Client : Type 0
Client = ℕ × String

-- the loop of `visitLogin`; the answer is the negation of `not_in_use`
unfoldable pub name_in_use : String → List Client → Bool
name_in_use sender [] = false
name_in_use sender ((h, name) ∷ cs) = if text_eq sender name then true else name_in_use sender cs

-- whether the loop of `onSocket` for a shut connection finds a client with the descriptor
unfoldable pub has_fd : World → ℕ → List Client → Bool
has_fd w fd [] = false
has_fd w fd ((h, name) ∷ cs) = if fd == fd_of w h then true else has_fd w fd cs

-- the vector after that loop has erased the client that it found
unfoldable pub erase_client : World → ℕ → List Client → List Client
erase_client w fd [] = []
erase_client w fd ((h, name) ∷ cs) =
    if fd == fd_of w h then cs else (h, name) ∷ erase_client w fd cs

-- the loop of `onSocket` that associates a username; it goes on after a match
unfoldable pub associate : World → ℕ → String → List Client → List Client
associate w fd username [] = []
associate w fd username ((h, name) ∷ cs) =
    (h, if fd == fd_of w h then username else name) ∷ associate w fd username cs

-- the loop of `stop`
unfoldable pub close_all : List Client → World → World
close_all [] w = w
close_all ((h, name) ∷ cs) w = close_all cs (close h w)

abbrev pub handles : List Client → List ℕ
handles [] = []
handles ((h, name) ∷ cs) = h ∷ handles cs
