-- ===== src/Net/Tests.antt =====
-- The networking library on concrete inputs.
use Prim.Native.String.{◌++◌ as append}
use se3313a_lab.Base.{
  ℕ, ◌≤◌, ◌≡◌, refl, true, false, none, some, List, [], ◌∷◌, ◌==◌, if◌then◌else◌, ltb, done, left,
  mem, All, arith,
}
use se3313a_lab.Net.World.{World, fd_of, open_at}
use se3313a_lab.Net.Socket.{read_vector, read_string, close, destroy, c_string}
use se3313a_lab.Net.Socket.Laws.{shut_descriptor_kept, read_string_stale}
use se3313a_lab.Net.FlexWaiter.{
  FlexWaiter, waiter, the_set, max_fd, on_socket, Answers, first_ready, dispatch, kill_event, wait,
  master_ready, open_fds, stdin_fileno,
}
use se3313a_lab.Net.FlexWaiter.Watch.{the_set-le-max_fd}
use se3313a_lab.Net.FlexWaiter.Serves.{First, wait_serves}
use se3313a_lab.Net.FlexWaiter.Dispatch.{Asked, Separate, wait-on_socket}

-- An open socket with the descriptor 5 and a closed one with the descriptor 6.
abbrev net : World
net = record {
  heap =
      λ h. if h == 0 then record { fd = 5; is_open = true } else record { fd = 6; is_open = false };
  next = 2;
  fds = λ d. ltb d 7;
  written = [];
}

abbrev first_wait : FlexWaiter
first_wait = record (waiter (some 3)) { sockets = 0 ∷ 1 ∷ [] }

abbrev later : FlexWaiter
later = record first_wait { kill_event_fd = some 4 }

abbrev answers : Answers
answers = record { eventfd = some 4; select = some (5 ∷ []); kill_read = 0; stdin_read = none }

abbrev same_order : List ℕ → List ℕ
same_order hs = hs

later-Asked : Asked later net (later.sockets) 4 (5 ∷ [])
unfolding the_set open_fds
later-Asked fd m = ground arith

later-Separate : Separate later net 4
later-Separate = record {
  own = λ h j m n e. ground arith;
  not_stdin = λ h m. ground arith;
  not_master = λ h m. ground arith;
  not_kill = λ h m. ground arith;
}

wait-on_socket_example :
    (mem 0 later.sockets ≡ true)
    × (open_at net 0 ≡ true)
    × (mem (fd_of net 0) (5 ∷ []) ≡ true)
    × (mem 4 (5 ∷ []) ≡ false)
    × (mem stdin_fileno (5 ∷ []) ≡ false)
    × (master_ready later.master (5 ∷ []) ≡ false)
unfolding wait kill_event dispatch first_ready
wait-on_socket_example =
    wait-on_socket same_order answers net first_wait later later 4 0 (5 ∷ []) (λ h hs. refl) refl
      refl later-Asked later-Separate refl

wait_serves_example :
    (j : ℕ) × (wait same_order answers net first_wait ≡ done (on_socket j) later)
    × (mem j later.sockets ≡ true)
    × First net (5 ∷ []) (later.sockets) j
unfolding kill_event
wait_serves_example =
    wait_serves same_order answers net first_wait later 4 0 (5 ∷ []) (λ h hs. refl) refl refl refl
      refl refl refl refl

the_set-le-max_fd_example :
    All (λ fd. fd ≤ max_fd later net (later.sockets) 4) (the_set later net (later.sockets) 4)
the_set-le-max_fd_example = the_set-le-max_fd later net (later.sockets) 4

shut_descriptor_kept_example :
    let w' = left (read_vector (some "") 0 "" net) in
    ((close 0 w').fds (fd_of net 0) ≡ true) × ((destroy 0 w').fds (fd_of net 0) ≡ true)
shut_descriptor_kept_example = shut_descriptor_kept 0 "" net refl refl

-- The buffer on the stack still holds "hello!" from an earlier call when "bye" is received.
read_string_stale_example :
    read_string "hello!\0" (some "bye") 0 "" net ≡ done (some 3, append "bye" "lo!") net
unfolding c_string
read_string_stale_example =
    read_string_stale "hello!\0" "" "lo!" 0 net "bye" refl (λ e. cc) refl refl
