-- ===== src/Server/Sample.antt =====
-- A server that has started, and rounds in which one client enters and sends a text.
use se3313a_lab.Base.{ℕ, true, false, none, some, List, [], ◌∷◌, ltb, arith}
use se3313a_lab.Net.World.{World, update}
use se3313a_lab.Net.FlexWaiter.{waiter, kill_event, hold_event, the_set, open_fds}
use se3313a_lab.Server.{Server, SocketCall}
use se3313a_lab.Server.Listen.{Round}
use se3313a_lab.Server.Invariant.KillEvent.{Legal}

abbrev pub as_listed : List ℕ → List ℕ
as_listed hs = hs

-- The process holds the three standard descriptors.
abbrev pub world : World
world = record {
  heap = λ h. record { fd = 0; is_open = false };
  next = 0;
  fds = λ d. ltb d 3;
  written = [];
}

abbrev pub ready : Server ℕ
ready = record {
  port = 3313;
  killed = false;
  sockets = [];
  message_queue = [];
  flex_waiter = waiter (some 3);
  server_socket = record { fd = 3; shut_down = false };
  world = record world { fds = update world.fds 3 true };
}

abbrev pub call : SocketCall ℕ
call = record { received = some "{}"; now = 7; written = none }

-- ::eventfd answers 4, the listening socket is ready, and ::accept answers 5.
abbrev pub first : Round ℕ
first = record {
  answers = record { eventfd = some 4; select = some (3 ∷ []); kill_read = 0; stdin_read = none };
  call = call;
  accepted = some 5;
  errno = "";
}

pub first-Legal : Legal as_listed first ready
unfolding kill_event hold_event the_set open_fds
first-Legal = record {
  fresh_event = λ fd n e. ground arith;
  fresh_client = λ fd k w e a. ground arith;
  asked = λ k w fds e s fd m. ground arith;
}

abbrev pub greeted : Server ℕ
greeted = record ready {
  sockets = (0, "") ∷ [];
  flex_waiter = record (waiter (some 3)) { kill_event_fd = some 4; sockets = 0 ∷ [] };
  world = record (ready.world) {
    heap = update ready.world.heap 0 (record { fd = 5; is_open = true });
    next = 1;
    fds = update (update ready.world.fds 4 true) 5 true;
  };
}

-- then the client's descriptor is ready
abbrev pub second : Round ℕ
second = record first {
  answers = record { eventfd = none; select = some (5 ∷ []); kill_read = 0; stdin_read = none };
  accepted = none;
}

pub second-Legal : Legal as_listed second greeted
unfolding kill_event hold_event the_set open_fds
second-Legal = record {
  fresh_event = λ fd n e. ground arith;
  fresh_client = λ fd k w e a. ground arith;
  asked = λ k w fds e s fd m. ground arith;
}
