-- ===== src/Server/Invariant.antt =====
-- What holds between any two rounds of the server's threads, until `stop`.
pub mod Frame
pub mod Events
pub mod Requests
pub mod KillEvent
pub mod Rounds
pub mod Reach
pub mod Tests
use se3313a_lab.Base.{ℕ, ◌≡◌, true, List, [], ◌∷◌, ◌++◌, Option, mem, ◌∙◌}
use se3313a_lab.Net.World.{World, fd_of}
use se3313a_lab.Net.FlexWaiter.{FlexWaiter, master_fds, stdin_fileno}
use se3313a_lab.Server.{Server}
use se3313a_lab.Server.Clients.{Client, handles}
use se3313a_lab.Server.Clients.Fds.{
  Apart, Distinct, Held, Like, Apart-Like, Distinct-Like, Held-Like,
}
use se3313a_lab.Server.Names.{Unique}

-- The descriptors that the waiter watches beside those of the clients.
abbrev pub reserved : FlexWaiter → List ℕ
reserved w = stdin_fileno ∷ (master_fds w.master ++ master_fds w.kill_event_fd)

-- The clients have descriptors of their own, which the process holds and which are none of the
-- reserved ones; no two have the same username; and the waiter watches their sockets and no others.
pub record Inv {Time : Type 0} (s : Server Time) : Type 0 where
  pub distinct : Distinct s.world s.sockets
  pub held : Held s.world s.sockets
  pub apart : (fd : ℕ) → mem fd (reserved s.flex_waiter) ≡ true → Apart s.world fd s.sockets
  pub reserved_held : (fd : ℕ) → mem fd (reserved s.flex_waiter) ≡ true → s.world.fds fd ≡ true
  pub unique : Unique s.sockets
  pub watched : (h : ℕ) → mem h s.flex_waiter.sockets ≡ mem h (handles s.sockets)

-- It does not depend on which sockets are open, nor on what was written.
pub Inv-Like :
    {Time : Type 0} {s : Server Time} {w : World}
    → Like s.world w
    → Inv s
    → Inv (record s { world = w })
Inv-Like {s} like v = record {
  distinct = Distinct-Like like s.sockets v.distinct;
  held = Held-Like like s.sockets v.held;
  apart = λ fd m. Apart-Like like fd s.sockets (v.apart fd m);
  reserved_held = λ fd m. like.same_fds fd ∙ v.reserved_held fd m;
  unique = v.unique;
  watched = v.watched;
}
