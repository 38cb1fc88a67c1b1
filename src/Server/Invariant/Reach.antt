-- ===== src/Server/Invariant/Reach.antt =====
-- The servers that the rounds of the two threads lead to.
use se3313a_lab.Base.{
  String, ℕ, ◌≡◌, refl, sym, ap, ◌∙◌, true, false, some, List, [], Outcome, done, thrown, left, mem,
  arith, Bool-cases, inl, inr, subst, ◌==◌, ==_iff,
}
use se3313a_lab.Boost.{Library}
use se3313a_lab.Net.World.{World, update, open_at}
use se3313a_lab.Net.SocketServer.{bind_to}
use se3313a_lab.Net.FlexWaiter.{FlexWaiter, on_socket, wait, stdin_fileno, waiter}
use se3313a_lab.Net.FlexWaiter.Dispatch.{Iterates}
use se3313a_lab.Server.{Server, Writes, start, send_messages, send_queue, clear_queue}
use se3313a_lab.Server.Listen.{Round, listen_round}
use se3313a_lab.Server.Broadcast.{send_messages-clear_queue}
use se3313a_lab.Server.Clients.{handles}
use se3313a_lab.Server.Invariant.{Inv, reserved}
use se3313a_lab.Server.Invariant.KillEvent.{Legal}
use se3313a_lab.Server.Invariant.Events.{send_messages-Inv}
use se3313a_lab.Server.Invariant.Rounds.{reported_open, listen_round-Inv}

-- the server that `start` makes
abbrev pub fresh_server : {Time : Type 0} → ℕ → ℕ → World → Server Time
fresh_server port fd w = record {
  port = port;
  killed = false;
  sockets = [];
  message_queue = [];
  flex_waiter = waiter (some fd);
  server_socket = record { fd = fd; shut_down = false };
  world = record w { fds = update w.fds fd true };
}

pub start-fresh_server :
    {Time : Type 0} (port fd : ℕ) (errno : String) (w w' : World) (s : Server Time)
    → start port (some fd) true errno w ≡ done s w'
    → fresh_server port fd w ≡ s
unfolding start bind_to
start-fresh_server port fd errno w w' s e = cc

started_fds :
    (w : World) (fd d : ℕ)
    → w.fds stdin_fileno ≡ true
    → mem d (reserved (waiter (some fd))) ≡ true
    → update w.fds fd true d ≡ true
started_fds w fd d held m = elim (Bool-cases (fd == d)) [
  | inl e ↦ rw e refl
  | inr e ↦ rw e (subst (λ x. w.fds x ≡ true) ((==_iff 0 d).0 (ground (arith, e))) held)
]

pub started-Inv :
    {Time : Type 0} (port fd : ℕ) (w : World)
    → w.fds stdin_fileno ≡ true
    → Inv (fresh_server {Time = Time} port fd w)
started-Inv port fd w held = record {
  distinct = tt;
  held = tt;
  apart = λ d m. tt;
  reserved_held = λ d m. started_fds w fd d held m;
  unique = tt;
  watched = λ h. refl;
}

module _ (L : Library) (order : List ℕ → List ℕ) where
  open L use {Time}

  -- What `start` and then any rounds of `listen` and of `sendMessages` lead to, one round after the
  -- other, each of which returns. The process holds standard input, and ::socket answers with a
  -- descriptor that it does not hold.
  pub data Reach : Server Time → Type 0 where
    started :
        (port fd : ℕ) (errno : String) (w w' : World) (s : Server Time)
        → w.fds stdin_fileno ≡ true
        → w.fds fd ≡ false
        → start port (some fd) true errno w ≡ done s w'
        → Reach s
    listened :
        (r : Round Time) (s s' : Server Time)
        → Reach s
        → s.killed ≡ false
        → Legal order r s
        → listen_round L order r s ≡ done tt s'
        → Reach s'
    sent :
        (writes : Writes) (s s' : Server Time)
        → Reach s
        → send_messages L writes s ≡ done tt s'
        → Reach s'

  clear_queue-killed :
      (o : Outcome World (Unit {0})) (s : Server Time)
      → (left (clear_queue L o s)).killed ≡ s.killed
  clear_queue-killed (done a w) s = refl
  clear_queue-killed (thrown e w) s = refl

  pub sent_killed :
      (writes : Writes) (s s' : Server Time)
      → send_messages L writes s ≡ done tt s'
      → s.killed ≡ s'.killed
  sent_killed writes s s' e =
      sym (clear_queue-killed (send_queue L writes s.message_queue s.sockets s.world) s)
      ∙ ap (λ (x : Outcome (Server Time) (Unit {0})). (left x).killed)
          (sym (send_messages-clear_queue L writes s) ∙ e)

  module _ (it : Iterates order) where
    -- Every server that is reached from a start by rounds of the two threads, one after the other,
    -- and is not stopped has the invariant: the clients hold descriptors of their own that differ
    -- from those of standard input, of the listening socket and of the kill event, no two clients
    -- have the same username, and the waiter watches the sockets of the clients and no others. It
    -- is given that the iteration of a set visits its elements; what the system may answer is part
    -- of the definition of being reached.
    pub Reach-Inv : (s : Server Time) → Reach s → s.killed ≡ false → Inv s
    Reach-Inv s (started port fd errno w w' _ held fresh e) alive =
        subst Inv (start-fresh_server port fd errno w w' s e) (started-Inv port fd w held)
    Reach-Inv s' (listened r s _ reach on legal e) alive =
        listen_round-Inv L order it r s s' legal e alive (Reach-Inv s reach on)
    Reach-Inv s' (sent writes s _ reach e) alive =
        subst Inv (ap left e)
          (send_messages-Inv L writes s (Reach-Inv s reach (sent_killed writes s s' e ∙ alive)))

    -- In every server that is reached and not stopped, a socket that the wait of a next round
    -- reports is the open socket of a client in the vector, given that the system answers that
    -- round lawfully and that the iteration of a set visits its elements.
    pub reached_reads_open :
        (s : Server Time) (r : Round Time) (w : FlexWaiter) (h : ℕ)
        → Reach s
        → s.killed ≡ false
        → Legal order r s
        → wait order r.answers s.world s.flex_waiter ≡ done (on_socket h) w
        → (mem h (handles s.sockets) ≡ true) × (open_at s.world h ≡ true)
    reached_reads_open s r w h reach alive legal e =
        reported_open L order it r s w h (Reach-Inv s reach alive) legal e
