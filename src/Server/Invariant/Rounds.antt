-- ===== src/Server/Invariant/Rounds.antt =====
-- The rounds of the two threads, `listen` and `sendMessages`, one after the other.
use mathlib.Core.Bool.{false≢true}
use se3313a_lab.Base.{
  String, ℕ, ◌≡◌, refl, sym, ap, ◌∙◌, ◌≢◌, true, false, none, some, List, Outcome, done, thrown,
  left, mem, mem-append, arith, Bool-cases, inl, inr, ==_ne, Outcome-cases, Fault, Option-cases,
  text_eq, subst,
}
use se3313a_lab.Boost.{Library}
use se3313a_lab.Net.World.{fd_of, open_at}
use se3313a_lab.Net.FlexWaiter.{
  FlexWaiter, master_fds, Activity, nothing, on_stdin, on_socket_server, on_socket, kill_event,
  wait,
}
use se3313a_lab.Net.FlexWaiter.Dispatch.{Separate, Iterates, wait-on_socket}
use se3313a_lab.Net.FlexWaiter.Keeps.{kill_event-rest, wait-Calmed}
use se3313a_lab.Net.SocketServer.{accept}
use se3313a_lab.Server.{Server, socket_server_event}
use se3313a_lab.Server.Listen.{Round, notify, listen_round, stop, stdin_event}
use se3313a_lab.Server.Clients.{handles}
use se3313a_lab.Server.Clients.Fds.{Apart-mem, Distinct-own}
use se3313a_lab.Server.Invariant.{Inv, reserved}
use se3313a_lab.Server.Invariant.Events.{socket_server_event-Inv}
use se3313a_lab.Server.Invariant.Requests.{socket_event-Inv}
use se3313a_lab.Server.Invariant.KillEvent.{
  waited, Legal, kill-Apart, Inv-kill_event, Inv-Calmed, Calmed-hold,
}

module _ {Time : Type 0} where
  listed_client :
      (s : Server Time) (w : FlexWaiter) (h : ℕ)
      → Inv s
      → s.flex_waiter.sockets ≡ w.sockets
      → mem h w.sockets ≡ true
      → mem h (handles s.sockets) ≡ true
  listed_client s w h v same m = sym (v.watched h) ∙ ap (mem h) same ∙ m

  not_reserved :
      (s : Server Time) (h : ℕ)
      → Inv s
      → mem h (handles s.sockets) ≡ true
      → mem (fd_of s.world h) (reserved s.flex_waiter) ≡ false
  not_reserved s h v m = elim (Bool-cases (mem (fd_of s.world h) (reserved s.flex_waiter))) [
    | inl e ↦ absurd (Apart-mem s.world h _ s.sockets (v.apart _ e) m refl)
    | inr e ↦ e
  ]

  -- The sockets that a wait looks at have descriptors of their own.
  Inv-Separate :
      (order : List ℕ → List ℕ) (r : Round Time) (s : Server Time) (k : ℕ) (w : FlexWaiter)
      → Legal order r s
      → Inv s
      → kill_event r.answers.eventfd s.flex_waiter ≡ done k w
      → Separate w s.world k
  Inv-Separate order r s k w legal v p =
      let (sockets, master) = kill_event-rest _ s.flex_waiter w k p in
      let client : (h : ℕ) → mem h w.sockets ≡ true → mem h (handles s.sockets) ≡ true =
        λ h m. listed_client s w h v sockets m in
      record {
        own = λ h j m n. Distinct-own s.world h j s.sockets v.distinct (client h m) (client j n);
        not_stdin = λ h m. ground (arith, not_reserved s h v (client h m));
        not_master = λ h m.
            ap (λ x. mem (fd_of s.world h) (master_fds x)) (sym master)
            ∙ ground (
              arith,
              not_reserved s h v (client h m),
              mem-append (fd_of s.world h) (master_fds s.flex_waiter.master)
                  (master_fds s.flex_waiter.kill_event_fd),
            );
        not_kill = λ h m. ==_ne k (fd_of s.world h) (λ e.
            Apart-mem s.world h k s.sockets (kill-Apart order r s k w legal v p) (client h m)
              (sym e));
      }

  pub stdin_event-stay :
      (line : String) (s : Server Time)
      → (stdin_event line s).killed ≡ false
      → stdin_event line s ≡ s
  unfolding stdin_event stop
  stdin_event-stay line s e = elim (Bool-cases (text_eq line "exit")) [
    | inl exit ↦ absurd (false≢true (sym e ∙ rw exit refl))
    | inr other ↦ rw other refl
  ]

pub accept_failed :
    {Time : Type 0} (s s' : Server Time) (errno : String)
    → socket_server_event none errno s ≢ done tt s'
unfolding socket_server_event accept
accept_failed s s' errno e = cc

module _ (L : Library) (order : List ℕ → List ℕ) (it : Iterates order) where
  open L use {Time}

  -- The socket that a wait of the server reports is the open socket of a client.
  pub reported_open :
      (r : Round Time) (s : Server Time) (w : FlexWaiter) (h : ℕ)
      → Inv s
      → Legal order r s
      → wait order r.answers s.world s.flex_waiter ≡ done (on_socket h) w
      → (mem h (handles s.sockets) ≡ true) × (open_at s.world h ≡ true)
  reported_open r s w h v legal e =
      let (k, fw, ready, p, q, calm) =
        wait-Calmed order r.answers s.world s.flex_waiter w (on_socket h) e in
      let (listed, opened, _, _, _, _) =
        wait-on_socket order r.answers s.world s.flex_waiter fw w k h ready it p q
          (legal.asked k fw ready p q) (Inv-Separate order r s k fw legal v p) e in
      let (sockets, _) = kill_event-rest _ s.flex_waiter fw k p in
      (listed_client s fw h v sockets listed, opened)

  pub notify-Inv :
      (r : Round Time) (act : Activity) (s s' : Server Time)
      → ((fd : ℕ) → r.accepted ≡ some fd → s.world.fds fd ≡ false)
      → ((h : ℕ) → act ≡ on_socket h → mem h (handles s.sockets) ≡ true)
      → notify L r act s ≡ done tt s'
      → s'.killed ≡ false
      → Inv s
      → Inv s'
  unfolding notify
  notify-Inv r nothing s s' fresh listed e alive v = subst Inv (ap left e) v
  notify-Inv r (on_stdin line) s s' fresh listed e alive v =
      let same = ap left e in
      subst Inv (sym (stdin_event-stay line s (ap (λ x. x.killed) same ∙ alive)) ∙ same) v
  notify-Inv r on_socket_server s s' fresh listed e alive v = elim (Option-cases r.accepted) [
    | inl q ↦ absurd (not_accepted q)
    | inr (fd, q) ↦
        subst Inv (ap left (sym (ap (λ x. socket_server_event x r.errno s) q) ∙ e))
          (socket_server_event-Inv fd r.errno s (fresh fd q) v)
  ]
    where
      not_accepted : r.accepted ≢ none
      not_accepted q =
          accept_failed s s' r.errno (sym (ap (λ x. socket_server_event x r.errno s) q) ∙ e)
  notify-Inv r (on_socket h) s s' fresh listed e alive v =
      subst Inv (ap left e) (socket_event-Inv L h r.call s (listed h refl) v)

  -- A wait of the server keeps the invariant.
  pub waited-Inv :
      (r : Round Time) (act : Activity) (w : FlexWaiter) (s : Server Time)
      → Legal order r s
      → wait order r.answers s.world s.flex_waiter ≡ done act w
      → Inv s
      → Inv (waited w s)
  waited-Inv r act w s legal p v =
      let (k, fw, ready, q, _, calm) = wait-Calmed order r.answers s.world s.flex_waiter w act p in
      Inv-Calmed fw w s calm (Inv-kill_event order r s k fw legal v q)

  -- What ::accept answers after it is a descriptor that the process does not hold.
  pub waited-fresh :
      (r : Round Time) (act : Activity) (w : FlexWaiter) (s : Server Time) (fd : ℕ)
      → Legal order r s
      → wait order r.answers s.world s.flex_waiter ≡ done act w
      → r.accepted ≡ some fd
      → (waited w s).world.fds fd ≡ false
  waited-fresh r act w s fd legal p a =
      let (k, fw, ready, q, _, calm) = wait-Calmed order r.answers s.world s.flex_waiter w act p in
      ap (λ x. x.fds fd) (Calmed-hold fw w s.world calm) ∙ legal.fresh_client fd k fw q a

  -- A round of `listen` that returns keeps the invariant, unless it was the one that stops the server.
  pub listen_round-Inv :
      (r : Round Time) (s s' : Server Time)
      → Legal order r s
      → listen_round L order r s ≡ done tt s'
      → s'.killed ≡ false
      → Inv s
      → Inv s'
  unfolding listen_round
  listen_round-Inv r s s' legal e alive v =
      elim (Outcome-cases (wait order r.answers s.world s.flex_waiter)) [
        | inr (f, w, p) ↦ absurd (thrown-ne f w (sym (rw (p, listen_round) refl) ∙ e))
        | inl (act, w, p) ↦
            notify-Inv r act (waited w s) s' (λ fd a. waited-fresh r act w s fd legal p a)
              (λ h a. (reported_open r s w h v legal (p ∙ ap (λ x. done x w) a)).0)
              (sym (rw (p, listen_round) refl) ∙ e) alive (waited-Inv r act w s legal p v)
      ]
    where
      thrown-ne :
          (f : Fault) (w : FlexWaiter)
          → ◌≢◌ {A = Outcome (Server Time) (Unit {0})} (thrown f (waited w s)) (done tt s')
      thrown-ne f w q = cc
