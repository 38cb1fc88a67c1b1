-- ===== src/Server/Invariant/Events.antt =====
-- Each callback of the server keeps the invariant.
use se3313a_lab.Base.{
  String, ℕ, ◌≡◌, refl, sym, ap, ◌∙◌, true, false, some, List, [], ◌∷◌, ◌++◌, ◌==◌, ◌||◌,
  if◌then◌else◌, Outcome, done, thrown, left, arith, Bool-cases, inl, inr, mem, subst,
}
use mathlib.Core.Bool.{false≢true}
use se3313a_lab.Boost.{Library}
use se3313a_lab.Net.World.{World, fd_of}
use se3313a_lab.Net.FlexWaiter.{FlexWaiter, remove_socket, add_socket}
use se3313a_lab.Server.{Server, Writes, send_messages, clear_queue, disconnect, socket_server_event}
use se3313a_lab.Server.Broadcast.{send_messages-clear_queue}
use se3313a_lab.Net.FlexWaiter.Members.{mem-remove_socket, mem-add_socket}
use se3313a_lab.Net.SocketServer.{accept}
use se3313a_lab.Server.Clients.{handles}
use se3313a_lab.Server.Clients.Fds.{
  Like, Apart-erase, Distinct-erase, Held-erase, has_fd-mem, mem-erase,
}
use se3313a_lab.Server.Clients.Accept.{
  grown, Apart-front, Distinct-front, Held-front, Apart-grown, Distinct-grown, Held-grown,
  handles-append,
}
use se3313a_lab.Server.Names.{Unique-erase, Unique-append}
use se3313a_lab.Server.Invariant.{Inv, Inv-Like, reserved}
use se3313a_lab.Server.Invariant.Frame.{Like-send_queue}

-- Emptying the queue does not matter.
Inv-queue :
    (L : Library) (s : Server L.Time) (o : Outcome World (Unit {0}))
    → Like s.world (left o)
    → Inv s
    → Inv (left (clear_queue L o s))
Inv-queue L s (done a w) like v =
    let i = Inv-Like like v in
    record {
      distinct = i.distinct;
      held = i.held;
      apart = i.apart;
      reserved_held = i.reserved_held;
      unique = i.unique;
      watched = i.watched;
    }
Inv-queue L s (thrown e w) like v = Inv-Like like v

-- A round of the sender keeps the invariant, also when it throws.
pub send_messages-Inv :
    (L : Library) (writes : Writes) (s : Server L.Time)
    → Inv s
    → Inv (left (send_messages L writes s))
send_messages-Inv L writes s v =
    rw (send_messages-clear_queue L writes s)
      (Inv-queue L s _ (Like-send_queue L writes s.message_queue s.sockets s.world) v)

reserved-remove_socket : (h : ℕ) (w : FlexWaiter) → reserved (remove_socket h w) ≡ reserved w
unfolding remove_socket
reserved-remove_socket h w = elim (Bool-cases (mem h w.sockets)) [
  | inl e ↦ rw e refl
  | inr e ↦ rw e refl
]

-- The end of a connection keeps the invariant.
pub disconnect-Inv :
    {Time : Type 0} (h : ℕ) (s : Server Time)
    → mem h (handles s.sockets) ≡ true
    → Inv s
    → Inv (disconnect h s)
unfolding disconnect
disconnect-Inv h s listed v =
    let fd = fd_of s.world h in
    rw (has_fd-mem s.world h s.sockets listed) record {
      distinct = Distinct-erase s.world fd s.sockets v.distinct;
      held = Held-erase s.world fd s.sockets v.held;
      apart = λ d m.
          Apart-erase s.world fd d s.sockets
            (v.apart d (subst (λ ds. mem d ds ≡ true) (reserved-remove_socket h s.flex_waiter) m));
      reserved_held = λ d m.
          v.reserved_held d
            (subst (λ ds. mem d ds ≡ true) (reserved-remove_socket h s.flex_waiter) m);
      unique = Unique-erase s.world fd s.sockets v.unique;
      watched = λ j.
          mem-remove_socket h j s.flex_waiter
          ∙ ap (λ b. if j == h then false else b) (v.watched j)
          ∙ sym (mem-erase s.world h j s.sockets v.distinct listed);
    }

reserved-add_socket : (h : ℕ) (w : FlexWaiter) → reserved (add_socket h w) ≡ reserved w
unfolding add_socket
reserved-add_socket h w = elim (Bool-cases (mem h w.sockets)) [
  | inl e ↦ rw e refl
  | inr e ↦ rw e refl
]

last_mem : (h j : ℕ) (js : List ℕ) → ((h == j) || mem j js) ≡ mem j (js ++ h ∷ [])
last_mem h j [] = refl
last_mem h j (i ∷ js) = ground (arith, last_mem h j js)

grown_keeps : (fd d : ℕ) (w : World) → w.fds d ≡ true → (grown fd w).fds d ≡ true
grown_keeps fd d w k = ground arith

-- A new connection keeps the invariant, given that ::accept answers with a descriptor that the
-- process does not hold.
pub socket_server_event-Inv :
    {Time : Type 0} (fd : ℕ) (errno : String) (s : Server Time)
    → s.world.fds fd ≡ false
    → Inv s
    → Inv (left (socket_server_event (some fd) errno s))
unfolding socket_server_event accept
socket_server_event-Inv fd errno s fresh v =
    let h = s.world.next in
    let old : (d : ℕ)
        → mem d (reserved (add_socket h s.flex_waiter)) ≡ true
        → mem d (reserved s.flex_waiter) ≡ true =
      λ d m. subst (λ ds. mem d ds ≡ true) (reserved-add_socket h s.flex_waiter) m in
    record {
      distinct = Distinct-grown s.world fd s.sockets v.held v.distinct fresh;
      held = Held-grown s.world fd s.sockets v.held;
      apart = λ d m.
          Apart-grown s.world fd d s.sockets v.held (v.apart d (old d m))
            λ e. false≢true (sym fresh ∙ ap s.world.fds (sym e) ∙ v.reserved_held d (old d m));
      reserved_held = λ d m. grown_keeps fd d s.world (v.reserved_held d (old d m));
      unique = Unique-append s.sockets h v.unique;
      watched = λ j.
          mem-add_socket h j s.flex_waiter
          ∙ ap (λ b. (h == j) || b) (v.watched j)
          ∙ last_mem h j (handles s.sockets)
          ∙ ap (mem j) (sym (handles-append s.sockets h ""));
    }

-- It is kept already when the socket object is made and its client is not yet in the vector.
pub Inv-grown :
    {Time : Type 0} (fd : ℕ) (s : Server Time)
    → s.world.fds fd ≡ false
    → Inv s
    → Inv (record s { world = grown fd s.world })
Inv-grown fd s fresh v = record {
  distinct =
      Distinct-front (grown fd s.world) s.sockets _
        (Distinct-grown s.world fd s.sockets v.held v.distinct fresh);
  held = Held-front (grown fd s.world) s.sockets _ (Held-grown s.world fd s.sockets v.held);
  apart = λ d m. Apart-front (grown fd s.world) d s.sockets _ (
      Apart-grown s.world fd d s.sockets v.held (v.apart d m)
        λ e. false≢true (sym fresh ∙ ap s.world.fds (sym e) ∙ v.reserved_held d m));
  reserved_held = λ d m. grown_keeps fd d s.world (v.reserved_held d m);
  unique = v.unique;
  watched = v.watched;
}
