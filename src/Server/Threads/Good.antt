-- ===== src/Server/Threads/Good.antt =====
-- What holds at every point of the two threads' interleavings.
use se3313a_lab.Base.{sym, ℕ, false, ◌≡◌, refl, ap, subst, Option, none, some, List, [], done, left}
use se3313a_lab.Boost.{Library}
use se3313a_lab.Msg.AnyInstance.{AnyInstance}
use se3313a_lab.Net.World.{fd_of}
use se3313a_lab.Net.FlexWaiter.{FlexWaiter, wait, on_socket}
use se3313a_lab.Net.FlexWaiter.Dispatch.{Iterates}
use se3313a_lab.Net.SocketServer.{accept}
use se3313a_lab.Server.{Server, socket_server_event}
use se3313a_lab.Server.Clients.Fds.{Like}
use se3313a_lab.Server.Invariant.{Inv, Inv-Like}
use se3313a_lab.Server.Invariant.Frame.{Like-send_all, Like-write}
use se3313a_lab.Server.Invariant.Events.{disconnect-Inv, socket_server_event-Inv, Inv-grown}
use se3313a_lab.Server.Clients.Accept.{accept-done, grown}
use se3313a_lab.Server.Threads.Members.{name_of, name_of-next}
use se3313a_lab.Net.FlexWaiter.{hold_event}
use se3313a_lab.Net.World.{World}
use se3313a_lab.Base.{◌≢◌, Option-cases, inl, inr, ◌∙◌}
use se3313a_lab.Server.Invariant.Requests.{Inv-queue, Inv-associate}
use se3313a_lab.Server.Invariant.KillEvent.{waited, Legal}
use se3313a_lab.Server.Invariant.Rounds.{reported_open, waited-Inv, waited-fresh}
use se3313a_lab.Server.Listen.{Round, notify}
use mathlib.Core.Bool.{false≢true}
use se3313a_lab.Msg.AnyInstance.{to_json}
use se3313a_lab.Msg.Json.{to_compact}
use se3313a_lab.Server.Listen.{stop}
use se3313a_lab.Server.Room.{Event}
use se3313a_lab.Server.Threads.{
  MainAt, hear, MainStep, waits, reads_line, reads_exit, stops, refuses, accepts, enters,
  enter_section, hears, removes, replies, names, pushes, System, Step, main_steps, begins, looks,
  sends, clears, Run, here, follows,
}
use se3313a_lab.Server.Threads.Settled.{At, arrival, Settled, hear-Settled, reply-Settled}

hold_next : (w : FlexWaiter) (net : World) → (hold_event w net).next ≡ net.next
unfolding hold_event
hold_next w net = elim (Option-cases w.kill_event_fd) [
  | inl e ↦ rw e refl
  | inr (fd, e) ↦ rw e refl
]

nobody : {o : Option ℕ} {h : ℕ} → o ≡ none → o ≢ some h
nobody n e = cc

module _ (L : Library) (order : List ℕ → List ℕ) where
  open L use {Time}

  landed-Inv :
      (fd : ℕ) (s : Server Time)
      → s.world.fds fd ≡ false
      → Inv s
      → Inv (enter_section L s.world.next (record s { world = grown fd s.world }))
  unfolding socket_server_event accept
  landed-Inv fd s fresh v = socket_server_event-Inv fd "" s fresh v

  -- The invariant of the server, until it is stopped and with a new connection put in the vector, and what the main thread relies on.
  pub record Good (t : System L) : Type 0 where
    pub inv : t.server.killed ≡ false → Inv t.server
    pub at : At t.main_at t.server.killed t.server.sockets
    pub lands : (h : ℕ) → arrival t.main_at ≡ some h → Inv (enter_section L h t.server)

  module _ (it : Iterates order) where
    pub hears-Settled :
        (r : Round Time) (w : FlexWaiter) (h : ℕ) (s s' : Server Time) (p : MainAt Time)
        → Inv s
        → s.killed ≡ false
        → Legal order r s
        → wait order r.answers s.world s.flex_waiter ≡ done (on_socket h) w
        → hear L h r.call (waited w s) ≡ done p s'
        → Settled (waited w s) p s'
    hears-Settled r w h s s' p v k legal e x =
        hear-Settled L h r.call (waited w s) s' p k (reported_open L order it r s w h v legal e).0 x

    Settled-At : {s s' : Server Time} {p : MainAt Time} → Settled s p s' → At p s'.killed s'.sockets
    Settled-At {p} x = rw (x.same_killed, x.same_sockets) x.at

    MainStep-Inv :
        {s s' : Server Time} {p p' : MainAt Time} {e : Event (AnyInstance Time)}
        → MainStep L order s p e s' p'
        → At p s.killed s.sockets
        → (s.killed ≡ false → Inv s)
        → ((h : ℕ) → arrival p ≡ some h → Inv (enter_section L h s))
        → s'.killed ≡ false
        → Inv s'
    unfolding notify stop
    MainStep-Inv {s} {s'} (waits r w k legal x) at v l k' =
        waited-Inv L order it r _ w s legal x (v k)
    MainStep-Inv {s} (reads_line r w line k legal x y) at v l k' =
        waited-Inv L order it r _ w s legal x (v k)
    MainStep-Inv (reads_exit r w line k legal x y) at v l k' = absurd (false≢true (sym k'))
    MainStep-Inv stops at v l k' = absurd (false≢true (sym k'))
    MainStep-Inv {s} (refuses h c m n w y) (k, listed) v l k' =
        Inv-Like
          (subst (Like s.world) (ap left y)
            (Like-write c.written h (to_compact L (to_json L m)) s.world))
          (v k)
    MainStep-Inv {s} (accepts r w h net k legal x y) at v l k' =
        let (fd, a, n, same) = accept-done r.accepted r.errno (waited w s).world net h y in
        subst (λ net. Inv (record (waited w s) { world = net })) (sym same)
          (Inv-grown fd (waited w s) (waited-fresh L order it r _ w s fd legal x a)
            (waited-Inv L order it r _ w s legal x (v k)))
    MainStep-Inv (enters h) at v l k' = l h refl
    MainStep-Inv {s} (hears r w h s' p' k legal x y) at v l k' =
        (hears-Settled r w h s s' p' (v k) k legal x y).keeps
          (waited-Inv L order it r _ w s legal x (v k))
    MainStep-Inv {s} (removes h) (k, m) v l k' = disconnect-Inv h s m (v k)
    MainStep-Inv {s} (replies h c text s' p' y) (k, m) v l k' =
        (reply-Settled L h c text s s' p' k m y).keeps (v k)
    MainStep-Inv {s} (names h username m) (k, l, u, a) v _ k' =
        Inv-associate L (fd_of s.world h) username s u (v k)
    MainStep-Inv {s} (pushes m) at v l k' = Inv-queue L _ s (v k')

    MainStep-At :
        {s s' : Server Time} {p p' : MainAt Time} {e : Event (AnyInstance Time)}
        → MainStep L order s p e s' p'
        → At p s.killed s.sockets
        → (s.killed ≡ false → Inv s)
        → At p' s'.killed s'.sockets
    MainStep-At {s} (hears r w h s' p' k legal x y) at v =
        Settled-At (hears-Settled r w h s s' p' (v k) k legal x y)
    MainStep-At {s} (replies h c text s' p' y) (k, m) v =
        Settled-At (reply-Settled L h c text s s' p' k m y)
    MainStep-At (waits r w k legal x) at v = tt
    MainStep-At (reads_line r w line k legal x y) at v = tt
    MainStep-At (reads_exit r w line k legal x y) at v = refl
    MainStep-At stops at v = tt
    MainStep-At (refuses h c m n w y) at v = tt
    MainStep-At {s} (accepts r w h net k legal x y) at v =
        let (fd, a, n, same) = accept-done r.accepted r.errno (waited w s).world net h y in
        (
          k,
          subst (λ i. name_of i s.sockets ≡ none) (sym (n ∙ hold_next w s.world))
              (name_of-next s.world s.sockets (v k).held),
        )
    MainStep-At (enters h) at v = tt
    MainStep-At (removes h) at v = tt
    MainStep-At (names h username m) (k, l, u, a) v = k
    MainStep-At (pushes m) at v = tt

    -- A connection that ::accept has brought lands with the invariant.
    MainStep-lands :
        {s s' : Server Time} {p p' : MainAt Time} {e : Event (AnyInstance Time)}
        → MainStep L order s p e s' p'
        → At p s.killed s.sockets
        → (s.killed ≡ false → Inv s)
        → (h : ℕ) → arrival p' ≡ some h
        → Inv (enter_section L h s')
    MainStep-lands {s} (accepts r w j net k legal x y) at v h e =
        let (fd, a, n, same) = accept-done r.accepted r.errno (waited w s).world net j y in
        let next : (waited w s).world.next ≡ h = sym n ∙ cc in
        subst (λ net. Inv (enter_section L h (record (waited w s) { world = net }))) (sym same)
          (subst
            (λ i.
              Inv (enter_section L i (record (waited w s) { world = grown fd (waited w s).world })))
            next
            (landed-Inv fd (waited w s) (waited-fresh L order it r _ w s fd legal x a)
              (waited-Inv L order it r _ w s legal x (v k))))
    MainStep-lands {s} (hears r w h s' p' k legal x y) at v j e =
        absurd (nobody (hears-Settled r w h s s' p' (v k) k legal x y).brings_none e)
    MainStep-lands {s} (replies h c text s' p' y) (k, m) v j e =
        absurd (nobody (reply-Settled L h c text s s' p' k m y).brings_none e)
    MainStep-lands (waits r w k legal x) at v h e = cc
    MainStep-lands (reads_line r w line k legal x y) at v h e = cc
    MainStep-lands (reads_exit r w line k legal x y) at v h e = cc
    MainStep-lands stops at v h e = cc
    MainStep-lands (refuses h c m n w y) at v j e = cc
    MainStep-lands (enters h) at v j e = cc
    MainStep-lands (removes h) at v j e = cc
    MainStep-lands (names h username m) at v j e = cc
    MainStep-lands (pushes m) at v h e = cc

    pub Step-Good :
        {t t' : System L} {e : Event (AnyInstance Time)} → Step L order t e t' → Good t → Good t'
    Step-Good (main_steps x g) v = record {
      inv = MainStep-Inv x v.at v.inv v.lands;
      at = MainStep-At x v.at v.inv;
      lands = MainStep-lands x v.at v.inv;
    }
    Step-Good (looks k) v = record { inv = v.inv; at = v.at; lands = v.lands }
    Step-Good begins v = record { inv = v.inv; at = v.at; lands = v.lands }
    Step-Good (sends {s} {p} {m} {ms} writes w e) v = record {
      inv = λ k.
          Inv-Like (subst (Like s.world) (ap left e) (Like-send_all writes _ s.sockets s.world))
            (v.inv k);
      at = v.at;
      lands = λ h x.
          Inv-Like (subst (Like s.world) (ap left e) (Like-send_all writes _ s.sockets s.world))
            (v.lands h x);
    }
    Step-Good (clears {s}) v = record {
      inv = λ k. Inv-queue L [] s (v.inv k);
      at = v.at;
      lands = λ h x. Inv-queue L [] (enter_section L h s) (v.lands h x);
    }

    pub Run-Good :
        {t t' : System L} {es : List (Event (AnyInstance Time))}
        → Run L order t es t'
        → Good t
        → Good t'
    Run-Good here v = v
    Run-Good (follows x run) v = Run-Good run (Step-Good x v)
