-- ===== src/Server/Threads/Delivery/Client.antt =====
-- What a client receives while it is connected.
use mathlib.Core.Bool.{false≢true}
use mathlib.Core.List.{append-nil, append_assoc}
use se3313a_lab.Base.{
  String, ℕ, ◌≡◌, sym, ap, ◌∙◌, ◌≢◌, subst, true, false, some, List, ◌++◌, All, mem, done,
}
use se3313a_lab.Boost.{Library}
use se3313a_lab.Msg.AnyInstance.{AnyInstance}
use se3313a_lab.Net.World.{World, fd_of}
use se3313a_lab.Net.FlexWaiter.{stdin_fileno}
use se3313a_lab.Net.FlexWaiter.Dispatch.{Iterates}
use se3313a_lab.Server.{Server, start}
use se3313a_lab.Server.Clients.{handles}
use se3313a_lab.Server.Listen.{stop}
use se3313a_lab.Server.Room.{Event, departed}
use se3313a_lab.Server.Threads.{
  MainAt, free, resting, MainStep, waits, reads_line, reads_exit, stops, accepts, enters, hears,
  removes, replies, refuses, names, pushes, System, system, Step, main_steps, looks, begins, sends,
  clears, Run, here, follows,
}
use se3313a_lab.Server.Threads.Good.{Good, Step-Good, Run-Good}
use se3313a_lab.Server.Threads.Runs.{started-Good}
use se3313a_lab.Server.Threads.Refines.{disconnect_killed}
use se3313a_lab.Server.Threads.Ends.Heard.{reply-Replied}
use se3313a_lab.Server.Threads.Delivery.{texts_for, WholeRun, due, due_in}
use se3313a_lab.Server.Threads.Delivery.Steps.{Step-Delivered}

module _ (L : Library) (order : List ℕ → List ℕ) where
  open L use {Time}

  -- Nothing takes `killed` back.
  MainStep-alive :
      {s s' : Server Time} {p p' : MainAt Time} {e : Event (AnyInstance Time)}
      → MainStep L order s p e s' p'
      → s'.killed ≡ false
      → s.killed ≡ false
  unfolding stop
  MainStep-alive (waits r w k legal x) a = k
  MainStep-alive (reads_line r w line k legal x y) a = k
  MainStep-alive (reads_exit r w line k legal x y) a = k
  MainStep-alive stops a = absurd (false≢true (sym a))
  MainStep-alive (accepts r w h net k legal x y) a = k
  MainStep-alive (enters h) a = a
  MainStep-alive (hears r w h s' p' k legal x y) a = k
  MainStep-alive {s} (removes h) a = sym (disconnect_killed h s) ∙ a
  MainStep-alive {s} (replies h c text s' p' y) a =
      ap (λ x. x.killed) (sym (reply-Replied L h c text s s' p' y).1) ∙ a
  MainStep-alive (refuses h c m n w y) a = a
  MainStep-alive (names h username m) a = a
  MainStep-alive (pushes m) a = a

  Step-alive :
      {t t' : System L} {e : Event (AnyInstance Time)}
      → Step L order t e t'
      → t'.server.killed ≡ false
      → t.server.killed ≡ false
  Step-alive (main_steps x may) a = MainStep-alive x a
  Step-alive (looks k) a = a
  Step-alive begins a = a
  Step-alive (sends writes w e) a = a
  Step-alive clears a = a

  Run-alive :
      {t t' : System L} {es : List (Event (AnyInstance Time))}
      → Run L order t es t'
      → t'.server.killed ≡ false
      → t.server.killed ≡ false
  Run-alive here a = a
  Run-alive (follows x run) a = Step-alive x (Run-alive run a)

  module _ (it : Iterates order) where
    Run-due :
        {t t' : System L} {es : List (Event (AnyInstance Time))} (h : ℕ) (run : Run L order t es t')
        → WholeRun L order run
        → Good L order t
        → t'.server.killed ≡ false
        → All (λ e. e ≢ departed h) es
        → mem h (handles t.server.sockets) ≡ true
        → texts_for (fd_of t.server.world h) t'.server.world.written
          ≡ texts_for (fd_of t.server.world h) t.server.world.written ++ due_in L order h run
    Run-due {t} h here whole g k stays m = sym (append-nil _)
    Run-due {t} {t'} h (follows {t' = u} x run) (whole, rest) g k (remains, stays) m =
        let k' = Run-alive run k in
        let d = Step-Delivered L order it h x whole g (Step-alive x k') k' remains m in
        let later = Run-due h run rest (Step-Good L order it x g) k stays d.stays in
        let fd = fd_of t.server.world h in
        subst
          (λ y.
            texts_for y t'.server.world.written
            ≡ texts_for y u.server.world.written ++ due_in L order h run)
          d.same_fd later
        ∙ ap (λ (y : List String). y ++ due_in L order h run) d.received
        ∙ append_assoc (texts_for fd t.server.world.written) (due L order h x)
            (due_in L order h run)

    module _ (port fd : ℕ) (errno : String) (w w' : World) (s : Server Time)
        (held : w.fds stdin_fileno ≡ true) (e : start port (some fd) true errno w ≡ done s w') where
      -- A client that is in the vector at one point and does not depart up to a later one, at which
      -- the server is not stopped, receives in between what the steps write to it.
      pub client_due :
          (t t' : System L) (es es' : List (Event (AnyInstance Time)))
          → Run L order (system L s free resting) es t
          → (run : Run L order t es' t') → WholeRun L order run
          → t'.server.killed ≡ false
          → (h : ℕ) → mem h (handles t.server.sockets) ≡ true
          → All (λ e. e ≢ departed h) es'
          → texts_for (fd_of t.server.world h) t'.server.world.written
            ≡ texts_for (fd_of t.server.world h) t.server.world.written ++ due_in L order h run
      client_due t t' es es' before run whole k h m stays =
          let good = started-Good L order it port fd errno w w' s held e in
          Run-due h run whole (Run-Good L order it before good) k stays m
