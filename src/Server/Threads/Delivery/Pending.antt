-- ===== src/Server/Threads/Delivery/Pending.antt =====
-- What a client receives of the messages that are pending, when the sender has had its steps.
use mathlib.Core.List.{map, Sublist}
use mathlib.Core.List.Sublist
use se3313a_lab.Base.{
  String, ℕ, ◌+◌, ◌≤◌, ◌≡◌, refl, sym, ◌≢◌, subst, true, false, some, List, [], ◌∷◌, ◌++◌, All, mem,
  done, length,
}
use se3313a_lab.Boost.{Library}
use se3313a_lab.Msg.AnyInstance.{AnyInstance}
use se3313a_lab.Net.World.{World, fd_of}
use se3313a_lab.Net.FlexWaiter.{stdin_fileno}
use se3313a_lab.Net.FlexWaiter.Dispatch.{Iterates}
use se3313a_lab.Server.{Server, start}
use se3313a_lab.Server.Clients.{handles}
use se3313a_lab.Server.Room.{Event, departed}
use se3313a_lab.Server.Room.Fifo.{broadcasts}
use se3313a_lab.Server.Threads.{
  MainAt, free, resting, MainStep, waits, reads_line, reads_exit, stops, accepts, enters, hears,
  removes, replies, refuses, names, pushes, System, system, main_steps, looks, begins, sends,
  clears, Run, here, follows,
}
use se3313a_lab.Server.Threads.Refines.{pending_of}
use se3313a_lab.Server.Threads.Turns.{turns, pending_broadcast}
use se3313a_lab.Server.Threads.Delivery.{texts_for, text_of, WholeRun, due_main, due_in}
use se3313a_lab.Server.Threads.Delivery.Client.{client_due}

module _ {A : Type 0} where
  append-Sublist : (more xs ys : List A) → Sublist xs ys → Sublist xs (more ++ ys)
  append-Sublist [] xs ys v = v
  append-Sublist (x ∷ more) xs ys v = Sublist.cons x (append-Sublist more xs ys v)

  nil-Sublist : (ys : List A) → Sublist [] ys
  nil-Sublist [] = Sublist.refl []
  nil-Sublist (y ∷ ys) = Sublist.cons y (nil-Sublist ys)

  map-Sublist : {B : Type 0} (f : B → A) (xs ys : List B) → Sublist (map f xs) (map f (xs ++ ys))
  map-Sublist f [] ys = nil-Sublist (map f ys)
  map-Sublist f (x ∷ xs) ys = Sublist.cons-cons (f x) (map-Sublist f xs ys)

module _ (L : Library) (order : List ℕ → List ℕ) where
  open L use {Time}

  -- The main thread broadcasts nothing.
  MainStep-broadcasts :
      {s s' : Server Time} {p p' : MainAt Time} {e : Event (AnyInstance Time)}
      → MainStep L order s p e s' p'
      → (es : List (Event (AnyInstance Time))) → broadcasts es ≡ broadcasts (e ∷ es)
  MainStep-broadcasts (waits r w k legal x) es = refl
  MainStep-broadcasts (reads_line r w line k legal x y) es = refl
  MainStep-broadcasts (reads_exit r w line k legal x y) es = refl
  MainStep-broadcasts stops es = refl
  MainStep-broadcasts (accepts r w h net k legal x y) es = refl
  MainStep-broadcasts (enters h) es = refl
  MainStep-broadcasts (hears r w h s' p' k legal x y) es = refl
  MainStep-broadcasts (removes h) es = refl
  MainStep-broadcasts (replies h c text s' p' y) es = refl
  MainStep-broadcasts (refuses h c m n w y) es = refl
  MainStep-broadcasts (names h username m) es = refl
  MainStep-broadcasts (pushes m) es = refl

  Run-Sublist :
      {t t' : System L} {es : List (Event (AnyInstance Time))} (h : ℕ) (run : Run L order t es t')
      → Sublist (map (text_of L) (broadcasts es)) (due_in L order h run)
  Run-Sublist h here = Sublist.refl []
  Run-Sublist h (follows {es} (main_steps x g) run) = append-Sublist (due_main L order h x) _ _ (
      subst (λ ms. Sublist (map (text_of L) ms) (due_in L order h run)) (MainStep-broadcasts x es)
        (Run-Sublist h run))
  Run-Sublist h (follows (sends {m} writes w e) run) =
      Sublist.cons-cons (text_of L m) (Run-Sublist h run)
  Run-Sublist h (follows (looks k) run) = Run-Sublist h run
  Run-Sublist h (follows begins run) = Run-Sublist h run
  Run-Sublist h (follows clears run) = Run-Sublist h run

  module _ (it : Iterates order) (port fd : ℕ) (errno : String) (w w' : World) (s : Server Time)
      (held : w.fds stdin_fileno ≡ true) (e : start port (some fd) true errno w ≡ done s w') where
    -- However the two threads interleave, a client that is in the vector at one point and does not
    -- depart up to a later one, at which the server is not stopped, receives in between the whole
    -- text of every message that is pending at the first point, in their order, if the sender makes
    -- at least two steps more than there are such messages and the system takes whole what is
    -- written. It is given that both points are reached from the start of the server, that the
    -- process holds standard input at the start and that the iteration of a set visits its elements;
    -- what else the system may answer is part of the steps, which throw nothing.
    pub pending_received :
        (t t' : System L) (es es' : List (Event (AnyInstance Time)))
        → Run L order (system L s free resting) es t
        → (run : Run L order t es' t') → WholeRun L order run
        → t'.server.killed ≡ false
        → (h : ℕ) → mem h (handles t.server.sockets) ≡ true
        → All (λ e. e ≢ departed h) es'
        → 2 + length (pending_of t.sender_at t.server) ≤ turns L order run
        → (new : List String) × (texts_for (fd_of t.server.world h) t'.server.world.written
            ≡ texts_for (fd_of t.server.world h) t.server.world.written ++ new)
          × Sublist (map (text_of L) (pending_of t.sender_at t.server)) new
    pending_received t t' es es' before run whole k h m stays n =
        let (rest, sent) =
          pending_broadcast L order it port fd errno w w' s held e t t' es es' before run n in
        (
          due_in L order h run,
          client_due L order it port fd errno w w' s held e t t' es es' before run whole k h m
              stays,
          Sublist.trans
              (subst
                (λ ms.
                  Sublist (map (text_of L) (pending_of t.sender_at t.server)) (map (text_of L) ms))
                (sym sent) (map-Sublist (text_of L) (pending_of t.sender_at t.server) rest))
              (Run-Sublist h run),
        )
