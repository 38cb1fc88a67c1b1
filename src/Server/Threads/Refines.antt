-- ===== src/Server/Threads/Refines.antt =====
-- The two threads seen as a room.
use mathlib.Core.Bool.{false≢true}
use se3313a_lab.Base.{
  ℕ, true, ◌≡◌, refl, ap, none, List, ◌==◌, if◌then◌else◌, mem, Bool-cases, inl, inr,
}
use se3313a_lab.Boost.{Library}
use se3313a_lab.Msg.AnyInstance.{AnyInstance}
use se3313a_lab.Net.World.{fd_of}
use se3313a_lab.Net.FlexWaiter.Dispatch.{Iterates}
use se3313a_lab.Server.{Server, disconnect}
use se3313a_lab.Server.Clients.{handles, has_fd}
use se3313a_lab.Server.Clients.Fds.{has_fd-mem}
use se3313a_lab.Server.Invariant.{Inv}
use se3313a_lab.Server.Listen.{stop}
use se3313a_lab.Server.Room.{
  Room, Event, RoomStep, stays, enters, departs, takes_name, is_announced, is_broadcast, RoomRun,
}
use se3313a_lab.Server.Threads as T
use se3313a_lab.Server.Threads.{
  MainAt, system, SenderAt, resting, sending, MainStep, waits, reads_line, reads_exit, stops,
  refuses, accepts, hears, removes, replies, names, pushes, System, Step, main_steps, begins, looks,
  sleeping, sends, clears, may_go, Run, here, follows,
}
use se3313a_lab.Server.Threads.Settled.{announces, owed, reply-Settled}
use se3313a_lab.Server.Threads.Good.{Good, Step-Good, hears-Settled}
use se3313a_lab.Server.Threads.Members.{
  name_of, name_of-mem, name_of-append, Unused-name_of, name_of-erase, name_of-associate,
}

-- the messages that are still to be broadcast
abbrev pub pending_of : {Time : Type 0} → SenderAt Time → Server Time → List (AnyInstance Time)
pending_of resting s = s.message_queue
pending_of sleeping s = s.message_queue
pending_of (sending ms) s = ms

module _ {Time : Type 0} where
  disconnect_sockets :
      (h : ℕ) (s : Server Time)
      → mem h (handles s.sockets) ≡ true
      → Inv s
      → (j : ℕ)
      → name_of j (disconnect h s).sockets ≡ (if h == j then none else name_of j s.sockets)
  unfolding disconnect
  disconnect_sockets h s m v j =
      rw (has_fd-mem s.world h s.sockets m) (name_of-erase s.world h j s.sockets v.distinct m)

  pub disconnect_queue :
      (h : ℕ) (s : Server Time) → (disconnect h s).message_queue ≡ s.message_queue
  unfolding disconnect
  disconnect_queue h s = elim (Bool-cases (has_fd s.world (fd_of s.world h) s.sockets)) [
    | inl e ↦ rw e refl
    | inr e ↦ rw e refl
  ]

  pub disconnect_killed : (h : ℕ) (s : Server Time) → (disconnect h s).killed ≡ s.killed
  unfolding disconnect
  disconnect_killed h s = elim (Bool-cases (has_fd s.world (fd_of s.world h) s.sockets)) [
    | inl e ↦ rw e refl
    | inr e ↦ rw e refl
  ]

  pending_same :
      (q : SenderAt Time) (s s' : Server Time)
      → s'.message_queue ≡ s.message_queue
      → pending_of q s' ≡ pending_of q s
  pending_same resting s s' e = e
  pending_same sleeping s s' e = e
  pending_same (sending ms) s s' e = refl

module _ (L : Library) where
  open L use {Time}

  -- The room that the system stands for.
  abbrev pub view : System L → Room (AnyInstance Time)
  view t = record {
    members = λ j. name_of j t.server.sockets;
    owed = owed t.main_at;
    pending = pending_of t.sender_at t.server;
  }

  module _ (order : List ℕ → List ℕ) (it : Iterates order) where
    MainStep-RoomStep :
        {s s' : Server Time} {p p' : MainAt Time} {e : Event (AnyInstance Time)} (q : SenderAt Time)
        → MainStep L order s p e s' p'
        → may_go L p q ≡ true
        → Good L order (system L s p q)
        → RoomStep announces (view (system L s p q)) (view (system L s' p' q)) e
    unfolding stop
    MainStep-RoomStep {s} {s'} q (waits r w k legal x) g v =
        stays (λ j. refl) refl (pending_same q s s' refl)
    MainStep-RoomStep {s} {s'} q (reads_line r w line k legal x y) g v =
        stays (λ j. refl) refl (pending_same q s s' refl)
    MainStep-RoomStep {s} {s'} q (reads_exit r w line k legal x y) g v =
        stays (λ j. refl) refl (pending_same q s s' refl)
    MainStep-RoomStep {s} {s'} q stops g v = stays (λ j. refl) refl (pending_same q s s' refl)
    MainStep-RoomStep {s} {s'} q (refuses h c m n w y) g v =
        stays (λ j. refl) refl (pending_same q s s' refl)
    MainStep-RoomStep {s} {s'} q (accepts r w h net k legal x y) g v =
        stays (λ j. refl) refl (pending_same q s s' refl)
    MainStep-RoomStep {s} {s'} q (T.enters h) g v =
        let (k, new) = v.at in
        enters refl new (λ j. name_of-append h j s.sockets new) refl (pending_same q s s' refl)
    MainStep-RoomStep {s} {s'} q (hears r w h _ p' k legal x y) g v =
        let z = hears-Settled L order it r w h s s' p' (v.inv k) k legal x y in
        stays (λ j. ap (name_of j) z.same_sockets) z.owes_none (pending_same q s s' z.same_queue)
    MainStep-RoomStep {s} {s'} q (removes h) g v =
        let (k, m) = v.at in
        let (name, known) = name_of-mem h s.sockets m in
        departs name refl known (disconnect_sockets h s m (v.inv k)) refl
          (pending_same q s s' (disconnect_queue h s))
    MainStep-RoomStep {s} {s'} q (replies h c text _ p' y) g v =
        let (k, m) = v.at in
        let z = reply-Settled L h c text s s' p' k m y in
        stays (λ j. ap (name_of j) z.same_sockets) z.owes_none (pending_same q s s' z.same_queue)
    MainStep-RoomStep {s} {s'} q (names h username m) g v =
        let (k, l, u, a) = v.at in
        let (name, known) = name_of-mem h s.sockets l in
        takes_name name refl known (λ j. Unused-name_of username j s.sockets u)
          (λ j. name_of-associate s.world h j username s.sockets (v.inv k).distinct l) a
          (pending_same q s s' refl)
    MainStep-RoomStep resting (pushes m) g v = is_announced refl (λ j. refl) refl refl
    MainStep-RoomStep sleeping (pushes m) g v = is_announced refl (λ j. refl) refl refl
    MainStep-RoomStep (sending ms) (pushes m) g v = absurd (false≢true g)

    Step-RoomStep :
        {t t' : System L} {e : Event (AnyInstance Time)}
        → Step L order t e t'
        → Good L order t
        → RoomStep announces (view t) (view t') e
    Step-RoomStep (main_steps {q} x g) v = MainStep-RoomStep q x g v
    Step-RoomStep (looks k) v = stays (λ j. refl) refl refl
    Step-RoomStep begins v = stays (λ j. refl) refl refl
    Step-RoomStep (sends writes w e) v = is_broadcast (λ j. refl) refl refl
    Step-RoomStep clears v = stays (λ j. refl) refl refl

    pub Run-RoomRun :
        {t t' : System L} {es : List (Event (AnyInstance Time))}
        → Run L order t es t'
        → Good L order t
        → RoomRun announces (view t) es (view t')
    Run-RoomRun here v = RoomRun.here
    Run-RoomRun (follows x run) v =
        RoomRun.follows (Step-RoomStep x v) (Run-RoomRun run (Step-Good L order it x v))
