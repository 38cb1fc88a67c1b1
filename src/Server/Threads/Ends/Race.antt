-- ===== src/Server/Threads/Ends/Race.antt =====
-- When a step of the two threads ends the process.
use se3313a_lab.Base.{
  String, ℕ, ◌≡◌, refl, sym, ap, ◌∙◌, subst, true, false, some, List, ◌∷◌, Fault, done, thrown,
  thrown-ne-done, ◌≢◌, inl, inr, Outcome,
}
use se3313a_lab.Boost.{Library}
use se3313a_lab.Msg.AnyInstance.{AnyInstance, to_json}
use se3313a_lab.Msg.Json.{to_compact}
use se3313a_lab.Net.World.{World}
use se3313a_lab.Net.Socket.{write}
use se3313a_lab.Net.Socket.Laws.{write_open}
use se3313a_lab.Net.SocketServer.{accept}
use se3313a_lab.Net.FlexWaiter.{stdin_fileno}
use se3313a_lab.Net.FlexWaiter.Dispatch.{Iterates}
use se3313a_lab.Server.{Server, Writes, start, send_all}
use se3313a_lab.Server.Clients.Accept.{accept-grown}
use se3313a_lab.Server.Faults.{send_all_closed}
use se3313a_lab.Server.Invariant.KillEvent.{waited}
use se3313a_lab.Server.Invariant.Rounds.{reported_open}
use se3313a_lab.Server.Invariant.Reach.{start-fresh_server}
use se3313a_lab.Server.Room.{Event}
use se3313a_lab.Server.Threads.{MainAt, free, closing, resting, sending, System, system, Run}
use se3313a_lab.Server.Threads.Settled.{At}
use se3313a_lab.Server.Threads.Good.{Good, Run-Good}
use se3313a_lab.Server.Threads.Runs.{started-Good}
use se3313a_lab.Server.Broadcast.{Takes}
use se3313a_lab.Server.Threads.Ends.{
  Ends, wait_throws, accept_throws, read_throws, reply_throws, refuse_throws, send_throws, Fair,
  CalmRun,
}
use se3313a_lab.Server.Threads.Ends.Open.{OpenBut, open-hold_event, send_all-done}
use se3313a_lab.Server.Threads.Ends.Calls.{Returns, wait-serves}
use se3313a_lab.Server.Threads.Ends.Heard.{ShutAt, hear-Receives, reply-Request}
use se3313a_lab.Server.Threads.Ends.Keeps.{shutting-cases, Open, Open-free, Run-Open}
use se3313a_lab.Server.Threads.Ends.Shut.{Run-ShutAt}

-- A call that returns does not throw.
never_throws : {S A : Type 0} {o : Outcome S A} {f : Fault} {s : S} → Returns o → o ≢ thrown f s
never_throws (a, s, e) x = thrown-ne-done (sym x ∙ e)

module _ (L : Library) where
  open L use {Time}

  -- Between a read that finds a connection shut and the section that takes its client out, the
  -- sender stands before a write.
  abbrev pub Races : System L → Type 0
  Races t =
      (h : ℕ) × (m : AnyInstance Time) × (ms : List (AnyInstance Time)) × (t.main_at ≡ closing h)
      × (t.sender_at ≡ sending (m ∷ ms))

module _ (L : Library) (order : List ℕ → List ℕ) (it : Iterates order) where
  open L use {Time}

  send-Races :
      (p : MainAt Time) (s : Server Time) (m : AnyInstance Time) (ms : List (AnyInstance Time))
      (writes : Writes) (f : Fault) (w : World)
      → Open p s
      → s.killed ≡ false
      → Takes writes
      → send_all writes (to_compact L (to_json L m)) s.sockets s.world ≡ thrown f w
      → Races L (system L s p (sending (m ∷ ms)))
  send-Races p s m ms writes f w v k takes x = elim (shutting-cases p) [
    | inr (h, e) ↦ (h, m, ms, e, refl)
    | inl e ↦
        let others = subst (λ o. OpenBut o s.world s.sockets) e (v.others k) in
        let (w', d) =
          send_all-done writes (to_compact L (to_json L m)) s.sockets s.world takes others in
        absurd (never_throws (tt, w', d) x)
  ]

  Ends-Races :
      {t : System L} {f : Fault} (x : Ends L order t f)
      → Fair L order x
      → Good L order t
      → Open t.main_at t.server
      → t.server.killed ≡ false
      → Races L t
  Ends-Races {f} (wait_throws {s} r w k legal x) fair g v _ =
      absurd (never_throws (wait-serves order r fair s.world s.flex_waiter) x)
  Ends-Races (accept_throws {s} r w net k legal x y) fair g v _ =
      let answered : accept r.accepted r.errno (waited w s).world ≡ done _ _ =
        ap (λ o. accept o r.errno (waited w s).world) fair.accepted
        ∙ accept-grown fair.client r.errno (waited w s).world in
      absurd (never_throws (_, _, answered) y)
  Ends-Races (read_throws {s} r w h s' k legal x y) fair g v _ =
      let opened =
        open-hold_event w s.world h ∙ (reported_open L order it r s w h (g.inv k) legal x).1 in
      elim (hear-Receives L h r.call (waited w s) opened fair) [
        | inl e ↦ absurd (never_throws (_, _, e) y)
        | inr (text, e) ↦ absurd (never_throws (_, _, e) y)
      ]
  Ends-Races (reply_throws {s} {h} {c} {text} s' y) fair g v _ =
      absurd (never_throws (reply-Request L h c text s fair) y)
  Ends-Races (refuse_throws {s} {h} {c} {m} w y) (n, e) g v k =
      let text = to_compact L (to_json L m) in
      let written : write c.written h text s.world ≡ done _ _ =
        ap (λ a. write a h text s.world) e
        ∙ write_open text h n s.world (v.others k h g.at.1 (λ e. cc)) in
      absurd (never_throws (_, _, written) y)
  Ends-Races (send_throws {s} {p} {m} {ms} writes w y) takes g v k =
      send-Races p s m ms writes _ w v k takes y

  module _ (port fd : ℕ) (errno : String) (w w' : World) (s : Server Time)
      (held : w.fds stdin_fileno ≡ true) (e : start port (some fd) true errno w ≡ done s w') where
    pub started-Open : Open free s
    started-Open =
        subst (Open free) (start-fresh_server port fd errno w w' s e) (Open-free λ k j m n. cc)

    -- If the calls of the system succeed and every text that comes is a well-formed request, then a
    -- step of the two threads ends the process only in one way, until the server is stopped: the
    -- main thread has read from a connection that the peer has shut, and before it takes the client
    -- out of the vector the sender writes a message. It is given that no ::recv and no ::write has
    -- failed in the run from the start of the server to that point, that the process holds standard
    -- input at the start and that the iteration of a set visits its elements; what else the system
    -- may answer is part of the steps.
    pub ends_in_race :
        (t : System L) (es : List (Event (AnyInstance Time)))
        (run : Run L order (system L s free resting) es t) (f : Fault) (x : Ends L order t f)
        → CalmRun L order run
        → Fair L order x
        → t.server.killed ≡ false
        → Races L t
    ends_in_race t es run f x calm fair k =
        let good = started-Good L order it port fd errno w w' s held e in
        Ends-Races x fair (Run-Good L order it run good)
          (Run-Open L order it run calm good started-Open) k

    -- In every run of the two threads from the start of the server, while the main thread has read
    -- from a connection that the peer has shut and has not yet taken the client out of the vector,
    -- the write of any message to the clients throws, whatever the system answers. It is given that
    -- the process holds standard input at the start and that the iteration of a set visits its
    -- elements; what the system may answer is part of the steps.
    pub race_ends :
        (t : System L) (es : List (Event (AnyInstance Time)))
        → Run L order (system L s free resting) es t
        → (h : ℕ) → t.main_at ≡ closing h
        → (m : AnyInstance Time) (writes : Writes)
        → (f : Fault) × (w : World) × (send_all writes
              (to_compact L (to_json L m))
              t.server.sockets
              t.server.world
            ≡ thrown f w)
    race_ends t es run h p m writes =
        let good = started-Good L order it port fd errno w w' s held e in
        let (k, listed) =
          subst (λ p. At p t.server.killed t.server.sockets) p (Run-Good L order it run good).at in
        let shut = subst (λ p. ShutAt p t.server.world) p (Run-ShutAt L order run tt) in
        send_all_closed writes (to_compact L (to_json L m)) t.server.sockets t.server.world h listed
          shut
