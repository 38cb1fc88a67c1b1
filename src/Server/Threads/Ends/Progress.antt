-- ===== src/Server/Threads/Ends/Progress.antt =====
-- That the main thread can always make a step.
use se3313a_lab.Base.{
  String, ℕ, ◌≡◌, ap, ◌∙◌, true, false, Bool-cases, some, List, done, inl, inr, text_eq,
}
use se3313a_lab.Boost.{Library}
use se3313a_lab.Msg.AnyInstance.{AnyInstance, to_json}
use se3313a_lab.Msg.Json.{to_compact}
use se3313a_lab.Net.World.{World}
use se3313a_lab.Net.Socket.{write}
use se3313a_lab.Net.Socket.Laws.{write_open}
use se3313a_lab.Net.SocketServer.{accept}
use se3313a_lab.Net.FlexWaiter.{
  FlexWaiter, Activity, nothing, on_stdin, on_socket_server, on_socket, stdin_fileno, wait,
}
use se3313a_lab.Net.FlexWaiter.Dispatch.{Iterates}
use se3313a_lab.Server.{Server, start}
use se3313a_lab.Server.Clients.Accept.{accept-grown}
use se3313a_lab.Server.Invariant.KillEvent.{Legal, waited}
use se3313a_lab.Server.Invariant.Rounds.{reported_open}
use se3313a_lab.Server.Listen.{Round}
use se3313a_lab.Server.Room.{Event}
use se3313a_lab.Server.Threads.{
  MainAt, free, entering, closing, heard, refusing, naming, pushing, stopping, SenderAt, resting,
  MainStep, waits, reads_line, reads_exit, stops, accepts, enters, hears, removes, replies, refuses,
  names, pushes, may_go, System, system, Step, main_steps, Run,
}
use se3313a_lab.Server.Threads.Good.{Good, Run-Good}
use se3313a_lab.Server.Threads.Runs.{started-Good}
use se3313a_lab.Server.Threads.Ends.{Request, Serves, Receives, CalmRun}
use se3313a_lab.Server.Threads.Ends.Open.{open-hold_event}
use se3313a_lab.Server.Threads.Ends.Calls.{wait-serves}
use se3313a_lab.Server.Threads.Ends.Heard.{hear-Receives, reply-Request}
use se3313a_lab.Server.Threads.Ends.Keeps.{Open, Run-Open}
use se3313a_lab.Server.Threads.Ends.Race.{started-Open}

module _ (L : Library) (order : List ℕ → List ℕ) (it : Iterates order) where
  open L use {Time}

  -- The text that came is a request, and the write of an error does not fail.
  abbrev pub Answered : MainAt Time → Type 0
  Answered (heard h c text) = Request L text
  Answered (refusing h c m) = (n : ℕ) × (c.written ≡ some n)
  Answered _ = Unit {0}

  abbrev Goes : Server Time → MainAt Time → Type 0
  Goes s p =
      (e : Event (AnyInstance Time)) × (s' : Server Time) × (p' : MainAt Time) × MainStep L order s
        p e s' p'

  module _ (r : Round Time) (serves : Serves r) (receives : Receives r.call) (s : Server Time)
      (k : s.killed ≡ false) (legal : Legal order r s) where
    notified :
        (act : Activity) (w : FlexWaiter)
        → wait order r.answers s.world s.flex_waiter ≡ done act w
        → Good L order (system L s free resting)
        → Goes s free
    notified nothing w x g = (_, _, _, waits r w k legal x)
    notified (on_stdin line) w x g = elim (Bool-cases (text_eq line "exit")) [
      | inl e ↦ (_, _, _, reads_exit r w line k legal x e)
      | inr e ↦ (_, _, _, reads_line r w line k legal x e)
    ]
    notified on_socket_server w x g = (
      _,
      _,
      _,
      accepts r w _ _ k legal x (
          ap (λ o. accept o r.errno (waited w s).world) serves.accepted
          ∙ accept-grown serves.client r.errno (waited w s).world),
    )
    notified (on_socket h) w x g =
        let opened =
          open-hold_event w s.world h ∙ (reported_open L order it r s w h (g.inv k) legal x).1 in
        elim (hear-Receives L h r.call (waited w s) opened receives) [
          | inl e ↦ (_, _, _, hears r w h _ _ k legal x e)
          | inr (text, e) ↦ (_, _, _, hears r w h _ _ k legal x e)
        ]

    goes :
        (p : MainAt Time) (q : SenderAt Time)
        → Answered p
        → Good L order (system L s p q)
        → Open p s
        → Goes s p
    goes free q a g v =
        let (act, w, x) = wait-serves order r serves s.world s.flex_waiter in
        notified act w x (record { inv = g.inv; at = tt; lands = λ h e. cc })
    goes (entering h) q a g v = (_, _, _, enters h)
    goes (closing h) q a g v = (_, _, _, removes h)
    goes (heard h c text) q a g v =
        let (p, s', e) = reply-Request L h c text s a in (_, _, _, replies h c text s' p e)
    goes (refusing h c m) q (n, a) g v =
        let text = to_compact L (to_json L m) in
        (
          _,
          _,
          _,
          refuses h c m _ _ (
              ap (λ a. write a h text s.world) a
              ∙ write_open text h n s.world (v.others k h g.at.1 (λ e. cc))),
        )
    goes (naming h username m) q a g v = (_, _, _, names h username m)
    goes (pushing m) q a g v = (_, _, _, pushes m)
    goes stopping q a g v = (_, _, _, stops)

  module _ (port fd : ℕ) (errno : String) (w w' : World) (s : Server Time)
      (held : w.fds stdin_fileno ≡ true) (e : start port (some fd) true errno w ≡ done s w') where
    -- In every run of the two threads from the start of the server in which no ::recv and no ::write
    -- has failed, until the server is stopped the main thread can make a step, if the calls of the
    -- system in the next round succeed, a text that came is a well-formed request, and it does not
    -- wait to queue a response during a round of the sender. It is given that the process holds
    -- standard input at the start, that the system answers the next round lawfully and that the
    -- iteration of a set visits its elements.
    pub main_goes_on :
        (t : System L) (es : List (Event (AnyInstance Time)))
        (run : Run L order (system L s free resting) es t)
        → CalmRun L order run
        → t.server.killed ≡ false
        → Answered t.main_at
        → may_go L t.main_at t.sender_at ≡ true
        → (r : Round Time) → Legal order r t.server
        → Serves r
        → Receives r.call
        → (x : Event (AnyInstance Time)) × (s' : Server Time) × (p' : MainAt Time) × Step L order t
            x
            (system L s' p' t.sender_at)
    main_goes_on t es run calm k a may r legal serves receives =
        let good = started-Good L order it port fd errno w w' s held e in
        let (x, s', p', step) =
          goes r serves receives t.server k legal t.main_at t.sender_at a
            (Run-Good L order it run good)
            (Run-Open L order it run calm good
              (started-Open L order it port fd errno w w' s held e)) in
        (x, s', p', main_steps step may)
