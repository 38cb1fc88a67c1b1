-- ===== src/Server/Threads/Rounds.antt =====
-- Rounds of one thread with nothing of the other in between, as runs of the two threads.
use se3313a_lab.Base.{
  Fault, Option, thrown, String, ℕ, true, false, ◌≡◌, refl, sym, ap, ◌∙◌, some, List, [], ◌∷◌,
  Outcome, done, left, Outcome-cases, Bool-cases, if◌then◌else◌, text_eq, thrown-ne-done, inl, inr,
}
use se3313a_lab.Boost.{Library}
use se3313a_lab.Msg.Json.{to_compact}
use se3313a_lab.Msg.AnyInstance.{AnyInstance, to_json}
use se3313a_lab.Net.World.{World}
use se3313a_lab.Net.FlexWaiter.{
  FlexWaiter, Activity, nothing, on_stdin, on_socket_server, on_socket, wait,
}
use se3313a_lab.Server.{Server, Writes, start, send_all, send_queue, send_messages, clear_queue}
use se3313a_lab.Server.Broadcast.{send_messages-clear_queue}
use se3313a_lab.Server.Invariant.KillEvent.{Legal, waited}
use se3313a_lab.Server.Invariant.Reach.{Reach, started, listened, sent, sent_killed}
use se3313a_lab.Server.Listen.{Round, notify, listen_round}
use se3313a_lab.Server.Listen.{stop, stdin_event}
use se3313a_lab.Server.Room.{Event}
use se3313a_lab.Net.SocketServer.{accept}
use se3313a_lab.Server.{socket_server_event}
use se3313a_lab.Server.Threads.{
  free, entering, sending, waits, reads_line, reads_exit, stops, accepts, enter_section, hears,
  system, main_steps, begins, looks, sends, clears, Run, hear,
}
use se3313a_lab.Server.Threads.Sections.{sections, sections-socket_event}
use se3313a_lab.Server.Threads.Leads.{
  Leads, at_rest, Leads-refl, Leads-eq, Leads-Step, Leads-trans, last_run, sections_run,
}

module _ (L : Library) (order : List ℕ → List ℕ) where
  open L use {Time}

  server_entered :
      (fd : Option ℕ) (errno : String) (s : Server Time) (h : ℕ) (net : World)
      → accept fd errno s.world ≡ done h net
      → socket_server_event fd errno s ≡ done tt (enter_section L h (record s { world = net }))
  unfolding socket_server_event
  server_entered fd errno s h net q = rw (q, socket_server_event) refl

  server_thrown :
      (fd : Option ℕ) (errno : String) (s : Server Time) (f : Fault) (net : World)
      → accept fd errno s.world ≡ thrown f net
      → socket_server_event fd errno s ≡ thrown f (record s { world = net })
  unfolding socket_server_event
  server_thrown fd errno s f net q = rw (q, socket_server_event) refl

  notify_run :
      (r : Round Time) (act : Activity) (w : FlexWaiter) (s s' : Server Time)
      → s.killed ≡ false
      → Legal order r s
      → wait order r.answers s.world s.flex_waiter ≡ done act w
      → notify L r act (waited w s) ≡ done tt s'
      → Leads L order (at_rest L order s) (at_rest L order s')
  unfolding notify stdin_event stop
  notify_run r nothing w s s' k legal x e =
      Leads-Step L order (main_steps (waits r w k legal x) refl)
        (Leads-eq L order (ap (at_rest L order) (ap left e)))
  notify_run r (on_stdin line) w s s' k legal x e = elim (Bool-cases (text_eq line "exit")) [
    | inl y ↦ Leads-Step L order (main_steps (reads_exit r w line k legal x y) refl) (
        Leads-Step L order (main_steps stops refl) (
          Leads-eq L order (
            ap (at_rest L order)
              (sym (ap (λ b. if b then stop (waited w s) else waited w s) y) ∙ ap left e))))
    | inr y ↦ Leads-Step L order (main_steps (reads_line r w line k legal x y) refl) (
        Leads-eq L order (
          ap (at_rest L order)
            (sym (ap (λ b. if b then stop (waited w s) else waited w s) y) ∙ ap left e)))
  ]
  notify_run r on_socket_server w s s' k legal x e =
      elim (Outcome-cases (accept r.accepted r.errno (waited w s).world)) [
        | inl (h, net, q) ↦ Leads-Step L order (main_steps (accepts r w h net k legal x q) refl) (
            last_run L order (entering h) _ s'
              (sym (server_entered r.accepted r.errno (waited w s) h net q) ∙ e))
        | inr (f, net, q) ↦
            absurd
              (thrown-ne-done (sym (server_thrown r.accepted r.errno (waited w s) f net q) ∙ e))
      ]
  notify_run r (on_socket h) w s s' k legal x e =
      let cut = sections-socket_event L h r.call (waited w s) ∙ e in
      elim (Outcome-cases (hear L h r.call (waited w s))) [
        | inl (p, s1, q) ↦
            Leads-Step L order (main_steps (hears r w h s1 p k legal x q) refl)
              (sections_run L order p s1 s' (sym (ap (sections L) q) ∙ cut))
        | inr (f, s1, q) ↦ absurd (thrown-ne-done (sym (ap (sections L) q) ∙ cut))
      ]

  listen_run :
      (r : Round Time) (s s' : Server Time)
      → s.killed ≡ false
      → Legal order r s
      → listen_round L order r s ≡ done tt s'
      → Leads L order (at_rest L order s) (at_rest L order s')
  unfolding listen_round
  listen_run r s s' k legal e = elim (Outcome-cases (wait order r.answers s.world s.flex_waiter)) [
    | inl (act, w, p) ↦ notify_run r act w s s' k legal p (sym (rw (p, listen_round) refl) ∙ e)
    | inr (f, w, p) ↦
        absurd (thrown-ne-done {f = f} {s = waited w s} (sym (rw (p, listen_round) refl) ∙ e))
  ]

  -- the messages of a round, one step for each
  queue_run :
      (writes : Writes) (ms : List (AnyInstance Time)) (s : Server Time) (w : World)
      → send_queue L writes ms s.sockets s.world ≡ done tt w
      → Leads L order
          (system L s free (sending ms))
          (system L (record s { world = w }) free (sending []))
  unfolding send_queue
  queue_run writes [] s w e =
      Leads-eq L order (ap (λ x. system L (record s { world = x }) free (sending [])) (ap left e))
  queue_run writes (m ∷ ms) s w e =
      elim (Outcome-cases (send_all writes (to_compact L (to_json L m)) s.sockets s.world)) [
        | inl (u, w1, q) ↦
            Leads-Step L order (sends writes w1 q)
              (queue_run writes ms (record s { world = w1 }) w (sym (rw (q, send_queue) refl) ∙ e))
        | inr (f, w1, q) ↦
            absurd (thrown-ne-done {f = f} {s = w1} (sym (rw (q, send_queue) refl) ∙ e))
      ]

  send_run :
      (writes : Writes) (s s' : Server Time)
      → s.killed ≡ false
      → send_messages L writes s ≡ done tt s'
      → Leads L order (at_rest L order s) (at_rest L order s')
  send_run writes s s' k e =
      elim (Outcome-cases (send_queue L writes s.message_queue s.sockets s.world)) [
        | inl (u, w, q) ↦ Leads-Step L order (looks k) (
            Leads-Step L order begins (
              Leads-trans L order (queue_run writes s.message_queue s w q) (
                Leads-Step L order clears
                  (Leads-eq L order (ap (at_rest L order) (cleared (done u w) q))))))
        | inr (f, w, q) ↦ absurd (
            thrown-ne-done (
              sym (ap (λ x. clear_queue L x s) q) ∙ sym (send_messages-clear_queue L writes s) ∙ e))
      ]
    where
      cleared :
          (o : Outcome World (Unit {0}))
          → send_queue L writes s.message_queue s.sockets s.world ≡ o
          → left (clear_queue L o s) ≡ s'
      cleared o q =
          ap left
            (ap (λ x. clear_queue L x s) (sym q) ∙ sym (send_messages-clear_queue L writes s) ∙ e)

  -- what `start` makes
  pub record Started (s : Server Time) : Type 0 where
    pub port : ℕ
    pub fd : ℕ
    pub errno : String
    pub before : World
    pub after : World
    pub starts : start port (some fd) true errno before ≡ done s after

  -- Every server that is reached from a start by rounds of `listen` and of `sendMessages`, one
  -- after the other, and is not killed is also reached by a run of the two threads in sections,
  -- from a start to a point at which both are outside of them.
  pub Reach-Run :
      (s : Server Time)
      → Reach L order s
      → s.killed ≡ false
      → (s0 : Server Time) × Started s0
        × ((es : List (Event (AnyInstance Time))) × Run L order
              (at_rest L order s0)
              es
              (at_rest L order s))
  Reach-Run s (started port fd errno w w' _ held fresh e) alive = (
    s,
    record { port = port; fd = fd; errno = errno; before = w; after = w'; starts = e },
    Leads-refl L order _,
  )
  Reach-Run s' (listened r s _ reach k legal e) alive =
      let (s0, q, l) = Reach-Run s reach k in
      (s0, q, Leads-trans L order l (listen_run r s s' k legal e))
  Reach-Run s' (sent writes s _ reach e) alive =
      let k : s.killed ≡ false = sent_killed L order writes s s' e ∙ alive in
      let (s0, q, l) = Reach-Run s reach k in
      (s0, q, Leads-trans L order l (send_run writes s s' k e))
