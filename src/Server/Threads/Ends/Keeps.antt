-- ===== src/Server/Threads/Ends/Keeps.antt =====
-- Which clients' sockets are open while the two threads run.
use mathlib.Core.Bool.{false≢true}
use se3313a_lab.Base.{
  ℕ, ◌<◌, ◌≡◌, refl, sym, ap, ◌∙◌, subst, true, false, Option, none, some, List, [], ◌∷◌, ◌++◌,
  ◌==◌, ◌||◌, mem, mem-append, arith, Bool-cases, inl, inr, ◌⊎◌, ==_iff, Outcome, done, thrown,
  left,
}
use se3313a_lab.Boost.{Library}
use se3313a_lab.Msg.AnyInstance.{AnyInstance, to_json}
use se3313a_lab.Msg.Json.{to_compact}
use se3313a_lab.Net.World.{World, open_at, fd_of}
use se3313a_lab.Net.Socket.{write}
use se3313a_lab.Net.SocketServer.{accept}
use se3313a_lab.Net.FlexWaiter.{FlexWaiter, wait, on_socket}
use se3313a_lab.Net.FlexWaiter.Dispatch.{Iterates}
use se3313a_lab.Server.{Server, SocketCall, disconnect}
use se3313a_lab.Server.Clients.{Client, handles, erase_client}
use se3313a_lab.Server.Clients.Accept.{grown, accept-done, handles-append}
use se3313a_lab.Server.Clients.Fds.{has_fd-mem, mem-erase, handles-associate}
use se3313a_lab.Server.Invariant.{Inv}
use se3313a_lab.Server.Invariant.KillEvent.{waited, Legal}
use se3313a_lab.Server.Invariant.Rounds.{reported_open, waited-Inv}
use se3313a_lab.Server.Listen.{Round, stop}
use se3313a_lab.Server.Room.{Event}
use se3313a_lab.Server.Threads.{
  MainAt, SenderAt, free, entering, closing, heard, refusing, stopping, naming, pushing, hear,
  MainStep, waits, reads_line, reads_exit, stops, accepts, enters, hears, removes, replies, refuses,
  names, pushes, System, system, Step, main_steps, looks, begins, sends, clears, Run, here, follows,
}
use se3313a_lab.Server.Threads.Settled.{arrival}
use se3313a_lab.Server.Threads.Good.{Good, Step-Good}
use se3313a_lab.Server.Threads.Ends.{Receives, CalmMain, Calm, CalmRun}
use se3313a_lab.Server.Threads.Ends.Open.{
  OpenBut, SameOpen, OpenBut-same, OpenBut-set_open, open-hold_event, Held-below, open-grown,
  open-new, write-open, send_all-same,
}
use se3313a_lab.Server.Threads.Ends.Heard.{
  Replied, refused, named, pushed, hear-Receives, reply-Replied,
}

module _ {Time : Type 0} where
  -- the client whose socket has been shut and that is still in the vector
  abbrev pub shutting : MainAt Time → Option ℕ
  shutting (closing h) = some h
  shutting _ = none

  pub shutting-cases : (p : MainAt Time) → (shutting p ≡ none) ⊎ ((h : ℕ) × (p ≡ closing h))
  shutting-cases (closing h) = inr (h, refl)
  shutting-cases free = inl refl
  shutting-cases (entering h) = inl refl
  shutting-cases (heard h c text) = inl refl
  shutting-cases (refusing h c m) = inl refl
  shutting-cases (naming h username m) = inl refl
  shutting-cases (pushing m) = inl refl
  shutting-cases stopping = inl refl

  -- Until `stop`, the clients' sockets are open, but for the one that is being taken out; and so is
  -- the socket of a new connection.
  pub record Open (p : MainAt Time) (s : Server Time) : Type 0 where
    pub others : s.killed ≡ false → OpenBut (shutting p) s.world s.sockets
    pub new_open : (h : ℕ) → arrival p ≡ some h → open_at s.world h ≡ true

  pub Open-free :
      {s : Server Time} → (s.killed ≡ false → OpenBut none s.world s.sockets) → Open free s
  Open-free o = record { others = o; new_open = λ h e. cc }

  Open-Replied :
      (h : ℕ) (p : MainAt Time) (s : Server Time)
      → Replied h p
      → (s.killed ≡ false → OpenBut none s.world s.sockets)
      → Open p s
  Open-Replied h _ s refused o = record { others = o; new_open = λ i e. cc }
  Open-Replied h _ s named o = record { others = o; new_open = λ i e. cc }
  Open-Replied h _ s pushed o = record { others = o; new_open = λ i e. cc }

  Open-world :
      (p : MainAt Time) (s : Server Time) (w : World)
      → SameOpen s.world w
      → Open p s
      → Open p (record s { world = w })
  Open-world p s w same v = record {
    others = λ k. OpenBut-same (shutting p) s.world w s.sockets same (v.others k);
    new_open = λ h e. same h ∙ v.new_open h e;
  }

module _ (L : Library) (order : List ℕ → List ℕ) where
  open L use {Time}

  module _ (it : Iterates order) where
    abbrev WhenOpen : Outcome (Server Time) (MainAt Time) → Type 0
    WhenOpen (thrown f s) = Unit {0}
    WhenOpen (done p s) = Open p s

    hears-Open :
        (r : Round Time) (w : FlexWaiter) (h : ℕ) (s s' : Server Time) (p : MainAt Time)
        → Open free s
        → Inv s
        → s.killed ≡ false
        → Legal order r s
        → wait order r.answers s.world s.flex_waiter ≡ done (on_socket h) w
        → hear L h r.call (waited w s) ≡ done p s'
        → Receives r.call
        → Open p s'
    hears-Open r w h s s' p v i k legal x y receives =
        let same = open-hold_event w s.world in
        let others : OpenBut none (waited w s).world s.sockets =
          OpenBut-same none s.world (waited w s).world s.sockets same (v.others k) in
        let opened = same h ∙ (reported_open L order it r s w h i legal x).1 in
        elim (hear-Receives L h r.call (waited w s) opened receives) [
          | inl found ↦ subst WhenOpen (sym found ∙ y) record {
            others = λ _. OpenBut-set_open h (waited w s).world s.sockets others;
            new_open = λ j e. cc;
          }
          | inr (text, found) ↦
              subst WhenOpen (sym found ∙ y) record { others = λ _. others; new_open = λ j e. cc }
        ]

    entered_others :
        (h : ℕ) (w : World) (cs : List Client)
        → open_at w h ≡ true
        → OpenBut none w cs
        → OpenBut none w (cs ++ (h, "") ∷ [])
    entered_others h w cs new o j m n =
        let q : (mem j (handles cs) || (h == j || false)) ≡ true =
          sym (ap (mem j) (handles-append cs h "") ∙ mem-append j (handles cs) (h ∷ [])) ∙ m in
        elim (Bool-cases (h == j)) [
          | inl e ↦ subst (λ i. open_at w i ≡ true) ((==_iff h j).0 e) new
          | inr e ↦ o j (ground arith) n
        ]

    removes-Open :
        (h : ℕ) (s : Server Time)
        → Open (closing h) s
        → Inv s
        → mem h (handles s.sockets) ≡ true
        → Open free (disconnect h s)
    unfolding disconnect
    removes-Open h s v i m = rw (has_fd-mem s.world h s.sockets m) (
        Open-free λ k j l n. elim (Bool-cases (j == h)) [
          | inl e ↦ absurd (false≢true (sym (gone j e) ∙ l))
          | inr e ↦
              v.others k j (sym (kept j e) ∙ l)
                (λ q. let own : j ≡ h = cc in false≢true (sym e ∙ (==_iff j h).1 own))
        ])
      where
        gone :
            (j : ℕ)
            → (j == h) ≡ true
            → mem j (handles (erase_client s.world (fd_of s.world h) s.sockets)) ≡ false
        gone j e = mem-erase s.world h j s.sockets i.distinct m ∙ rw e refl

        kept :
            (j : ℕ)
            → (j == h) ≡ false
            → mem j (handles (erase_client s.world (fd_of s.world h) s.sockets))
              ≡ mem j (handles s.sockets)
        kept j e = mem-erase s.world h j s.sockets i.distinct m ∙ rw e refl

    accepts-Open :
        (r : Round Time) (w : FlexWaiter) (h : ℕ) (s : Server Time) (net : World)
        → Open free s
        → Inv (waited w s)
        → s.killed ≡ false
        → accept r.accepted r.errno (waited w s).world ≡ done h net
        → Open (entering h) (record (waited w s) { world = net })
    accepts-Open r w h s net v i k y =
        let (fd, a, n, same) = accept-done r.accepted r.errno (waited w s).world net h y in
        let below : (j : ℕ) → mem j (handles s.sockets) ≡ true → j < (waited w s).world.next =
          λ j. Held-below (waited w s).world j s.sockets i.held in
        record {
          others = λ k j m e.
              ap (λ x. open_at x j) same
              ∙ open-grown fd j (waited w s).world (below j m)
              ∙ open-hold_event w s.world j
              ∙ v.others k j m (λ e. cc);
          new_open = λ j e.
              let late : h ≡ j = cc in
              let own : j ≡ (waited w s).world.next = sym late ∙ n in
              ap (λ x. open_at x j) same
              ∙ ap (open_at (grown fd (waited w s).world)) own
              ∙ open-new fd (waited w s).world;
        }

    refuses-Open :
        (h n : ℕ) (c : SocketCall Time) (m : AnyInstance Time) (s : Server Time) (a : Option ℕ)
        (w : World)
        → c.written ≡ some n
        → Open (refusing h c m) s
        → write c.written h (to_compact L (to_json L m)) s.world ≡ done a w
        → Open free (record s { world = w })
    refuses-Open h n c m s a w e v y =
        let text = to_compact L (to_json L m) in
        Open-free λ k.
          OpenBut-same none s.world w s.sockets
            (subst (SameOpen s.world) (ap left (ap (λ x. write x h text s.world) (sym e) ∙ y))
              (write-open n h text s.world))
            (v.others k)

    MainStep-Open :
        {s s' : Server Time} {p p' : MainAt Time} {e : Event (AnyInstance Time)} {q : SenderAt Time}
        (x : MainStep L order s p e s' p')
        → CalmMain L order x
        → Good L order (system L s p q)
        → Open p s
        → Open p' s'
    unfolding stop
    MainStep-Open {s} (waits r w k legal x) calm g v = Open-free λ k.
        OpenBut-same none s.world (waited w s).world s.sockets (open-hold_event w s.world)
          (v.others k)
    MainStep-Open {s} (reads_line r w line k legal x y) calm g v = Open-free λ k.
        OpenBut-same none s.world (waited w s).world s.sockets (open-hold_event w s.world)
          (v.others k)
    MainStep-Open (reads_exit r w line k legal x y) calm g v = record {
      others = λ k. absurd (false≢true (sym k));
      new_open = λ h e. cc;
    }
    MainStep-Open stops calm g v = Open-free λ k. absurd (false≢true (sym k))
    MainStep-Open {s} (accepts r w h net k legal x y) calm g v =
        accepts-Open r w h s net v (waited-Inv L order it r _ w s legal x (g.inv k)) k y
    MainStep-Open {s} (enters h) calm g v =
        Open-free λ k. entered_others h s.world s.sockets (v.new_open h refl) (v.others k)
    MainStep-Open {s} (hears r w h s' p' k legal x y) calm g v =
        hears-Open r w h s s' p' v (g.inv k) k legal x y calm
    MainStep-Open {s} (removes h) calm g v = let (k, m) = g.at in removes-Open h s v (g.inv k) m
    MainStep-Open {s} (replies h c text s' p' y) calm g v =
        let (k, m) = g.at in
        let (replied, same) = reply-Replied L h c text s s' p' y in
        subst (Open p') (sym same) (Open-Replied h p' s replied v.others)
    MainStep-Open {s} (refuses h c m a w y) (n, e) g v = refuses-Open h n c m s a w e v y
    MainStep-Open {s} (names h username m) calm g v = record {
      others = λ k j l.
          v.others k j
            (sym (ap (mem j) (handles-associate s.world (fd_of s.world h) username s.sockets)) ∙ l);
      new_open = λ j e. cc;
    }
    MainStep-Open (pushes m) calm g v = Open-free v.others

    Step-Open :
        {t t' : System L} {e : Event (AnyInstance Time)} (x : Step L order t e t')
        → Calm L order x
        → Good L order t
        → Open t.main_at t.server
        → Open t'.main_at t'.server
    Step-Open (main_steps x may) calm g v = MainStep-Open x calm g v
    Step-Open (sends {s} {p} {m} writes w e) takes g v =
        let text = to_compact L (to_json L m) in
        Open-world p s w
          (subst (SameOpen s.world) (ap left e) (send_all-same writes text s.sockets s.world takes))
          v
    Step-Open (looks k) calm g v = v
    Step-Open begins calm g v = v
    Step-Open clears calm g v = record { others = v.others; new_open = v.new_open }

    -- After a calm run the clients' sockets are open.
    pub Run-Open :
        {t t' : System L} {es : List (Event (AnyInstance Time))} (run : Run L order t es t')
        → CalmRun L order run
        → Good L order t
        → Open t.main_at t.server
        → Open t'.main_at t'.server
    Run-Open here calm g v = v
    Run-Open (follows x run) (calm, rest) g v =
        Run-Open run rest (Step-Good L order it x g) (Step-Open x calm g v)
