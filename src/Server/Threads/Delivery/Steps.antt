-- ===== src/Server/Threads/Delivery/Steps.antt =====
-- What each step of the two threads brings to a client of the vector.
use mathlib.Core.Bool.{false≢true}
use mathlib.Core.List.{append-nil}
use se3313a_lab.Base.{
  String, ℕ, ◌≡◌, refl, sym, ap, ◌∙◌, ◌≢◌, subst, Bool, true, false, Option, List, [], ◌∷◌, ◌++◌,
  if◌then◌else◌, mem, mem-append, ==_ne, Outcome, done, thrown, left,
}
use se3313a_lab.Boost.{Library}
use se3313a_lab.Msg.AnyInstance.{AnyInstance}
use se3313a_lab.Net.World.{World, fd_of}
use se3313a_lab.Net.Socket.{read_vector, write}
use se3313a_lab.Net.SocketServer.{accept}
use se3313a_lab.Net.FlexWaiter.{FlexWaiter, wait, on_socket}
use se3313a_lab.Net.FlexWaiter.Dispatch.{Iterates}
use se3313a_lab.Server.{Server, SocketCall, disconnect, is_zero}
use se3313a_lab.Server.Broadcast.{copies}
use se3313a_lab.Server.Clients.{handles}
use se3313a_lab.Server.Clients.Accept.{accept-done, handles-append}
use se3313a_lab.Server.Clients.Fds.{has_fd-mem, mem-erase, handles-associate}
use se3313a_lab.Server.Invariant.{Inv}
use se3313a_lab.Server.Invariant.KillEvent.{waited, Legal}
use se3313a_lab.Server.Invariant.Rounds.{waited-Inv}
use se3313a_lab.Server.Listen.{Round}
use se3313a_lab.Server.Room.{Event, departed}
use se3313a_lab.Server.Threads.{
  MainAt, SenderAt, closing, heard, hear, MainStep, waits, reads_line, reads_exit, stops, accepts,
  enters, hears, removes, replies, refuses, names, pushes, System, system, Step, main_steps, looks,
  begins, sends, clears,
}
use se3313a_lab.Server.Threads.Good.{Good, hears-Settled}
use se3313a_lab.Server.Threads.Ends.Open.{Held-below}
use se3313a_lab.Server.Threads.Ends.Heard.{reply-Replied}
use se3313a_lab.Server.Threads.Delivery.{texts_for, text_of, WholeMain, Whole, due_main, due}
use se3313a_lab.Server.Threads.Delivery.Texts.{
  texts_for-append, texts_for-copies, texts_for-one, Silent, Silent-hold_event, Silent-read,
  grown_fd, write-whole, send_all-whole,
}

module _ {Time : Type 0} where
  -- The client stays, and has received the texts.
  pub record Delivered (h : ℕ) (s s' : Server Time) (texts : List String) : Type 0 where
    pub stays : mem h (handles s'.sockets) ≡ true
    pub same_fd : fd_of s'.world h ≡ fd_of s.world h
    pub received :
        texts_for (fd_of s.world h) s'.world.written
        ≡ texts_for (fd_of s.world h) s.world.written ++ texts

  quiet-Delivered :
      (h : ℕ) (s s' : Server Time)
      → mem h (handles s'.sockets) ≡ true
      → fd_of s'.world h ≡ fd_of s.world h
      → s'.world.written ≡ s.world.written
      → Delivered h s s' []
  quiet-Delivered h s s' m same log = record {
    stays = m;
    same_fd = same;
    received = ap (texts_for (fd_of s.world h)) log ∙ sym (append-nil _);
  }

  -- More of the log, of which some is for the client.
  logged-Delivered :
      (h : ℕ) (s : Server Time) (w' : World) (log : List (ℕ × String)) (texts : List String)
      → mem h (handles s.sockets) ≡ true
      → w' ≡ record (s.world) { written = s.world.written ++ log }
      → texts_for (fd_of s.world h) log ≡ texts
      → Delivered h s (record s { world = w' }) texts
  logged-Delivered h s w' log texts m e l = record {
    stays = m;
    same_fd = ap (λ (w : World). fd_of w h) e;
    received =
        ap (λ (w : World). texts_for (fd_of s.world h) w.written) e
        ∙ texts_for-append (fd_of s.world h) s.world.written log
        ∙ ap (λ (x : List String). texts_for (fd_of s.world h) s.world.written ++ x) l;
  }

  waited-Delivered :
      (h : ℕ) (w : FlexWaiter) (s : Server Time)
      → mem h (handles s.sockets) ≡ true
      → Delivered h s (waited w s) []
  waited-Delivered h w s m =
      let (same, log) = Silent-hold_event w s.world in
      quiet-Delivered h s (waited w s) m (same h) log

  accept-Delivered :
      (h j : ℕ) (r : Round Time) (w : FlexWaiter) (s : Server Time) (net : World)
      → Inv (waited w s)
      → mem h (handles s.sockets) ≡ true
      → accept r.accepted r.errno (waited w s).world ≡ done j net
      → Delivered h s (record (waited w s) { world = net }) []
  accept-Delivered h j r w s net i m y =
      let (fd, a, n, same) = accept-done r.accepted r.errno (waited w s).world net j y in
      let (held, log) = Silent-hold_event w s.world in
      quiet-Delivered h s (record (waited w s) { world = net }) m
        (ap (λ (x : World). fd_of x h) same
          ∙ grown_fd fd h (waited w s).world (Held-below (waited w s).world h s.sockets i.held m)
          ∙ held h)
        (ap (λ (x : World). x.written) same ∙ log)

  entered-Delivered :
      (h j : ℕ) (s s' : Server Time)
      → mem h (handles s.sockets) ≡ true
      → s'.world ≡ s.world
      → s'.sockets ≡ s.sockets ++ (j, "") ∷ []
      → Delivered h s s' []
  entered-Delivered h j s s' m same e =
      quiet-Delivered h s s'
        (ap (λ cs. mem h (handles cs)) e
          ∙ ap (mem h) (handles-append s.sockets j "")
          ∙ mem-append h (handles s.sockets) (j ∷ [])
          ∙ rw m refl)
        (ap (λ (w : World). fd_of w h) same) (ap (λ (w : World). w.written) same)

  disconnect-Delivered :
      (h j : ℕ) (s : Server Time)
      → Inv s
      → mem h (handles s.sockets) ≡ true
      → mem j (handles s.sockets) ≡ true
      → j ≢ h
      → Delivered h s (disconnect j s) []
  unfolding disconnect
  disconnect-Delivered h j s i m n ne = rw (has_fd-mem s.world j s.sockets n) (
      quiet-Delivered h s _
        (mem-erase s.world j h s.sockets i.distinct n ∙ rw (==_ne h j (λ e. ne (sym e))) m) refl
        refl)

module _ (L : Library) where
  open L use {Time}

  abbrev WhenSilent : World → Outcome (Server Time) (MainAt Time) → Type 0
  WhenSilent w (thrown f s) = Unit {0}
  WhenSilent w (done p s) = Silent w s.world

  hear-WhenSilent :
      (h : ℕ) (c : SocketCall Time) (s : Server Time) → WhenSilent s.world (hear L h c s)
  unfolding hear
  hear-WhenSilent h c s =
      read (read_vector c.received h "" s.world) (Silent-read c.received h "" s.world)
    where
      told :
          (b : Bool) (text : String) (w : World)
          → Silent s.world w
          → WhenSilent s.world (
              if b
              then done (closing h) (record s { world = w })
              else done (heard h c text) (record s { world = w }))
      told true text w silent = silent
      told false text w silent = silent

      read :
          (o : Outcome World (Option ℕ × String))
          → Silent s.world (left o)
          → WhenSilent s.world (elim o [
            | thrown e w ↦ thrown e (record s { world = w })
            | done (bytes_read, contents) w ↦
                if is_zero bytes_read
                then done (closing h) (record s { world = w })
                else done (heard h c contents) (record s { world = w })
          ])
      read (thrown e w) silent = tt
      read (done (n, text) w) silent = told (is_zero n) text w silent

  module _ (order : List ℕ → List ℕ) (it : Iterates order) where
    hear-Delivered :
        (h j : ℕ) (r : Round Time) (w : FlexWaiter) (s s' : Server Time) (p : MainAt Time)
        → Inv s
        → s.killed ≡ false
        → mem h (handles s.sockets) ≡ true
        → Legal order r s
        → wait order r.answers s.world s.flex_waiter ≡ done (on_socket j) w
        → hear L j r.call (waited w s) ≡ done p s'
        → Delivered h s s' []
    hear-Delivered h j r w s s' p i k m legal x y =
        let z = hears-Settled L order it r w j s s' p i k legal x y in
        let (held, log) = Silent-hold_event w s.world in
        let (same, log') =
          subst (WhenSilent (waited w s).world) y (hear-WhenSilent j r.call (waited w s)) in
        quiet-Delivered h s s' (ap (λ cs. mem h (handles cs)) z.same_sockets ∙ m) (same h ∙ held h)
          (log' ∙ log)

    MainStep-Delivered :
        {s s' : Server Time} {p p' : MainAt Time} {e : Event (AnyInstance Time)} {q : SenderAt Time}
        (h : ℕ) (x : MainStep L order s p e s' p')
        → WholeMain L order x
        → Good L order (system L s p q)
        → s.killed ≡ false
        → s'.killed ≡ false
        → e ≢ departed h
        → mem h (handles s.sockets) ≡ true
        → Delivered h s s' (due_main L order h x)
    MainStep-Delivered {s} h (waits r w k legal x) whole g _ _ d m = waited-Delivered h w s m
    MainStep-Delivered {s} h (reads_line r w line k legal x y) whole g _ _ d m =
        waited-Delivered h w s m
    MainStep-Delivered h (reads_exit r w line k legal x y) whole g _ k' d m =
        absurd (false≢true (sym k'))
    MainStep-Delivered h stops whole g k _ d m = absurd (false≢true (sym k ∙ g.at))
    MainStep-Delivered {s} h (accepts r w j net k legal x y) whole g _ _ d m =
        accept-Delivered h j r w s net (waited-Inv L order it r _ w s legal x (g.inv k)) m y
    MainStep-Delivered {s} {s'} h (enters j) whole g _ _ d m =
        entered-Delivered h j s s' m refl refl
    MainStep-Delivered {s} h (hears r w j s' p' k legal x y) whole g _ _ d m =
        hear-Delivered h j r w s s' p' (g.inv k) k m legal x y
    MainStep-Delivered {s} h (removes j) whole g k _ d m =
        disconnect-Delivered h j s (g.inv k) m g.at.1 (λ e. d (ap departed e))
    MainStep-Delivered {s} h (replies j c text s' p' y) whole g _ _ d m =
        let same = (reply-Replied L j c text s s' p' y).1 in
        subst (λ x. Delivered h s x []) (sym same) (quiet-Delivered h s s m refl refl)
    MainStep-Delivered {s} h (refuses j c a n w y) whole g k _ d m =
        let text = text_of L a in
        logged-Delivered h s w ((fd_of s.world j, text) ∷ []) _ m
          (write-whole j text s.world w n (ap (λ x. write x j text s.world) (sym whole) ∙ y))
          (texts_for-one s.world h j text s.sockets (g.inv k).distinct m g.at.1)
    MainStep-Delivered {s} {s'} h (names j username a) whole g _ _ d m =
        quiet-Delivered h s s'
          (ap (mem h) (handles-associate s.world (fd_of s.world j) username s.sockets) ∙ m) refl
          refl
    MainStep-Delivered {s} {s'} h (pushes a) whole g _ _ d m = quiet-Delivered h s s' m refl refl

    pub Step-Delivered :
        {t t' : System L} {e : Event (AnyInstance Time)} (h : ℕ) (x : Step L order t e t')
        → Whole L order x
        → Good L order t
        → t.server.killed ≡ false
        → t'.server.killed ≡ false
        → e ≢ departed h
        → mem h (handles t.server.sockets) ≡ true
        → Delivered h t.server t'.server (due L order h x)
    Step-Delivered h (main_steps x may) whole g k k' d m = MainStep-Delivered h x whole g k k' d m
    Step-Delivered h (sends {s} {m} writes w e) whole g k k' d l =
        let text = text_of L m in
        logged-Delivered h s w (copies s.world text s.sockets) _ l
          (send_all-whole writes text s.sockets s.world w whole e)
          (texts_for-copies s.world h text s.sockets (g.inv k).distinct l)
    Step-Delivered h (looks {s} k) whole g _ _ d m = quiet-Delivered h s s m refl refl
    Step-Delivered h (begins {s}) whole g _ _ d m = quiet-Delivered h s s m refl refl
    Step-Delivered h (clears {s}) whole g _ _ d m =
        quiet-Delivered h s (record s { message_queue = [] }) m refl refl
