-- ===== src/Server/Entry/Release.antt =====
-- What the destructors at the end of `main` close.
use se3313a_lab.Base.{
  All, ℕ, ◌≡◌, refl, sym, ap, ◌∙◌, Bool, true, false, some, Option-cases, List, [], ◌∷◌, ◌==◌,
  if◌then◌else◌, arith, mem, ◌||◌, Bool-cases, inl, inr,
}
use se3313a_lab.Net.World.{World, open_at, fd_of}
use se3313a_lab.Net.Socket
use se3313a_lab.Net.Socket.{close}
use se3313a_lab.Net.FlexWaiter
use se3313a_lab.Net.FlexWaiter.{FlexWaiter, open_fds, kill}
use se3313a_lab.Server.{Server}
use se3313a_lab.Server.Listen.{stop}
use se3313a_lab.Server.Faults.{close_all_closes, stop-closes}
use se3313a_lab.Server.Clients.{Client, handles, close_all}
use se3313a_lab.Server.Entry.{destroy_clients, destroy_sockets, destroy_server}

-- A closed socket stays closed, and a descriptor that the process has given back stays so.
pub record Releases (w w' : World) : Type 0 where
  pub still_closed : (h : ℕ) → open_at w h ≡ false → open_at w' h ≡ false
  pub still_free : (fd : ℕ) → w.fds fd ≡ false → w'.fds fd ≡ false

Releases-refl : (w : World) → Releases w w
Releases-refl w = record { still_closed = λ h c. c; still_free = λ fd c. c }

Releases-trans : {u v w : World} → Releases u v → Releases v w → Releases u w
Releases-trans x y = record {
  still_closed = λ h c. y.still_closed h (x.still_closed h c);
  still_free = λ fd c. y.still_free fd (x.still_free fd c);
}

destroy-Releases : (h : ℕ) (w : World) → Releases w (Socket.destroy h w)
unfolding Socket.destroy close
destroy-Releases h w = record {
  still_closed = λ j c. ground arith;
  still_free = λ fd c. ground arith;
}

destroy_clients-Releases :
    (w : FlexWaiter) (cs : List Client) (net : World) → Releases net (destroy_clients w cs net)
unfolding destroy_clients
destroy_clients-Releases w [] net = Releases-refl net
destroy_clients-Releases w ((h, name) ∷ cs) net = elim (Bool-cases (mem h w.sockets)) [
  | inl e ↦ rw (e, destroy_clients) (destroy_clients-Releases w cs net)
  | inr e ↦
      rw (e, destroy_clients)
        (Releases-trans (destroy-Releases h net)
          (destroy_clients-Releases w cs (Socket.destroy h net)))
]

destroy_sockets-Releases : (hs : List ℕ) (net : World) → Releases net (destroy_sockets hs net)
unfolding destroy_sockets
destroy_sockets-Releases [] net = Releases-refl net
destroy_sockets-Releases (h ∷ hs) net =
    Releases-trans (destroy-Releases h net) (destroy_sockets-Releases hs (Socket.destroy h net))

destroy_waiter-Releases : (w : FlexWaiter) (net : World) → Releases net (FlexWaiter.destroy w net)
unfolding FlexWaiter.destroy
destroy_waiter-Releases w net = elim (Option-cases w.kill_event_fd) [
  | inl e ↦ rw e (Releases-refl net)
  | inr (k, e) ↦ rw e record { still_closed = λ h c. c; still_free = λ fd c. ground arith }
]

-- The destructors open nothing and hold nothing.
pub destroy_server-Releases :
    {Time : Type 0} (s : Server Time) → Releases s.world (destroy_server s)
unfolding destroy_server
destroy_server-Releases s =
    let w = s.flex_waiter in
    Releases-trans (destroy_clients-Releases w s.sockets s.world) (
      Releases-trans (destroy_waiter-Releases w (destroy_clients w s.sockets s.world)) (
        destroy_sockets-Releases w.sockets
          (FlexWaiter.destroy w (destroy_clients w s.sockets s.world))))

All-Releases :
    {w w' : World} (hs : List ℕ)
    → Releases w w'
    → All (λ h. open_at w h ≡ false) hs
    → All (λ h. open_at w' h ≡ false) hs
All-Releases [] r v = tt
All-Releases (h ∷ hs) r (c, v) = (r.still_closed h c, All-Releases hs r v)

-- No client's socket is open after `stop` and the destructors.
pub stop-closed :
    {Time : Type 0} (s : Server Time)
    → All (λ h. open_at (destroy_server (stop s)) h ≡ false) (handles s.sockets)
stop-closed s = All-Releases (handles s.sockets) (destroy_server-Releases (stop s)) (stop-closes s)

-- Closing a socket changes the open descriptors by its own at most.
close-open_fds :
    (fd h : ℕ) (w : World) (hs : List ℕ)
    → (fd_of w h == fd) ≡ false
    → mem fd (open_fds (close h w) hs) ≡ mem fd (open_fds w hs)
unfolding close open_fds
close-open_fds fd h w [] n = refl
close-open_fds fd h w (j ∷ hs) n = ground (arith, close-open_fds fd h w hs n)

close_step :
    (fd h : ℕ) (w : World) (hs : List ℕ)
    → (if mem fd (open_fds (close h w) hs) then false else (close h w).fds fd)
      ≡ (if mem fd (open_fds w (h ∷ hs)) then false else w.fds fd)
unfolding close open_fds
close_step fd h w hs = elim (Bool-cases (open_at w h)) [
  | inr e ↦ rw e refl
  | inl e ↦ elim (Bool-cases (fd_of w h == fd)) [
    | inl same ↦ ground arith
    | inr other ↦ rw (close-open_fds fd h w hs other) (ground arith)
  ]
]

-- Of the descriptors that are held, `close_all` gives back those of the open sockets.
close_all-fds :
    (fd : ℕ) (cs : List Client) (w : World)
    → (close_all cs w).fds fd ≡ (if mem fd (open_fds w (handles cs)) then false else w.fds fd)
unfolding close_all open_fds
close_all-fds fd [] w = refl
close_all-fds fd ((h, name) ∷ cs) w =
    close_all-fds fd cs (close h w) ∙ close_step fd h w (handles cs)

destroy_closed : (h : ℕ) (w : World) → open_at w h ≡ false → Socket.destroy h w ≡ w
unfolding Socket.destroy
destroy_closed h w c = rw c refl

destroy_sockets_closed :
    (hs : List ℕ) (net : World)
    → ((h : ℕ) → mem h hs ≡ true → open_at net h ≡ false)
    → destroy_sockets hs net ≡ net
unfolding destroy_sockets
destroy_sockets_closed [] net c = refl
destroy_sockets_closed (h ∷ hs) net c =
    rw (destroy_closed h net (c h (ground arith)), destroy_sockets)
      (destroy_sockets_closed hs net (λ j m. c j (ground (arith, m))))

destroy_clients_closed :
    (w : FlexWaiter) (cs : List Client) (net : World)
    → ((h : ℕ) → mem h (handles cs) ≡ true → open_at net h ≡ false)
    → destroy_clients w cs net ≡ net
unfolding destroy_clients
destroy_clients_closed w [] net c = refl
destroy_clients_closed w ((h, name) ∷ cs) net c =
    rw (destroy_closed h net (c h (ground arith)), destroy_clients)
      (ap (destroy_clients w cs) (same (mem h w.sockets))
        ∙ destroy_clients_closed w cs net (λ j m. c j (ground (arith, m))))
  where
    same : (b : Bool) → (if b then net else net) ≡ net
    same true = refl
    same false = refl

kill-sockets : (w : FlexWaiter) → (kill w).sockets ≡ w.sockets
unfolding kill
kill-sockets w = ground arith

destroy-kill-fds :
    (w : FlexWaiter) (net : World) (k fd : ℕ)
    → w.kill_event_fd ≡ some k
    → (FlexWaiter.destroy (kill w) net).fds fd ≡ (if k == fd then false else net.fds fd)
unfolding FlexWaiter.destroy kill
destroy-kill-fds w net k fd e = rw (e, FlexWaiter.destroy) (rw e refl)

either :
    (a b c : Bool) → (if a then false else if b then false else c) ≡ (if a || b then false else c)
either true b c = refl
either false b c = refl

module _ {Time : Type 0} where
  -- After `stop` the destructors close nothing but the kill event.
  destroy_server-stop :
      (s : Server Time)
      → ((h : ℕ) → mem h s.flex_waiter.sockets ≡ true → mem h (handles s.sockets) ≡ true)
      → destroy_server (stop s)
        ≡ FlexWaiter.destroy (kill s.flex_waiter) (close_all s.sockets s.world)
  unfolding destroy_server stop
  destroy_server-stop s listed =
      let w = kill s.flex_waiter in
      let net = close_all s.sockets s.world in
      let closed : (h : ℕ) → mem h (handles s.sockets) ≡ true → open_at net h ≡ false =
        λ h m. close_all_closes s.sockets h s.world m in
      ap (λ x. destroy_sockets w.sockets (FlexWaiter.destroy w x))
        (destroy_clients_closed w s.sockets net closed)
      ∙ destroy_sockets_closed w.sockets (FlexWaiter.destroy w net) (λ h m.
        (destroy_waiter-Releases w net).still_closed h
          (closed h (listed h (ap (mem h) (sym (kill-sockets s.flex_waiter)) ∙ m))))

  -- If the server has made its kill event, and the waiter watches clients of the vector only, then
  -- after `stop` and the destructors at the end of `main` the process has given back the kill event
  -- and the descriptors of the clients' open sockets, and goes on holding every other one: that of
  -- the listening socket too, which is shut down and never closed, and those of the clients whose
  -- sockets a read or a write had marked as not open.
  pub stop_releases :
      (s : Server Time) (k fd : ℕ)
      → s.flex_waiter.kill_event_fd ≡ some k
      → ((h : ℕ) → mem h s.flex_waiter.sockets ≡ true → mem h (handles s.sockets) ≡ true)
      → (destroy_server (stop s)).fds fd
        ≡ (if mem fd (k ∷ open_fds s.world (handles s.sockets)) then false else s.world.fds fd)
  stop_releases s k fd e listed =
      ap (λ x. x.fds fd) (destroy_server-stop s listed)
      ∙ destroy-kill-fds s.flex_waiter (close_all s.sockets s.world) k fd e
      ∙ ap (λ x. if k == fd then false else x) (close_all-fds fd s.sockets s.world)
      ∙ either (k == fd) (mem fd (open_fds s.world (handles s.sockets))) (s.world.fds fd)
