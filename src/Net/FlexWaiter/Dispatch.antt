-- ===== src/Net/FlexWaiter/Dispatch.antt =====
-- Which activity a wait reports.
use se3313a_lab.Base.{
  subst, ℕ, ◌≡◌, refl, sym, ap, ◌∙◌, ◌≢◌, true, false, none, some, List, [], ◌∷◌, ◌==◌, mem, arith,
  Outcome, done,
}
use se3313a_lab.Net.World.{World, fd_of, open_at}
use se3313a_lab.Net.FlexWaiter.{
  FlexWaiter, open_fds, master_fds, the_set, stdin_fileno, Activity, nothing, on_socket, Answers,
  first_ready, dispatch, kill_event, wait, kill, master_ready,
}
use se3313a_lab.Net.FlexWaiter.Watch.{mem-the_set, open_fds-OpenWith}

-- The socket reported is one of the list whose descriptor is ready.
pub first_ready-mem :
    (net : World) (ready hs : List ℕ) (h : ℕ)
    → first_ready net ready hs ≡ on_socket h
    → (mem h hs ≡ true) × (mem (fd_of net h) ready ≡ true)
unfolding first_ready
first_ready-mem net ready [] h e = cc
first_ready-mem net ready (j ∷ hs) h e = ground (arith, first_ready-mem net ready hs h)

-- What ::select may report: only descriptors that it was asked about.
abbrev pub Asked : FlexWaiter → World → List ℕ → ℕ → List ℕ → Type 0
Asked w net order kill_fd ready =
    (fd : ℕ) → mem fd ready ≡ true → mem fd (the_set w net order kill_fd) ≡ true

-- The sockets of the set have descriptors of their own: none is that of another socket of the set,
-- of standard input, of the listening socket or of the kill event.
pub record Separate (w : FlexWaiter) (net : World) (kill_fd : ℕ) : Type 0 where
  pub own :
      (h j : ℕ)
      → mem h w.sockets ≡ true
      → mem j w.sockets ≡ true
      → fd_of net h ≡ fd_of net j
      → h ≡ j
  pub not_stdin : (h : ℕ) → mem h w.sockets ≡ true → (stdin_fileno == fd_of net h) ≡ false
  pub not_master :
      (h : ℕ) → mem h w.sockets ≡ true → mem (fd_of net h) (master_fds w.master) ≡ false
  pub not_kill : (h : ℕ) → mem h w.sockets ≡ true → (kill_fd == fd_of net h) ≡ false

-- The iteration of a set visits its elements.
abbrev pub Iterates : (List ℕ → List ℕ) → Type 0
Iterates order = (h : ℕ) (hs : List ℕ) → mem h (order hs) ≡ mem h hs

ready_is_open :
    (w : FlexWaiter) (net : World) (kill_fd : ℕ) (order : List ℕ → List ℕ) (ready : List ℕ) (h : ℕ)
    → Iterates order
    → Separate w net kill_fd
    → Asked w net (order w.sockets) kill_fd ready
    → mem h w.sockets ≡ true
    → mem (fd_of net h) ready ≡ true
    → open_at net h ≡ true
ready_is_open w net kill_fd order ready h it sep asked listed ready_h =
    let watched : mem (fd_of net h) (open_fds net (order w.sockets)) ≡ true = ground (
      arith,
      mem-the_set w net (order w.sockets) kill_fd (fd_of net h),
      asked (fd_of net h) ready_h,
      sep.not_stdin h listed,
      sep.not_master h listed,
      sep.not_kill h listed,
    ) in
    let (j, in_order, opened, same) =
      open_fds-OpenWith net (order w.sockets) (fd_of net h) watched in
    subst (λ i. open_at net i ≡ true) (sep.own j h (sym (it j w.sockets) ∙ in_order) listed same)
      opened

dispatch-on_socket :
    (order : List ℕ) (a : Answers) (kill_fd : ℕ) (ready : List ℕ) (net : World) (w w' : FlexWaiter)
    (h : ℕ)
    → dispatch order a kill_fd ready net w ≡ done (on_socket h) w'
    → (mem kill_fd ready ≡ false)
      × (mem stdin_fileno ready ≡ false)
      × (master_ready w.master ready ≡ false)
      × (first_ready net ready order ≡ on_socket h)
      × (w ≡ w')
unfolding dispatch
dispatch-on_socket order a kill_fd ready net w w' h e = ground arith

pub wait-dispatch :
    (order : List ℕ → List ℕ) (a : Answers) (net : World) (w w' : FlexWaiter) (kill_fd fd : ℕ)
    (fds : List ℕ)
    → kill_event a.eventfd w ≡ done kill_fd w'
    → a.select ≡ some (fd ∷ fds)
    → wait order a net w ≡ dispatch (order w'.sockets) a kill_fd (fd ∷ fds) net w'
unfolding wait
wait-dispatch order a net w w' kill_fd fd fds k s = rw (k, wait) (simp s)

pub wait-timeout :
    (order : List ℕ → List ℕ) (a : Answers) (net : World) (w w' : FlexWaiter) (kill_fd : ℕ)
    → kill_event a.eventfd w ≡ done kill_fd w'
    → a.select ≡ some []
    → wait order a net w ≡ done nothing w'
unfolding wait
wait-timeout order a net w w' kill_fd k s = rw (k, wait) (rw s refl)

-- When a wait reports a socket, that socket is in the set, is open and is ready, and neither the
-- kill event nor standard input nor the listening socket is ready: those come first. It holds if
-- ::select reports watched descriptors only and the sockets of the set have descriptors of their own.
pub wait-on_socket :
    (order : List ℕ → List ℕ) (a : Answers) (net : World) (w w' w'' : FlexWaiter) (kill_fd h : ℕ)
    (ready : List ℕ)
    → Iterates order
    → kill_event a.eventfd w ≡ done kill_fd w'
    → a.select ≡ some ready
    → Asked w' net (order w'.sockets) kill_fd ready
    → Separate w' net kill_fd
    → wait order a net w ≡ done (on_socket h) w''
    → (mem h w'.sockets ≡ true)
      × (open_at net h ≡ true)
      × (mem (fd_of net h) ready ≡ true)
      × (mem kill_fd ready ≡ false)
      × (mem stdin_fileno ready ≡ false)
      × (master_ready w'.master ready ≡ false)
wait-on_socket order a net w w' w'' kill_fd h [] it k s asked sep e =
    absurd (nothing-ne (sym (wait-timeout order a net w w' kill_fd k s) ∙ e))
  where
    nothing-ne : ◌≢◌ {A = Outcome FlexWaiter Activity} (done nothing w') (done (on_socket h) w'')
    nothing-ne p = cc
wait-on_socket order a net w w' w'' kill_fd h (fd ∷ fds) it k s asked sep e =
    let (no_kill, no_stdin, no_master, first, _) =
      dispatch-on_socket (order w'.sockets) a kill_fd (fd ∷ fds) net w' w'' h
        (sym (wait-dispatch order a net w w' kill_fd fd fds k s) ∙ e) in
    let (listed, ready_h) = first_ready-mem net (fd ∷ fds) (order w'.sockets) h first in
    let in_set : mem h w'.sockets ≡ true = sym (it h w'.sockets) ∙ listed in
    (
      in_set,
      ready_is_open w' net kill_fd order (fd ∷ fds) h it sep asked in_set ready_h,
      ready_h,
      no_kill,
      no_stdin,
      no_master,
    )

pub dispatch_socket :
    (order : List ℕ) (a : Answers) (kill_fd : ℕ) (ready : List ℕ) (net : World) (w : FlexWaiter)
    (h : ℕ)
    → mem kill_fd ready ≡ false
    → mem stdin_fileno ready ≡ false
    → master_ready w.master ready ≡ false
    → first_ready net ready order ≡ on_socket h
    → dispatch order a kill_fd ready net w ≡ done (on_socket h) w
unfolding dispatch
dispatch_socket order a kill_fd ready net w h x y z found = rw (x, y, z, found) refl

-- A kill signal that is sent before the first wait, when the waiter has no event descriptor yet, is
-- lost: the wait that follows ends as it would without the signal.
pub kill_before_wait :
    (order : List ℕ → List ℕ) (a : Answers) (net : World) (w : FlexWaiter)
    → w.kill_event_fd ≡ none
    → wait order a net (kill w) ≡ wait order a net w
unfolding kill
kill_before_wait order a net w e = ap (wait order a net) (rw e refl)
