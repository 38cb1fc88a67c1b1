-- ===== src/Net/FlexWaiter/Serves.antt =====
-- Which of several ready sockets a wait reports.
use mathlib.Core.Bool.{false≢true}
use se3313a_lab.Base.{
  ℕ, ◌≡◌, refl, sym, ap, ◌∙◌, true, false, some, List, [], ◌∷◌, ◌++◌, ◌==◌, ==_iff, mem, All,
  Bool-cases, inl, inr, done,
}
use se3313a_lab.Net.World.{World, fd_of}
use se3313a_lab.Net.FlexWaiter.{
  FlexWaiter, stdin_fileno, on_socket, Answers, first_ready, kill_event, wait, master_ready,
}
use se3313a_lab.Net.FlexWaiter.Dispatch.{Iterates, first_ready-mem, dispatch_socket, wait-dispatch}

skip_head :
    (net : World) (ready hs : List ℕ) (h j : ℕ)
    → mem h (j ∷ hs) ≡ true
    → mem (fd_of net h) ready ≡ true
    → mem (fd_of net j) ready ≡ false
    → mem h hs ≡ true
skip_head net ready hs h j m r e = elim (Bool-cases (j == h)) [
  | inl same ↦
      absurd (false≢true (sym e ∙ ap (λ i. mem (fd_of net i) ready) ((==_iff j h).0 same) ∙ r))
  | inr other ↦ rw other at m
]

-- j is ready, and none before it in the list is.
pub record First (net : World) (ready hs : List ℕ) (j : ℕ) : Type 0 where
  pub before : List ℕ
  pub later : List ℕ
  pub split : hs ≡ before ++ j ∷ later
  pub unready : All (λ i. mem (fd_of net i) ready ≡ false) before
  pub is_ready : mem (fd_of net j) ready ≡ true

-- If one of the list is ready, the first one that is ready is reported.
first_ready-First :
    (net : World) (ready hs : List ℕ) (h : ℕ)
    → mem h hs ≡ true
    → mem (fd_of net h) ready ≡ true
    → (j : ℕ) × (first_ready net ready hs ≡ on_socket j) × First net ready hs j
unfolding first_ready
first_ready-First net ready [] h m r = cc
first_ready-First net ready (j ∷ hs) h m r = elim (Bool-cases (mem (fd_of net j) ready)) [
  | inl e ↦
      (j, rw e refl, record { before = []; later = hs; split = refl; unready = tt; is_ready = e })
  | inr e ↦
      let (k, p, f) = first_ready-First net ready hs h (skip_head net ready hs h j m r e) r in
      (
        k,
        rw e p,
        record {
          before = j ∷ f.before;
          later = f.later;
          split = ap (◌∷◌ j) f.split;
          unready = (e, f.unready);
          is_ready = f.is_ready;
        },
      )
]

-- If a socket of the set is ready, and neither the kill event nor standard input nor the listening
-- socket is, the wait reports a socket of the set that is ready, the first one in the order in which
-- the set is iterated. The waiter stays as it is then.
pub wait_serves :
    (order : List ℕ → List ℕ) (a : Answers) (net : World) (w w' : FlexWaiter) (kill_fd h : ℕ)
    (ready : List ℕ)
    → Iterates order
    → kill_event a.eventfd w ≡ done kill_fd w'
    → a.select ≡ some ready
    → mem kill_fd ready ≡ false
    → mem stdin_fileno ready ≡ false
    → master_ready w'.master ready ≡ false
    → mem h w'.sockets ≡ true
    → mem (fd_of net h) ready ≡ true
    → (j : ℕ) × (wait order a net w ≡ done (on_socket j) w')
      × (mem j w'.sockets ≡ true)
      × First net ready (order w'.sockets) j
wait_serves order a net w w' kill_fd h [] it k s x y z listed ready_h = cc
wait_serves order a net w w' kill_fd h (fd ∷ fds) it k s x y z listed ready_h =
    let (j, found, first) =
      first_ready-First net (fd ∷ fds) (order w'.sockets) h (it h w'.sockets ∙ listed) ready_h in
    (
      j,
      wait-dispatch order a net w w' kill_fd fd fds k s
          ∙ dispatch_socket (order w'.sockets) a kill_fd (fd ∷ fds) net w' j x y z found,
      sym (it j w'.sockets) ∙ (first_ready-mem net (fd ∷ fds) (order w'.sockets) j found).0,
      first,
    )
