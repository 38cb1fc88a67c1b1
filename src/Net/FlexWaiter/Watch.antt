-- ===== src/Net/FlexWaiter/Watch.antt =====
-- Which descriptors ::select is asked about.
use Prim.Native.Nat.{max}
use native.Mathlib.Nat.{le_trans}
use se3313a_lab.Base.{
  ℕ, ◌+◌, ◌*◌, ◌≤◌, ◌<◌, ◌≡◌, true, Option, none, some, List, [], ◌∷◌, ◌++◌, ◌==◌, ==_iff, mem,
  mem-append, All, All-append, arith, Bool-cases, inl, inr, ◌||◌,
}
use se3313a_lab.Net.World.{World, fd_of, open_at}
use se3313a_lab.Net.FlexWaiter.{
  FlexWaiter, open_fds, master_fds, the_set, first_max, raise_max, max_fd, timeval, stdin_fileno,
}

-- A timeout in milliseconds is split into whole seconds and fewer than a million microseconds,
-- which add up to it.
pub timeval_lem :
    (ms : ℕ) → ((timeval ms).0 * 1000000 + (timeval ms).1 ≡ ms * 1000) × ((timeval ms).1 < 1000000)
unfolding timeval
timeval_lem ms = omega arith

module _ (net : World) where
  raise_max-le : (m : ℕ) (hs : List ℕ) → m ≤ raise_max net m hs
  unfolding raise_max
  raise_max-le m [] = omega arith
  raise_max-le m (h ∷ hs) = ground (arith, raise_max-le m hs, raise_max-le (max m (fd_of net h)) hs)

  raise_max-All : (m : ℕ) (hs : List ℕ) → All (λ fd. fd ≤ raise_max net m hs) (open_fds net hs)
  unfolding raise_max open_fds
  raise_max-All m [] = tt
  raise_max-All m (h ∷ hs) = elim (Bool-cases (open_at net h)) [
    | inl e ↦ rw e (
      le_trans (omega arith) (raise_max-le (max m (fd_of net h)) hs),
      raise_max-All (max m (fd_of net h)) hs,
    )
    | inr e ↦ rw e (raise_max-All m hs)
  ]

first_max-All :
    (o : Option ℕ) (most kill_fd : ℕ)
    → first_max o ≤ most
    → All (λ fd. fd ≤ max most kill_fd) (master_fds o)
first_max-All none most kill_fd h = tt
first_max-All (some fd) most kill_fd h = (omega arith, tt)

All-le : {m n : ℕ} (fds : List ℕ) → m ≤ n → All (λ fd. fd ≤ m) fds → All (λ fd. fd ≤ n) fds
All-le [] h a = tt
All-le (fd ∷ fds) h a = (omega arith, All-le fds h a.1)

-- Every descriptor that ::select is to watch is at most `maxFD`, so that the `maxFD + 1` it is given
-- covers them all.
pub the_set-le-max_fd :
    (w : FlexWaiter) (net : World) (order : List ℕ) (kill_fd : ℕ)
    → All (λ fd. fd ≤ max_fd w net order kill_fd) (the_set w net order kill_fd)
unfolding the_set max_fd
the_set-le-max_fd w net order kill_fd =
    let most = raise_max net (first_max w.master) order in
    (
      omega arith,
      All-append (λ fd. fd ≤ max most kill_fd) (master_fds w.master) _
          (first_max-All w.master _ kill_fd (raise_max-le net (first_max w.master) order))
          (All-append (λ fd. fd ≤ max most kill_fd) (open_fds net order) _
            (All-le (open_fds net order) (omega arith)
              (raise_max-All net (first_max w.master) order))
            (omega arith, tt)),
    )

-- A descriptor is watched exactly if it is standard input's, the listening socket's, the kill
-- event's, or that of a socket of the set which is open.
pub mem-the_set :
    (w : FlexWaiter) (net : World) (order : List ℕ) (kill_fd fd : ℕ)
    → mem fd (the_set w net order kill_fd) ≡ (
        (stdin_fileno == fd)
        || (mem fd (master_fds w.master) || (mem fd (open_fds net order) || (kill_fd == fd))))
unfolding the_set
mem-the_set w net order kill_fd fd =
    rw
      (
        mem-append fd (master_fds w.master) (open_fds net order ++ kill_fd ∷ []),
        mem-append fd (open_fds net order) (kill_fd ∷ []),
      )
      (ground arith)

-- An open socket with a descriptor, among those of a list.
abbrev pub OpenWith : World → List ℕ → ℕ → Type 0
OpenWith net hs fd = (h : ℕ) × (mem h hs ≡ true) × (open_at net h ≡ true) × (fd_of net h ≡ fd)

OpenWith-cons :
    (net : World) (h : ℕ) (hs : List ℕ) (fd : ℕ) → OpenWith net hs fd → OpenWith net (h ∷ hs) fd
OpenWith-cons net h hs fd (j, listed, opened, same) = (j, ground arith, opened, same)

-- A descriptor is listed only for an open socket.
pub open_fds-OpenWith :
    (net : World) (hs : List ℕ) (fd : ℕ) → mem fd (open_fds net hs) ≡ true → OpenWith net hs fd
unfolding open_fds
open_fds-OpenWith net [] fd e = cc
open_fds-OpenWith net (h ∷ hs) fd e = elim (Bool-cases (open_at net h)) [
  | inl o ↦ elim (Bool-cases (fd_of net h == fd)) [
    | inl same ↦ (h, ground arith, o, (==_iff _ _).0 same)
    | inr other ↦ OpenWith-cons net h hs fd (open_fds-OpenWith net hs fd (rw other at (rw o at e)))
  ]
  | inr c ↦ OpenWith-cons net h hs fd (open_fds-OpenWith net hs fd (rw c at e))
]
