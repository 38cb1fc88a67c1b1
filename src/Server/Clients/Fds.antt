-- ===== src/Server/Clients/Fds.antt =====
-- The descriptors of the clients in the vector `sockets`.
use mathlib.Core.Bool.{false≢true}
use se3313a_lab.Base.{
  String, ℕ, ◌<◌, ◌≡◌, refl, sym, ap, ◌∙◌, ◌≢◌, true, false, List, [], ◌∷◌, ◌==◌, if◌then◌else◌,
  mem, arith, Bool-cases, inl, inr, ==_iff, ==_ne,
}
use se3313a_lab.Net.World.{World, fd_of}
use se3313a_lab.Server.Clients.{Client, has_fd, erase_client, associate, handles}

-- No client of the list has the descriptor.
abbrev pub Apart : World → ℕ → List Client → Type 0
Apart w fd [] = Unit {0}
Apart w fd ((h, name) ∷ cs) = (fd_of w h ≢ fd) × Apart w fd cs

abbrev pub Distinct : World → List Client → Type 0
Distinct w [] = Unit {0}
Distinct w ((h, name) ∷ cs) = Apart w (fd_of w h) cs × Distinct w cs

-- Every client's socket exists and its descriptor is one that the process holds.
abbrev pub Held : World → List Client → Type 0
Held w [] = Unit {0}
Held w ((h, name) ∷ cs) = (h < w.next) × (w.fds (fd_of w h) ≡ true) × Held w cs

-- The sockets and the descriptors are those of before; only `_open` and `written` may differ.
pub record Like (w w' : World) : Type 0 where
  pub same_fd : (h : ℕ) → fd_of w' h ≡ fd_of w h
  pub same_next : w'.next ≡ w.next
  pub same_fds : (d : ℕ) → w'.fds d ≡ w.fds d

pub Like-refl : (w : World) → Like w w
Like-refl w = record { same_fd = λ h. refl; same_next = refl; same_fds = λ d. refl }

pub Like-trans : {u v w : World} → Like u v → Like v w → Like u w
Like-trans a b = record {
  same_fd = λ h. b.same_fd h ∙ a.same_fd h;
  same_next = b.same_next ∙ a.same_next;
  same_fds = λ d. b.same_fds d ∙ a.same_fds d;
}

module _ (w w' : World) (same_fd : (h : ℕ) → fd_of w' h ≡ fd_of w h) where
  pub Apart-same : (fd : ℕ) (cs : List Client) → Apart w fd cs → Apart w' fd cs
  Apart-same fd [] a = tt
  Apart-same fd ((h, name) ∷ cs) (n, a) = (λ e. n (sym (same_fd h) ∙ e), Apart-same fd cs a)

  pub Distinct-same : (cs : List Client) → Distinct w cs → Distinct w' cs
  Distinct-same [] d = tt
  Distinct-same ((h, name) ∷ cs) (a, d) =
      (rw (same_fd h) (Apart-same (fd_of w h) cs a), Distinct-same cs d)

  pub Held-same :
      (cs : List Client)
      → w'.next ≡ w.next
      → ((d : ℕ) → w.fds d ≡ true → w'.fds d ≡ true)
      → Held w cs
      → Held w' cs
  Held-same [] next more k = tt
  Held-same ((h, name) ∷ cs) next more (below, held, k) =
      (rw next below, ap w'.fds (same_fd h) ∙ more (fd_of w h) held, Held-same cs next more k)

module _ {w w' : World} (like : Like w w') where
  pub Apart-Like : (fd : ℕ) (cs : List Client) → Apart w fd cs → Apart w' fd cs
  Apart-Like = Apart-same w w' like.same_fd

  pub Distinct-Like : (cs : List Client) → Distinct w cs → Distinct w' cs
  Distinct-Like = Distinct-same w w' like.same_fd

  pub Held-Like : (cs : List Client) → Held w cs → Held w' cs
  Held-Like cs = Held-same w w' like.same_fd cs like.same_next (λ d e. like.same_fds d ∙ e)

-- The clients are apart from a descriptor that the process does not hold.
pub Held-Apart : (w : World) (d : ℕ) (cs : List Client) → Held w cs → w.fds d ≡ false → Apart w d cs
Held-Apart w d [] k fresh = tt
Held-Apart w d ((h, name) ∷ cs) (below, held, k) fresh =
    (λ e. false≢true (sym fresh ∙ ap w.fds (sym e) ∙ held), Held-Apart w d cs k fresh)

module _ (w : World) (fd : ℕ) where
  pub Apart-erase : (d : ℕ) (cs : List Client) → Apart w d cs → Apart w d (erase_client w fd cs)
  unfolding erase_client
  Apart-erase d [] a = tt
  Apart-erase d ((h, name) ∷ cs) (n, a) = elim (Bool-cases (fd == fd_of w h)) [
    | inl e ↦ rw e a
    | inr e ↦ rw e (n, Apart-erase d cs a)
  ]

  pub Distinct-erase : (cs : List Client) → Distinct w cs → Distinct w (erase_client w fd cs)
  unfolding erase_client
  Distinct-erase [] d = tt
  Distinct-erase ((h, name) ∷ cs) (a, d) = elim (Bool-cases (fd == fd_of w h)) [
    | inl e ↦ rw e d
    | inr e ↦ rw e (Apart-erase (fd_of w h) cs a, Distinct-erase cs d)
  ]

  pub Held-erase : (cs : List Client) → Held w cs → Held w (erase_client w fd cs)
  unfolding erase_client
  Held-erase [] k = tt
  Held-erase ((h, name) ∷ cs) (below, held, k) = elim (Bool-cases (fd == fd_of w h)) [
    | inl e ↦ rw e k
    | inr e ↦ rw e (below, held, Held-erase cs k)
  ]

module _ (w : World) (fd : ℕ) (username : String) where
  pub handles-associate : (cs : List Client) → handles (associate w fd username cs) ≡ handles cs
  unfolding associate
  handles-associate [] = refl
  handles-associate ((h, name) ∷ cs) = ap (◌∷◌ h) (handles-associate cs)

  pub Apart-associate :
      (v : World) (d : ℕ) (cs : List Client) → Apart v d cs → Apart v d (associate w fd username cs)
  unfolding associate
  Apart-associate v d [] a = tt
  Apart-associate v d ((h, name) ∷ cs) (n, a) = (n, Apart-associate v d cs a)

  pub Distinct-associate :
      (v : World) (cs : List Client) → Distinct v cs → Distinct v (associate w fd username cs)
  unfolding associate
  Distinct-associate v [] d = tt
  Distinct-associate v ((h, name) ∷ cs) (a, d) =
      (Apart-associate v (fd_of v h) cs a, Distinct-associate v cs d)

  pub Held-associate :
      (v : World) (cs : List Client) → Held v cs → Held v (associate w fd username cs)
  unfolding associate
  Held-associate v [] k = tt
  Held-associate v ((h, name) ∷ cs) (below, held, k) = (below, held, Held-associate v cs k)

module _ (w : World) where
  -- A client of the list does not have a descriptor that all clients of the list are apart from.
  pub Apart-mem :
      (h fd : ℕ) (cs : List Client) → Apart w fd cs → mem h (handles cs) ≡ true → fd_of w h ≢ fd
  Apart-mem h fd [] a m = cc
  Apart-mem h fd ((j, name) ∷ cs) (n, a) m = elim (Bool-cases (j == h)) [
    | inl e ↦ λ p. n (ap (fd_of w) ((==_iff j h).0 e) ∙ p)
    | inr e ↦ Apart-mem h fd cs a (rw e at m)
  ]

  pub Distinct-own :
      (h j : ℕ) (cs : List Client)
      → Distinct w cs
      → mem h (handles cs) ≡ true
      → mem j (handles cs) ≡ true
      → fd_of w h ≡ fd_of w j
      → h ≡ j
  Distinct-own h j [] d m n e = cc
  Distinct-own h j ((i, name) ∷ cs) (a, d) m n e = elim (Bool-cases (i == h)) [
    | inl p ↦ elim (Bool-cases (i == j)) [
      | inl q ↦ sym ((==_iff i h).0 p) ∙ (==_iff i j).0 q
      | inr q ↦
          absurd (
            Apart-mem j (fd_of w i) cs a (rw q at n)
              (sym e ∙ ap (fd_of w) (sym ((==_iff i h).0 p))))
    ]
    | inr p ↦ elim (Bool-cases (i == j)) [
      | inl q ↦
          absurd
            (Apart-mem h (fd_of w i) cs a (rw p at m) (e ∙ ap (fd_of w) (sym ((==_iff i j).0 q))))
      | inr q ↦ Distinct-own h j cs d (rw p at m) (rw q at n) e
    ]
  ]

  pub Held-mem :
      (h : ℕ) (cs : List Client) → Held w cs → mem h (handles cs) ≡ true → w.fds (fd_of w h) ≡ true
  Held-mem h [] k m = cc
  Held-mem h ((j, name) ∷ cs) (below, held, k) m = elim (Bool-cases (j == h)) [
    | inl e ↦ rw (← (==_iff j h).0 e) held
    | inr e ↦ Held-mem h cs k (rw e at m)
  ]

  -- A client is found by its descriptor.
  pub has_fd-mem :
      (h : ℕ) (cs : List Client) → mem h (handles cs) ≡ true → has_fd w (fd_of w h) cs ≡ true
  unfolding has_fd
  has_fd-mem h [] m = cc
  has_fd-mem h ((j, name) ∷ cs) m = elim (Bool-cases (j == h)) [
    | inl e ↦ rw ((==_iff _ _).1 (ap (fd_of w) (sym ((==_iff j h).0 e)))) refl
    | inr e ↦ ground (arith, has_fd-mem h cs (rw e at m))
  ]

  Apart-not-mem : (h : ℕ) (cs : List Client) → Apart w (fd_of w h) cs → mem h (handles cs) ≡ false
  Apart-not-mem h cs a = elim (Bool-cases (mem h (handles cs))) [
    | inl m ↦ absurd (Apart-mem h (fd_of w h) cs a m refl)
    | inr m ↦ m
  ]

  -- Erasing by the descriptor of a client takes that client out and no other.
  pub mem-erase :
      (h j : ℕ) (cs : List Client)
      → Distinct w cs
      → mem h (handles cs) ≡ true
      → mem j (handles (erase_client w (fd_of w h) cs))
        ≡ (if j == h then false else mem j (handles cs))
  unfolding erase_client
  mem-erase h j [] d m = cc
  mem-erase h j ((i, name) ∷ cs) (a, d) m = elim (Bool-cases (i == h)) [
    | inl p ↦
        let found : (fd_of w h == fd_of w i) ≡ true =
          (==_iff _ _).1 (ap (fd_of w) (sym ((==_iff i h).0 p))) in
        rw found (ground (arith, Apart-not-mem i cs a))
    | inr p ↦
        let later : mem h (handles cs) ≡ true = rw p at m in
        let other : (fd_of w h == fd_of w i) ≡ false =
          ==_ne _ _ (Apart-mem h (fd_of w i) cs a later) in
        rw other (ground (arith, mem-erase h j cs d later))
  ]
