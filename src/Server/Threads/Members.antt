-- ===== src/Server/Threads/Members.antt =====
-- The vector `sockets` of server.cpp as the members of a room.
use se3313a_lab.Base.{
  String, ℕ, ◌≡◌, refl, sym, ap, ◌≢◌, true, false, Option, none, some, List, [], ◌∷◌, ◌++◌, ◌==◌,
  if◌then◌else◌, mem, arith, Bool-cases, inl, inr, ==_iff, ==_ne,
}
use se3313a_lab.Net.World.{World, fd_of}
use se3313a_lab.Server.Clients.{Client, erase_client, associate, handles}
use se3313a_lab.Server.Clients.Fds.{Apart, Distinct, Held, Apart-mem}
use se3313a_lab.Server.Names.{Unused, associate-Apart}

-- the username of the client with a handle
abbrev pub name_of : ℕ → List Client → Option String
name_of j [] = none
name_of j ((h, name) ∷ cs) = if h == j then some name else name_of j cs

pub name_of-mem :
    (h : ℕ) (cs : List Client)
    → mem h (handles cs) ≡ true
    → (name : String) × (name_of h cs ≡ some name)
name_of-mem h [] m = cc
name_of-mem h ((j, name) ∷ cs) m = elim (Bool-cases (j == h)) [
  | inl e ↦ (name, rw e refl)
  | inr e ↦ rw e (name_of-mem h cs (rw e at m))
]

-- A handle that is not yet used is no client's.
pub name_of-next : (w : World) (cs : List Client) → Held w cs → name_of w.next cs ≡ none
name_of-next w [] k = refl
name_of-next w ((h, name) ∷ cs) (below, held, k) =
    rw (==_ne h w.next (λ e. omega arith)) (name_of-next w cs k)

pub name_of-append :
    (h j : ℕ) (cs : List Client)
    → name_of h cs ≡ none
    → name_of j (cs ++ (h, "") ∷ []) ≡ (if h == j then some "" else name_of j cs)
name_of-append h j [] n = refl
name_of-append h j ((i, name) ∷ cs) n = elim (Bool-cases (i == h)) [
  | inl p ↦ absurd (named p)
  | inr p ↦ ground (arith, name_of-append h j cs (rw p at n))
]
  where
    named : (i == h) ≢ true
    named p = let e : some name ≡ none = rw p at n in cc

pub Unused-name_of : (s : String) (j : ℕ) (cs : List Client) → Unused s cs → name_of j cs ≢ some s
Unused-name_of s j [] u = λ e. cc
Unused-name_of s j ((h, name) ∷ cs) (n, u) = elim (Bool-cases (h == j)) [
  | inl e ↦ rw e (λ p. n (cc))
  | inr e ↦ rw e (Unused-name_of s j cs u)
]

module _ (w : World) where
  not_in : (h : ℕ) (cs : List Client) → Apart w (fd_of w h) cs → name_of h cs ≡ none
  not_in h [] a = refl
  not_in h ((i, name) ∷ cs) (n, a) = rw (==_ne i h (λ e. n (ap (fd_of w) e))) (not_in h cs a)

  -- Erasing by the descriptor of a client takes its name away and no other.
  pub name_of-erase :
      (h j : ℕ) (cs : List Client)
      → Distinct w cs
      → mem h (handles cs) ≡ true
      → name_of j (erase_client w (fd_of w h) cs) ≡ (if h == j then none else name_of j cs)
  unfolding erase_client
  name_of-erase h j [] d m = cc
  name_of-erase h j ((i, name) ∷ cs) (a, d) m = elim (Bool-cases (i == h)) [
    | inl p ↦
        let found : (fd_of w h == fd_of w i) ≡ true =
          (==_iff _ _).1 (ap (fd_of w) (sym ((==_iff i h).0 p))) in
        rw found (ground (arith, not_in i cs a))
    | inr p ↦
        let later : mem h (handles cs) ≡ true = rw p at m in
        let other : (fd_of w h == fd_of w i) ≡ false =
          ==_ne _ _ (Apart-mem w h (fd_of w i) cs a later) in
        rw other (ground (arith, name_of-erase h j cs d later))
  ]

  -- Associating a name by the descriptor of a client gives it to that client and no other.
  pub name_of-associate :
      (h j : ℕ) (username : String) (cs : List Client)
      → Distinct w cs
      → mem h (handles cs) ≡ true
      → name_of j (associate w (fd_of w h) username cs)
        ≡ (if h == j then some username else name_of j cs)
  unfolding associate
  name_of-associate h j username [] d m = cc
  name_of-associate h j username ((i, name) ∷ cs) (a, d) m = elim (Bool-cases (i == h)) [
    | inl p ↦
        let same : i ≡ h = (==_iff i h).0 p in
        let found : (fd_of w h == fd_of w i) ≡ true = (==_iff _ _).1 (ap (fd_of w) (sym same)) in
        rw (found, associate-Apart w (fd_of w h) username cs (rw same at a)) (ground (arith))
    | inr p ↦
        let later : mem h (handles cs) ≡ true = rw p at m in
        let other : (fd_of w h == fd_of w i) ≡ false =
          ==_ne _ _ (Apart-mem w h (fd_of w i) cs a later) in
        rw other (ground (arith, name_of-associate h j username cs d later))
  ]
