-- ===== src/Server/Names.antt =====
-- The usernames in the vector `sockets`.
use mathlib.Core.Bool.{false≢true}
use se3313a_lab.Msg.Instance.Fields.{text_ne}
use se3313a_lab.Base.{
  String, ℕ, ◌≡◌, refl, sym, ◌∙◌, ◌≢◌, ◌⊎◌, inl, inr, true, false, List, [], ◌∷◌, ◌++◌, ◌==◌,
  text_eq, text_eq-ne, eq_iff, Bool-cases, ==_iff, ==_ne,
}
use se3313a_lab.Net.World.{World, fd_of}
use se3313a_lab.Server.Clients.{Client, name_in_use, erase_client, associate}
use se3313a_lab.Server.Clients.Fds.{Apart, Distinct}

-- No client of the list has the name.
abbrev pub Unused : String → List Client → Type 0
Unused s [] = Unit {0}
Unused s ((h, name) ∷ cs) = (name ≢ s) × Unused s cs

-- Some client of the list has the name.
abbrev pub Taken : String → List Client → Type 0
Taken s [] = ⊥
Taken s ((h, name) ∷ cs) = (name ≡ s) ⊎ Taken s cs

-- A name other than the empty one, which stands for no login, belongs to one client at most.
abbrev pub Unique : List Client → Type 0
Unique [] = Unit {0}
Unique ((h, name) ∷ cs) = ((name ≡ "") ⊎ Unused name cs) × Unique cs

pub name_in_use-Unused : (s : String) (cs : List Client) → name_in_use s cs ≡ false → Unused s cs
unfolding name_in_use
name_in_use-Unused s [] e = tt
name_in_use-Unused s ((h, name) ∷ cs) e = elim (Bool-cases (text_eq s name)) [
  | inl same ↦ absurd (false≢true (sym e ∙ rw same refl))
  | inr other ↦ (λ p. text_ne s name other (sym p), name_in_use-Unused s cs (rw other at e))
]

pub Unused-name_in_use : (s : String) (cs : List Client) → Unused s cs → name_in_use s cs ≡ false
unfolding name_in_use
Unused-name_in_use s [] u = refl
Unused-name_in_use s ((h, name) ∷ cs) (n, u) =
    rw (text_eq-ne s name (λ p. n (sym p))) (Unused-name_in_use s cs u)

pub Taken-name_in_use : (s : String) (cs : List Client) → Taken s cs → name_in_use s cs ≡ true
unfolding name_in_use
Taken-name_in_use s [] u = elim u [ ]
Taken-name_in_use s ((h, name) ∷ cs) u = elim (Bool-cases (text_eq s name)) [
  | inl same ↦ rw same refl
  | inr other ↦ elim u [
    | inl p ↦ absurd (text_ne s name other (sym p))
    | inr v ↦ rw other (Taken-name_in_use s cs v)
  ]
]

module _ (w : World) (fd : ℕ) where
  pub Unused-erase : (s : String) (cs : List Client) → Unused s cs → Unused s (erase_client w fd cs)
  unfolding erase_client
  Unused-erase s [] u = tt
  Unused-erase s ((h, name) ∷ cs) (n, u) = elim (Bool-cases (fd == fd_of w h)) [
    | inl e ↦ rw e u
    | inr e ↦ rw e (n, Unused-erase s cs u)
  ]

  pub Unique-erase : (cs : List Client) → Unique cs → Unique (erase_client w fd cs)
  unfolding erase_client
  Unique-erase [] u = tt
  Unique-erase ((h, name) ∷ cs) (n, u) = elim (Bool-cases (fd == fd_of w h)) [
    | inl e ↦ rw e u
    | inr e ↦ rw e (Unused-keep n, Unique-erase cs u)
  ]
    where
      Unused-keep : (name ≡ "") ⊎ Unused name cs → (name ≡ "") ⊎ Unused name (erase_client w fd cs)
      Unused-keep (inl p) = inl p
      Unused-keep (inr v) = inr (Unused-erase name cs v)

  -- Where no client has the descriptor nothing changes.
  pub associate-Apart :
      (username : String) (cs : List Client) → Apart w fd cs → associate w fd username cs ≡ cs
  unfolding associate
  associate-Apart username [] a = refl
  associate-Apart username ((h, name) ∷ cs) (n, a) =
      rw (==_ne fd (fd_of w h) (λ e. n (sym e)), associate-Apart username cs a) refl

  pub Unused-associate :
      (s username : String) (cs : List Client)
      → s ≢ username
      → Unused s cs
      → Unused s (associate w fd username cs)
  unfolding associate
  Unused-associate s username [] n u = tt
  Unused-associate s username ((h, name) ∷ cs) n (m, u) = elim (Bool-cases (fd == fd_of w h)) [
    | inl e ↦ rw e (λ p. n (sym p), Unused-associate s username cs n u)
    | inr e ↦ rw e (m, Unused-associate s username cs n u)
  ]

  pub Unique-associate :
      (username : String) (cs : List Client)
      → Distinct w cs
      → Unused username cs
      → Unique cs
      → Unique (associate w fd username cs)
  unfolding associate
  Unique-associate username [] d u v = tt
  Unique-associate username ((h, name) ∷ cs) (a, d) (n, u) (m, v) =
      elim (Bool-cases (fd == fd_of w h)) [
        | inl e ↦
            let apart : Apart w fd cs = rw (sym ((==_iff fd (fd_of w h)).0 e)) at a in
            rw (e, associate-Apart username cs apart) (inr u, v)
        | inr e ↦ rw e (keep m, Unique-associate username cs d u v)
      ]
    where
      keep : (name ≡ "") ⊎ Unused name cs → (name ≡ "") ⊎ Unused name (associate w fd username cs)
      keep (inl p) = inl p
      keep (inr q) = inr (Unused-associate name username cs n q)

Unused-append :
    (s : String) (cs : List Client) (h : ℕ) → "" ≢ s → Unused s cs → Unused s (cs ++ (h, "") ∷ [])
Unused-append s [] h n u = (n, tt)
Unused-append s ((j, name) ∷ cs) h n (m, u) = (m, Unused-append s cs h n u)

-- A client without a name takes no name away.
pub Unique-append : (cs : List Client) (h : ℕ) → Unique cs → Unique (cs ++ (h, "") ∷ [])
Unique-append [] h u = (inl refl, tt)
Unique-append ((j, name) ∷ cs) h (n, u) = (keep n, Unique-append cs h u)
  where
    keep : (name ≡ "") ⊎ Unused name cs → (name ≡ "") ⊎ Unused name (cs ++ (h, "") ∷ [])
    keep (inl p) = inl p
    keep (inr q) = elim (Bool-cases (text_eq name "")) [
      | inl e ↦ inl ((eq_iff name "").0 e)
      | inr e ↦ inr (Unused-append name cs h (λ p. text_ne name "" e (sym p)) q)
    ]
