-- ===== src/Server/Room/Names.antt =====
-- The names of a run of the room.
use mathlib.Core.List.{append_assoc, append-nil}
use se3313a_lab.Base.{
  String, ℕ, ◌≡◌, sym, ap, ◌∙◌, ◌≢◌, ◌⊎◌, Option, none, some, List, [], ◌∷◌, ◌++◌, ◌==◌,
  if◌then◌else◌, Bool-cases, inl, inr, ==_iff,
}
use se3313a_lab.Server.Room.{
  Room, Event, named, RoomStep, stays, enters, departs, takes_name, is_announced, is_broadcast,
  RoomRun, here, follows, Changed,
}
use se3313a_lab.Server.Room.Fifo.{announcements}

-- the names that were given, oldest first
abbrev pub given : {Message : Type 0} → List (Event Message) → List String
given [] = []
given (named h name ∷ es) = name ∷ given es
given (_ ∷ es) = given es

abbrev pub one_or_none : Option String → List String
one_or_none none = []
one_or_none (some name) = name ∷ []

module _ {Message : Type 0} (announces : Message → Option String) where
  -- the names that messages give
  abbrev pub names_in : List Message → List String
  names_in [] = []
  names_in (m ∷ ms) = one_or_none (announces m) ++ names_in ms

  -- Every name that is given is announced, in the order in which they are given.
  pub given-RoomRun :
      {r r' : Room Message} {es : List (Event Message)}
      → RoomRun announces r es r'
      → one_or_none r.owed ++ given es ≡ names_in (announcements es) ++ one_or_none r'.owed
  given-RoomRun {r} here = append-nil (one_or_none r.owed)
  given-RoomRun (follows {es} (stays u o p) run) =
      ap (λ x. one_or_none x ++ given es) (sym o) ∙ given-RoomRun run
  given-RoomRun (follows {es} (enters o m u q p) run) =
      ap (λ x. one_or_none x ++ given es) (o ∙ sym q) ∙ given-RoomRun run
  given-RoomRun (follows {es} (departs n o m u q p) run) =
      ap (λ x. one_or_none x ++ given es) (o ∙ sym q) ∙ given-RoomRun run
  given-RoomRun (follows {es} (takes_name {name} n o m f u q p) run) =
      ap (λ x. one_or_none x ++ name ∷ given es) o
      ∙ ap (λ x. one_or_none x ++ given es) (sym q)
      ∙ given-RoomRun run
  given-RoomRun {r'} (follows {es} (is_announced {m} a u o p) run) =
      ap (λ x. one_or_none x ++ given es) (sym a)
      ∙ ap (◌++◌ (one_or_none (announces m)))
          (ap (λ x. one_or_none x ++ given es) (sym o) ∙ given-RoomRun run)
      ∙ sym (
          append_assoc (one_or_none (announces m)) (names_in (announcements es))
            (one_or_none r'.owed))
  given-RoomRun (follows {es} (is_broadcast u o p) run) =
      ap (λ x. one_or_none x ++ given es) (sym o) ∙ given-RoomRun run

  -- No two members have the same name, the empty one apart.
  abbrev pub OwnNames : Room Message → Type 0
  OwnNames r =
      (i j : ℕ) (name : String)
      → r.members i ≡ some name
      → r.members j ≡ some name
      → name ≢ ""
      → i ≡ j

  Changed-cases :
      (r r' : Room Message) (h i : ℕ) (m : Option String) (name : String)
      → Changed announces r h m r'
      → r'.members i ≡ some name
      → ((h ≡ i) × (m ≡ some name)) ⊎ (r.members i ≡ some name)
  Changed-cases r r' h i m name u a = elim (Bool-cases (h == i)) [
    | inl e ↦ inl ((==_iff h i).0 e, ap (λ b. if b then m else r.members i) (sym e) ∙ sym (u i) ∙ a)
    | inr e ↦ inr (ap (λ b. if b then m else r.members i) (sym e) ∙ sym (u i) ∙ a)
  ]

  OwnNames-RoomStep :
      {r r' : Room Message} {e : Event Message}
      → RoomStep announces r r' e
      → OwnNames r
      → OwnNames r'
  OwnNames-RoomStep (stays u o p) v i j name a b n = v i j name (sym (u i) ∙ a) (sym (u j) ∙ b) n
  OwnNames-RoomStep {r} {r'} (enters {h} o m u q p) v i j name a b n =
      elim (Changed-cases r r' h i (some "") name u a) [
        | inl (e, x) ↦ absurd (n (cc))
        | inr x ↦ elim (Changed-cases r r' h j (some "") name u b) [
          | inl (f, y) ↦ absurd (n (cc))
          | inr y ↦ v i j name x y n
        ]
      ]
  OwnNames-RoomStep {r} {r'} (departs {h} before o m u q p) v i j name a b n =
      elim (Changed-cases r r' h i none name u a) [
        | inl (e, x) ↦ cc
        | inr x ↦ elim (Changed-cases r r' h j none name u b) [
          | inl (f, y) ↦ cc
          | inr y ↦ v i j name x y n
        ]
      ]
  OwnNames-RoomStep {r} {r'} (takes_name {h} {name = new} before o m f u q p) v i j name a b n =
      elim (Changed-cases r r' h i (some new) name u a) [
        | inl (e, x) ↦ elim (Changed-cases r r' h j (some new) name u b) [
          | inl (g, y) ↦ sym e ∙ g
          | inr y ↦ absurd (f j (y ∙ sym x))
        ]
        | inr x ↦ elim (Changed-cases r r' h j (some new) name u b) [
          | inl (g, y) ↦ absurd (f i (x ∙ sym y))
          | inr y ↦ v i j name x y n
        ]
      ]
  OwnNames-RoomStep (is_announced e u o p) v i j name a b n =
      v i j name (sym (u i) ∙ a) (sym (u j) ∙ b) n
  OwnNames-RoomStep (is_broadcast u o p) v i j name a b n =
      v i j name (sym (u i) ∙ a) (sym (u j) ∙ b) n

  pub OwnNames-RoomRun :
      {r r' : Room Message} {es : List (Event Message)}
      → RoomRun announces r es r'
      → OwnNames r
      → OwnNames r'
  OwnNames-RoomRun here v = v
  OwnNames-RoomRun (follows x run) v = OwnNames-RoomRun run (OwnNames-RoomStep x v)
