-- ===== src/Server/Threads/Ends/Open.antt =====
-- Which operations open and close socket objects.
use se3313a_lab.Base.{
  String, ℕ, ◌<◌, ◌≡◌, refl, sym, ap, ◌∙◌, ◌≢◌, true, false, Option, none, some, List, [], ◌∷◌,
  ◌==◌, mem, arith, Bool-cases, Option-cases, inl, inr, ==_iff, ==_ne, Outcome, done, thrown, left,
  subst, ◌++◌, erase_from,
}
use se3313a_lab.Net.World.{World, open_at, set_open, fd_of}
use se3313a_lab.Net.Socket.{write}
use se3313a_lab.Net.Socket.Laws.{write_open}
use se3313a_lab.Net.FlexWaiter.{FlexWaiter, hold_event}
use se3313a_lab.Server.{Writes, send_all}
use se3313a_lab.Server.Clients.{Client, handles}
use se3313a_lab.Server.Clients.Accept.{grown}
use se3313a_lab.Server.Clients.Fds.{Held}
use se3313a_lab.Server.Broadcast.{Takes}

-- The clients in the list have open sockets, perhaps but one.
abbrev pub OpenBut : Option ℕ → World → List Client → Type 0
OpenBut shut w cs = (j : ℕ) → mem j (handles cs) ≡ true → shut ≢ some j → open_at w j ≡ true

abbrev pub SameOpen : World → World → Type 0
SameOpen w w' = (j : ℕ) → open_at w' j ≡ open_at w j

pub OpenBut-same :
    (shut : Option ℕ) (w w' : World) (cs : List Client)
    → SameOpen w w'
    → OpenBut shut w cs
    → OpenBut shut w' cs
OpenBut-same shut w w' cs same o j m n = same j ∙ o j m n

-- Closing one socket leaves the others.
pub OpenBut-set_open :
    (h : ℕ) (w : World) (cs : List Client)
    → OpenBut none w cs
    → OpenBut (some h) (set_open h false w) cs
OpenBut-set_open h w cs o j m n =
    let other : (h == j) ≡ false = ==_ne h j (λ e. n (ap some e)) in
    rw (other, open_at) (o j m (λ e. cc))

pub open-hold_event : (v : FlexWaiter) (w : World) → SameOpen w (hold_event v w)
unfolding hold_event
open-hold_event v w j = elim (Option-cases v.kill_event_fd) [
  | inl e ↦ rw e refl
  | inr (fd, e) ↦ rw e refl
]

-- The handle of a new socket object is none of the clients'.
pub Held-below :
    (w : World) (j : ℕ) (cs : List Client) → Held w cs → mem j (handles cs) ≡ true → j < w.next
Held-below w j [] k m = cc
Held-below w j ((h, name) ∷ cs) (below, held, k) m = elim (Bool-cases (h == j)) [
  | inl e ↦ rw (← (==_iff h j).0 e) below
  | inr e ↦ Held-below w j cs k (rw e at m)
]

pub open-grown : (fd j : ℕ) (w : World) → j < w.next → open_at (grown fd w) j ≡ open_at w j
open-grown fd j w b = ground arith

pub open-new : (fd : ℕ) (w : World) → open_at (grown fd w) w.next ≡ true
open-new fd w = ground arith

-- A write that does not fail opens and closes nothing.
pub write-open : (n h : ℕ) (text : String) (w : World) → SameOpen w (left (write (some n) h text w))
unfolding write
write-open n h text w j = elim (Bool-cases (open_at w h)) [
  | inl e ↦ rw (e, write) refl
  | inr e ↦ rw (e, write) refl
]

-- A write never opens a socket.
write-shut :
    (a : Option ℕ) (h j : ℕ) (text : String) (w : World)
    → open_at w j ≡ false
    → open_at (left (write a h text w)) j ≡ false
unfolding write
write-shut a h j text w s = ground arith

-- What holds of the state that a call leaves, if each of its parts keeps it.
left-keeps :
    {A B : Type 0} (P : World → Type 0) (o : Outcome World A) (k : A → World → Outcome World B)
    → P (left o)
    → ((a : A) (w : World) → P w → P (left (k a w)))
    → P (left (elim o [ done a w ↦ k a w | thrown e w ↦ thrown e w ]))
left-keeps P (done a w) k p q = q a w p
left-keeps P (thrown e w) k p q = p

pub send_all-same :
    (writes : Writes) (text : String) (cs : List Client) (w : World)
    → Takes writes
    → SameOpen w (left (send_all writes text cs w))
unfolding send_all
send_all-same writes text [] w takes j = refl
send_all-same writes text ((h, name) ∷ cs) w takes j =
    left-keeps (λ v. open_at v j ≡ open_at w j) (write (writes w h text) h text w) _
      (let (n, e) = takes w h text in
        subst (λ a. open_at (left (write a h text w)) j ≡ open_at w j) (sym e)
          (write-open n h text w j))
      λ n v p. send_all-same writes text cs v takes j ∙ p

pub send_all-shut :
    (writes : Writes) (text : String) (cs : List Client) (w : World) (j : ℕ)
    → open_at w j ≡ false
    → open_at (left (send_all writes text cs w)) j ≡ false
unfolding send_all
send_all-shut writes text [] w j s = s
send_all-shut writes text ((h, name) ∷ cs) w j s =
    left-keeps (λ v. open_at v j ≡ false) (write (writes w h text) h text w) _
      (write-shut (writes w h text) h j text w s) λ n v p. send_all-shut writes text cs v j p

-- One text goes to every client, if their sockets are open.
pub send_all-done :
    (writes : Writes) (text : String) (cs : List Client) (w : World)
    → Takes writes
    → OpenBut none w cs
    → (w' : World) × (send_all writes text cs w ≡ done tt w')
unfolding send_all
send_all-done writes text [] w takes o = (w, refl)
send_all-done writes text ((h, name) ∷ cs) w takes o =
    let (n, e) = takes w h text in
    let w1 : World = record w { written = w.written ++ (fd_of w h, erase_from n text) ∷ [] } in
    let written : write (writes w h text) h text w ≡ done (some n) w1 =
      ap (λ a. write a h text w) e ∙ write_open text h n w (o h (ground arith) (λ e. cc)) in
    let (w', rest) = send_all-done writes text cs w1 takes (λ j m. o j (ground arith)) in
    (w', rw (written, send_all) rest)
