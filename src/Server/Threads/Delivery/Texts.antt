-- ===== src/Server/Threads/Delivery/Texts.antt =====
-- The texts that a log holds for one descriptor.
use mathlib.Core.Bool.{false≢true}
use mathlib.Core.List.{append-nil}
use se3313a_lab.Base.{
  String, ℕ, ◌<◌, ◌≡◌, refl, sym, ap, ◌∙◌, subst, true, false, Bool-cases, Option-cases, inl, inr,
  none, some, Option, List, [], ◌∷◌, ◌++◌, ◌==◌, if◌then◌else◌, mem, ==_iff, ==_ne, arith, size,
  done, thrown-ne-done, left,
}
use se3313a_lab.Net.World.{World, fd_of, open_at, fd_of-set_open}
use se3313a_lab.Net.Socket.{read_vector, write}
use se3313a_lab.Net.Socket.Laws.{write_open}
use se3313a_lab.Net.FlexWaiter.{FlexWaiter, hold_event}
use se3313a_lab.Server.{Writes, send_all}
use se3313a_lab.Server.Broadcast.{AllOpen, Accepts, add_log, copies, send_all_open, size-erase_from}
use se3313a_lab.Server.Clients.{Client, handles}
use se3313a_lab.Server.Clients.Accept.{grown}
use se3313a_lab.Server.Clients.Fds.{Apart, Distinct, Apart-mem, Distinct-own}
use se3313a_lab.Server.Faults.{send_all_closed, write_closed}
use se3313a_lab.Server.Threads.Delivery.{texts_for}

pub texts_for-append :
    (fd : ℕ) (a b : List (ℕ × String)) → texts_for fd (a ++ b) ≡ texts_for fd a ++ texts_for fd b
texts_for-append fd [] b = refl
texts_for-append fd ((d, text) ∷ a) b = elim (Bool-cases (d == fd)) [
  | inl e ↦ rw e (ap (◌∷◌ text) (texts_for-append fd a b))
  | inr e ↦ rw e (texts_for-append fd a b)
]

Apart-texts_for :
    (w : World) (fd : ℕ) (text : String) (cs : List Client)
    → Apart w fd cs
    → texts_for fd (copies w text cs) ≡ []
Apart-texts_for w fd text [] a = refl
Apart-texts_for w fd text ((j, name) ∷ cs) (n, a) =
    rw (==_ne (fd_of w j) fd n) (Apart-texts_for w fd text cs a)

-- Of the copies for all clients, one is for each.
pub texts_for-copies :
    (w : World) (h : ℕ) (text : String) (cs : List Client)
    → Distinct w cs
    → mem h (handles cs) ≡ true
    → texts_for (fd_of w h) (copies w text cs) ≡ text ∷ []
texts_for-copies w h text [] d m = cc
texts_for-copies w h text ((j, name) ∷ cs) (a, d) m = elim (Bool-cases (j == h)) [
  | inl e ↦
      let same : fd_of w j ≡ fd_of w h = ap (fd_of w) ((==_iff j h).0 e) in
      rw ((==_iff _ _).1 same)
        (ap (◌∷◌ text) (Apart-texts_for w (fd_of w h) text cs (subst (λ x. Apart w x cs) same a)))
  | inr e ↦
      let later : mem h (handles cs) ≡ true = rw e at m in
      rw (==_ne (fd_of w j) (fd_of w h) (λ q. Apart-mem w h (fd_of w j) cs a later (sym q)))
        (texts_for-copies w h text cs d later)
]

-- A text that went to a client of the vector is for `h` if `h` is that client.
pub texts_for-one :
    (w : World) (h j : ℕ) (text : String) (cs : List Client)
    → Distinct w cs
    → mem h (handles cs) ≡ true
    → mem j (handles cs) ≡ true
    → texts_for (fd_of w h) ((fd_of w j, text) ∷ []) ≡ (if j == h then text ∷ [] else [])
texts_for-one w h j text cs d m n = elim (Bool-cases (j == h)) [
  | inl e ↦ rw ((==_iff _ _).1 (ap (fd_of w) ((==_iff j h).0 e)), e) refl
  | inr e ↦
      rw
        (
          ==_ne (fd_of w j) (fd_of w h)
              (λ q. false≢true (sym e ∙ (==_iff j h).1 (Distinct-own w j h cs d n m q))),
          e,
        )
        refl
]

-- Nothing is written, and the sockets keep their descriptors.
abbrev pub Silent : World → World → Type 0
Silent w w' = ((j : ℕ) → fd_of w' j ≡ fd_of w j) × (w'.written ≡ w.written)

pub Silent-hold_event : (v : FlexWaiter) (w : World) → Silent w (hold_event v w)
unfolding hold_event
Silent-hold_event v w = elim (Option-cases v.kill_event_fd) [
  | inl e ↦ rw e (λ j. refl, refl)
  | inr (fd, e) ↦ rw e (λ j. refl, refl)
]

pub Silent-read :
    (r : Option String) (h : ℕ) (vec : String) (w : World) → Silent w (left (read_vector r h vec w))
unfolding read_vector
Silent-read none h vec w = elim (Bool-cases (open_at w h)) [
  | inl e ↦ rw (e, read_vector) (λ j. fd_of-set_open w h j false, refl)
  | inr e ↦ rw (e, read_vector) (λ j. refl, refl)
]
Silent-read (some String.[]) h vec w = elim (Bool-cases (open_at w h)) [
  | inl e ↦ rw (e, read_vector) (λ j. fd_of-set_open w h j false, refl)
  | inr e ↦ rw (e, read_vector) (λ j. refl, refl)
]
Silent-read (some (String.◌∷◌ c s)) h vec w = elim (Bool-cases (open_at w h)) [
  | inl e ↦ rw (e, read_vector) (λ j. refl, refl)
  | inr e ↦ rw (e, read_vector) (λ j. refl, refl)
]

pub grown_fd : (fd j : ℕ) (w : World) → j < w.next → fd_of (grown fd w) j ≡ fd_of w j
grown_fd fd j w b = ground arith

-- An error that is written whole is logged.
pub write-whole :
    (h : ℕ) (text : String) (w w' : World) (n : Option ℕ)
    → write (some (size text)) h text w ≡ done n w'
    → w' ≡ record w { written = w.written ++ (fd_of w h, text) ∷ [] }
write-whole h text w w' n e = elim (Bool-cases (open_at w h)) [
  | inr closed ↦ absurd (thrown-ne-done (sym (write_closed (some (size text)) h text w closed) ∙ e))
  | inl opened ↦
      sym (ap left (sym (write_open text h (size text) w opened) ∙ e))
      ∙ ap (λ (x : String). record w { written = w.written ++ (fd_of w h, x) ∷ [] })
          (size-erase_from text)
]

-- A broadcast that returns went to clients with open sockets.
done-AllOpen :
    (writes : Writes) (text : String) (cs all : List Client) (w w' : World)
    → send_all writes text all w ≡ done tt w'
    → ((j : ℕ) → mem j (handles cs) ≡ true → mem j (handles all) ≡ true)
    → AllOpen w cs
done-AllOpen writes text [] all w w' e sub = tt
done-AllOpen writes text ((h, name) ∷ cs) all w w' e sub =
    (opened, done-AllOpen writes text cs all w w' e (λ j m. sub j (ground arith)))
  where
    opened : open_at w h ≡ true
    opened = elim (Bool-cases (open_at w h)) [
      | inl o ↦ o
      | inr closed ↦
          let (f, v, x) = send_all_closed writes text all w h (sub h (ground arith)) closed in
          absurd (thrown-ne-done (sym x ∙ e))
    ]

pub send_all-whole :
    (writes : Writes) (text : String) (cs : List Client) (w w' : World)
    → Accepts writes
    → send_all writes text cs w ≡ done tt w'
    → w' ≡ add_log w (copies w text cs)
send_all-whole writes text cs w w' whole e =
    let all = done-AllOpen writes text cs cs w w' e (λ j m. m) in
    let sent : send_all writes text cs w ≡ done tt (add_log w (copies w text cs)) =
      subst
        (λ (x : List (ℕ × String)).
          send_all writes text cs (record w { written = x })
          ≡ done tt (add_log w (copies w text cs)))
        (append-nil w.written) (send_all_open writes text cs w [] whole all) in
    sym (ap left (sym sent ∙ e))
