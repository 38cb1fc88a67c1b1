-- ===== src/Server/Clients/Accept.antt =====
-- A new client at the end of the vector `sockets`.
use mathlib.Core.Bool.{false≢true}
use se3313a_lab.Base.{
  String, ℕ, suc, ◌<◌, ◌≡◌, refl, sym, ap, ◌∙◌, ◌≢◌, true, false, some, List, [], ◌∷◌, ◌++◌, arith,
  done, thrown, thrown-ne-done, left, Outcome, Option, none,
}
use se3313a_lab.Net.World.{World, update, fd_of}
use se3313a_lab.Net.SocketServer.{accept}
use se3313a_lab.Server.Clients.{Client, handles}
use se3313a_lab.Server.Clients.Fds.{Apart, Distinct, Held}

-- the state after ::accept has answered `fd` and the socket object is made
abbrev pub grown : ℕ → World → World
grown fd w = record w {
  heap = update w.heap w.next (record { fd = fd; is_open = true });
  next = suc w.next;
  fds = update w.fds fd true;
}

accept_handle : Outcome World ℕ → ℕ
accept_handle (done h w) = h
accept_handle (thrown e w) = 0

pub accept-grown :
    (fd : ℕ) (errno : String) (w : World) → accept (some fd) errno w ≡ done w.next (grown fd w)
unfolding accept
accept-grown fd errno w = refl

-- what an ::accept that returns has done
pub accept-done :
    (o : Option ℕ) (errno : String) (w w' : World) (h : ℕ)
    → accept o errno w ≡ done h w'
    → (fd : ℕ) × (o ≡ some fd) × (h ≡ w.next) × (w' ≡ grown fd w)
unfolding accept accept_handle
accept-done none errno w w' h e = absurd (thrown-ne-done e)
accept-done (some fd) errno w w' h e = (fd, refl, sym (ap accept_handle e), sym (ap left e))

module _ (w : World) (fd : ℕ) where
  old_fd : (h : ℕ) → h < w.next → fd_of (grown fd w) h ≡ fd_of w h
  old_fd h b = ground arith

  pub Apart-grown :
      (d : ℕ) (cs : List Client)
      → Held w cs
      → Apart w d cs
      → d ≢ fd
      → Apart (grown fd w) d (cs ++ (w.next, "") ∷ [])
  Apart-grown d [] k a n = (λ e. ground arith, tt)
  Apart-grown d ((h, name) ∷ cs) (below, held, k) (m, a) n =
      (λ e. m (sym (old_fd h below) ∙ e), Apart-grown d cs k a n)

  pub Distinct-grown :
      (cs : List Client)
      → Held w cs
      → Distinct w cs
      → w.fds fd ≡ false
      → Distinct (grown fd w) (cs ++ (w.next, "") ∷ [])
  Distinct-grown [] k d fresh = (tt, tt)
  Distinct-grown ((h, name) ∷ cs) (below, held, k) (a, d) fresh = (
    rw (old_fd h below)
        (Apart-grown (fd_of w h) cs k a (λ e. false≢true (sym fresh ∙ ap w.fds (sym e) ∙ held))),
    Distinct-grown cs k d fresh,
  )

  pub Held-grown : (cs : List Client) → Held w cs → Held (grown fd w) (cs ++ (w.next, "") ∷ [])
  Held-grown [] k = (omega arith, ground arith, tt)
  Held-grown ((h, name) ∷ cs) (below, held, k) =
      (omega arith, rw (old_fd h below) (ground arith), Held-grown cs k)

-- all clients but the last
module _ (w : World) where
  pub Apart-front :
      (d : ℕ) (cs : List Client) (c : Client) → Apart w d (cs ++ c ∷ []) → Apart w d cs
  Apart-front d [] c a = tt
  Apart-front d (x ∷ cs) c (m, a) = (m, Apart-front d cs c a)

  pub Distinct-front : (cs : List Client) (c : Client) → Distinct w (cs ++ c ∷ []) → Distinct w cs
  Distinct-front [] c d = tt
  Distinct-front ((h, name) ∷ cs) c (a, d) = (Apart-front (fd_of w h) cs c a, Distinct-front cs c d)

  pub Held-front : (cs : List Client) (c : Client) → Held w (cs ++ c ∷ []) → Held w cs
  Held-front [] c k = tt
  Held-front (x ∷ cs) c (below, held, k) = (below, held, Held-front cs c k)

pub handles-append :
    (cs : List Client) (h : ℕ) (name : String)
    → handles (cs ++ (h, name) ∷ []) ≡ handles cs ++ h ∷ []
handles-append [] h name = refl
handles-append ((j, n) ∷ cs) h name = ap (◌∷◌ j) (handles-append cs h name)
