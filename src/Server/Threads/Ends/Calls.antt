-- ===== src/Server/Threads/Ends/Calls.antt =====
-- The calls of the main thread that do not throw when the system's calls succeed.
use Prim.Native.Char.{code}
use Prim.Native.String.{◌++◌ as append}
use text.Mathlib.TextLemmas.{cons-append, nil-append}
use se3313a_lab.Base.{
  String, ℕ, suc, ◌-◌, ◌≡◌, refl, ◌∙◌, true, false, some, List, [], ◌∷◌, ◌==◌, if◌then◌else◌, ltb,
  mem, ◌<◌, Bool, runtime_error, arith, Bool-cases, Option-cases, inl, inr, ok, Outcome, done,
  thrown, size,
}
use se3313a_lab.Net.World.{World}
use se3313a_lab.Net.Socket.{c_string}
use se3313a_lab.Net.FlexWaiter.{
  FlexWaiter, wait, dispatch, kill_event, line_of, nuls, buffer_size, master_ready, stdin_fileno,
  first_ready, nothing, on_stdin, on_socket_server, strip,
}
use se3313a_lab.Net.FlexWaiter.Dispatch.{wait-timeout, wait-dispatch}
use se3313a_lab.Server.Listen.{Round}
use se3313a_lab.Server.Threads.Ends.{Serves}

c_string-nuls : (s : String) (n : ℕ) → (t : String) × (c_string (append s (nuls (suc n))) ≡ ok t)
unfolding c_string nuls
c_string-nuls String.[] n = ("", rw (nil-append (nuls (suc n)), c_string) refl)
c_string-nuls (String.◌∷◌ c s) n =
    let (t, e) = c_string-nuls s n in
    elim (Bool-cases (code c == 0)) [
      | inl z ↦ ("", rw (cons-append c s (nuls (suc n)), c_string) (rw z refl))
      | inr z ↦ (String.◌∷◌ c t, rw (cons-append c s (nuls (suc n)), c_string) (rw (z, e) refl))
    ]

-- A line that leaves room in the buffer is read.
line_of-fits : (s : String) → size s < buffer_size → (t : String) × (line_of s ≡ ok t)
unfolding line_of
line_of-fits s b =
    let room : buffer_size - size s ≡ suc (buffer_size - suc (size s)) = omega arith in
    let (t, e) = c_string-nuls s (buffer_size - suc (size s)) in (t, rw room e)

-- The call returns.
abbrev pub Returns : {S A : Type 0} → Outcome S A → Type 0
Returns {S} {A} o = (a : A) × (s : S) × (o ≡ done a s)

either :
    {S A : Type 0} (b : Bool) (x y : Outcome S A)
    → Returns x
    → Returns y
    → Returns (if b then x else y)
either true x y p q = p
either false x y p q = q

module _ {Time : Type 0} (order : List ℕ → List ℕ) (r : Round Time) (serves : Serves r) where
  kill_read-serves :
      (message : String) (w : FlexWaiter)
      → Returns (
          if ltb 0 r.answers.kill_read
          then (if r.answers.kill_read == 8
              then done nothing w
              else thrown (runtime_error message) w)
          else done nothing w)
  kill_read-serves message w = elim serves.kill_whole [
    | inl e ↦ rw e (nothing, w, refl)
    | inr e ↦ rw e (nothing, w, refl)
  ]

  dispatch-serves :
      (os : List ℕ) (k : ℕ) (ready : List ℕ) (net : World) (w : FlexWaiter)
      → Returns (dispatch os r.answers k ready net w)
  unfolding dispatch
  dispatch-serves os k ready net w =
      let (line, e) = line_of-fits serves.line serves.line_fits in
      either (mem k ready) _ _ (kill_read-serves _ _) (
        either (mem stdin_fileno ready) _ _
          (rw serves.line_read (on_stdin (strip line), w, rw e refl))
          (either (master_ready w.master ready) _ _ (on_socket_server, w, refl)
            (first_ready net ready os, w, refl)))

  kill_event-serves : (w : FlexWaiter) → Returns (kill_event r.answers.eventfd w)
  unfolding kill_event
  kill_event-serves w = elim (Option-cases w.kill_event_fd) [
    | inr (fd, e) ↦ (fd, w, rw e refl)
    | inl e ↦ (
      serves.event,
      record w { kill_event_fd = some serves.event },
      rw e (rw serves.event_made refl),
    )
  ]

  selected-serves :
      (k : ℕ) (ready : List ℕ) (net : World) (w w' : FlexWaiter)
      → kill_event r.answers.eventfd w ≡ done k w'
      → r.answers.select ≡ some ready
      → Returns (wait order r.answers net w)
  selected-serves k [] net w w' q e = (nothing, w', wait-timeout order r.answers net w w' k q e)
  selected-serves k (fd ∷ fds) net w w' q e =
      let (act, v, d) = dispatch-serves (order w'.sockets) k (fd ∷ fds) net w' in
      (act, v, wait-dispatch order r.answers net w w' k fd fds q e ∙ d)

  -- A wait returns if the calls of the system succeed.
  pub wait-serves : (net : World) (w : FlexWaiter) → Returns (wait order r.answers net w)
  wait-serves net w =
      let (k, w', q) = kill_event-serves w in
      selected-serves k serves.ready net w w' q serves.selected
