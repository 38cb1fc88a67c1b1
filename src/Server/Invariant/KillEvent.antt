-- ===== src/Server/Invariant/KillEvent.antt =====
-- The kill event, whose descriptor the first wait makes.
use se3313a_lab.Base.{
  ℕ, ◌≡◌, refl, sym, ap, ◌∙◌, true, false, Option, none, some, List, [], ◌∷◌, ◌++◌, ◌==◌, done, mem,
  mem-append, arith, Bool-cases, inl, inr, ◌⊎◌, ==_iff, subst,
}
use se3313a_lab.Net.World.{World, update}
use se3313a_lab.Net.FlexWaiter.{FlexWaiter, stdin_fileno, master_fds, kill_event, hold_event}
use se3313a_lab.Net.FlexWaiter.Dispatch.{Asked}
use se3313a_lab.Net.FlexWaiter.Keeps.{kill_event-cases, Calmed}
use se3313a_lab.Server.{Server}
use se3313a_lab.Server.Listen.{Round}
use se3313a_lab.Server.Clients.Fds.{Apart, Apart-same, Distinct-same, Held-same, Held-Apart, Like}
use se3313a_lab.Server.Invariant.{Inv, Inv-Like, reserved}

split_reserved :
    (d k : ℕ) (master : Option ℕ)
    → mem d (stdin_fileno ∷ (master_fds master ++ k ∷ [])) ≡ true
    → (mem d (stdin_fileno ∷ (master_fds master ++ [])) ≡ true) ⊎ (d ≡ k)
split_reserved d k none m = elim (Bool-cases (k == d)) [
  | inl e ↦ inr (sym ((==_iff k d).0 e))
  | inr e ↦ inl (ground (arith, e))
]
split_reserved d k (some fd) m = elim (Bool-cases (k == d)) [
  | inl e ↦ inr (sym ((==_iff k d).0 e))
  | inr e ↦ inl (ground (arith, e))
]

held_more : (w : World) (k d : ℕ) → w.fds d ≡ true → update w.fds k true d ≡ true
held_more w k d e = ground arith

now_held : (w : World) (k d : ℕ) → d ≡ k → update w.fds k true d ≡ true
now_held w k d e = rw ((==_iff k d).1 (sym e)) refl

reserved_kill : (k : ℕ) (w : FlexWaiter) → w.kill_event_fd ≡ some k → mem k (reserved w) ≡ true
reserved_kill k w e =
    rw (e, mem-append k (stdin_fileno ∷ master_fds w.master) (k ∷ [])) (ground arith)

same_once : (w : World) (k d : ℕ) → w.fds k ≡ true → update w.fds k true d ≡ w.fds d
same_once w k d held = elim (Bool-cases (k == d)) [
  | inl e ↦ rw e (sym held ∙ ap w.fds ((==_iff k d).0 e))
  | inr e ↦ rw e refl
]

Like-hold :
    (k : ℕ) (fw : FlexWaiter) (w : World)
    → fw.kill_event_fd ≡ some k
    → w.fds k ≡ true
    → Like w (hold_event fw w)
unfolding hold_event
Like-hold k fw w e held =
    rw e record { same_fd = λ h. refl; same_next = refl; same_fds = λ d. same_once w k d held }

pub Calmed-hold :
    (v w : FlexWaiter) (net : World) → Calmed v w → hold_event w net ≡ hold_event v net
unfolding hold_event
Calmed-hold v w net (inl e) = ap (λ x. hold_event x net) (sym e)
Calmed-hold v w net (inr e) = ap (λ x. hold_event x net) (sym e)

module _ {Time : Type 0} where
  -- the server when ::select has returned, with the waiter `w`
  abbrev pub waited : FlexWaiter → Server Time → Server Time
  waited w s = record s { flex_waiter = w; world = hold_event w s.world }

  -- What ::eventfd and ::accept answer is a descriptor that the process does not hold, and ::select
  -- reports only descriptors that it was asked about.
  pub record Legal (order : List ℕ → List ℕ) (r : Round Time) (s : Server Time) : Type 0 where
    pub fresh_event :
        (fd : ℕ)
        → s.flex_waiter.kill_event_fd ≡ none
        → r.answers.eventfd ≡ some fd
        → s.world.fds fd ≡ false
    pub fresh_client :
        (fd k : ℕ) (w : FlexWaiter)
        → kill_event r.answers.eventfd s.flex_waiter ≡ done k w
        → r.accepted ≡ some fd
        → (hold_event w s.world).fds fd ≡ false
    pub asked :
        (k : ℕ) (w : FlexWaiter) (ready : List ℕ)
        → kill_event r.answers.eventfd s.flex_waiter ≡ done k w
        → r.answers.select ≡ some ready
        → Asked w s.world (order w.sockets) k ready

  -- a descriptor made for the kill event
  Inv-event :
      (k : ℕ) (s : Server Time)
      → s.world.fds k ≡ false
      → s.flex_waiter.kill_event_fd ≡ none
      → Inv s
      → Inv (waited (record (s.flex_waiter) { kill_event_fd = some k }) s)
  unfolding hold_event
  Inv-event k s fresh e v =
      let w : World = record (s.world) { fds = update s.world.fds k true } in
      let before : (d : ℕ)
          → mem d (stdin_fileno ∷ (master_fds s.flex_waiter.master ++ [])) ≡ true
          → mem d (reserved s.flex_waiter) ≡ true =
        λ d m.
          ap (λ x. mem d (stdin_fileno ∷ (master_fds s.flex_waiter.master ++ master_fds x))) e
          ∙ m in
      record {
        distinct = Distinct-same s.world w (λ h. refl) s.sockets v.distinct;
        held = Held-same s.world w (λ h. refl) s.sockets refl (held_more s.world k) v.held;
        apart = λ d m. elim (split_reserved d k s.flex_waiter.master m) [
          | inl old ↦ Apart-same s.world w (λ h. refl) d s.sockets (v.apart d (before d old))
          | inr new ↦
              Apart-same s.world w (λ h. refl) d s.sockets
                (Held-Apart s.world d s.sockets v.held (ap s.world.fds new ∙ fresh))
        ];
        reserved_held = λ d m. elim (split_reserved d k s.flex_waiter.master m) [
          | inl old ↦ held_more s.world k d (v.reserved_held d (before d old))
          | inr new ↦ now_held s.world k d new
        ];
        unique = v.unique;
        watched = v.watched;
      }

  -- the descriptor of the kill event is there already
  Inv-same_event :
      (k : ℕ) (s : Server Time)
      → s.flex_waiter.kill_event_fd ≡ some k
      → Inv s
      → Inv (waited s.flex_waiter s)
  unfolding hold_event
  Inv-same_event k s e v =
      Inv-Like
        (Like-hold k s.flex_waiter s.world e (v.reserved_held k (reserved_kill k s.flex_waiter e)))
        v

  -- The kill event's descriptor is none of the clients'.
  pub kill-Apart :
      (order : List ℕ → List ℕ) (r : Round Time) (s : Server Time) (k : ℕ) (w : FlexWaiter)
      → Legal order r s
      → Inv s
      → kill_event r.answers.eventfd s.flex_waiter ≡ done k w
      → Apart s.world k s.sockets
  kill-Apart order r s k w legal v p = elim (kill_event-cases _ _ w k p) [
    | inl (e, _) ↦ v.apart k (reserved_kill k s.flex_waiter e)
    | inr (e, q, _) ↦ Held-Apart s.world k s.sockets v.held (legal.fresh_event k e q)
  ]

  pub Inv-kill_event :
      (order : List ℕ → List ℕ) (r : Round Time) (s : Server Time) (k : ℕ) (w : FlexWaiter)
      → Legal order r s
      → Inv s
      → kill_event r.answers.eventfd s.flex_waiter ≡ done k w
      → Inv (waited w s)
  Inv-kill_event order r s k w legal v p = elim (kill_event-cases _ _ w k p) [
    | inl (e, same) ↦ subst (λ x. Inv (waited x s)) same (Inv-same_event k s e v)
    | inr (e, q, made) ↦
        subst (λ x. Inv (waited x s)) made (Inv-event k s (legal.fresh_event k e q) e v)
  ]

  pub Inv-Calmed :
      (v w : FlexWaiter) (s : Server Time) → Calmed v w → Inv (waited v s) → Inv (waited w s)
  unfolding hold_event
  Inv-Calmed v w s (inl e) i = subst (λ x. Inv (waited x s)) e i
  Inv-Calmed v w s (inr e) i =
      subst (λ x. Inv (waited x s)) e
        record {
          distinct = i.distinct;
          held = i.held;
          apart = i.apart;
          reserved_held = i.reserved_held;
          unique = i.unique;
          watched = i.watched;
        }
