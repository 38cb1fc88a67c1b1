-- ===== src/Server/Threads/Leads.antt =====
-- Runs of the two threads that lead from one point to another with the sender at rest, and the sections
-- of a callback as such a run.
use se3313a_lab.Base.{
  String, ℕ, ◌≡◌, refl, sym, ap, ◌∙◌, subst, List, [], ◌∷◌, done, left, Outcome-cases,
  thrown-ne-done, inl, inr,
}
use se3313a_lab.Boost.{Library}
use se3313a_lab.Msg.Json.{to_compact}
use se3313a_lab.Msg.AnyInstance.{AnyInstance, to_json}
use se3313a_lab.Server.{Server, SocketCall}
use se3313a_lab.Net.Socket.{write}
use se3313a_lab.Server.{in_world}
use se3313a_lab.Server.Room.{Event}
use se3313a_lab.Server.Threads.{
  MainAt, free, entering, closing, heard, refusing, stopping, naming, pushing, resting, stops,
  refuses, enters, removes, replies, names, pushes, System, system, Step, main_steps, Run, here,
  follows, reply,
}
use se3313a_lab.Server.Threads.Sections.{sections, last_sections, finished}

module _ (L : Library) (order : List ℕ → List ℕ) where
  open L use {Time}

  abbrev pub Leads : System L → System L → Type 0
  Leads t t' = (es : List (Event (AnyInstance Time))) × Run L order t es t'

  abbrev pub at_rest : Server Time → System L
  at_rest s = system L s free resting

  pub Leads-refl : (t : System L) → Leads t t
  Leads-refl t = ([], here)

  pub Leads-eq : {t t' : System L} → t ≡ t' → Leads t t'
  Leads-eq {t} e = subst (Leads t) e (Leads-refl t)

  pub Leads-Step :
      {t t' t'' : System L} {e : Event (AnyInstance Time)}
      → Step L order t e t'
      → Leads t' t''
      → Leads t t''
  Leads-Step {e} x (es, run) = (e ∷ es, follows x run)

  -- one run after the other
  pub Leads-trans : {t t' t'' : System L} → Leads t t' → Leads t' t'' → Leads t t''
  Leads-trans (_, here) l = l
  Leads-trans (_, follows {es} x run) l = Leads-Step x (Leads-trans (es, run) l)

  -- the sections that are left, when the main thread is not before `visit`
  pub last_run :
      (p : MainAt Time) (s s' : Server Time)
      → last_sections L p s ≡ done tt s'
      → Leads (system L s p resting) (at_rest s')
  last_run free s s' e = Leads-eq (ap at_rest (ap left e))
  last_run (closing h) s s' e =
      Leads-Step (main_steps (removes h) refl) (Leads-eq (ap at_rest (ap left e)))
  last_run (heard h c text) s s' e = absurd (thrown-ne-done e)
  last_run (refusing h c m) s s' e =
      elim (Outcome-cases (write c.written h (to_compact L (to_json L m)) s.world)) [
        | inl (n, w, q) ↦
            Leads-Step (main_steps (refuses h c m n w q) refl)
              (Leads-eq (ap at_rest (ap left (sym (ap (λ o. in_world o s tt) q) ∙ e))))
        | inr (f, w, q) ↦ absurd (thrown-ne-done (sym (ap (λ o. in_world o s tt) q) ∙ e))
      ]
  last_run (entering h) s s' e =
      Leads-Step (main_steps (enters h) refl) (Leads-eq (ap at_rest (ap left e)))
  last_run stopping s s' e = Leads-Step (main_steps stops refl) (Leads-eq (ap at_rest (ap left e)))
  last_run (naming h username m) s s' e =
      Leads-Step (main_steps (names h username m) refl)
        (Leads-Step (main_steps (pushes m) refl) (Leads-eq (ap at_rest (ap left e))))
  last_run (pushing m) s s' e =
      Leads-Step (main_steps (pushes m) refl) (Leads-eq (ap at_rest (ap left e)))

  reply_run :
      (h : ℕ) (c : SocketCall Time) (text : String) (s s' : Server Time)
      → finished L (reply L h c text s) ≡ done tt s'
      → Leads (system L s (heard h c text) resting) (at_rest s')
  reply_run h c text s s' e = elim (Outcome-cases (reply L h c text s)) [
    | inl (p, s1, q) ↦
        Leads-Step (main_steps (replies h c text s1 p q) refl)
          (last_run p s1 s' (sym (ap (finished L) q) ∙ e))
    | inr (f, s1, q) ↦ absurd (thrown-ne-done (sym (ap (finished L) q) ∙ e))
  ]

  pub sections_run :
      (p : MainAt Time) (s s' : Server Time)
      → sections L (done p s) ≡ done tt s'
      → Leads (system L s p resting) (at_rest s')
  sections_run (heard h c text) s s' e = reply_run h c text s s' e
  sections_run free s s' e = last_run free s s' e
  sections_run (closing h) s s' e = last_run (closing h) s s' e
  sections_run (refusing h c m) s s' e = last_run (refusing h c m) s s' e
  sections_run (entering h) s s' e = last_run (entering h) s s' e
  sections_run stopping s s' e = last_run stopping s s' e
  sections_run (naming h username m) s s' e = last_run (naming h username m) s s' e
  sections_run (pushing m) s s' e = last_run (pushing m) s s' e
