-- ===== src/Store/Growth.antt =====
-- The completion of triggers (internal/store/triggers.go) leaves every row of the journal there.
use mathlib.Core.Option.{some-injective}
use radar_node.Base.{
  ℕ, ◌≡◌, refl, sym, ◌∙◌, subst, arith, inl, inr, Bool, true, false, String, some, Option-cases,
  List, [], ◌∷◌,
}
use radar_node.Store.{Store, Body}
use radar_node.Store.Sequences.{holds, holds-append}
use radar_node.Store.Triggers.{
  PendingTrigger as StoredTrigger, journal_completion, journal_completions, complete_triggers,
  delete_pending, complete_trigger,
}
use radar_node.Store.Calls.{journal_completion-cases}

-- The journal of the second store holds what that of the first holds.
pub record Grows (s t : Store) : Type 0 where
  pub origin : t.origin ≡ s.origin
  pub bodies :
      (origin : String) (body : Body)
      → holds origin body s.journal ≡ true
      → holds origin body t.journal ≡ true

pub Grows-refl : (s : Store) → Grows s s
Grows-refl s = record { origin = refl; bodies = λ o b h. h }

Grows-trans : (s t u : Store) → Grows s t → Grows t u → Grows s u
Grows-trans s t u h k = record {
  origin = k.origin ∙ h.origin;
  bodies = λ o b i. k.bodies o b (h.bodies o b i);
}

journal_completion-Grows :
    (now : ℕ) (p r : String) (s u : Store) → journal_completion now p r s ≡ some u → Grows s u
unfolding complete_trigger delete_pending
journal_completion-Grows now p r s u e = elim (journal_completion-cases now p r s) [
  | inl failed ↦ absurd (ground (arith, e, failed))
  | inr (t, done, v) ↦ subst (Grows s) (some-injective _ _ (sym done ∙ e)) (record {
    origin = v.same_origin;
    bodies = λ o b h.
        holds-append o b t.journal _ (subst (λ rows. holds o b rows ≡ true) (sym v.same_journal) h);
  })
]

journal_completions-Grows :
    (now : ℕ) (ts : List StoredTrigger) (s u : Store)
    → journal_completions now ts s ≡ some u
    → Grows s u
unfolding journal_completions
journal_completions-Grows now [] s u e = subst (Grows s) (some-injective _ _ e) (Grows-refl s)
journal_completions-Grows now (t ∷ ts) s u e =
    elim (Option-cases (journal_completion now t.probe_id t.run_id s)) [
      | inl failed ↦ absurd (ground (arith, e, failed))
      | inr (v, done) ↦
          Grows-trans s v u (journal_completion-Grows now t.probe_id t.run_id s v done)
            (journal_completions-Grows now ts v u (rw (done, journal_completions) at e))
    ]

pub complete_triggers-Grows :
    (works : Bool) (now : ℕ) (ts : List StoredTrigger) (s : Store)
    → Grows s (complete_triggers works now ts s).0
unfolding complete_triggers
complete_triggers-Grows works now [] s = Grows-refl s
complete_triggers-Grows false now (t ∷ ts) s = Grows-refl s
complete_triggers-Grows true now (t ∷ ts) s =
    elim (Option-cases (journal_completions now (t ∷ ts) s)) [
      | inl failed ↦ rw failed (Grows-refl s)
      | inr (u, done) ↦ rw done (journal_completions-Grows now (t ∷ ts) s u done)
    ]
