-- ===== src/Store/Rebuild/Events.antt =====
-- The store calls of internal/store that journal an event keep the projections of the journal.
use mathlib.Core.Option.{some-injective}
use radar_node.Base.{
  Bool-cases, ◌⊎◌, ℕ, ◌≡◌, refl, sym, ap, ◌∙◌, subst, inl, inr, String, Bool, true, not, List, [],
  ◌∷◌, ◌++◌, Option, none, some, arith, any, retain, All, Option-cases,
}
use radar_node.Wire.{Event, ProbeSnapshot}
use radar_node.Store.{Store, ProbeRow, PendingRow, trigger, trigger_done, assignment, new_row}
use radar_node.Store.Triggers.{
  PendingTrigger, is_pending, decodes, queue_trigger, record_trigger, journal_trigger,
  upsert_completed, delete_pending, complete_trigger, journal_completion, journal_completions,
  complete_triggers,
}
use radar_node.Store.Probes.{
  apply_assignment, journal_assignment, save_assignment, rebuild_event, insert_probes,
}
use radar_node.Store.Sequences.{Reserved, with_row, next_of, next_origin_seq_lem}
use radar_node.Store.Calls.{journal_trigger-cases, journal_completion-cases, insert_journal-cases}
use radar_node.Store.Rebuild.Rows.{
  Projected, IsJournaled, IsJournaled-row, insert_probes_any, retain-retain, All-retain, All-snoc,
}

pub none-some {ℓ} : {A : Type ℓ} {a : A} → none ≡ some a → ⊥
none-some e = cc

-- `RecordTrigger`.
pub queue_trigger-Projected :
    (ev : Event) (q at : ℕ) (s u : Store)
    → Projected s u
    → Projected (queue_trigger ev q at s) (queue_trigger ev q at u)
unfolding queue_trigger
queue_trigger-Projected ev q at s u w =
    ground (arith, w.same_pending, w.same_completed, w.same_hash)

pub queue_trigger-decodable :
    (ev : Event) (q at : ℕ) (s : Store)
    → All (λ p. decodes p ≡ true) s.pending_triggers
    → All (λ p. decodes p ≡ true) (queue_trigger ev q at s).pending_triggers
unfolding queue_trigger
queue_trigger-decodable ev q at s h =
    elim (Bool-cases (any (is_pending ev.probe.id ev.run_id) s.pending_triggers)) [
      | inl old ↦ rw old h
      | inr new ↦ rw new (All-snoc decodes s.pending_triggers _ h refl)
    ]

pub queue_trigger-journal :
    (ev : Event) (q at : ℕ) (s : Store) → (queue_trigger ev q at s).journal ≡ s.journal
unfolding queue_trigger
queue_trigger-journal ev q at s = ground arith

-- A method's tables after it: those before it, or those of its transaction.
pub After : Option Store → Store → Store → Type 0
After done s t = (t ≡ s) ⊎ (done ≡ some t)

pub After-IsJournaled :
    (done : Option Store) (s t : Store)
    → After done s t
    → IsJournaled s
    → ((u : Store) → done ≡ some u → IsJournaled u)
    → IsJournaled t
unfolding After
After-IsJournaled outcome s t (inl same) j k = subst IsJournaled (sym same) j
After-IsJournaled outcome s t (inr e) j k = k t e

pub record_trigger-After :
    (works : Bool) (now : ℕ) (ev : Event) (s : Store)
    → After (journal_trigger now ev s) s (record_trigger works now ev s).0
unfolding record_trigger After
record_trigger-After works now ev s = ground arith

pub journal_trigger-IsJournaled :
    (now : ℕ) (ev : Event) (s : Store)
    → IsJournaled s
    → (u : Store) → journal_trigger now ev s ≡ some u
    → IsJournaled u
unfolding rebuild_event new_row
journal_trigger-IsJournaled now ev s j u done = elim (journal_trigger-cases now ev s) [
  | inl refused ↦ cc
  | inr (t, new, v) ↦
      let after = with_row (next_of s) now (trigger ev) t in
      subst IsJournaled (some-injective _ _ (sym new ∙ done)) (
        IsJournaled-row s (queue_trigger ev t.next_rowid now after)
          (new_row (next_of s) now (trigger ev) t)
          (queue_trigger-journal ev t.next_rowid now after
            ∙ ap (λ rows. rows ++ new_row (next_of s) now (trigger ev) t ∷ []) v.same_journal)
          (λ w p. (
            queue_trigger ev t.next_rowid now w,
            refl,
            queue_trigger-Projected ev t.next_rowid now after w (record {
              same_pending = p.same_pending ∙ sym v.same_pending;
              same_completed = p.same_completed ∙ sym v.same_completed;
              same_hash = p.same_hash ∙ sym v.same_hash;
            }),
          ))
          (queue_trigger-decodable ev t.next_rowid now after (rw v.same_pending j.decodable)) j)
]

-- `CompleteTriggers`.
pub journal_completion-IsJournaled :
    (now : ℕ) (probe_id run_id : String) (s : Store)
    → IsJournaled s
    → (u : Store) → journal_completion now probe_id run_id s ≡ some u
    → IsJournaled u
unfolding rebuild_event new_row complete_trigger delete_pending
journal_completion-IsJournaled now probe_id run_id s j u done =
    elim (journal_completion-cases now probe_id run_id s) [
      | inl refused ↦ cc
      | inr (t, new, v) ↦
          let gone = λ (p : PendingRow). not (is_pending probe_id run_id p) in
          let cleared = delete_pending probe_id run_id s in
          let body = trigger_done probe_id run_id in
          let after = with_row (next_of cleared) now body t in
          let pending_twice =
            ap (retain gone) v.same_pending ∙ retain-retain gone s.pending_triggers in
          subst IsJournaled (some-injective _ _ (sym new ∙ done)) (
            IsJournaled-row s (complete_trigger probe_id run_id now after)
              (new_row (next_of cleared) now body t)
              (ap (λ rows. rows ++ new_row (next_of cleared) now body t ∷ []) v.same_journal)
              (λ w p. (
                complete_trigger probe_id run_id now w,
                refl,
                record {
                  same_pending = ap (retain gone) p.same_pending ∙ sym pending_twice;
                  same_completed =
                      ap (upsert_completed probe_id run_id now)
                        (p.same_completed ∙ sym v.same_completed);
                  same_hash = p.same_hash ∙ sym v.same_hash;
                },
              ))
              (subst (All (λ (p : PendingRow). decodes p ≡ true)) (sym pending_twice)
                (All-retain decodes gone s.pending_triggers j.decodable))
              j)
    ]

pub journal_completions-IsJournaled :
    (now : ℕ) (ts : List PendingTrigger) (s : Store)
    → IsJournaled s
    → (u : Store) → journal_completions now ts s ≡ some u
    → IsJournaled u
unfolding journal_completions
journal_completions-IsJournaled now [] s j u e = subst IsJournaled (some-injective _ _ e) j
journal_completions-IsJournaled now (t ∷ ts) s j u e =
    elim (Option-cases (journal_completion now t.probe_id t.run_id s)) [
      | inl refused ↦ absurd (none-some (rw (refused, journal_completions) at e))
      | inr (v, done) ↦
          journal_completions-IsJournaled now ts v
            (journal_completion-IsJournaled now t.probe_id t.run_id s j v done) u
            (rw (done, journal_completions) at e)
    ]

pub complete_triggers-After :
    (works : Bool) (now : ℕ) (ts : List PendingTrigger) (s : Store)
    → After (journal_completions now ts s) s (complete_triggers works now ts s).0
unfolding complete_triggers After
complete_triggers-After works now [] s = inl refl
complete_triggers-After works now (t ∷ ts) s = ground arith

-- `SaveAssignment`.
pub save_assignment-After :
    (works : Bool) (now : ℕ) (hash : String) (ps : List ProbeSnapshot) (s : Store)
    → After (journal_assignment now hash ps s) s (save_assignment works now hash ps s).0
unfolding save_assignment After
save_assignment-After works now hash ps s = ground arith

abbrev pub assigned :
    ℕ → String → List ProbeSnapshot → Store → Store → List (String × ProbeRow) → Store
assigned now hash ps s t probes = record (with_row (next_of s) now (assignment hash ps) t) {
  probes = probes;
  probe_hash = hash;
}

pub journal_assignment-cases :
    (now : ℕ) (hash : String) (ps : List ProbeSnapshot) (s : Store)
    → (journal_assignment now hash ps s ≡ none)
      ⊎ ((t : Store) × (probes : List (String × ProbeRow)) × (insert_probes t.probes ps []
            ≡ some probes)
          × (journal_assignment now hash ps s ≡ some (assigned now hash ps s t probes))
          × Reserved 1 s t)
unfolding journal_assignment apply_assignment
journal_assignment-cases now hash ps s =
    let (t, e, v) = next_origin_seq_lem 1 s (omega arith) in
    elim (insert_journal-cases (next_of s) now (assignment hash ps) t) [
      | inl refused ↦ inl (rw (e, refused, journal_assignment))
      | inr row ↦ elim (Option-cases (insert_probes t.probes ps [])) [
        | inl twice ↦ inl (rw (e, row, journal_assignment) (rw (twice, apply_assignment)))
        | inr (probes, fine) ↦
            inr (t, probes, fine, rw (e, row, journal_assignment) (rw (fine, apply_assignment)), v)
      ]
    ]

pub journal_assignment-IsJournaled :
    (now : ℕ) (hash : String) (ps : List ProbeSnapshot) (s : Store)
    → IsJournaled s
    → (u : Store) → journal_assignment now hash ps s ≡ some u
    → IsJournaled u
unfolding new_row rebuild_event apply_assignment
journal_assignment-IsJournaled now hash ps s j u done =
    elim (journal_assignment-cases now hash ps s) [
      | inl refused ↦ cc
      | inr (t, probes, fine, new, v) ↦
          let (probes', fine') = insert_probes_any t.probes ps probes fine in
          let row = new_row (next_of s) now (assignment hash ps) t in
          subst IsJournaled (some-injective _ _ (sym new ∙ done)) (
            IsJournaled-row s (assigned now hash ps s t probes) row
              (ap (λ rows. rows ++ row ∷ []) v.same_journal)
              (λ w p. (
                record w { probes = probes'; probe_hash = hash },
                rw (fine', rebuild_event, apply_assignment),
                record {
                  same_pending = p.same_pending ∙ sym v.same_pending;
                  same_completed = p.same_completed ∙ sym v.same_completed;
                  same_hash = refl;
                },
              ))
              (rw v.same_pending j.decodable) j)
    ]
