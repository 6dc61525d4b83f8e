-- ===== src/Store/Once.antt =====
-- A trigger is journaled once, whatever `RecordTrigger` of internal/store/triggers.go meets again.
use mathlib.Core.Option.{some-injective}
use radar_node.Base.{
  Option-cases, ℕ, ◌≡◌, ◌≢◌, refl, sym, ◌∙◌, inl, inr, String, Bool, true, false, not, ◌&&◌, ◌||◌,
  List, [], ◌∷◌, some, arith, str_eq, eq_iff, eq_refl, any, any-append, retain, subst,
}
use radar_node.Wire.{Event}
use radar_node.Store.{Store, Body, PendingRow, CompletedRow, returned, trigger, trigger_done}
use radar_node.Store.Triggers.{
  PendingTrigger, is_pending, is_completed, decodes, trigger_already_seen, queue_trigger,
  record_trigger, load_pending_triggers, delete_pending, upsert_completed, complete_trigger,
  journal_completion, journal_completions, complete_triggers,
}
use radar_node.Store.Results.{mark_attempts}
use radar_node.Store.Sequences.{Reserved, with_row, next_of}
use radar_node.Store.Calls.{
  Call, records_trigger, loads_triggers, completes, records, settles, attempts, assigns, runs, step,
  run, journal_trigger-cases, journal_completion-cases, SameTriggers, record_results-SameTriggers,
  save_assignment-SameTriggers, mark_probes_run-SameTriggers, mark_outcomes-SameTriggers,
}

abbrev row_of : Event → ℕ → ℕ → PendingRow
row_of ev q at = record {
  probe_id = ev.probe.id;
  run_id = ev.run_id;
  event_seq = q;
  created_at_ms = at;
  snapshot = some ev.probe;
}

module _ (probe_id run_id : String) where
  abbrev is_waiting : PendingRow → Bool
  is_waiting p = is_pending probe_id run_id p && decodes p

  -- The trigger waits in the queue with a snapshot that decodes, or is completed.
  abbrev pub is_recorded : Store → Bool
  is_recorded s =
      any (is_completed probe_id run_id) s.completed_triggers || any is_waiting s.pending_triggers

  any-waiting-pending :
      (ps : List PendingRow) → any is_waiting ps ≡ true → any (is_pending probe_id run_id) ps ≡ true
  any-waiting-pending [] h = h
  any-waiting-pending (p ∷ ps) h = ground (arith, any-waiting-pending ps)

  any-waiting-readable :
      (ps : List PendingRow) → any is_waiting (retain decodes ps) ≡ any is_waiting ps
  any-waiting-readable [] = refl
  any-waiting-readable (p ∷ ps) = ground (arith, any-waiting-readable ps)

  any-completed-upsert :
      (p r : String) (at : ℕ) (cs : List CompletedRow)
      → any (is_completed probe_id run_id) (upsert_completed p r at cs)
        ≡ (str_eq p probe_id && str_eq r run_id || any (is_completed probe_id run_id) cs)
  unfolding upsert_completed
  any-completed-upsert p r at [] = ground arith
  any-completed-upsert p r at (c ∷ cs) = ground (
    arith,
    any-completed-upsert p r at cs,
    eq_iff c.probe_id p,
    eq_iff c.run_id r,
    eq_iff c.probe_id probe_id,
    eq_iff c.run_id run_id,
    eq_iff p probe_id,
    eq_iff r run_id,
  )

  any-waiting-delete :
      (p r : String) (ps : List PendingRow)
      → (str_eq p probe_id && str_eq r run_id) ≡ false
      → any is_waiting (retain (λ x. not (is_pending p r x)) ps) ≡ any is_waiting ps
  any-waiting-delete p r [] other = refl
  any-waiting-delete p r (x ∷ ps) other = ground (
    arith,
    any-waiting-delete p r ps,
    eq_iff x.probe_id p,
    eq_iff x.run_id r,
    eq_iff x.probe_id probe_id,
    eq_iff x.run_id run_id,
    eq_iff p probe_id,
    eq_iff r run_id,
  )

  -- Completion of another trigger, and of this one.
  is_recorded-complete_trigger :
      (p r : String) (now : ℕ) (s t : Store)
      → is_recorded s ≡ true
      → Reserved 1 (delete_pending p r s) t
      → (body : Body)
      → is_recorded
          (complete_trigger p r now (with_row (next_of (delete_pending p r s)) now body t))
        ≡ true
  unfolding complete_trigger delete_pending
  is_recorded-complete_trigger p r now s t h v body = ground (
    arith,
    any-completed-upsert p r now t.completed_triggers,
    any-waiting-delete p r t.pending_triggers,
    any-waiting-delete p r s.pending_triggers,
    v.same_pending,
    v.same_completed,
  )

  is_recorded-same : {s t : Store} → SameTriggers s t → is_recorded s ≡ true → is_recorded t ≡ true
  is_recorded-same v h = rw (v.same_pending, v.same_completed) h

  is_recorded-queue :
      (ev : Event) (q at : ℕ) (s : Store)
      → is_recorded s ≡ true
      → is_recorded (queue_trigger ev q at s) ≡ true
  unfolding queue_trigger
  is_recorded-queue ev q at s h =
      ground (arith, any-append is_waiting s.pending_triggers (row_of ev q at ∷ []))

  is_recorded-record_trigger :
      (works : Bool) (now : ℕ) (ev : Event) (s : Store)
      → is_recorded s ≡ true
      → is_recorded (record_trigger works now ev s).0 ≡ true
  unfolding record_trigger
  is_recorded-record_trigger works now ev s h = elim (journal_trigger-cases now ev s) [
    | inl none_new ↦ ground (arith, none_new)
    | inr (t, new, v) ↦ ground (
      arith,
      new,
      is_recorded-queue ev t.next_rowid now (with_row (next_of s) now (trigger ev) t) (
          is_recorded-same
            (record { same_pending = v.same_pending; same_completed = v.same_completed }) h),
    )
  ]

  is_recorded-completion :
      (now : ℕ) (p r : String) (s u : Store)
      → journal_completion now p r s ≡ some u
      → is_recorded s ≡ true
      → is_recorded u ≡ true
  is_recorded-completion now p r s u done h = elim (journal_completion-cases now p r s) [
    | inl refused ↦ cc
    | inr (t, new, v) ↦
        subst (λ x. is_recorded x ≡ true) (some-injective _ _ (sym new ∙ done))
          (is_recorded-complete_trigger p r now s t h v (trigger_done p r))
  ]

  is_recorded-completions :
      (now : ℕ) (ts : List PendingTrigger) (s u : Store)
      → journal_completions now ts s ≡ some u
      → is_recorded s ≡ true
      → is_recorded u ≡ true
  unfolding journal_completions
  is_recorded-completions now [] s u e h =
      subst (λ x. is_recorded x ≡ true) (some-injective _ _ e) h
  is_recorded-completions now (t ∷ ts) s u e h =
      elim (Option-cases (journal_completion now t.probe_id t.run_id s)) [
        | inl refused ↦ cc
        | inr (v, done) ↦
            is_recorded-completions now ts v u (rw (done, journal_completions) at e)
              (is_recorded-completion now t.probe_id t.run_id s v done h)
      ]

  is_recorded-complete_triggers :
      (works : Bool) (now : ℕ) (ts : List PendingTrigger) (s : Store)
      → is_recorded s ≡ true
      → is_recorded (complete_triggers works now ts s).0 ≡ true
  unfolding complete_triggers
  is_recorded-complete_triggers works now [] s h = h
  is_recorded-complete_triggers false now (t ∷ ts) s h = h
  is_recorded-complete_triggers true now (t ∷ ts) s h =
      elim (Option-cases (journal_completions now (t ∷ ts) s)) [
        | inl refused ↦ rw (refused, complete_triggers) h
        | inr (u, done) ↦
            rw (done, complete_triggers) (is_recorded-completions now (t ∷ ts) s u done h)
      ]

  is_recorded-step :
      (s : Store) (call : Call) → is_recorded s ≡ true → is_recorded (step s call) ≡ true
  unfolding step load_pending_triggers mark_attempts
  is_recorded-step s (records_trigger works now ev) h = is_recorded-record_trigger works now ev s h
  is_recorded-step s loads_triggers h = rw (any-waiting-readable s.pending_triggers) h
  is_recorded-step s (completes works now ts) h = is_recorded-complete_triggers works now ts s h
  is_recorded-step s (records parse_ms encodable works now rs) h =
      is_recorded-same (record_results-SameTriggers parse_ms encodable works now rs s) h
  is_recorded-step s (settles works now os) h =
      is_recorded-same (mark_outcomes-SameTriggers works now os s) h
  is_recorded-step s (attempts seqs) h = h
  is_recorded-step s (assigns works now hash ps) h =
      is_recorded-same (save_assignment-SameTriggers works now hash ps s) h
  is_recorded-step s (runs ids at_ms) h =
      is_recorded-same (mark_probes_run-SameTriggers ids at_ms s) h

  is_recorded-run :
      (s : Store) (calls : List Call) → is_recorded s ≡ true → is_recorded (run s calls) ≡ true
  unfolding run
  is_recorded-run s [] h = h
  is_recorded-run s (call ∷ calls) h =
      is_recorded-run (step s call) calls (is_recorded-step s call h)

-- A delivery that was journaled leaves its trigger recorded.
record_trigger-is_recorded :
    (works : Bool) (now : ℕ) (ev : Event) (s : Store)
    → (record_trigger works now ev s).1 ≡ returned true
    → is_recorded ev.probe.id ev.run_id (record_trigger works now ev s).0 ≡ true
unfolding record_trigger queue_trigger trigger_already_seen
record_trigger-is_recorded works now ev s h = elim (journal_trigger-cases now ev s) [
  | inl none_new ↦ ground (arith, none_new)
  | inr (t, new, v) ↦ ground (
    arith,
    new,
    v.same_pending,
    any-append (is_waiting ev.probe.id ev.run_id) t.pending_triggers
        (row_of ev t.next_rowid now ∷ []),
    eq_refl ev.probe.id,
    eq_refl ev.run_id,
  )
]

-- A recorded trigger is not journaled again.
record_trigger_recorded :
    (works : Bool) (now : ℕ) (ev : Event) (s : Store)
    → is_recorded ev.probe.id ev.run_id s ≡ true
    → (record_trigger works now ev s).1 ≢ returned true
unfolding record_trigger trigger_already_seen
record_trigger_recorded works now ev s h =
    ground (arith, any-waiting-pending ev.probe.id ev.run_id s.pending_triggers)

-- Once `RecordTrigger` has journaled a trigger, no later delivery of an event with the same probe
-- and run is journaled, whatever calls of the store came in between: completions, failed calls,
-- assignments, results, and reloads after a restart. (Maintenance, which forgets old completions, is
-- not among these calls.)
pub record_trigger_once :
    (works : Bool) (now : ℕ) (ev : Event) (s : Store) (calls : List Call) (works' : Bool)
    (later : ℕ) (again : Event)
    → (record_trigger works now ev s).1 ≡ returned true
    → again.probe.id ≡ ev.probe.id
    → again.run_id ≡ ev.run_id
    → let t = run (record_trigger works now ev s).0 calls in
      (record_trigger works' later again t).1 ≢ returned true
record_trigger_once works now ev s calls works' later again new same_probe same_run =
    record_trigger_recorded works' later again _ (
      rw (same_probe, same_run)
        (is_recorded-run ev.probe.id ev.run_id (record_trigger works now ev s).0 calls
          (record_trigger-is_recorded works now ev s new)))
