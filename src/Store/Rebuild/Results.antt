-- ===== src/Store/Rebuild/Results.antt =====
-- The store calls on results of internal/store/results.go, and the run times, leave the projections of the journal alone.
use mathlib.Core.Option.{some-injective}
use radar_node.Base.{
  Bool-cases, ◌||◌, length, zero, ◌==◌, take, drop, ℕ, suc, ◌≡◌, refl, sym, ap, ◌∙◌, subst, inl,
  inr, String, Bool, true, false, List, [], ◌∷◌, Option, some, arith, str_eq, Option-cases,
}
use radar_node.Wire.{Result, Value}
use radar_node.Store.{Store, JournalRow, ResultColumns, result, new_row, insert_journal}
use radar_node.Store.Results.{
  RecordSummary, Outcome, empty_summary, insert_result, record_result, record_all, record_results,
  mark_all, mark_outcomes, observed_at_ms, columns_of, settle_where, attempt, attempt_chunks,
}
use radar_node.Store.Probes.{mark_probes_run, rebuild_event, rebuild_rows}
use radar_node.Store.Sequences.{with_row, next_of, next_origin_seq_lem}
use radar_node.Store.Calls.{insert_journal-cases}
use radar_node.Store.Rebuild.Rows.{
  SameEvent, IsJournaled, rebuild_rows-map, IsJournaled-same, IsJournaled-row,
}
use radar_node.Store.Rebuild.Events.{none-some}

-- `RecordResults`: a result's row replays to nothing.
pub insert_journal-IsJournaled :
    (q at : ℕ) (columns : ResultColumns) (s u : Store)
    → insert_journal q at (result columns) s ≡ some u
    → IsJournaled s
    → IsJournaled u
unfolding rebuild_event new_row
insert_journal-IsJournaled q at columns s u done j =
    elim (insert_journal-cases q at (result columns) s) [
      | inl refused ↦ absurd (none-some (sym refused ∙ done))
      | inr new ↦ subst IsJournaled (some-injective _ _ (sym new ∙ done)) (
          IsJournaled-row s (with_row q at (result columns) s) (new_row q at (result columns) s)
            refl
            (λ w p. (
              w,
              refl,
              record {
                same_pending = p.same_pending;
                same_completed = p.same_completed;
                same_hash = p.same_hash;
              },
            ))
            j.decodable j)
    ]

module _ (parse_ms : String → Option ℕ) (encodable : List (String × Value) → Bool) where
  record_result-IsJournaled :
      (now q : ℕ) (r : Result) (s : Store) (m : RecordSummary)
      → IsJournaled s
      → IsJournaled (record_result parse_ms encodable now q r (s, m)).0
  unfolding record_result insert_result
  record_result-IsJournaled now q r s m j =
      elim (Bool-cases (str_eq r.run_id "" || str_eq r.probe_id "")) [
        | inl skip ↦ rw (skip, record_result) j
        | inr valid ↦
            elim (Option-cases (
              insert_journal q (observed_at_ms parse_ms encodable r.observed_at now)
                (result (columns_of parse_ms encodable r)) s)) [
                  | inl known ↦ rw (valid, known, record_result, insert_result) j
                  | inr (u, new) ↦
                      rw (valid, new, record_result, insert_result)
                        (insert_journal-IsJournaled q _ _ s u new j)
                ]
      ]

  record_all-IsJournaled :
      (now q : ℕ) (rs : List Result) (s : Store) (m : RecordSummary)
      → IsJournaled s
      → IsJournaled (record_all parse_ms encodable now q rs (s, m)).0
  unfolding record_all
  record_all-IsJournaled now q [] s m j = j
  record_all-IsJournaled now q (r ∷ rs) s m j =
      let sm = record_result parse_ms encodable now q r (s, m) in
      record_all-IsJournaled now (suc q) rs sm.0 sm.1 (record_result-IsJournaled now q r s m j)

  pub record_results-IsJournaled :
      (works : Bool) (now : ℕ) (rs : List Result) (s : Store)
      → IsJournaled s
      → IsJournaled (record_results parse_ms encodable works now rs s).0
  unfolding record_results
  record_results-IsJournaled works now [] s j = j
  record_results-IsJournaled false now (r ∷ rs) s j = j
  record_results-IsJournaled true now (r ∷ rs) s j =
      let (t, e, v) = next_origin_seq_lem (length (r ∷ rs)) s (omega arith) in
      rw e (
        record_all-IsJournaled now (next_of s) (r ∷ rs) t empty_summary (
          IsJournaled-same s t (λ b. ap (λ rows. rebuild_rows rows b) v.same_journal)
            (record {
              same_pending = v.same_pending;
              same_completed = v.same_completed;
              same_hash = v.same_hash;
            })
            j))

pub settle_where-SameEvent :
    (now : ℕ) (o : Outcome) (r : JournalRow) → SameEvent r (settle_where now o r)
settle_where-SameEvent now o r = ground arith

pub attempt-SameEvent : (seqs : List ℕ) (r : JournalRow) → SameEvent r (attempt seqs r)
attempt-SameEvent seqs r = ground arith

pub rebuild_rows-mark_all :
    (now : ℕ) (os : List Outcome) (rows : List JournalRow) (b : Option Store)
    → rebuild_rows (mark_all now os rows) b ≡ rebuild_rows rows b
unfolding mark_all
rebuild_rows-mark_all now [] rows b = refl
rebuild_rows-mark_all now (o ∷ os) rows b = elim (Bool-cases (o.seq == 0)) [
  | inl none_such ↦ rw (none_such, mark_all) (rebuild_rows-mark_all now os rows b)
  | inr some_row ↦
      rw (some_row, mark_all)
        (rebuild_rows-mark_all now os _ b
          ∙ rebuild_rows-map (settle_where now o) (settle_where-SameEvent now o) rows b)
]

pub rebuild_rows-attempt_chunks :
    (fuel : ℕ) (seqs : List ℕ) (rows : List JournalRow) (b : Option Store)
    → rebuild_rows (attempt_chunks fuel seqs rows) b ≡ rebuild_rows rows b
unfolding attempt_chunks
rebuild_rows-attempt_chunks zero seqs rows b = refl
rebuild_rows-attempt_chunks (suc fuel) seqs rows b =
    rebuild_rows-attempt_chunks fuel (drop 500 seqs) _ b
    ∙ rebuild_rows-map (attempt (take 500 seqs)) (attempt-SameEvent (take 500 seqs)) rows b

pub mark_outcomes-IsJournaled :
    (works : Bool) (now : ℕ) (os : List Outcome) (s : Store)
    → IsJournaled s
    → IsJournaled (mark_outcomes works now os s).0
unfolding mark_outcomes
mark_outcomes-IsJournaled works now [] s j = j
mark_outcomes-IsJournaled false now (o ∷ os) s j = j
mark_outcomes-IsJournaled true now (o ∷ os) s j =
    IsJournaled-same s _ (rebuild_rows-mark_all now (o ∷ os) s.journal)
      (record { same_pending = refl; same_completed = refl; same_hash = refl }) j

pub mark_probes_run-IsJournaled :
    (ids : List String) (at_ms : ℕ) (s : Store)
    → IsJournaled s
    → IsJournaled (mark_probes_run ids at_ms s)
unfolding mark_probes_run
mark_probes_run-IsJournaled [] at_ms s j = j
mark_probes_run-IsJournaled (id ∷ ids) at_ms s j = mark_probes_run-IsJournaled ids at_ms _ (
    IsJournaled-same s _ (λ b. refl)
      (record { same_pending = refl; same_completed = refl; same_hash = refl }) j)
