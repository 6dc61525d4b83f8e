-- ===== src/Store/Replay.antt =====
-- `RecordResults` of internal/store/results.go: what a batch adds, and the same batch again.
pub mod Rounds
use radar_node.Base.{
  ℕ, suc, ◌+◌, ◌≡◌, refl, sym, ap, subst, ◌∙◌, inl, inr, String, Bool, true, false, ◌&&◌, ◌||◌,
  List, [], ◌∷◌, ◌++◌, append-nil, append_assoc, Option, arith, str_eq, eq_refl, any-append, length,
  length-append, All, Bool-cases,
}
use radar_node.Wire.{Result, Value}
use radar_node.Store.{
  Store, JournalRow, Body, ResultColumns, same_result, same_body, Answer, result, returned, new_row,
}
use radar_node.Store.Results.{
  RecordSummary, empty_summary, columns_of, count_invalid, insert_result, record_result, record_all,
  record_results,
}
use radar_node.Store.Sequences.{
  reaches, holds, next_of, IsSequenced, reaches_mono, next_origin_seq_lem, insert_journal_lem,
  with_row, reaches-with_row, holds-append,
}
use radar_node.Store.Replay.Rounds.{
  total, Settled, Settled-by, record_all-Recorded, record_all-Settled,
}

module _ (parse_ms : String → Option ℕ) (encodable : List (String × Value) → Bool) where
  record Batch (rs : List Result) (s : Store) (a : Store × Answer RecordSummary) : Type 0 where
    summary : RecordSummary
    added : List JournalRow
    answered : a.1 ≡ returned summary
    counted : total summary ≡ length rs
    grown : a.0.journal ≡ s.journal ++ added
    inserted : length added ≡ summary.inserted
    sequenced : IsSequenced a.0
    settled : All (Settled parse_ms encodable a.0) rs

  record_results-Batch :
      (now : ℕ) (rs : List Result) (s : Store)
      → IsSequenced s
      → Batch rs s (record_results parse_ms encodable true now rs s)
  unfolding record_results
  record_results-Batch now [] s seq = record {
    summary = empty_summary;
    added = [];
    answered = refl;
    counted = refl;
    grown = sym (append-nil s.journal);
    inserted = refl;
    sequenced = seq;
    settled = tt;
  }
  record_results-Batch now (r ∷ rs) s seq =
      let (t, e, v) = next_origin_seq_lem (length (r ∷ rs)) s (omega arith) in
      let q = next_of s in
      let free =
        subst (λ o. reaches o q t.journal ≡ false) (sym v.same_origin) (rw v.same_journal seq) in
      let um = record_all parse_ms encodable now q (r ∷ rs) (t, empty_summary) in
      let h = record_all-Recorded parse_ms encodable now q (r ∷ rs) t empty_summary free in
      let next = ap next_of h.same_rest ∙ v.advanced in
      rw e (record {
        summary = um.1;
        added = h.added;
        answered = refl;
        counted = omega (arith, h.counted);
        grown = h.grown ∙ ap (λ rows. rows ++ h.added) v.same_journal;
        inserted = omega (arith, h.inserted);
        sequenced =
            rw next
              (reaches_mono um.0.origin (length (r ∷ rs) + q) _ um.0.journal (omega arith) h.free);
        settled = h.settled;
      })

  pub record_results-Settled :
      (now : ℕ) (rs : List Result) (s : Store)
      → IsSequenced s
      → let (t, a) = record_results parse_ms encodable true now rs s in
        ((m : RecordSummary) × (a ≡ returned m)) × All (Settled parse_ms encodable t) rs
  record_results-Settled now rs s seq =
      let b = record_results-Batch now rs s seq in ((b.summary, b.answered), b.settled)

  -- A recorded batch is told apart into inserted, duplicate and skipped results. The journal grows
  -- at its end, by the inserted ones, and stays numbered below the next free number.
  pub record_results_counts :
      (now : ℕ) (rs : List Result) (s : Store)
      → IsSequenced s
      → let (t, a) = record_results parse_ms encodable true now rs s in
        (m : RecordSummary) × (added : List JournalRow) × (a ≡ returned m)
        × (total m ≡ length rs)
        × (t.journal ≡ s.journal ++ added)
        × (length added ≡ m.inserted)
        × IsSequenced t
  record_results_counts now rs s seq =
      let b = record_results-Batch now rs s seq in
      (b.summary, b.added, b.answered, b.counted, b.grown, b.inserted, b.sequenced)

  again :
      (later : ℕ) (rs : List Result) (t : Store)
      → IsSequenced t
      → All (Settled parse_ms encodable t) rs
      → let (u, a) = record_results parse_ms encodable true later rs t in
        (m : RecordSummary) × (a ≡ returned m)
        × (m.inserted ≡ 0)
        × (m.duplicates + m.skipped ≡ length rs)
        × (u.journal ≡ t.journal)
  unfolding record_results
  again later [] t seq h = (empty_summary, refl, refl, refl, refl)
  again later (r ∷ rs) t seq h =
      let (u, e, v) = next_origin_seq_lem (length (r ∷ rs)) t (omega arith) in
      let q = next_of t in
      let free =
        subst (λ o. reaches o q u.journal ≡ false) (sym v.same_origin) (rw v.same_journal seq) in
      let kept = Settled-by parse_ms encodable t u v.same_origin v.same_journal (r ∷ rs) h in
      let (n, e', i, d) =
        record_all-Settled parse_ms encodable later q (r ∷ rs) u empty_summary free kept in
      rw (e, e') (n, refl, i, omega (arith, d), v.same_journal)

  -- Recording a batch again inserts nothing, whenever it comes: each result is a duplicate or was
  -- skipped, and the journal is as it was.
  pub record_results_twice :
      (now later : ℕ) (rs : List Result) (s : Store)
      → IsSequenced s
      → let t = (record_results parse_ms encodable true now rs s).0 in
        let (u, a) = record_results parse_ms encodable true later rs t in
        (m : RecordSummary) × (a ≡ returned m)
        × (m.inserted ≡ 0)
        × (m.duplicates + m.skipped ≡ length rs)
        × (u.journal ≡ t.journal)
  record_results_twice now later rs s seq =
      let b = record_results-Batch now rs s seq in again later rs _ b.sequenced b.settled
