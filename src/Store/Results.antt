-- ===== src/Store/Results.antt =====
-- internal/store/results.go: results go into the journal once, wait for delivery, and are settled by
-- the server's answer. `parse_ms` is Go's `time.Parse` to milliseconds (`none` for an error or the
-- zero time), `encodable` tells whether `json.Marshal` accepts the extra fields.
use radar_node.Base.{
  ℕ, zero, suc, ◌+◌, String, Bool, true, false, not, ◌&&◌, ◌||◌, List, [], ◌∷◌, Option, none, some,
  ltb, leb, ◌==◌, if◌then◌else◌, str_eq, any, map, take, drop, length,
}
use radar_node.Wire.{Result, Latency, not_a_number, infinite, negative, scaled, Value}
use radar_node.Store.{
  Store, JournalRow, ResultColumns, Answer, returned, failed, result, pending, delivered, rejected,
  next_origin_seq, insert_journal,
}

pub record RecordSummary : Type 0 where
  pub inserted : ℕ
  pub duplicates : ℕ
  pub skipped : ℕ
  pub invalid_latency : ℕ
  pub invalid_extra : ℕ

abbrev pub empty_summary : RecordSummary
empty_summary = record {
  inserted = 0;
  duplicates = 0;
  skipped = 0;
  invalid_latency = 0;
  invalid_extra = 0;
}

-- The column's value, and whether the latency is valid.
unfoldable pub latency_micros : Option Latency → Option ℕ × Bool
latency_micros none = (none, true)
latency_micros (some not_a_number) = (none, false)
latency_micros (some infinite) = (none, false)
latency_micros (some negative) = (none, false)
latency_micros (some (scaled us)) =
    if leb 9_223_372_036_854_775_808 us then (none, false) else (some us, true)

abbrev pub nullable_string : String → Option String
nullable_string s = if str_eq s "" then none else some s

module _ (parse_ms : String → Option ℕ) (encodable : List (String × Value) → Bool) where
  abbrev pub observed_at_ms : String → ℕ → ℕ
  observed_at_ms raw fallback = elim (parse_ms raw) [ none ↦ fallback | some ms ↦ ms ]

  abbrev pub extra_json : List (String × Value) → List (String × Value) × Bool
  extra_json extra = if encodable extra then (extra, true) else ([], false)

  unfoldable pub columns_of : Result → ResultColumns
  unfolding latency_micros
  columns_of r = record {
    run_id = r.run_id;
    probe_id = r.probe_id;
    prober = r.prober;
    target = r.target;
    check_seq = if ltb r.seq 1 then 1 else r.seq;
    ok = r.ok;
    latency_us = (latency_micros r.latency_ms).0;
    error_code = nullable_string r.error_code;
    error = nullable_string r.error;
    extra = (extra_json r.extra).0;
  }

  -- The two counters of bad values.
  abbrev pub count_invalid : Result → RecordSummary → RecordSummary
  count_invalid r m = record m {
    invalid_latency =
        if (latency_micros r.latency_ms).1 then m.invalid_latency else m.invalid_latency + 1;
    invalid_extra = if (extra_json r.extra).1 then m.invalid_extra else m.invalid_extra + 1;
  }

  -- `INSERT … ON CONFLICT DO NOTHING` of one result.
  unfoldable pub insert_result : ℕ → ℕ → Result → Store × RecordSummary → Store × RecordSummary
  insert_result now origin_seq r (s, m) =
      elim (insert_journal origin_seq (observed_at_ms r.observed_at now) (result (columns_of r))
        s) [
          | none ↦ (s, record m { duplicates = m.duplicates + 1 })
          | some t ↦ (t, record m { inserted = m.inserted + 1 })
        ]

  unfoldable pub record_result : ℕ → ℕ → Result → Store × RecordSummary → Store × RecordSummary
  record_result now origin_seq r (s, m) =
      if str_eq r.run_id "" || str_eq r.probe_id ""
      then (s, record m { skipped = m.skipped + 1 })
      else insert_result now origin_seq r (s, count_invalid r m)

  unfoldable pub record_all : ℕ → ℕ → List Result → Store × RecordSummary → Store × RecordSummary
  record_all now origin_seq [] sm = sm
  record_all now origin_seq (r ∷ rs) sm =
      record_all now (suc origin_seq) rs (record_result now origin_seq r sm)

  -- The batch reserves a number for each result, the skipped ones included.
  unfoldable pub record_results : Bool → ℕ → List Result → Store → Store × Answer RecordSummary
  record_results works now [] s = (s, returned empty_summary)
  record_results works now (r ∷ rs) s =
      if not works then (s, failed) else elim (next_origin_seq (length (r ∷ rs)) s) [
        | none ↦ (s, failed)
        | some (start, t) ↦
            let (u, m) = record_all now start (r ∷ rs) (t, empty_summary) in (u, returned m)
      ]

pub record PendingResult : Type 0 where
  pub seq : ℕ
  pub columns : ResultColumns
  pub at_ms : ℕ

abbrev pub is_pending_result : String → JournalRow → Bool
is_pending_result origin row = elim row.body [
  | result _ ↦ str_eq row.origin origin && elim row.delivery_state [ pending ↦ true | _ ↦ false ]
  | _ ↦ false
]

unfoldable pub pending_rows : String → List JournalRow → List PendingResult
pending_rows origin [] = []
pending_rows origin (row ∷ rows) =
    let rest = pending_rows origin rows in
    elim row.body [
      | result columns ↦
          if is_pending_result origin row
          then record { seq = row.seq; columns = columns; at_ms = row.at_ms } ∷ rest
          else rest
      | _ ↦ rest
    ]

-- Oldest first, at most `limit`, which is 500 where it is not between 1 and 2000.
unfoldable pub pending_results : ℕ → Store → List PendingResult
unfolding pending_rows
pending_results limit s =
    take (if limit == 0 || ltb 2000 limit then 500 else limit) (pending_rows s.origin s.journal)

pub record Outcome : Type 0 where
  pub seq : ℕ
  pub accepted : Bool
  pub reason : String

-- `WHERE kind = 'result' AND delivery_state = 0`.
abbrev pub unsettled : JournalRow → Bool
unsettled row = elim row.body [
  | result _ ↦ elim row.delivery_state [ pending ↦ true | _ ↦ false ]
  | _ ↦ false
]

abbrev pub settle : ℕ → Outcome → JournalRow → JournalRow
settle now o row =
    if o.accepted
    then record row {
      delivery_state = delivered;
      delivered_at_ms = some now;
      delivery_reason = none;
    }
    else record row {
      delivery_state = rejected;
      delivered_at_ms = some now;
      delivery_reason = some o.reason;
    }

abbrev pub settle_where : ℕ → Outcome → JournalRow → JournalRow
settle_where now o row = if row.seq == o.seq && unsettled row then settle now o row else row

unfoldable pub mark_all : ℕ → List Outcome → List JournalRow → List JournalRow
mark_all now [] rows = rows
mark_all now (o ∷ os) rows =
    mark_all now os (if o.seq == 0 then rows else map (settle_where now o) rows)

unfoldable pub mark_outcomes : Bool → ℕ → List Outcome → Store → Store × Answer (Unit {0})
unfolding mark_all
mark_outcomes works now [] s = (s, returned tt)
mark_outcomes works now (o ∷ os) s =
    if not works
    then (s, failed)
    else (record s { journal = mark_all now (o ∷ os) s.journal }, returned tt)

abbrev pub attempt : List ℕ → JournalRow → JournalRow
attempt seqs row =
    if unsettled row && any (λ q. q == row.seq) seqs
    then record row { attempts = row.attempts + 1 }
    else row

-- Chunks of 500; the number of rows is fuel enough, since each round drops some.
unfoldable pub attempt_chunks : ℕ → List ℕ → List JournalRow → List JournalRow
attempt_chunks zero seqs rows = rows
attempt_chunks (suc fuel) seqs rows =
    attempt_chunks fuel (drop 500 seqs) (map (attempt (take 500 seqs)) rows)

unfoldable pub mark_attempts : List ℕ → Store → Store
unfolding attempt_chunks
mark_attempts seqs s = record s { journal = attempt_chunks (length seqs) seqs s.journal }
