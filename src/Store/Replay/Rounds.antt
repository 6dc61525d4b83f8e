-- ===== src/Store/Replay/Rounds.antt =====
-- The rounds of the loop of recordResults (internal/store/results.go): what one adds to the journal.
use radar_node.Base.{
  ℕ, suc, ◌+◌, ◌≡◌, refl, sym, ap, ◌∙◌, inl, inr, String, Bool, true, false, ◌&&◌, ◌||◌, List, [],
  ◌∷◌, ◌++◌, append-nil, append_assoc, Option, arith, str_eq, eq_refl, any-append, length,
  length-append, All, Bool-cases,
}
use radar_node.Wire.{Result, Value}
use radar_node.Store.{
  Store, JournalRow, Body, ResultColumns, same_result, same_body, result, new_row,
}
use radar_node.Store.Results.{
  RecordSummary, columns_of, count_invalid, insert_result, record_result, record_all,
}
use radar_node.Store.Sequences.{
  reaches, holds, reaches_mono, insert_journal_lem, with_row, reaches-with_row, holds-append,
}

same_result_refl : (c : ResultColumns) → same_result c c ≡ true
same_result_refl c = ground (arith, eq_refl c.run_id, eq_refl c.probe_id)

or_right : (a b : Bool) → b ≡ true → (a || b) ≡ true
or_right true b h = refl
or_right false b h = h

or_left_false : (a b : Bool) → a ≡ false → (a || b) ≡ true → b ≡ true
or_left_false true b e h = cc
or_left_false false b e h = h

abbrev is_skipped : Result → Bool
is_skipped r = str_eq r.run_id "" || str_eq r.probe_id ""

abbrev pub total : RecordSummary → ℕ
total m = m.inserted + m.duplicates + m.skipped

abbrev with_journal : List JournalRow → ℕ → Store → Store
with_journal rows rowid s = record s { journal = rows; next_rowid = rowid }

module _ (parse_ms : String → Option ℕ) (encodable : List (String × Value) → Bool) where
  abbrev pub body_of : Result → Body
  body_of r = result (columns_of parse_ms encodable r)

  -- Nothing more is to be recorded for this result.
  abbrev pub Settled : Store → Result → Type 0
  Settled s r = (is_skipped r || holds s.origin (body_of r) s.journal) ≡ true

  pub Settled-by :
      (t u : Store)
      → u.origin ≡ t.origin
      → u.journal ≡ t.journal
      → (rs : List Result) → All (Settled t) rs
      → All (Settled u) rs
  Settled-by t u o j [] h = tt
  Settled-by t u o j (r ∷ rs) h = (rw (o, j) h.0, Settled-by t u o j rs h.1)

  -- What one round of the loop does, from a free number on.
  pub record Recorded (q : ℕ) (rs : List Result) (s t : Store) (m n : RecordSummary) : Type 0 where
    pub added : List JournalRow
    pub grown : t.journal ≡ s.journal ++ added
    pub same_rest : t ≡ with_journal t.journal t.next_rowid s
    pub free : reaches t.origin q t.journal ≡ false
    pub counted : total n ≡ total m + length rs
    pub inserted : n.inserted ≡ m.inserted + length added
    pub settled : All (Settled t) rs

  holds_self :
      (q at_ms : ℕ) (r : Result) (s : Store)
      → holds s.origin (body_of r) (with_row q at_ms (body_of r) s).journal ≡ true
  unfolding new_row
  holds_self q at_ms r s = ground (
    arith,
    any-append (λ (x : JournalRow). str_eq x.origin s.origin && same_body x.body (body_of r))
        s.journal (new_row q at_ms (body_of r) s ∷ []),
    eq_refl s.origin,
    same_result_refl (columns_of parse_ms encodable r),
  )

  Settled-grown :
      (r : Result) (s t : Store) (added : List JournalRow)
      → t.journal ≡ s.journal ++ added
      → t.origin ≡ s.origin
      → Settled s r
      → Settled t r
  Settled-grown r s t added grown same h =
      ground (arith, holds-append s.origin (body_of r) s.journal added, same, grown)

  insert_result-Recorded :
      (now q : ℕ) (r : Result) (s : Store) (m : RecordSummary)
      → reaches s.origin q s.journal ≡ false
      → let (t, n) = insert_result parse_ms encodable now q r (s, m) in
        Recorded (suc q) (r ∷ []) s t m n
  unfolding insert_result
  insert_result-Recorded now q r s m free =
      elim (Bool-cases (holds s.origin (body_of r) s.journal)) [
        | inl known ↦
            rw (insert_journal_lem q _ (body_of r) s free, known, insert_result)
              (record {
                added = [];
                grown = sym (append-nil s.journal);
                same_rest = refl;
                free = reaches_mono s.origin q (suc q) s.journal (omega arith) free;
                counted = omega arith;
                inserted = omega arith;
                settled = (ground (arith, known), tt);
              })
        | inr fresh ↦
            rw (insert_journal_lem q _ (body_of r) s free, fresh, insert_result)
              (record {
                added = new_row q _ (body_of r) s ∷ [];
                grown = refl;
                same_rest = refl;
                free = reaches-with_row q _ (body_of r) s free;
                counted = omega arith;
                inserted = omega arith;
                settled = (or_right (is_skipped r) _ (holds_self q _ r s), tt);
              })
      ]

  record_result-Recorded :
      (now q : ℕ) (r : Result) (s : Store) (m : RecordSummary)
      → reaches s.origin q s.journal ≡ false
      → let (t, n) = record_result parse_ms encodable now q r (s, m) in
        Recorded (suc q) (r ∷ []) s t m n
  unfolding record_result
  record_result-Recorded now q r s m free = elim (Bool-cases (is_skipped r)) [
    | inl skip ↦
        rw (skip, record_result)
          (record {
            added = [];
            grown = sym (append-nil s.journal);
            same_rest = refl;
            free = reaches_mono s.origin q (suc q) s.journal (omega arith) free;
            counted = omega arith;
            inserted = omega arith;
            settled = (ground (arith, skip), tt);
          })
    | inr valid ↦
        let h = insert_result-Recorded now q r s (count_invalid parse_ms encodable r m) free in
        rw (valid, record_result)
          (record {
            added = h.added;
            grown = h.grown;
            same_rest = h.same_rest;
            free = h.free;
            counted = h.counted;
            inserted = h.inserted;
            settled = h.settled;
          })
  ]

  pub record_all-Recorded :
      (now q : ℕ) (rs : List Result) (s : Store) (m : RecordSummary)
      → reaches s.origin q s.journal ≡ false
      → let (t, n) = record_all parse_ms encodable now q rs (s, m) in
        Recorded (length rs + q) rs s t m n
  unfolding record_all
  record_all-Recorded now q [] s m free = record {
    added = [];
    grown = sym (append-nil s.journal);
    same_rest = refl;
    free = reaches_mono s.origin q (0 + q) s.journal (omega arith) free;
    counted = omega arith;
    inserted = omega arith;
    settled = tt;
  }
  record_all-Recorded now q (r ∷ rs) s m free =
      let sm = record_result parse_ms encodable now q r (s, m) in
      let one = record_result-Recorded now q r s m free in
      let rest = record_all-Recorded now (suc q) rs sm.0 sm.1 one.free in
      let um = record_all parse_ms encodable now (suc q) rs sm in
      record {
        added = one.added ++ rest.added;
        grown =
            rest.grown
            ∙ ap (λ rows. rows ++ rest.added) one.grown
            ∙ append_assoc s.journal one.added rest.added;
        same_rest = rest.same_rest ∙ ap (with_journal um.0.journal um.0.next_rowid) one.same_rest;
        free = reaches_mono um.0.origin (length rs + suc q) _ um.0.journal (omega arith) rest.free;
        counted = omega (arith, one.counted, rest.counted);
        inserted = omega (arith, one.inserted, rest.inserted, length-append one.added rest.added);
        settled = (
          Settled-grown r sm.0 um.0 rest.added rest.grown (ap (λ x. x.origin) rest.same_rest)
              one.settled.0,
          rest.settled,
        );
      }

  -- A second pass over settled results only counts.
  pub record_all-Settled :
      (now q : ℕ) (rs : List Result) (s : Store) (m : RecordSummary)
      → reaches s.origin q s.journal ≡ false
      → All (Settled s) rs
      → (n : RecordSummary) × (record_all parse_ms encodable now q rs (s, m) ≡ (s, n))
        × (n.inserted ≡ m.inserted)
        × (n.duplicates + n.skipped ≡ m.duplicates + m.skipped + length rs)
  unfolding record_all
  record_all-Settled now q [] s m free h = (m, refl, refl, omega arith)
  record_all-Settled now q (r ∷ rs) s m free h =
      let (n, e, i, d) = record_result-Settled in
      let (k, e', i', d') =
        record_all-Settled now (suc q) rs s n
          (reaches_mono s.origin q (suc q) s.journal (omega arith) free) h.1 in
      (k, ap (record_all parse_ms encodable now (suc q) rs) e ∙ e', i' ∙ i, omega (arith, d, d'))
    where
      record_result-Settled :
          (n : RecordSummary) × (record_result parse_ms encodable now q r (s, m) ≡ (s, n))
          × (n.inserted ≡ m.inserted)
          × (n.duplicates + n.skipped ≡ m.duplicates + m.skipped + 1)
      record_result-Settled =
          unfold record_result insert_result in
          elim (Bool-cases (is_skipped r)) [
            | inl skip ↦
                (record m { skipped = m.skipped + 1 }, rw (skip, record_result), refl, omega arith)
            | inr valid ↦
                let m' = count_invalid parse_ms encodable r m in
                (
                  record m' { duplicates = m'.duplicates + 1 },
                  rw (
                    valid,
                    insert_journal_lem q _ (body_of r) s free,
                    or_left_false (is_skipped r) _ valid h.0,
                    record_result,
                    insert_result,
                  ),
                  refl,
                  omega arith,
                )
          ]
