-- ===== src/Store/Rollups/Once.antt =====
-- Every result is rolled up once by internal/store/rollups.go.
use radar_node.Base.{
  ℕ, zero, suc, ◌+◌, ◌≤◌, ◌<◌, ◌≡◌, refl, sym, ap, ◌∙◌, true, false, ◌&&◌, Option, some, List, [],
  ◌∷◌, ◌++◌, ltb, ◌==◌, if◌then◌else◌, retain, retain-same, retain-retain, length-retain-le, take,
  drop, take-append-drop, length, length-append, All, arith, Bool-cases, inl, inr,
}
use radar_node.Store.{JournalRow}
use radar_node.Store.Rollups.{
  RollupKey, RollupRow, History, rollup_chunk, read_rollup_chunk, last_seq, aggregate, upsert_all,
  write_rollups, roll_chunk, rollup_from, rollup_rows, rollup_results,
}
use radar_node.Store.Rollups.Sums.{value, add_rows, add_rows-append}
use radar_node.Store.Rollups.Tables.{value-chunk}

abbrev pub above : ℕ → List RollupRow → List RollupRow
above after rows = retain (λ r. ltb after r.seq) rows

-- The rows as `ORDER BY seq` gives them: no number twice.
abbrev pub Ascending : List RollupRow → Type 0
Ascending [] = Unit {0}
Ascending (r ∷ rs) = All (λ s. ltb r.seq s.seq ≡ true) rs × Ascending rs

last_seq-le : (after : ℕ) (rs : List RollupRow) → after ≤ last_seq after rs
last_seq-le after [] = omega arith
last_seq-le after (r ∷ rs) =
    ground (arith, last_seq-le (if ltb after r.seq then r.seq else after) rs)

above-All :
    (after : ℕ) (rs : List RollupRow) → All (λ s. ltb after s.seq ≡ true) rs → above after rs ≡ rs
above-All after [] h = refl
above-All after (r ∷ rs) (h, hs) = rw (h, above-All after rs hs) refl

All-above :
    (m after : ℕ) (rs : List RollupRow)
    → All (λ s. ltb m s.seq ≡ true) rs
    → All (λ s. ltb m s.seq ≡ true) (above after rs)
All-above m after [] h = tt
All-above m after (r ∷ rs) (h, hs) = elim (Bool-cases (ltb after r.seq)) [
  | inl new ↦ rw new (h, All-above m after rs hs)
  | inr old ↦ rw old (All-above m after rs hs)
]

Ascending-above : (after : ℕ) (rs : List RollupRow) → Ascending rs → Ascending (above after rs)
Ascending-above after [] h = tt
Ascending-above after (r ∷ rs) (h, hs) = elim (Bool-cases (ltb after r.seq)) [
  | inl new ↦ rw new (All-above r.seq after rs h, Ascending-above after rs hs)
  | inr old ↦ rw old (Ascending-above after rs hs)
]

above_are_above :
    (after : ℕ) (rs : List RollupRow) → All (λ s. ltb after s.seq ≡ true) (above after rs)
above_are_above after [] = tt
above_are_above after (r ∷ rs) = elim (Bool-cases (ltb after r.seq)) [
  | inl new ↦ rw new (new, above_are_above after rs)
  | inr old ↦ rw old (above_are_above after rs)
]

above-take :
    (n after : ℕ) (rs : List RollupRow)
    → Ascending rs
    → All (λ s. ltb after s.seq ≡ true) rs
    → above (last_seq after (take n rs)) rs ≡ drop n rs
above-take zero after rs asc h = above-All after rs h
above-take (suc n) after [] asc h = refl
above-take (suc n) after (r ∷ rs) (hr, asc) (h, hs) =
    ap (λ b. above (last_seq (if b then r.seq else after) (take n rs)) (r ∷ rs)) h
    ∙ rw passed (above-take n r.seq rs asc hr)
  where
    passed : ltb (last_seq r.seq (take n rs)) r.seq ≡ false
    passed = ground (arith, last_seq-le r.seq (take n rs))

-- The rows above the cursor after a chunk are those that the chunk left.
above-last_seq :
    (n after : ℕ) (rs : List RollupRow)
    → Ascending rs
    → above (last_seq after (take n (above after rs))) rs ≡ drop n (above after rs)
above-last_seq n after rs asc =
    let chunk = take n (above after rs) in
    sym (
      retain-retain (λ r. ltb (last_seq after chunk) r.seq) (λ r. ltb after r.seq) rs
      ∙ retain-same (λ r. ltb after r.seq && ltb (last_seq after chunk) r.seq)
          (λ r. ltb (last_seq after chunk) r.seq) rs (λ r. ground (arith, last_seq-le after chunk)))
    ∙ above-take n after (above after rs) (Ascending-above after rs asc) (above_are_above after rs)

take_none : (n : ℕ) (rs : List RollupRow) → take (suc n) rs ≡ [] → rs ≡ []
take_none n [] h = refl
take_none n (r ∷ rs) h = cc

-- What a run of the loop has done: every row above the cursor was added once, and none is left.
pub record RolledUp (rows : List RollupRow) (total : ℕ) (before after : History) (n : Option ℕ)
    : Type 0 where
  pub counted : n ≡ some (total + length (above before.rollup_seq rows))
  pub added :
      (k : RollupKey)
      → value k after.rollups ≡ add_rows k (above before.rollup_seq rows) (value k before.rollups)
  pub none_left : above after.rollup_seq rows ≡ []

same_number : (n : ℕ) → (n == n) ≡ true
same_number n = ground arith

RolledUp-chunk :
    (rows rest : List RollupRow) (total : ℕ) (chunk : List RollupRow) (h h' h'' : History)
    (n : Option ℕ)
    → above h.rollup_seq rows ≡ chunk ++ rest
    → above h'.rollup_seq rows ≡ rest
    → ((k : RollupKey) → value k h'.rollups ≡ add_rows k chunk (value k h.rollups))
    → RolledUp rows (total + length chunk) h' h'' n
    → RolledUp rows total h h'' n
RolledUp-chunk rows rest total chunk h h' h'' n split left chunk_added r = record {
  counted =
      r.counted
      ∙ ap some (omega (arith, ap length split, length-append chunk rest, ap length left));
  added = λ k.
      r.added k
      ∙ ap (λ x. add_rows k (above h'.rollup_seq rows) x) (chunk_added k)
      ∙ ap (λ rs. add_rows k rs (add_rows k chunk (value k h.rollups))) left
      ∙ sym (add_rows-append k chunk rest (value k h.rollups))
      ∙ ap (λ rs. add_rows k rs (value k h.rollups)) (sym split);
  none_left = r.none_left;
}

-- What a number of rounds is proved to do, for any history whose rows above the cursor are fewer.
abbrev Rounds : ℕ → List RollupRow → Type 0
Rounds fuel rows =
    (total : ℕ) (h : History)
    → length (above h.rollup_seq rows) < fuel
    → let (h', n) = rollup_from fuel rows h.rollup_seq total h in RolledUp rows total h h' n

roll_chunk-RolledUp :
    (fuel total : ℕ) (rows : List RollupRow) (h : History)
    → Ascending rows
    → Rounds fuel rows
    → length (above h.rollup_seq rows) < suc fuel
    → (chunk : List RollupRow) → take rollup_chunk (above h.rollup_seq rows) ≡ chunk
    → let (h', n) = roll_chunk (rollup_from fuel rows) h.rollup_seq total h chunk in
      RolledUp rows total h h' n
unfolding roll_chunk write_rollups
roll_chunk-RolledUp fuel total rows h asc rounds enough [] e =
    let nothing = take_none 1999 (above h.rollup_seq rows) e in
    record {
      counted = ap some (omega (arith, ap length nothing));
      added = λ k. ap (λ rs. add_rows k rs (value k h.rollups)) (sym nothing);
      none_left = nothing;
    }
roll_chunk-RolledUp fuel total rows h asc rounds enough (r ∷ rs) e =
    let chunk = r ∷ rs in
    let next = last_seq h.rollup_seq chunk in
    let h' : History = record {
      rollup_seq = next;
      rollups = upsert_all (aggregate chunk []) h.rollups;
    } in
    let rest = drop rollup_chunk (above h.rollup_seq rows) in
    let split =
      sym (take-append-drop rollup_chunk (above h.rollup_seq rows)) ∙ ap (λ c. c ++ rest) e in
    let left =
      ap (λ c. above (last_seq h.rollup_seq c) rows) (sym e)
      ∙ above-last_seq rollup_chunk h.rollup_seq rows asc in
    rw (same_number h.rollup_seq, roll_chunk)
      (RolledUp-chunk rows rest total chunk h h' _ _ split left (λ k. value-chunk k chunk h.rollups)
        (rounds (total + length chunk) h'
          (omega (arith, enough, ap length split, length-append chunk rest, ap length left))))

rollup_from-RolledUp : (fuel : ℕ) (rows : List RollupRow) → Ascending rows → Rounds fuel rows
unfolding rollup_from read_rollup_chunk
rollup_from-RolledUp zero rows asc total h enough =
    let absurd : ⊥ = omega (arith, enough) in elim absurd [ ]
rollup_from-RolledUp (suc fuel) rows asc total h enough =
    roll_chunk-RolledUp fuel total rows h asc (rollup_from-RolledUp fuel rows asc) enough
      (read_rollup_chunk h.rollup_seq rows) refl

-- A run of the rollup over a journal with ascending numbers ends: it counts every result above the
-- cursor, the totals of every origin, probe and hour grow by exactly those results, and no result is
-- left above the cursor.
pub rollup_results-RolledUp :
    (journal : List JournalRow) (h : History)
    → Ascending (rollup_rows journal)
    → let (h', n) = rollup_results journal h in RolledUp (rollup_rows journal) 0 h h' n
unfolding rollup_results
rollup_results-RolledUp journal h asc =
    let rows = rollup_rows journal in
    rollup_from-RolledUp (suc (length rows)) rows asc 0 h
      (omega (arith, length-retain-le (λ r. ltb h.rollup_seq r.seq) rows))
