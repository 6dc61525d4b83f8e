-- ===== src/Store/Settlement.antt =====
-- What MarkOutcomes of internal/store/results.go does to the queue of undelivered results.
use radar_node.Base.{
  ℕ, ◌≡◌, refl, sym, ap, ◌∙◌, Bool, true, false, not, ◌&&◌, ◌||◌, String, List, [], ◌∷◌, map,
  retain, retain-retain, retain-same, retain-everything, ◌==◌, if◌then◌else◌, arith, Bool-cases,
  inl, inr,
}
use radar_node.Store.{Store, JournalRow}
use radar_node.Store.Results.{
  PendingResult, Outcome, pending_rows, unsettled, settle, settle_where, mark_all, mark_outcomes,
}

-- Whether an outcome is about a pending result.
abbrev pub names : List Outcome → ℕ → Bool
names [] seq = false
names (o ∷ os) seq = not (o.seq == 0) && seq == o.seq || names os seq

abbrev pub unnamed : List Outcome → PendingResult → Bool
unnamed os p = not (names os p.seq)

pending_rows-settle_where :
    (origin : String) (now : ℕ) (o : Outcome) (rows : List JournalRow)
    → pending_rows origin (map (settle_where now o) rows)
      ≡ retain (λ p. not (p.seq == o.seq)) (pending_rows origin rows)
unfolding pending_rows
pending_rows-settle_where origin now o [] = refl
pending_rows-settle_where origin now o (row ∷ rows) =
    ground (arith, pending_rows-settle_where origin now o rows)

pending_rows-mark_all :
    (origin : String) (now : ℕ) (os : List Outcome) (rows : List JournalRow)
    → pending_rows origin (mark_all now os rows) ≡ retain (unnamed os) (pending_rows origin rows)
unfolding mark_all
pending_rows-mark_all origin now [] rows =
    sym (retain-everything (unnamed []) (pending_rows origin rows) (λ x. refl))
pending_rows-mark_all origin now (o ∷ os) rows = elim (Bool-cases (o.seq == 0)) [
  | inl skipped ↦
      rw (skipped, mark_all)
        (pending_rows-mark_all origin now os rows
          ∙ retain-same (unnamed os) (unnamed (o ∷ os)) (pending_rows origin rows)
              (λ x. ground (arith, skipped)))
  | inr named ↦
      rw (named, mark_all)
        (pending_rows-mark_all origin now os (map (settle_where now o) rows)
          ∙ ap (retain (unnamed os)) (pending_rows-settle_where origin now o rows)
          ∙ retain-retain (unnamed os) (λ p. not (p.seq == o.seq)) (pending_rows origin rows)
          ∙ retain-same (λ p. not (p.seq == o.seq) && unnamed os p) (unnamed (o ∷ os))
              (pending_rows origin rows) (λ x. ground (arith, named)))
]

-- MarkOutcomes takes exactly the results that its outcomes name, with a number other than 0, out of
-- the queue of undelivered results, keeps the others in their order, and changes no table but the
-- journal; when its transaction fails, all tables stay as they were.
pub mark_outcomes-pending_rows :
    (works : Bool) (now : ℕ) (os : List Outcome) (s : Store)
    → let t = (mark_outcomes works now os s).0 in
      (pending_rows t.origin t.journal ≡ (
        if works
        then retain (unnamed os) (pending_rows s.origin s.journal)
        else pending_rows s.origin s.journal))
      × (t ≡ (if works then record s { journal = t.journal } else s))
unfolding mark_outcomes
mark_outcomes-pending_rows true now [] s = (pending_rows-mark_all s.origin now [] s.journal, refl)
mark_outcomes-pending_rows true now (o ∷ os) s =
    (pending_rows-mark_all s.origin now (o ∷ os) s.journal, refl)
mark_outcomes-pending_rows false now [] s = (refl, refl)
mark_outcomes-pending_rows false now (o ∷ os) s = (refl, refl)

-- What becomes of a row: the first outcome that names it decides, if it was not settled before.
abbrev pub settle_first : ℕ → List Outcome → JournalRow → JournalRow
settle_first now [] row = row
settle_first now (o ∷ os) row =
    if not (o.seq == 0) && row.seq == o.seq && unsettled row
    then settle now o row
    else settle_first now os row

settle_first-settled :
    (now : ℕ) (os : List Outcome) (row : JournalRow)
    → unsettled row ≡ false
    → settle_first now os row ≡ row
settle_first-settled now [] row h = refl
settle_first-settled now (o ∷ os) row h = ground (arith, h, settle_first-settled now os row h)

if_true : {A : Type 0} (b : Bool) (x y : A) → b ≡ true → (if b then x else y) ≡ x
if_true b x y h = rw h refl

if_false : {A : Type 0} (b : Bool) (x y : A) → b ≡ false → (if b then x else y) ≡ y
if_false b x y h = rw h refl

unsettled-settle :
    (now : ℕ) (o : Outcome) (row : JournalRow)
    → unsettled row ≡ true
    → unsettled (settle now o row) ≡ false
unsettled-settle now o row h = ground (arith, h)

settle_first-settle_where :
    (now : ℕ) (o : Outcome) (os : List Outcome) (row : JournalRow)
    → (o.seq == 0) ≡ false
    → settle_first now os (settle_where now o row) ≡ settle_first now (o ∷ os) row
settle_first-settle_where now o os row named =
    elim (Bool-cases (row.seq == o.seq && unsettled row)) [
      | inl hit ↦
          ap (settle_first now os) (if_true (row.seq == o.seq && unsettled row) _ row hit)
          ∙ settle_first-settled now os (settle now o row)
              (unsettled-settle now o row (ground (arith, hit)))
          ∙ sym (
              if_true (not (o.seq == 0) && row.seq == o.seq && unsettled row) _ _
                (ground (arith, named, hit)))
      | inr miss ↦
          ap (settle_first now os) (if_false (row.seq == o.seq && unsettled row) _ row miss)
          ∙ sym (
              if_false (not (o.seq == 0) && row.seq == o.seq && unsettled row) _ _
                (ground (arith, named, miss)))
    ]

settle_first-skipped :
    (now : ℕ) (o : Outcome) (os : List Outcome) (row : JournalRow)
    → (o.seq == 0) ≡ true
    → settle_first now (o ∷ os) row ≡ settle_first now os row
settle_first-skipped now o os row skipped =
    if_false (not (o.seq == 0) && row.seq == o.seq && unsettled row) _ _ (ground (arith, skipped))

map_id : (rows : List JournalRow) → map (λ row. row) rows ≡ rows
map_id [] = refl
map_id (row ∷ rows) = ap (◌∷◌ row) (map_id rows)

map_same :
    {f g : JournalRow → JournalRow} (rows : List JournalRow)
    → ((row : JournalRow) → f row ≡ g row)
    → map f rows ≡ map g rows
map_same [] same = refl
map_same (row ∷ rows) same = rw (same row, map_same rows same) refl

map_where :
    (now : ℕ) (o : Outcome) (os : List Outcome) (rows : List JournalRow)
    → (o.seq == 0) ≡ false
    → map (settle_first now os) (map (settle_where now o) rows)
      ≡ map (settle_first now (o ∷ os)) rows
map_where now o os [] named = refl
map_where now o os (row ∷ rows) named =
    rw (settle_first-settle_where now o os row named)
      (ap (◌∷◌ (settle_first now (o ∷ os) row)) (map_where now o os rows named))

mark_all-settle_first :
    (now : ℕ) (os : List Outcome) (rows : List JournalRow)
    → mark_all now os rows ≡ map (settle_first now os) rows
unfolding mark_all
mark_all-settle_first now [] rows = sym (map_id rows)
mark_all-settle_first now (o ∷ os) rows = elim (Bool-cases (o.seq == 0)) [
  | inl skipped ↦
      rw (skipped, mark_all)
        (mark_all-settle_first now os rows
          ∙ map_same rows (λ row. sym (settle_first-skipped now o os row skipped)))
  | inr named ↦
      rw (named, mark_all)
        (mark_all-settle_first now os (map (settle_where now o) rows)
          ∙ map_where now o os rows named)
]

-- In a batch of outcomes the first that names a pending result decides what becomes of it, and a row
-- that was settled before, or is no result, is left as it was.
pub mark_outcomes-settle_first :
    (now : ℕ) (os : List Outcome) (s : Store)
    → ((mark_outcomes true now os s).0.journal ≡ map (settle_first now os) s.journal)
      × ((row : JournalRow) → unsettled row ≡ false → settle_first now os row ≡ row)
unfolding mark_outcomes
mark_outcomes-settle_first now [] s =
    (mark_all-settle_first now [] s.journal, settle_first-settled now [])
mark_outcomes-settle_first now (o ∷ os) s =
    (mark_all-settle_first now (o ∷ os) s.journal, settle_first-settled now (o ∷ os))
