-- ===== src/Store/Maintenance/Safety/Rows.antt =====
-- What a deletion of rows leaves of the tables that internal/store/maintenance.go prunes.
use radar_node.Base.{
  ℕ, zero, suc, ◌≡◌, refl, sym, ap, ◌∙◌, Bool, true, false, not, ◌&&◌, List, [], ◌∷◌, ltb, str_eq,
  if◌then◌else◌, any, retain, arith, Bool-cases, inl, inr,
}
use radar_node.Store.{Store, JournalRow, result, trigger, trigger_done, assignment, pending}
use radar_node.Store.Maintenance.{prunable, is_event_of, outdated, is_assignment, delete_first}

-- The rows that the server or a restart still needs: results that are not settled, the event rows of
-- pending triggers, and the newest assignment of each origin.
abbrev pub needed : Store → JournalRow → Bool
needed s row = elim row.body [
  | result _ ↦ elim row.delivery_state [ pending ↦ true | _ ↦ false ]
  | trigger _ ↦ is_event_of s.pending_triggers row.seq
  | trigger_done _ _ ↦ is_event_of s.pending_triggers row.seq
  | assignment _ _ ↦ not (outdated s.journal row)
]

pub retain-delete_first :
    (k p : JournalRow → Bool) (n : ℕ) (rows : List JournalRow)
    → ((row : JournalRow) → p row ≡ true → k row ≡ false)
    → retain k (delete_first p n rows) ≡ retain k rows
unfolding delete_first
retain-delete_first k p zero rows h = refl
retain-delete_first k p (suc n) [] h = refl
retain-delete_first k p (suc n) (row ∷ rows) h = elim (Bool-cases (p row)) [
  | inl gone ↦ rw (gone, delete_first) (rw (h row gone) (retain-delete_first k p n rows h))
  | inr left ↦
      rw (left, delete_first)
        (ap (λ l. if k row then row ∷ l else l) (retain-delete_first k p (suc n) rows h))
]

any-delete_first :
    (q p : JournalRow → Bool) (n : ℕ) (rows : List JournalRow)
    → any q (delete_first p n rows) ≡ true
    → any q rows ≡ true
unfolding delete_first
any-delete_first q p zero rows h = h
any-delete_first q p (suc n) [] h = h
any-delete_first q p (suc n) (row ∷ rows) h =
    ground (arith, h, any-delete_first q p n rows, any-delete_first q p (suc n) rows)

pub retain-without :
    (k p : JournalRow → Bool) (rows : List JournalRow)
    → ((row : JournalRow) → p row ≡ true → k row ≡ false)
    → retain k (retain (λ r. not (p r)) rows) ≡ retain k rows
retain-without k p [] h = refl
retain-without k p (row ∷ rows) h = ground (arith, h row, retain-without k p rows h)

pub any-without :
    (q p : JournalRow → Bool) (rows : List JournalRow)
    → any q (retain p rows) ≡ true
    → any q rows ≡ true
any-without q p [] h = h
any-without q p (row ∷ rows) h = ground (arith, h, any-without q p rows)

-- The tables after some phases, beside the tables before.
pub record IsKept (s t : Store) : Type 0 where
  pub frame : t ≡ record s { journal = t.journal; completed_triggers = t.completed_triggers }
  pub rows : retain (needed s) t.journal ≡ retain (needed s) s.journal
  pub none_new : (q : JournalRow → Bool) → any q t.journal ≡ true → any q s.journal ≡ true

prunable-needed :
    (s : Store) (row : JournalRow) → prunable s.pending_triggers row ≡ true → needed s row ≡ false
prunable-needed s row h = ground (arith, h)

pub IsKept-refl : (s : Store) → IsKept s s
IsKept-refl s = record { frame = refl; rows = refl; none_new = λ q h. h }

pub IsKept-journal :
    (s t : Store) (rows : List JournalRow)
    → IsKept s t
    → retain (needed s) rows ≡ retain (needed s) t.journal
    → ((q : JournalRow → Bool) → any q rows ≡ true → any q t.journal ≡ true)
    → IsKept s (record t { journal = rows })
IsKept-journal s t rows kept same fewer = record {
  frame = ap (λ (x : Store). record x { journal = rows }) kept.frame;
  rows = same ∙ kept.rows;
  none_new = λ q h. kept.none_new q (fewer q h);
}

pub prunable_now :
    (s t : Store) (row : JournalRow)
    → IsKept s t
    → prunable t.pending_triggers row ≡ true
    → needed s row ≡ false
prunable_now s t row kept h =
    prunable-needed s row (sym (ap (λ x. prunable x.pending_triggers row) kept.frame) ∙ h)

pub outdated_now :
    (s t : Store) (row : JournalRow)
    → IsKept s t
    → outdated t.journal row ≡ true
    → needed s row ≡ false
outdated_now s t row kept h = ground (
  arith,
  h,
  kept.none_new (λ r. is_assignment r && str_eq r.origin row.origin && ltb row.seq r.seq),
)

-- A deletion of rows that a test finds, where the test finds no needed row.
pub IsKept-delete_first :
    (s t : Store) (p : JournalRow → Bool) (n : ℕ)
    → IsKept s t
    → ((row : JournalRow) → p row ≡ true → needed s row ≡ false)
    → IsKept s (record t { journal = delete_first p n t.journal })
IsKept-delete_first s t p n kept spared =
    IsKept-journal s t (delete_first p n t.journal) kept
      (retain-delete_first (needed s) p n t.journal spared) (λ q. any-delete_first q p n t.journal)
