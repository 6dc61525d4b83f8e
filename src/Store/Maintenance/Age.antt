-- ===== src/Store/Maintenance/Age.antt =====
-- The loop over old rows of internal/store/maintenance.go ends, and deletes all of them.
use radar_node.Base.{
  ℕ, zero, suc, ◌-◌, ◌≤◌, ◌<◌, ◌≡◌, refl, ap, ◌∙◌, Bool, true, false, not, List, [], ◌∷◌, ltb,
  if◌then◌else◌, retain, length, length-retain-le, arith, Bool-cases, inl, inr,
}
use radar_node.Store.{JournalRow}
use radar_node.Store.Maintenance.{
  Progress, Statement, prune_chunk, too_old, delete_first, with_journal, then_run, prune_pass,
  prune_old, prune_completed_triggers, enforce_age, prune_round,
}
use radar_node.Store.Maintenance.Safety.Rows.{retain-delete_first}

abbrev spared : (JournalRow → Bool) → JournalRow → Bool
spared p row = not (p row)

length-delete_first-le :
    (p : JournalRow → Bool) (n : ℕ) (rows : List JournalRow)
    → length (delete_first p n rows) ≤ length rows
unfolding delete_first
length-delete_first-le p zero rows = omega arith
length-delete_first-le p (suc n) [] = omega arith
length-delete_first-le p (suc n) (row ∷ rows) =
    ground (arith, length-delete_first-le p n rows, length-delete_first-le p (suc n) rows)

-- A deletion that finds fewer rows than its limit has found them all.
delete_first-all :
    (p : JournalRow → Bool) (n : ℕ) (rows : List JournalRow)
    → length rows - length (delete_first p n rows) < n
    → delete_first p n rows ≡ retain (spared p) rows
unfolding delete_first
delete_first-all p zero rows h = let absurd : ⊥ = omega (arith, h) in elim absurd [ ]
delete_first-all p (suc n) [] h = refl
delete_first-all p (suc n) (row ∷ rows) h = ground (
  arith,
  h,
  delete_first-all p n rows,
  delete_first-all p (suc n) rows,
  length-delete_first-le p n rows,
)

with_journal-with_journal :
    (left rows : List JournalRow) (p : Progress)
    → length left ≤ length rows
    → length rows ≤ length p.db.store.journal
    → with_journal left (with_journal rows p) ≡ with_journal left p
with_journal-with_journal left rows p h k =
    ap (λ n. record (with_journal left p) { stats = record p.stats { deleted_rows = n } })
      (omega (arith, h, k))

abbrev NoneFails : (Statement → Bool) → Type 0
NoneFails fails = (round : ℕ) → fails (prune_round round) ≡ false

prune_old-retain :
    (fails : Statement → Bool) (old : JournalRow → Bool) (fuel round : ℕ) (p : Progress)
    → NoneFails fails
    → length p.db.store.journal < fuel
    → prune_old fails old fuel round p
      ≡ with_journal (retain (λ r. not (old r)) p.db.store.journal) p
unfolding prune_old prune_pass
prune_old-retain fails old zero round p works enough =
    let absurd : ⊥ = omega (arith, enough) in elim absurd [ ]
prune_old-retain fails old (suc fuel) round p works enough =
    let rows = p.db.store.journal in
    let left = delete_first old prune_chunk rows in
    let final = λ (rs : List JournalRow). with_journal rs p in
    rw (works round, prune_pass)
      (elim (Bool-cases (ltb (length rows - length left) prune_chunk)) [
        | inl last ↦
            rw last (ap final (delete_first-all old prune_chunk rows (ground (arith, last))))
        | inr full ↦ rw full (
            prune_old-retain fails old fuel (suc round) (with_journal left p) works
              (ground (arith, full, enough))
            ∙ with_journal-with_journal (retain (spared old) left) left p
                (length-retain-le (spared old) left) (length-delete_first-le old prune_chunk rows)
            ∙ ap final (
                retain-delete_first (spared old) old prune_chunk rows (λ row h. ground (arith, h))))
      ])

-- In a run that has not failed, where no statement of the loop fails, the loop over old rows ends: it
-- deletes every prunable row that is older than the retention, in however many chunks, and counts
-- each once; the deletion of completed triggers follows.
pub enforce_age-retain :
    (fails : Statement → Bool) (cutoff : ℕ) (p : Progress)
    → NoneFails fails
    → p.going ≡ true
    → enforce_age fails cutoff p
      ≡ prune_completed_triggers fails cutoff
          (with_journal (retain (λ r. not (too_old p.db.store cutoff r)) p.db.store.journal) p)
unfolding enforce_age
enforce_age-retain fails cutoff p works going =
    let s = p.db.store in
    let left = with_journal (retain (λ r. not (too_old s cutoff r)) s.journal) p in
    ap (λ q. then_run q (prune_completed_triggers fails cutoff))
      (prune_old-retain fails (too_old s cutoff) (suc (length s.journal)) 0 p works (omega arith))
    ∙ ap (λ b. if b then prune_completed_triggers fails cutoff left else left) going
