-- ===== src/Store/Maintenance/Safety.antt =====
-- What Maintain of internal/store/maintenance.go never deletes.
pub mod Rows
use radar_node.Base.{
  ℕ, zero, suc, ◌≡◌, refl, sym, ap, ◌∙◌, Bool, true, false, not, ◌&&◌, Option, none, some, List, [],
  ◌∷◌, ltb, leb, ◌==◌, str_eq, if◌then◌else◌, any, retain, length, arith, Bool-cases, if_both, inl,
  inr,
}
use radar_node.Store.{Store, JournalRow, result, trigger, trigger_done, assignment, pending}
use radar_node.Store.Results.{pending_rows}
use radar_node.Store.Maintenance.{
  Database, MaintainOptions, Progress, Statement, prune_chunk, prunable, is_event_of, outdated,
  is_assignment, too_old, delete_first, with_journal, then_run, prune_pass, prune_old,
  prune_completed_triggers, enforce_age, collapse_assignments, prune_rollups, size_pass,
  size_passes, enforce_size, finish, roll_up, maintain_age, maintain, prune_round, size_round,
  collapse, prune_completed, reclaim,
}
use radar_node.Store.Maintenance.Safety.Rows.{
  needed, retain-without, any-without, IsKept, IsKept-refl, IsKept-journal, prunable_now,
  outdated_now, IsKept-delete_first,
}

abbrev Keeps : Store → Progress → Type 0
Keeps s p = IsKept s p.db.store

-- The passes over old rows, for a test that finds no needed row.
prune_old-IsKept :
    (fails : Statement → Bool) (old : JournalRow → Bool) (s : Store) (fuel round : ℕ) (p : Progress)
    → ((row : JournalRow) → old row ≡ true → needed s row ≡ false)
    → IsKept s p.db.store
    → IsKept s (prune_old fails old fuel round p).db.store
unfolding prune_old prune_pass
prune_old-IsKept fails old s zero round p spared kept = kept
prune_old-IsKept fails old s (suc fuel) round p spared kept =
    let left = delete_first old prune_chunk p.db.store.journal in
    let pruned = IsKept-delete_first s p.db.store old prune_chunk kept spared in
    if_both (Keeps s) (fails (prune_round round)) kept (
      if_both (Keeps s) _ pruned
        (prune_old-IsKept fails old s fuel (suc round) (with_journal left p) spared pruned))

prune_completed_triggers-IsKept :
    (fails : Statement → Bool) (cutoff : ℕ) (s : Store) (p : Progress)
    → IsKept s p.db.store
    → IsKept s (prune_completed_triggers fails cutoff p).db.store
unfolding prune_completed_triggers
prune_completed_triggers-IsKept fails cutoff s p kept =
    let left = retain (λ c. not (ltb c.completed_at_ms cutoff)) p.db.store.completed_triggers in
    if_both (Keeps s) (fails prune_completed) kept (record {
      frame = ap (λ (x : Store). record x { completed_triggers = left }) kept.frame;
      rows = kept.rows;
      none_new = kept.none_new;
    })

then_run-IsKept :
    (s : Store) (p : Progress) (phase : Progress → Progress)
    → IsKept s p.db.store
    → IsKept s (phase p).db.store
    → IsKept s (then_run p phase).db.store
then_run-IsKept s p phase kept next = if_both (Keeps s) p.going next kept

maintain_age-IsKept :
    (fails : Statement → Bool) (cutoff : Option ℕ) (s : Store) (p : Progress)
    → IsKept s p.db.store
    → IsKept s (maintain_age fails cutoff p).db.store
unfolding maintain_age enforce_age
maintain_age-IsKept fails none s p kept = kept
maintain_age-IsKept fails (some cutoff) s p kept =
    let t = p.db.store in
    let pruned = prune_old fails (too_old t cutoff) (suc (length t.journal)) 0 p in
    let pruned_kept =
      prune_old-IsKept fails (too_old t cutoff) s (suc (length t.journal)) 0 p
        (λ row h. prunable_now s t row kept (ground (arith, h))) kept in
    then_run-IsKept s pruned (prune_completed_triggers fails cutoff) pruned_kept
      (prune_completed_triggers-IsKept fails cutoff s pruned pruned_kept)

collapse_assignments-IsKept :
    (fails : Statement → Bool) (s : Store) (p : Progress)
    → IsKept s p.db.store
    → IsKept s (collapse_assignments fails p).db.store
unfolding collapse_assignments
collapse_assignments-IsKept fails s p kept =
    let t = p.db.store in
    if_both (Keeps s) (fails collapse) kept (
      IsKept-journal s t (retain (λ r. not (outdated t.journal r)) t.journal) kept
        (retain-without (needed s) (outdated t.journal) t.journal
          (λ row h. outdated_now s t row kept h))
        (λ q. any-without q (λ r. not (outdated t.journal r)) t.journal))

size_passes-IsKept :
    (fails : Statement → Bool) (live : ℕ → ℕ) (max_bytes : ℕ) (s : Store) (n round : ℕ)
    (p : Progress)
    → IsKept s p.db.store
    → IsKept s (size_passes fails live max_bytes n round p).db.store
unfolding size_passes size_pass prune_rollups
size_passes-IsKept fails live max_bytes s zero round p kept = kept
size_passes-IsKept fails live max_bytes s (suc n) round p kept =
    let t = p.db.store in
    let left = delete_first (prunable t.pending_triggers) prune_chunk t.journal in
    let pruned =
      IsKept-delete_first s t (prunable t.pending_triggers) prune_chunk kept
        (λ row. prunable_now s t row kept) in
    let after_rows =
      size_passes-IsKept fails live max_bytes s n (suc round) (with_journal left p) pruned in
    let after_rollups =
      size_passes-IsKept fails live max_bytes s n (suc round) (prune_rollups p).0 kept in
    if_both (Keeps s) (fails (size_round round)) kept (
      if_both (Keeps s) (leb (live round) max_bytes) kept
        (if_both (Keeps s) _ after_rows (if_both (Keeps s) _ kept after_rollups)))

enforce_size-IsKept :
    (fails : Statement → Bool) (live : ℕ → ℕ) (max_bytes : ℕ) (s : Store) (p : Progress)
    → IsKept s p.db.store
    → IsKept s (enforce_size fails live max_bytes p).db.store
unfolding enforce_size
enforce_size-IsKept fails live max_bytes s p kept =
    if_both (Keeps s) (max_bytes == 0) kept (size_passes-IsKept fails live max_bytes s 100 0 p kept)

finish-IsKept :
    (fails : Statement → Bool) (free : ℕ → ℕ) (max_bytes last_live : ℕ) (s : Store) (p : Progress)
    → IsKept s p.db.store
    → IsKept s (finish fails free max_bytes last_live p).db.store
unfolding finish
finish-IsKept fails free max_bytes last_live s p kept = if_both (Keeps s) (fails reclaim) kept kept

pending_rows-retain :
    (s : Store) (rows : List JournalRow)
    → pending_rows s.origin (retain (needed s) rows) ≡ pending_rows s.origin rows
unfolding pending_rows
pending_rows-retain s [] = refl
pending_rows-retain s (row ∷ rows) = ground (arith, pending_rows-retain s rows)

-- Whatever statement fails, whatever the sizes read and the options say, Maintain leaves the tables
-- as they were but for the journal and the completed triggers; the journal keeps, in their order,
-- all results that are not settled, all event rows of pending triggers and the newest assignment of
-- each origin; so the queue of undelivered results is the same as before.
pub maintain-IsKept :
    (failing : Option ℕ) (fails : Statement → Bool) (live free : ℕ → ℕ) (last_live : ℕ)
    (opts : MaintainOptions) (db : Database)
    → let t = (maintain failing fails live free last_live opts db).db.store in
      IsKept db.store t
      × (pending_rows t.origin t.journal ≡ pending_rows db.store.origin db.store.journal)
unfolding maintain roll_up
maintain-IsKept failing fails live free last_live opts db =
    let s = db.store in
    let rolled = roll_up failing db in
    let aged = then_run rolled (maintain_age fails opts.cutoff) in
    let collapsed = then_run aged (collapse_assignments fails) in
    let sized = then_run collapsed (enforce_size fails live opts.max_bytes) in
    let k0 = IsKept-refl s in
    let k1 =
      then_run-IsKept s rolled (maintain_age fails opts.cutoff) k0
        (maintain_age-IsKept fails opts.cutoff s rolled k0) in
    let k2 =
      then_run-IsKept s aged (collapse_assignments fails) k1
        (collapse_assignments-IsKept fails s aged k1) in
    let k3 =
      then_run-IsKept s collapsed (enforce_size fails live opts.max_bytes) k2
        (enforce_size-IsKept fails live opts.max_bytes s collapsed k2) in
    let k4 =
      then_run-IsKept s sized (finish fails free opts.max_bytes last_live) k3
        (finish-IsKept fails free opts.max_bytes last_live s sized k3) in
    let t = (maintain failing fails live free last_live opts db).db.store in
    (
      k4,
      ap (λ x. pending_rows x.origin t.journal) k4.frame
          ∙ sym (pending_rows-retain s t.journal)
          ∙ ap (pending_rows s.origin) k4.rows
          ∙ pending_rows-retain s s.journal,
    )
