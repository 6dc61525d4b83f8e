-- ===== src/Store/Maintenance.antt =====
-- Maintain of internal/store/maintenance.go, which bounds the database by age and size. What SQLite
-- and the clock decide is an argument: which statements fail (a context that ends is such a
-- statement), and what the page counts read.
pub mod Safety
pub mod Age
mod Tests
use radar_node.Base.{
  ℕ, zero, suc, ◌+◌, ◌-◌, ◌*◌, Bool, true, false, not, ◌&&◌, ◌||◌, String, Option, none, some, List,
  [], ◌∷◌, ltb, leb, ◌==◌, str_eq, if◌then◌else◌, any, retain, take, drop, length, sort,
}
use radar_node.Store.{
  Store, JournalRow, Body, PendingRow, result, trigger, trigger_done, assignment, Delivery, pending,
}
use radar_node.Store.Rollups.{
  RollupKey, RollupAgg, History, rollup_results, rollup_from, rollup_rows,
}

abbrev pub prune_chunk : ℕ
prune_chunk = 2000

pub record Database : Type 0 where
  pub store : Store
  pub history : History

-- `cutoff` is the oldest instant that is kept, none where the age does not bound.
pub record MaintainOptions : Type 0 where
  pub cutoff : Option ℕ
  pub max_bytes : ℕ

pub record MaintainStats : Type 0 where
  pub deleted_rows : ℕ
  pub deleted_rollups : ℕ
  pub rolled_up_results : ℕ
  pub pruned_triggers : ℕ
  pub vacuumed_pages : ℕ
  pub live_bytes : ℕ
  pub over_budget : Bool

-- Where a run stands: the database, what was counted, and whether no statement failed.
pub record Progress : Type 0 where
  pub db : Database
  pub stats : MaintainStats
  pub going : Bool

pub data Statement : Type 0 where
  collapse reclaim prune_completed : Statement
  prune_round size_round : ℕ → Statement

abbrev pub no_stats : MaintainStats
no_stats = record {
  deleted_rows = 0;
  deleted_rollups = 0;
  rolled_up_results = 0;
  pruned_triggers = 0;
  vacuumed_pages = 0;
  live_bytes = 0;
  over_budget = false;
}

abbrev pub is_event_of : List PendingRow → ℕ → Bool
is_event_of triggers seq = any (λ p. p.event_seq == seq) triggers

-- The `WHERE` of both deletions, without the age.
abbrev pub prunable : List PendingRow → JournalRow → Bool
prunable triggers row = elim row.body [
  | result _ ↦ elim row.delivery_state [ pending ↦ false | _ ↦ true ]
  | trigger _ ↦ not (is_event_of triggers row.seq)
  | trigger_done _ _ ↦ not (is_event_of triggers row.seq)
  | assignment _ _ ↦ false
]

-- `DELETE … WHERE seq IN (SELECT … WHERE p ORDER BY seq LIMIT n)`.
unfoldable pub delete_first : (JournalRow → Bool) → ℕ → List JournalRow → List JournalRow
delete_first p zero rows = rows
delete_first p (suc n) [] = []
delete_first p (suc n) (row ∷ rows) = elim (p row) [
  | true ↦ delete_first p n rows
  | false ↦ row ∷ delete_first p (suc n) rows
]

abbrev pub stop : Progress → Progress
stop p = record p { going = false }

-- A phase that runs unless one before it failed.
abbrev pub then_run : Progress → (Progress → Progress) → Progress
then_run p phase = if p.going then phase p else p

-- The journal after a deletion, and the rows counted that are gone.
abbrev pub with_journal : List JournalRow → Progress → Progress
with_journal rows p = record {
  db = record { store = record p.db.store { journal = rows }; history = p.db.history };
  stats = record p.stats {
    deleted_rows = p.stats.deleted_rows + (length p.db.store.journal - length rows);
  };
  going = p.going;
}

-- One pass of the loop over old rows, with the passes after it as a function.
unfoldable pub prune_pass :
    (Statement → Bool) → (JournalRow → Bool) → (ℕ → Progress → Progress) → ℕ → Progress → Progress
prune_pass fails old passes round p =
    let left = delete_first old prune_chunk p.db.store.journal in
    if fails (prune_round round)
    then stop p
    else if ltb (length p.db.store.journal - length left) prune_chunk
    then with_journal left p
    else passes (suc round) (with_journal left p)

-- The loop over old rows, on fuel.
unfoldable pub prune_old : (Statement → Bool) → (JournalRow → Bool) → ℕ → ℕ → Progress → Progress
prune_old fails old zero round p = stop p
prune_old fails old (suc fuel) round p = prune_pass fails old (prune_old fails old fuel) round p

abbrev pub too_old : Store → ℕ → JournalRow → Bool
too_old s cutoff row = prunable s.pending_triggers row && ltb row.at_ms cutoff

unfoldable pub prune_completed_triggers : (Statement → Bool) → ℕ → Progress → Progress
prune_completed_triggers fails cutoff p =
    let s = p.db.store in
    let kept = retain (λ c. not (ltb c.completed_at_ms cutoff)) s.completed_triggers in
    if fails prune_completed then stop p else record {
      db = record { store = record s { completed_triggers = kept }; history = p.db.history };
      stats = record p.stats { pruned_triggers = length s.completed_triggers - length kept };
      going = p.going;
    }

unfoldable pub enforce_age : (Statement → Bool) → ℕ → Progress → Progress
enforce_age fails cutoff p =
    then_run (prune_old fails (too_old p.db.store cutoff) (suc (length p.db.store.journal)) 0 p)
      (prune_completed_triggers fails cutoff)

abbrev pub is_assignment : JournalRow → Bool
is_assignment row = elim row.body [ assignment _ _ ↦ true | _ ↦ false ]

-- An assignment that is not the newest of its origin.
abbrev pub outdated : List JournalRow → JournalRow → Bool
outdated rows row =
    is_assignment row
    && any (λ r. is_assignment r && str_eq r.origin row.origin && ltb row.seq r.seq) rows

unfoldable pub collapse_assignments : (Statement → Bool) → Progress → Progress
collapse_assignments fails p =
    if fails collapse
    then stop p
    else with_journal (retain (λ r. not (outdated p.db.store.journal r)) p.db.store.journal) p

abbrev pub older_bucket : RollupKey × RollupAgg → RollupKey × RollupAgg → Bool
older_bucket a b = ltb a.0.bucket b.0.bucket

-- The oldest hours go; that none goes is over the budget.
unfoldable pub prune_rollups : Progress → Progress × Bool
prune_rollups p =
    let rollups = p.db.history.rollups in
    let kept = drop prune_chunk (sort older_bucket rollups) in
    let gone = length rollups - length kept in
    (
      record {
        db = record { store = p.db.store; history = record p.db.history { rollups = kept } };
        stats = record p.stats {
          deleted_rollups = p.stats.deleted_rollups + gone;
          over_budget = if gone == 0 then true else p.stats.over_budget;
        };
        going = p.going;
      },
      gone == 0,
    )

-- One pass of the loop over the size, with the passes after it as a function.
unfoldable pub size_pass :
    (Statement → Bool) → (ℕ → ℕ) → ℕ → (ℕ → Progress → Progress) → ℕ → Progress → Progress
size_pass fails live max_bytes passes round p =
    let rows = p.db.store.journal in
    let left = delete_first (prunable p.db.store.pending_triggers) prune_chunk rows in
    let (q, exhausted) = prune_rollups p in
    if fails (size_round round)
    then stop p
    else if leb (live round) max_bytes
    then p
    else if not (length rows - length left == 0)
    then passes (suc round) (with_journal left p)
    else if exhausted
    then q
    else passes (suc round) q

unfoldable pub size_passes : (Statement → Bool) → (ℕ → ℕ) → ℕ → ℕ → ℕ → Progress → Progress
size_passes fails live max_bytes zero round p = p
size_passes fails live max_bytes (suc n) round p =
    size_pass fails live max_bytes (size_passes fails live max_bytes n) round p

unfoldable pub enforce_size : (Statement → Bool) → (ℕ → ℕ) → ℕ → Progress → Progress
enforce_size fails live max_bytes p =
    if max_bytes == 0 then p else size_passes fails live max_bytes 100 0 p

-- The pages of a reading that are not free, in bytes.
unfoldable pub live_bytes_of : ℕ → ℕ → ℕ → ℕ
live_bytes_of page_size page_count free_pages = (page_count - free_pages) * page_size

-- The rounds of `incrementalVacuum` on the free pages that each reads; what is left at the end.
unfoldable pub vacuum_rounds : ℕ → (ℕ → ℕ) → ℕ → ℕ → ℕ
vacuum_rounds zero free round current = current
vacuum_rounds (suc n) free round current =
    let rest = vacuum_rounds n free (suc round) (free round) in
    if current == 0 then current else if leb current (free round) then current else rest

-- `free 0` is the reading before the first round.
unfoldable pub incremental_vacuum : (ℕ → ℕ) → ℕ
incremental_vacuum free = free 0 - vacuum_rounds 64 free 1 (free 0)

-- The vacuum and the last reading of the size.
unfoldable pub finish : (Statement → Bool) → (ℕ → ℕ) → ℕ → ℕ → Progress → Progress
finish fails free max_bytes last_live p = if fails reclaim then stop p else record p {
  stats = record p.stats {
    vacuumed_pages = incremental_vacuum free;
    live_bytes = last_live;
    over_budget =
        if not (max_bytes == 0) && ltb max_bytes last_live then true else p.stats.over_budget;
  };
}

-- The rollup, or the rounds that it makes before it fails.
unfoldable pub roll_rounds : Option ℕ → List JournalRow → History → History × Option ℕ
roll_rounds none journal h = rollup_results journal h
roll_rounds (some rounds) journal h = rollup_from rounds (rollup_rows journal) h.rollup_seq 0 h

unfoldable pub roll_up : Option ℕ → Database → Progress
roll_up failing db =
    let (history, n) = roll_rounds failing db.store.journal db.history in
    record {
      db = record { store = db.store; history = history };
      stats = record no_stats { rolled_up_results = elim n [ none ↦ 0 | some rolled ↦ rolled ] };
      going = elim n [ none ↦ false | some _ ↦ true ];
    }

unfoldable pub maintain_age : (Statement → Bool) → Option ℕ → Progress → Progress
maintain_age fails none p = p
maintain_age fails (some cutoff) p = enforce_age fails cutoff p

unfoldable pub maintain :
    Option ℕ → (Statement → Bool) → (ℕ → ℕ) → (ℕ → ℕ) → ℕ → MaintainOptions → Database → Progress
maintain failing fails live free last_live opts db =
    let rolled = roll_up failing db in
    let aged = then_run rolled (maintain_age fails opts.cutoff) in
    let collapsed = then_run aged (collapse_assignments fails) in
    let sized = then_run collapsed (enforce_size fails live opts.max_bytes) in
    then_run sized (finish fails free opts.max_bytes last_live)
