-- ===== src/Store.antt =====
-- internal/store: the SQLite journal and its projections. A table is a list of rows, and each SQL
-- statement of the Go code is the function on the tables that it denotes. A method runs in one
-- transaction: when the database refuses a statement the deferred rollback leaves every table as it
-- was, which the methods' argument `works` stands for.
pub mod Triggers
pub mod Results
pub mod Probes
pub mod Once
pub mod Settlement
pub mod Sequences
pub mod Replay
pub mod Calls
pub mod Growth
pub mod Rebuild
pub mod Rollups
pub mod Maintenance
pub mod Tests
use radar_node.Base.{
  ℕ, suc, ◌+◌, String, Bool, true, false, ◌&&◌, ◌||◌, List, [], ◌∷◌, ◌++◌, Option, none, some, ltb,
  ◌==◌, if◌then◌else◌, str_eq, any, lookup, insert,
}
use radar_node.Wire.{Value, ProbeSnapshot, Event}

-- The result columns of a journal row. Latency is in microseconds.
pub record ResultColumns : Type 0 where
  pub run_id : String
  pub probe_id : String
  pub prober : String
  pub target : String
  pub check_seq : ℕ
  pub ok : Bool
  pub latency_us : Option ℕ
  pub error_code : Option String
  pub error : Option String
  pub extra : List (String × Value)

-- A row's kind, with the columns that it uses. A payload is the value whose JSON is stored.
pub data Body : Type 0 where
  result : ResultColumns → Body
  trigger : Event → Body
  trigger_done : String → String → Body
  assignment : String → List ProbeSnapshot → Body

pub data Delivery : Type 0 where
  pending delivered rejected : Delivery

pub record JournalRow : Type 0 where
  pub seq : ℕ
  pub origin : String
  pub origin_seq : ℕ
  pub at_ms : ℕ
  pub body : Body
  pub delivery_state : Delivery
  pub delivery_reason : Option String
  pub delivered_at_ms : Option ℕ
  pub attempts : ℕ

pub record ProbeRow : Type 0 where
  pub snapshot : ProbeSnapshot
  pub last_run_at_ms : Option ℕ
  pub last_trigger_run_id : Option String

-- `none` is a snapshot column whose JSON does not decode.
pub record PendingRow : Type 0 where
  pub probe_id : String
  pub run_id : String
  pub event_seq : ℕ
  pub created_at_ms : ℕ
  pub snapshot : Option ProbeSnapshot

pub record CompletedRow : Type 0 where
  pub probe_id : String
  pub run_id : String
  pub completed_at_ms : ℕ

-- `next_rowid` is what AUTOINCREMENT gives the next journal row.
pub record Store : Type 0 where
  pub origin : String
  pub sequences : List (String × ℕ)
  pub journal : List JournalRow
  pub next_rowid : ℕ
  pub probes : List (String × ProbeRow)
  pub pending_triggers : List PendingRow
  pub completed_triggers : List CompletedRow
  pub probe_hash : String

-- What a method returns beside the new tables.
pub data Answer {ℓ} (A : Type ℓ) : Type ℓ where
  returned : A → Answer A
  failed : Answer A

-- `nextOriginSeq` of sequences.go: it reserves `count` consecutive numbers.
unfoldable pub next_origin_seq : ℕ → Store → Option (ℕ × Store)
next_origin_seq count s = if ltb count 1 then none else elim (lookup s.origin s.sequences) [
  | none ↦ some (1, record s { sequences = insert s.origin (count + 1) s.sequences })
  | some next ↦ some (next, record s { sequences = insert s.origin (next + count) s.sequences })
]

-- The unique index `journal_result_dedup`.
abbrev pub same_result : ResultColumns → ResultColumns → Bool
same_result a b =
    str_eq a.run_id b.run_id && str_eq a.probe_id b.probe_id && a.check_seq == b.check_seq

abbrev pub same_body : Body → Body → Bool
same_body (result a) (result b) = same_result a b
same_body _ _ = false

-- A new row conflicts with one of the same origin and number, or with the same result.
abbrev pub conflicts : JournalRow → JournalRow → Bool
conflicts new old =
    str_eq old.origin new.origin
    && (old.origin_seq == new.origin_seq || same_body old.body new.body)

unfoldable pub new_row : ℕ → ℕ → Body → Store → JournalRow
new_row origin_seq at_ms body s = record {
  seq = s.next_rowid;
  origin = s.origin;
  origin_seq = origin_seq;
  at_ms = at_ms;
  body = body;
  delivery_state = pending;
  delivery_reason = none;
  delivered_at_ms = none;
  attempts = 0;
}

-- `INSERT INTO journal`: `none` is a violated unique constraint.
unfoldable pub insert_journal : ℕ → ℕ → Body → Store → Option Store
unfolding new_row
insert_journal origin_seq at_ms body s =
    let row = new_row origin_seq at_ms body s in
    if any (conflicts row) s.journal
    then none
    else some (record s { journal = s.journal ++ row ∷ []; next_rowid = suc s.next_rowid })

-- A database that was just created for this origin.
unfoldable pub fresh : String → Store
fresh origin = record {
  origin = origin;
  sequences = [];
  journal = [];
  next_rowid = 1;
  probes = [];
  pending_triggers = [];
  completed_triggers = [];
  probe_hash = "";
}
