-- ===== src/Store/Probes.antt =====
-- internal/store/probes.go: the assignment journal, the probes' projection, and `Rebuild`, which makes
-- every projection from the journal again.
use radar_node.Base.{
  ℕ, String, Bool, true, false, not, List, [], ◌∷◌, ◌++◌, Option, none, some, max, if◌then◌else◌,
  str_eq, any, map, lookup, modify,
}
use radar_node.Wire.{ProbeSnapshot}
use radar_node.Store.{
  Store, JournalRow, ProbeRow, Body, Answer, returned, failed, result, trigger, trigger_done,
  assignment, next_origin_seq, insert_journal,
}
use radar_node.Store.Triggers.{queue_trigger, complete_trigger}

abbrev pub schedule_of : Option ProbeRow → ProbeSnapshot → ProbeRow
schedule_of none p = record { snapshot = p; last_run_at_ms = none; last_trigger_run_id = none }
schedule_of (some old) p = record {
  snapshot = p;
  last_run_at_ms = old.last_run_at_ms;
  last_trigger_run_id = old.last_trigger_run_id;
}

-- The inserts of `applyAssignmentTx`; an id that comes twice violates the primary key.
unfoldable pub insert_probes :
    List (String × ProbeRow)
    → List ProbeSnapshot
    → List (String × ProbeRow)
    → Option (List (String × ProbeRow))
insert_probes old [] next = some next
insert_probes old (p ∷ ps) next =
    let rest = insert_probes old ps (next ++ (p.id, schedule_of (lookup p.id old) p) ∷ []) in
    if any (λ row. str_eq row.0 p.id) next then none else rest

-- `applyAssignmentTx`: `preserve` carries the schedule state of known probes over.
unfoldable pub apply_assignment : Bool → List ProbeSnapshot → Store → Option Store
apply_assignment preserve ps s = elim (insert_probes (if preserve then s.probes else []) ps []) [
  | none ↦ none
  | some probes ↦ some (record s { probes = probes })
]

unfoldable pub journal_assignment : ℕ → String → List ProbeSnapshot → Store → Option Store
journal_assignment now hash ps s = elim (next_origin_seq 1 s) [
  | none ↦ none
  | some (origin_seq, t) ↦ elim (insert_journal origin_seq now (assignment hash ps) t) [
    | none ↦ none
    | some u ↦ elim (apply_assignment true ps u) [
      | none ↦ none
      | some v ↦ some (record v { probe_hash = hash })
    ]
  ]
]

unfoldable pub save_assignment :
    Bool → ℕ → String → List ProbeSnapshot → Store → Store × Answer (Unit {0})
save_assignment works now hash ps s =
    if str_eq hash ""
    then (s, returned tt)
    else if not works
    then (s, failed)
    else elim (journal_assignment now hash ps s) [ none ↦ (s, failed) | some t ↦ (t, returned tt) ]

-- `UPDATE probes … WHERE id IN (…)`; chunking the ids changes nothing here.
unfoldable pub mark_probes_run : List String → ℕ → Store → Store
mark_probes_run [] at_ms s = s
mark_probes_run (id ∷ ids) at_ms s =
    mark_probes_run ids at_ms
      (record s { probes = modify id (λ p. record p { last_run_at_ms = some at_ms }) s.probes })

-- One control event of `Rebuild`.
unfoldable pub rebuild_event : Body → ℕ → ℕ → Store → Option Store
rebuild_event (result _) seq at_ms s = some s
rebuild_event (trigger ev) seq at_ms s = some (queue_trigger ev seq at_ms s)
rebuild_event (trigger_done probe_id run_id) seq at_ms s =
    some (complete_trigger probe_id run_id at_ms s)
rebuild_event (assignment hash ps) seq at_ms s = elim (apply_assignment false ps s) [
  | none ↦ none
  | some t ↦ some (record t { probe_hash = hash })
]

abbrev pub rebuild_row : JournalRow → Store → Option Store
rebuild_row row s = rebuild_event row.body row.seq row.at_ms s

unfoldable pub rebuild_rows : List JournalRow → Option Store → Option Store
rebuild_rows [] s = s
rebuild_rows (row ∷ rows) s =
    rebuild_rows rows (elim s [ none ↦ none | some t ↦ rebuild_row row t ])

-- `SELECT max(at_ms)` of a probe's results.
unfoldable pub newest_result : String → List JournalRow → Option ℕ
newest_result id [] = none
newest_result id (row ∷ rows) =
    let rest = newest_result id rows in
    elim row.body [
      | result columns ↦
          if str_eq columns.probe_id id
          then elim rest [ none ↦ some row.at_ms | some m ↦ some (max row.at_ms m) ]
          else rest
      | _ ↦ rest
    ]

unfoldable pub restore_run_time : List JournalRow → String × ProbeRow → String × ProbeRow
restore_run_time rows (id, p) = elim (newest_result id rows) [
  | none ↦ (id, p)
  | some at ↦ (id, record p { last_run_at_ms = some at })
]

abbrev pub cleared : Store → Store
cleared s = record s {
  probes = [];
  pending_triggers = [];
  completed_triggers = [];
  probe_hash = "";
}

unfoldable pub rebuild : Bool → Store → Store × Answer (Unit {0})
rebuild works s =
    if not works then (s, failed) else elim (rebuild_rows s.journal (some (cleared s))) [
      | none ↦ (s, failed)
      | some t ↦ (record t { probes = map (restore_run_time s.journal) t.probes }, returned tt)
    ]
