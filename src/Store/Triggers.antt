-- ===== src/Store/Triggers.antt =====
-- internal/store/triggers.go: the durable queue of triggers.
use radar_node.Base.{
  ℕ, String, Bool, true, false, not, ◌&&◌, ◌||◌, List, [], ◌∷◌, ◌++◌, Option, none, some,
  if◌then◌else◌, str_eq, any, retain, lookup, modify,
}
use radar_node.Wire.{Event, ProbeSnapshot}
use radar_node.Store.{
  Store, ProbeRow, PendingRow, CompletedRow, Answer, returned, failed, trigger, trigger_done,
  next_origin_seq, insert_journal,
}

abbrev pub is_pending : String → String → PendingRow → Bool
is_pending probe_id run_id p = str_eq p.probe_id probe_id && str_eq p.run_id run_id

abbrev pub is_completed : String → String → CompletedRow → Bool
is_completed probe_id run_id c = str_eq c.probe_id probe_id && str_eq c.run_id run_id

abbrev pub last_run_is : String → Option ProbeRow → Bool
last_run_is run_id none = false
last_run_is run_id (some p) = elim p.last_trigger_run_id [
  | none ↦ false
  | some last ↦ str_eq last run_id
]

-- `triggerAlreadySeenTx`.
unfoldable pub trigger_already_seen : String → String → Store → Bool
trigger_already_seen probe_id run_id s =
    any (is_completed probe_id run_id) s.completed_triggers
    || any (is_pending probe_id run_id) s.pending_triggers
    || last_run_is run_id (lookup probe_id s.probes)

-- `queueTriggerTx`.
unfoldable pub queue_trigger : Event → ℕ → ℕ → Store → Store
queue_trigger ev event_seq at_ms s =
    if any (is_pending ev.probe.id ev.run_id) s.pending_triggers then s else record s {
      pending_triggers =
          s.pending_triggers
          ++ record {
            probe_id = ev.probe.id;
            run_id = ev.run_id;
            event_seq = event_seq;
            created_at_ms = at_ms;
            snapshot = some ev.probe;
          }
            ∷ [];
    }

-- The transaction of `RecordTrigger` after the test for an earlier delivery.
unfoldable pub journal_trigger : ℕ → Event → Store → Option Store
journal_trigger now ev s = elim (next_origin_seq 1 s) [
  | none ↦ none
  | some (origin_seq, t) ↦ elim (insert_journal origin_seq now (trigger ev) t) [
    | none ↦ none
    | some u ↦ some (queue_trigger ev t.next_rowid now u)
  ]
]

unfoldable pub record_trigger : Bool → ℕ → Event → Store → Store × Answer Bool
record_trigger works now ev s =
    if not (str_eq ev.event_type "triggered") || str_eq ev.run_id "" || str_eq ev.probe.id ""
    then (s, returned false)
    else if not works
    then (s, failed)
    else if trigger_already_seen ev.probe.id ev.run_id s
    then (s, returned false)
    else elim (journal_trigger now ev s) [ none ↦ (s, failed) | some t ↦ (t, returned true) ]

pub record PendingTrigger : Type 0 where
  pub probe_id : String
  pub run_id : String
  pub event_seq : ℕ
  pub probe : ProbeSnapshot

unfoldable pub readable : List PendingRow → List PendingTrigger
readable [] = []
readable (p ∷ ps) = elim p.snapshot [
  | none ↦ readable ps
  | some probe ↦
      record { probe_id = p.probe_id; run_id = p.run_id; event_seq = p.event_seq; probe = probe }
      ∷ readable ps
]

abbrev pub decodes : PendingRow → Bool
decodes p = elim p.snapshot [ none ↦ false | some _ ↦ true ]

-- `PendingTriggers`: the rows stand in the order of their journal row, and those that do not decode
-- are deleted, so that a redelivery can insert them anew.
unfoldable pub load_pending_triggers : Store → Store × List PendingTrigger
load_pending_triggers s =
    (record s { pending_triggers = retain decodes s.pending_triggers }, readable s.pending_triggers)

unfoldable pub delete_pending : String → String → Store → Store
delete_pending probe_id run_id s = record s {
  pending_triggers = retain (λ p. not (is_pending probe_id run_id p)) s.pending_triggers;
}

unfoldable pub upsert_completed : String → String → ℕ → List CompletedRow → List CompletedRow
upsert_completed probe_id run_id at_ms [] =
    record { probe_id = probe_id; run_id = run_id; completed_at_ms = at_ms } ∷ []
upsert_completed probe_id run_id at_ms (c ∷ cs) =
    if is_completed probe_id run_id c
    then record c { completed_at_ms = at_ms } ∷ cs
    else c ∷ upsert_completed probe_id run_id at_ms cs

-- `completeTriggerTx`.
unfoldable pub complete_trigger : String → String → ℕ → Store → Store
complete_trigger probe_id run_id at_ms s = record (delete_pending probe_id run_id s) {
  completed_triggers = upsert_completed probe_id run_id at_ms s.completed_triggers;
  probes = modify probe_id (λ p. record p { last_trigger_run_id = some run_id }) s.probes;
}

unfoldable pub journal_completion : ℕ → String → String → Store → Option Store
journal_completion now probe_id run_id s =
    elim (next_origin_seq 1 (delete_pending probe_id run_id s)) [
      | none ↦ none
      | some (origin_seq, t) ↦
          elim (insert_journal origin_seq now (trigger_done probe_id run_id) t) [
            | none ↦ none
            | some u ↦ some (complete_trigger probe_id run_id now u)
          ]
    ]

unfoldable pub journal_completions : ℕ → List PendingTrigger → Store → Option Store
journal_completions now [] s = some s
journal_completions now (t ∷ ts) s = elim (journal_completion now t.probe_id t.run_id s) [
  | none ↦ none
  | some u ↦ journal_completions now ts u
]

unfoldable pub complete_triggers :
    Bool → ℕ → List PendingTrigger → Store → Store × Answer (Unit {0})
complete_triggers works now [] s = (s, returned tt)
complete_triggers works now (t ∷ ts) s =
    if not works then (s, failed) else elim (journal_completions now (t ∷ ts) s) [
      | none ↦ (s, failed)
      | some u ↦ (u, returned tt)
    ]
