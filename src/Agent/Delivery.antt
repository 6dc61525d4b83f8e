-- ===== src/Agent/Delivery.antt =====
-- The delivery of stored results, internal/agent/store_delivery.go. Each pass of drainStore's loop
-- meets a turn: the server's answer, none for an error or an empty one, whether the database settles,
-- and the clocks. The drain's time is over when the turns are; a read of the pending results succeeds.
pub mod Queue
pub mod Tests
use radar_node.Base.{
  ℕ, ◌+◌, Bool, true, false, not, ◌&&◌, ◌||◌, Option, none, some, String, List, [], ◌∷◌, map,
  length, ltb, ◌==◌, str_eq, if◌then◌else◌,
}
use radar_node.Wire.{ResultAck, ResultsResponse}
use radar_node.Store.{Store}
use radar_node.Store.Results.{PendingResult, Outcome, pending_results, mark_attempts, mark_outcomes}
use radar_node.Agent.Clock.{is_zero, before}
use radar_node.Agent.Spool.{Delivery, backoff_delivery, clear_delivery_backoff}

-- `acks[ackKey(runID, seq)]`: of two acks with one key, the later is in the map. A key determines its
-- run and number, since the digits of the number hold no zero byte.
unfoldable pub find_ack : String → ℕ → List ResultAck → Option ResultAck
find_ack run_id seq [] = none
find_ack run_id seq (a ∷ acks) = elim (find_ack run_id seq acks) [
  | some later ↦ some later
  | none ↦ if str_eq a.run_id run_id && a.seq == seq then some a else none
]

abbrev pub outcome_of_ack : ℕ → Option ResultAck → Outcome
outcome_of_ack seq none = record { seq = seq; accepted = true; reason = "" }
outcome_of_ack seq (some a) = record { seq = seq; accepted = a.accepted; reason = a.reason }

unfoldable pub outcome_for : List ResultAck → PendingResult → Outcome
outcome_for acks p = outcome_of_ack p.seq (find_ack p.columns.run_id p.columns.check_seq acks)

-- `outcomesFor`, for an answer that is there.
unfoldable pub outcomes_for : List PendingResult → ResultsResponse → List Outcome
outcomes_for batch r = map (outcome_for r.results) batch

pub record StoreTurn : Type 0 where
  pub reply : Option ResultsResponse
  pub settles : Bool
  pub now_ms : ℕ
  pub now : ℕ

pub record StoreDrain : Type 0 where
  pub store : Store
  pub delivered : ℕ
  pub accepted : ℕ
  pub rejected : ℕ
  pub is_failed : Bool
  pub delivery : Delivery

abbrev pub give_up : ℕ → Store → StoreDrain → StoreDrain
give_up now s d = record d {
  store = s;
  is_failed = true;
  delivery = backoff_delivery now d.delivery;
}

-- A pass with a batch, after the attempts were counted, and whether the loop goes on.
unfoldable pub deliver_batch :
    StoreTurn → List PendingResult → Option ResultsResponse → Store → StoreDrain → StoreDrain × Bool
deliver_batch t batch none s d = (give_up t.now s d, false)
deliver_batch t batch (some r) s d = if not t.settles then (give_up t.now s d, false) else (
  record d {
    store = (mark_outcomes true t.now_ms (outcomes_for batch r) s).0;
    delivered = d.delivered + length batch;
    accepted = d.accepted + r.accepted;
    rejected = d.rejected + r.rejected;
    delivery = clear_delivery_backoff;
  },
  not (ltb (length batch) 500),
)

abbrev pub attempted : List PendingResult → Store → Store
attempted batch s = mark_attempts (map (λ p. p.seq) batch) s

unfoldable pub deliver : StoreTurn → List PendingResult → StoreDrain → StoreDrain × Bool
deliver t [] d = (d, false)
deliver t (p ∷ ps) d = deliver_batch t (p ∷ ps) t.reply (attempted (p ∷ ps) d.store) d

-- The loop of `drainStore`.
unfoldable pub drain_turns : List StoreTurn → StoreDrain → StoreDrain
drain_turns [] d = d
drain_turns (t ∷ ts) d =
    let (d', goes_on) = deliver t (pending_results 500 d.store) d in
    let rest = drain_turns ts d' in if goes_on then rest else d'

abbrev pub undelivered : Store → Delivery → StoreDrain
undelivered s delivery = record {
  store = s;
  delivered = 0;
  accepted = 0;
  rejected = 0;
  is_failed = false;
  delivery = delivery;
}

-- `drainStore`, called at an instant.
unfoldable pub drain_store : ℕ → List StoreTurn → Store → Delivery → StoreDrain
drain_store now ts s delivery =
    let start = undelivered s delivery in
    if not (is_zero delivery.next_attempt) && before now delivery.next_attempt
    then start
    else drain_turns ts start
