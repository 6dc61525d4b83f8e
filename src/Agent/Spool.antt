-- ===== src/Agent/Spool.antt =====
-- The result spool of internal/agent/spool.go, without the store. A batch file is an entry with what
-- its read gives, none where it is not a batch; the entries stand in the order of their paths, as
-- `pending` sorts them. Which removals succeed, when the drain's time is over, what the server
-- answers and what the clock shows are arguments.
pub mod Prune
pub mod Drain
pub mod Tests
use radar_node.Base.{
  ℕ, suc, ◌+◌, ◌-◌, ◌*◌, Bool, true, false, ◌||◌, ◌&&◌, not, String, Option, none, some, List, [],
  ◌∷◌, leb, ltb, ◌==◌, if◌then◌else◌, length, sum, map,
}
use radar_node.Wire.{Result, ResultsResponse}
use radar_node.Agent.Clock.{seconds, is_zero, before}

pub record SpoolEntry : Type 0 where
  pub path : String
  pub size : ℕ
  pub batch : Option (List Result)

abbrev pub bytes : List SpoolEntry → ℕ
bytes [] = 0
bytes (e ∷ es) = e.size + bytes es

-- The loop of `prune`, with the bytes and the number of the files that are left.
unfoldable pub prune_from : (SpoolEntry → Bool) → ℕ → ℕ → ℕ → List SpoolEntry → List SpoolEntry
prune_from removes max_bytes total files [] = []
prune_from removes max_bytes total files (e ∷ es) =
    let removed = prune_from removes max_bytes (total - e.size) (files - 1) es in
    let kept = prune_from removes max_bytes total files es in
    if leb total max_bytes || leb files 1 then e ∷ es else if removes e then removed else e ∷ kept

-- `prune`: the files that it leaves.
unfoldable pub prune : (SpoolEntry → Bool) → ℕ → List SpoolEntry → List SpoolEntry
prune removes max_bytes es = prune_from removes max_bytes (bytes es) (length es) es

abbrev pub delivery_retry_initial : ℕ
delivery_retry_initial = seconds 5

abbrev pub delivery_retry_max : ℕ
delivery_retry_max = seconds 60

unfoldable pub next_delivery_backoff : ℕ → ℕ
next_delivery_backoff previous =
    if previous == 0
    then delivery_retry_initial
    else if ltb delivery_retry_max (previous * 2)
    then delivery_retry_max
    else previous * 2

pub record Delivery : Type 0 where
  pub backoff : ℕ
  pub next_attempt : ℕ

unfoldable pub backoff_delivery : ℕ → Delivery → Delivery
backoff_delivery now d =
    let backoff = next_delivery_backoff d.backoff in
    record { backoff = backoff; next_attempt = now + backoff }

abbrev pub clear_delivery_backoff : Delivery
clear_delivery_backoff = record { backoff = 0; next_attempt = 0 }

-- What a file's turn in the drain meets: whether the time is over, the server's answer, none for an
-- error or an empty one, and the clock after it.
pub record DrainTurn : Type 0 where
  pub expired : Bool
  pub reply : Option ResultsResponse
  pub now : ℕ

pub record Drained : Type 0 where
  pub left : List SpoolEntry
  pub delivered : ℕ
  pub accepted : ℕ
  pub rejected : ℕ
  pub is_failed : Bool
  pub delivery : Delivery

abbrev pub answered : SpoolEntry → List Result → ResultsResponse → Drained → Drained
answered e results r d = record d {
  delivered = d.delivered + length results;
  accepted = d.accepted + r.accepted;
  rejected = d.rejected + r.rejected;
  delivery = clear_delivery_backoff;
}

-- What the body of the loop does with a file that it read, and whether the loop goes on.
unfoldable pub drain_reply :
    DrainTurn → SpoolEntry → List Result → Option ResultsResponse → Drained → Drained × Bool
drain_reply t e results none d =
    (record d { is_failed = true; delivery = backoff_delivery t.now d.delivery }, false)
drain_reply t e results (some r) d = (answered e results r d, true)

unfoldable pub drain_batch :
    DrainTurn → SpoolEntry → Option (List Result) → Drained → Drained × Bool
drain_batch t e none d = (d, true)
drain_batch t e (some results) d = drain_reply t e results t.reply d

unfoldable pub drain_entry : DrainTurn → SpoolEntry → Drained → Drained × Bool
drain_entry t e d = if t.expired then (d, false) else drain_batch t e e.batch d

-- The loop of `drainSpool`: a file that it passes is removed, which is taken to succeed; one that it
-- stops at is left.
unfoldable pub drain_entries : (SpoolEntry → DrainTurn) → List SpoolEntry → Drained → Drained
drain_entries turn [] d = record d { left = [] }
drain_entries turn (e ∷ es) d =
    let (d', goes_on) = drain_entry (turn e) e d in
    let rest = drain_entries turn es d' in if goes_on then rest else record d' { left = e ∷ es }

abbrev pub undrained : Delivery → List SpoolEntry → Drained
undrained delivery es = record {
  left = es;
  delivered = 0;
  accepted = 0;
  rejected = 0;
  is_failed = false;
  delivery = delivery;
}

-- `drainSpool`, called at an instant.
unfoldable pub drain_spool : ℕ → (SpoolEntry → DrainTurn) → List SpoolEntry → Delivery → Drained
drain_spool now turn es d =
    if not (is_zero d.next_attempt) && before now d.next_attempt
    then undrained d es
    else drain_entries turn es (undrained d es)
