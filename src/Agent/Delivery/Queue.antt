-- ===== src/Agent/Delivery/Queue.antt =====
-- How internal/agent/store_delivery.go empties the queue of undelivered results.
use radar_node.Base.{
  ℕ, zero, suc, ◌-◌, ◌*◌, ◌≤◌, ◌<◌, ◌≡◌, refl, sym, ap, ◌∙◌, subst, Bool, true, false, not, ◌&&◌,
  some, String, List, [], ◌∷◌, ◌++◌, map, length, ltb, ◌==◌, retain, any, take, drop,
  take-append-drop, length-drop, All, arith, Bool-cases, Option-cases, inl, inr, length-retain-le,
}
use radar_node.Wire.{ResultAck, ResultsResponse}
use radar_node.Store.{Store, JournalRow}
use radar_node.Store.Results.{
  PendingResult, pending_rows, pending_results, attempt, attempt_chunks, mark_attempts,
  mark_outcomes,
}
use radar_node.Store.Settlement.{names, unnamed, mark_outcomes-pending_rows}
use radar_node.Agent.Delivery.{
  find_ack, outcome_for, outcomes_for, StoreTurn, StoreDrain, deliver_batch, attempted, deliver,
  drain_turns,
}

unfoldable pub queue : Store → List PendingResult
queue s = pending_rows s.origin s.journal

-- Counting an attempt leaves the queue as it is.
pending_rows-attempt :
    (origin : String) (seqs : List ℕ) (rows : List JournalRow)
    → pending_rows origin (map (attempt seqs) rows) ≡ pending_rows origin rows
unfolding pending_rows
pending_rows-attempt origin seqs [] = refl
pending_rows-attempt origin seqs (row ∷ rows) =
    ground (arith, pending_rows-attempt origin seqs rows)

pending_rows-attempt_chunks :
    (fuel : ℕ) (origin : String) (seqs : List ℕ) (rows : List JournalRow)
    → pending_rows origin (attempt_chunks fuel seqs rows) ≡ pending_rows origin rows
unfolding attempt_chunks
pending_rows-attempt_chunks zero origin seqs rows = refl
pending_rows-attempt_chunks (suc fuel) origin seqs rows =
    pending_rows-attempt_chunks fuel origin (drop 500 seqs) (map (attempt (take 500 seqs)) rows)
    ∙ pending_rows-attempt origin (take 500 seqs) rows

queue-attempted : (batch : List PendingResult) (s : Store) → queue (attempted batch s) ≡ queue s
unfolding queue mark_attempts
queue-attempted batch s =
    pending_rows-attempt_chunks (length (map (λ p. p.seq) batch)) s.origin (map (λ p. p.seq) batch)
      s.journal

-- The outcomes of an answer name the whole batch.
seq-outcome_for : (acks : List ResultAck) (p : PendingResult) → (outcome_for acks p).seq ≡ p.seq
unfolding outcome_for
seq-outcome_for acks p = elim (Option-cases (find_ack p.columns.run_id p.columns.check_seq acks)) [
  | inl none_there ↦ rw none_there refl
  | inr (a, there) ↦ rw there refl
]

-- A result that a batch of settled ones holds is not kept.
names-outcomes_for :
    (batch : List PendingResult) (r : ResultsResponse) (seq : ℕ)
    → names (outcomes_for batch r) seq ≡ any (λ p. not (p.seq == 0) && seq == p.seq) batch
unfolding outcomes_for
names-outcomes_for [] r seq = refl
names-outcomes_for (p ∷ batch) r seq =
    ground (arith, seq-outcome_for r.results p, names-outcomes_for batch r seq)

unfoldable pub HasSeq : PendingResult → Type 0
HasSeq p = (p.seq == 0) ≡ false

abbrev known : List PendingResult → PendingResult → Bool
known batch p = any (λ q. not (q.seq == 0) && p.seq == q.seq) batch

still_known :
    (x : PendingResult) (batch ps : List PendingResult)
    → All (λ p. known batch p ≡ true) ps
    → All (λ p. known (x ∷ batch) p ≡ true) ps
still_known x batch [] h = tt
still_known x batch (p ∷ ps) h = (ground (arith, h.0), still_known x batch ps h.1)

known_self : (batch : List PendingResult) → All HasSeq batch → All (λ p. known batch p ≡ true) batch
unfolding HasSeq
known_self [] h = tt
known_self (p ∷ ps) h = (ground (arith, h.0), still_known p ps ps (known_self ps h.1))

module _ (keep : PendingResult → Bool) where
  length-retain-append :
      (xs ys : List PendingResult)
      → All (λ p. keep p ≡ false) xs
      → length (retain keep (xs ++ ys)) ≤ length ys
  length-retain-append [] ys h = length-retain-le keep ys
  length-retain-append (x ∷ xs) ys h = ground (arith, h.0, length-retain-append xs ys h.1)

  retain-HasSeq : (xs : List PendingResult) → All HasSeq xs → All HasSeq (retain keep xs)
  retain-HasSeq [] h = tt
  retain-HasSeq (x ∷ xs) h = elim (Bool-cases (keep x)) [
    | inl kept ↦ rw kept (h.0, retain-HasSeq xs h.1)
    | inr dropped ↦ rw dropped (retain-HasSeq xs h.1)
  ]

take-HasSeq : (n : ℕ) (xs : List PendingResult) → All HasSeq xs → All HasSeq (take n xs)
take-HasSeq zero xs h = tt
take-HasSeq (suc n) [] h = tt
take-HasSeq (suc n) (x ∷ xs) h = (h.0, take-HasSeq n xs h.1)

not_kept :
    (batch ps : List PendingResult) (r : ResultsResponse)
    → All (λ p. known batch p ≡ true) ps
    → All (λ p. unnamed (outcomes_for batch r) p ≡ false) ps
not_kept batch [] r h = tt
not_kept batch (p ∷ ps) r h =
    (ground (arith, h.0, names-outcomes_for batch r p.seq), not_kept batch ps r h.1)

-- Settling the first 500 results of the queue leaves at most the others.
settled_batch :
    (now : ℕ) (r : ResultsResponse) (s : Store)
    → All HasSeq (queue s)
    → let batch = take 500 (queue s) in
      let s' = (mark_outcomes true now (outcomes_for batch r) (attempted batch s)).0 in
      (length (queue s') ≤ length (queue s) - 500) × All HasSeq (queue s')
unfolding queue
settled_batch now r s has =
    let batch = take 500 (queue s) in
    let keep = unnamed (outcomes_for batch r) in
    let is_retained =
      (mark_outcomes-pending_rows true now (outcomes_for batch r) (attempted batch s)).0
      ∙ ap (retain keep) (queue-attempted batch s) in
    (
      subst (λ q. length q ≤ length (queue s) - 500) (sym is_retained)
          (subst (λ n. length (retain keep (queue s)) ≤ n) (length-drop 500 (queue s))
            (subst (λ q. length (retain keep q) ≤ length (drop 500 (queue s)))
              (take-append-drop 500 (queue s))
              (length-retain-append keep batch (drop 500 (queue s))
                (not_kept batch batch r (known_self batch (take-HasSeq 500 (queue s) has)))))),
      subst (All HasSeq) (sym is_retained) (retain-HasSeq keep (queue s) has),
    )

-- A turn in which the server answers and the database settles.
unfoldable pub Answers : StoreTurn → Type 0
Answers t = ((r : ResultsResponse) × (t.reply ≡ some r)) × (t.settles ≡ true)

Round : StoreDrain → StoreDrain × Bool → Type 0
Round d (d', goes_on) =
    (length (queue d'.store) ≤ length (queue d.store) - 500)
    × All HasSeq (queue d'.store)
    × (goes_on ≡ false → length (queue d'.store) ≡ 0)
    × (d'.is_failed ≡ d.is_failed)

length-take-few :
    (n : ℕ) (xs : List PendingResult) → length (take n xs) < n → length xs ≤ length (take n xs)
length-take-few zero xs h = omega (arith, h)
length-take-few (suc n) [] h = omega arith
length-take-few (suc n) (x ∷ xs) h = omega (arith, h, length-take-few n xs)

short_batch : (n : ℕ) → not (ltb n 500) ≡ false → n < 500
short_batch n h = ground (arith, h)

deliver_batch-Round :
    (settles : Bool) (t : StoreTurn) (r : ResultsResponse) (d : StoreDrain)
    → t.settles ≡ settles
    → settles ≡ true
    → All HasSeq (queue d.store)
    → let batch = take 500 (queue d.store) in
      Round d (deliver_batch t batch (some r) (attempted batch d.store) d)
unfolding Round deliver_batch
deliver_batch-Round settles t r d e settled has =
    let batch = take 500 (queue d.store) in
    let (fewer, has') = settled_batch t.now_ms r d.store has in
    rw (e, settled)
      (
        fewer,
        has',
        λ stops.
            let short = short_batch (length (take 500 (queue d.store))) stops in
            omega (arith, fewer, short, length-take-few 500 (queue d.store) short),
        refl,
      )

deliver-Round :
    (t : StoreTurn) (d : StoreDrain) (batch : List PendingResult)
    → batch ≡ take 500 (queue d.store)
    → Answers t
    → All HasSeq (queue d.store)
    → Round d (deliver t batch d)
unfolding deliver Answers Round
deliver-Round t d [] e answers has =
    let few = length-take-few 500 (queue d.store) (rw⁻¹ e (omega arith)) in
    let empty = ap length e in
    (omega (arith, few, empty), has, λ stops. omega (arith, few, empty), refl)
deliver-Round t d (p ∷ ps) e ((r, replied), settles) has =
    subst (λ b. Round d (deliver_batch t b t.reply (attempted b d.store) d)) (sym e)
      (subst
        (λ o. Round d (
          deliver_batch t (take 500 (queue d.store)) o
            (attempted (take 500 (queue d.store)) d.store) d))
        (sym replied) (deliver_batch-Round t.settles t r d refl settles has))

-- When the server answers each batch and the database settles it, the results have numbers other than
-- 0, and the turns suffice for the queue in batches of 500, the passes of a drain leave no
-- undelivered result and report no new failure, whatever the server's answers say.
pub drain_turns-queue :
    (ts : List StoreTurn) (d : StoreDrain)
    → All Answers ts
    → All HasSeq (queue d.store)
    → length (queue d.store) ≤ 500 * length ts
    → let d' = drain_turns ts d in (length (queue d'.store) ≡ 0) × (d'.is_failed ≡ d.is_failed)
unfolding drain_turns pending_results Round queue
drain_turns-queue [] d all has enough = (omega (arith, enough), refl)
drain_turns-queue (t ∷ ts) d all has enough =
    let (fewer, has', ended, failed) =
      deliver-Round t d (take 500 (queue d.store)) refl all.0 has in
    elim (Bool-cases (deliver t (take 500 (queue d.store)) d).1) [
      | inl on ↦
          let (empty, still) =
            drain_turns-queue ts (deliver t (take 500 (queue d.store)) d).0 all.1 has'
              (omega (arith, fewer, enough)) in
          rw on (empty, still ∙ failed)
      | inr off ↦ rw off (ended off, failed)
    ]
