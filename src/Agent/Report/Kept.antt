-- ===== src/Agent/Report/Kept.antt =====
-- The deliveries of a drain leave the origin and the body of every journal row as they are.
use radar_node.Base.{
  ℕ, zero, suc, ◌≡◌, refl, ◌∙◌, inl, inr, Bool-cases, true, String, Option, none, some, List, [],
  ◌∷◌, map, length, drop, take, ◌==◌, if_both,
}
use radar_node.Store.{Store, JournalRow, Body}
use radar_node.Store.Sequences.{holds}
use radar_node.Store.Results.{
  PendingResult, Outcome, pending_results, attempt, attempt_chunks, mark_attempts, settle_where,
  mark_all, mark_outcomes,
}
use radar_node.Wire.{ResultsResponse}
use radar_node.Agent.Spool.{Delivery}
use radar_node.Agent.Delivery.{
  StoreTurn, StoreDrain, deliver, deliver_batch, drain_turns, drain_store, attempted, outcomes_for,
  undelivered,
}

holds-map :
    (f : JournalRow → JournalRow)
    → ((r : JournalRow) → ((f r).origin ≡ r.origin) × ((f r).body ≡ r.body))
    → (origin : String) (body : Body) (rows : List JournalRow)
    → holds origin body (map f rows) ≡ holds origin body rows
holds-map f same origin body [] = refl
holds-map f same origin body (r ∷ rows) =
    rw ((same r).0, (same r).1, holds-map f same origin body rows) refl

abbrev SameRow : JournalRow → JournalRow → Type 0
SameRow r x = (x.origin ≡ r.origin) × (x.body ≡ r.body)

attempt_same : (seqs : List ℕ) (r : JournalRow) → SameRow r (attempt seqs r)
attempt_same seqs r = if_both (SameRow r) _ (refl, refl) (refl, refl)

settle_same : (now : ℕ) (o : Outcome) (r : JournalRow) → SameRow r (settle_where now o r)
settle_same now o r =
    if_both (SameRow r) _ (if_both (SameRow r) o.accepted (refl, refl) (refl, refl)) (refl, refl)

attempt_chunks-bodies :
    (fuel : ℕ) (seqs : List ℕ) (origin : String) (body : Body) (rows : List JournalRow)
    → holds origin body (attempt_chunks fuel seqs rows) ≡ holds origin body rows
unfolding attempt_chunks
attempt_chunks-bodies zero seqs origin body rows = refl
attempt_chunks-bodies (suc fuel) seqs origin body rows =
    attempt_chunks-bodies fuel (drop 500 seqs) origin body (map (attempt (take 500 seqs)) rows)
    ∙ holds-map (attempt (take 500 seqs)) (attempt_same (take 500 seqs)) origin body rows

mark_all-bodies :
    (now : ℕ) (os : List Outcome) (origin : String) (body : Body) (rows : List JournalRow)
    → holds origin body (mark_all now os rows) ≡ holds origin body rows
unfolding mark_all
mark_all-bodies now [] origin body rows = refl
mark_all-bodies now (o ∷ os) origin body rows = elim (Bool-cases (o.seq == 0)) [
  | inl e ↦ rw e (mark_all-bodies now os origin body rows)
  | inr e ↦ rw e (
      mark_all-bodies now os origin body (map (settle_where now o) rows)
      ∙ holds-map (settle_where now o) (settle_same now o) origin body rows)
]

-- The store after some deliveries.
pub record Keeps (s t : Store) : Type 0 where
  pub origin : t.origin ≡ s.origin
  pub bodies :
      (origin : String) (body : Body) → holds origin body t.journal ≡ holds origin body s.journal

Keeps-refl : (s : Store) → Keeps s s
Keeps-refl s = record { origin = refl; bodies = λ o b. refl }

Keeps-trans : (s t u : Store) → Keeps s t → Keeps t u → Keeps s u
Keeps-trans s t u h k = record {
  origin = k.origin ∙ h.origin;
  bodies = λ o b. k.bodies o b ∙ h.bodies o b;
}

attempted-Keeps : (batch : List PendingResult) (s : Store) → Keeps s (attempted batch s)
unfolding mark_attempts
attempted-Keeps batch s = record {
  origin = refl;
  bodies = λ o b.
      attempt_chunks-bodies (length (map (λ p. p.seq) batch)) (map (λ p. p.seq) batch) o b
        s.journal;
}

mark_outcomes-Keeps :
    (now : ℕ) (os : List Outcome) (s : Store) → Keeps s (mark_outcomes true now os s).0
unfolding mark_outcomes
mark_outcomes-Keeps now [] s = Keeps-refl s
mark_outcomes-Keeps now (o ∷ os) s = record {
  origin = refl;
  bodies = λ origin b. mark_all-bodies now (o ∷ os) origin b s.journal;
}

deliver_batch-Keeps :
    (t : StoreTurn) (batch : List PendingResult) (reply : Option ResultsResponse) (s : Store)
    (d : StoreDrain)
    → Keeps s (deliver_batch t batch reply s d).0.store
unfolding deliver_batch
deliver_batch-Keeps t batch none s d = Keeps-refl s
deliver_batch-Keeps t batch (some r) s d = elim (Bool-cases t.settles) [
  | inl e ↦ rw e (mark_outcomes-Keeps t.now_ms (outcomes_for batch r) s)
  | inr e ↦ rw e (Keeps-refl s)
]

deliver-Keeps :
    (t : StoreTurn) (batch : List PendingResult) (d : StoreDrain)
    → Keeps d.store (deliver t batch d).0.store
unfolding deliver
deliver-Keeps t [] d = Keeps-refl d.store
deliver-Keeps t (p ∷ ps) d =
    Keeps-trans d.store _ _ (attempted-Keeps (p ∷ ps) d.store)
      (deliver_batch-Keeps t (p ∷ ps) t.reply (attempted (p ∷ ps) d.store) d)

drain_turns-Keeps : (ts : List StoreTurn) (d : StoreDrain) → Keeps d.store (drain_turns ts d).store
unfolding drain_turns
drain_turns-Keeps [] d = Keeps-refl d.store
drain_turns-Keeps (t ∷ ts) d =
    let step = deliver t (pending_results 500 d.store) d in
    let kept = deliver-Keeps t (pending_results 500 d.store) d in
    elim (Bool-cases step.1) [
      | inl e ↦ rw e (Keeps-trans d.store step.0.store _ kept (drain_turns-Keeps ts step.0))
      | inr e ↦ rw e kept
    ]

pub drain_store-Keeps :
    (now : ℕ) (ts : List StoreTurn) (s : Store) (delivery : Delivery)
    → Keeps s (drain_store now ts s delivery).store
unfolding drain_store
drain_store-Keeps now ts s delivery =
    if_both (λ (d : StoreDrain). Keeps s d.store) _ (Keeps-refl s)
      (drain_turns-Keeps ts (undelivered s delivery))
