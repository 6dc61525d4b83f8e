-- ===== src/Agent/Spool/Drain.antt =====
-- What a drain of internal/agent/spool.go delivers and what it leaves.
use radar_node.Base.{
  ℕ, ◌+◌, ◌≡◌, ◌⊎◌, refl, Bool, true, false, List, [], ◌∷◌, ◌++◌, Option, none, some, if◌then◌else◌,
  length, sum, map, All, ap, arith, inl, inr,
}
use radar_node.Wire.{Result, ResultsResponse}
use radar_node.Agent.Spool.{
  SpoolEntry, DrainTurn, Drained, drain_reply, drain_batch, drain_entry, drain_entries,
}

module _ (turn : SpoolEntry → DrainTurn) where
  -- What a file adds to the number of delivered and accepted results.
  abbrev pub results_in : Option (List Result) → ℕ
  results_in none = 0
  results_in (some results) = length results

  abbrev pub accepted_in : Option (List Result) → Option ResultsResponse → ℕ
  accepted_in none reply = 0
  accepted_in (some results) none = 0
  accepted_in (some results) (some r) = r.accepted

  -- A file that is gone from the spool was unreadable or its results were answered for.
  unfoldable pub Settled : Option (List Result) → Option ResultsResponse → Type 0
  Settled none reply = Unit
  Settled (some results) reply = (r : ResultsResponse) × (reply ≡ some r)

  -- What stopped the drain at the first file that is left: the time was over, or the server did not
  -- answer for the file's results.
  pub Stopped : List SpoolEntry → Bool → Type 0
  Stopped [] is_failed = is_failed ≡ false
  Stopped (e ∷ es) is_failed =
      (((turn e).expired ≡ true) × (is_failed ≡ false))
      ⊎ (((turn e).reply ≡ none) × (is_failed ≡ true))

  pub record Splits (es : List SpoolEntry) (before after : Drained) : Type 0 where
    pub handled : List SpoolEntry
    pub in_order : es ≡ handled ++ after.left
    pub settled : All (λ e. Settled e.batch (turn e).reply) handled
    pub delivered_all :
        after.delivered ≡ before.delivered + sum (map (λ e. results_in e.batch) handled)
    pub accepted_all :
        after.accepted
        ≡ before.accepted + sum (map (λ e. accepted_in e.batch (turn e).reply) handled)
    pub stopped : Stopped after.left after.is_failed

  Handled : Option (List Result) → Option ResultsResponse → Drained → Drained → Type 0
  Handled batch reply before after =
      Settled batch reply
      × (after.delivered ≡ before.delivered + results_in batch)
      × (after.accepted ≡ before.accepted + accepted_in batch reply)
      × (after.is_failed ≡ false)

  Halted : Bool → Option ResultsResponse → Drained → Drained → Type 0
  Halted expired reply before after =
      (after.delivered ≡ before.delivered)
      × (after.accepted ≡ before.accepted)
      × (((expired ≡ true) × (after.is_failed ≡ false))
          ⊎ ((reply ≡ none) × (after.is_failed ≡ true)))

  Steps : Bool → Option (List Result) → Option ResultsResponse → Drained → Drained × Bool → Type 0
  Steps expired batch reply before (after, true) = Handled batch reply before after
  Steps expired batch reply before (after, false) = Halted expired reply before after

  drain_reply-Steps :
      (t : DrainTurn) (e : SpoolEntry) (results : List Result) (reply : Option ResultsResponse)
      (d : Drained)
      → d.is_failed ≡ false
      → Steps false (some results) reply d (drain_reply t e results reply d)
  unfolding Steps Handled Halted Settled drain_reply
  drain_reply-Steps t e results none d fine = (refl, refl, inr (refl, refl))
  drain_reply-Steps t e results (some r) d fine = ((r, refl), refl, refl, fine)

  drain_batch-Steps :
      (t : DrainTurn) (e : SpoolEntry) (batch : Option (List Result)) (d : Drained)
      → d.is_failed ≡ false
      → Steps false batch t.reply d (drain_batch t e batch d)
  unfolding Steps Handled Settled drain_batch
  drain_batch-Steps t e none d fine = (tt, omega arith, omega arith, fine)
  drain_batch-Steps t e (some results) d fine = drain_reply-Steps t e results t.reply d fine

  drain_entry-Steps :
      (expired : Bool) (t : DrainTurn) (e : SpoolEntry) (d : Drained)
      → d.is_failed ≡ false
      → Steps expired e.batch t.reply d (if expired then (d, false) else drain_batch t e e.batch d)
  unfolding Steps Halted
  drain_entry-Steps true t e d fine = (refl, refl, inl (refl, fine))
  drain_entry-Steps false t e d fine = drain_batch-Steps t e e.batch d fine

  drain_step-Splits :
      (e : SpoolEntry) (es : List SpoolEntry) (d : Drained) (next : Drained × Bool)
      → Steps (turn e).expired e.batch (turn e).reply d next
      → (next.0.is_failed ≡ false → Splits es next.0 (drain_entries turn es next.0))
      → Splits
          (e ∷ es)
          d
          (if next.1 then drain_entries turn es next.0 else record next.0 { left = e ∷ es })
  unfolding Steps Handled Halted Stopped
  drain_step-Splits e es d (d', true) (settled, delivered, accepted, fine) rest =
      let r = rest fine in
      record {
        handled = e ∷ r.handled;
        in_order = ap (◌∷◌ e) r.in_order;
        settled = (settled, r.settled);
        delivered_all = omega (arith, delivered, r.delivered_all);
        accepted_all = omega (arith, accepted, r.accepted_all);
        stopped = r.stopped;
      }
  drain_step-Splits e es d (d', false) (delivered, accepted, why) rest = record {
    handled = [];
    in_order = refl;
    settled = tt;
    delivered_all = omega (arith, delivered);
    accepted_all = omega (arith, accepted);
    stopped = why;
  }

  -- A drain settles the files from the oldest on: each that it removes was unreadable or answered for,
  -- the delivered and accepted results are those of the removed files, and it stops only when none is left, when its time
  -- is over or when the server does not answer for the next file, which stays with all after it.
  pub drain_entries-Splits :
      (es : List SpoolEntry) (d : Drained)
      → d.is_failed ≡ false
      → Splits es d (drain_entries turn es d)
  unfolding drain_entries Stopped drain_entry
  drain_entries-Splits [] d fine = record {
    handled = [];
    in_order = refl;
    settled = tt;
    delivered_all = omega arith;
    accepted_all = omega arith;
    stopped = fine;
  }
  drain_entries-Splits (e ∷ es) d fine =
      drain_step-Splits e es d (drain_entry (turn e) e d)
        (drain_entry-Steps (turn e).expired (turn e) e d fine)
        (drain_entries-Splits es (drain_entry (turn e) e d).0)
