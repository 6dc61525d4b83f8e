-- ===== src/Module/Pool/Batch/Writes.antt =====
-- Writes to the results of CheckBatch of internal/module/pool.go.
use radar_node.Base.{
  All-weaken, ℕ, ◌≡◌, ◌⊎◌, refl, subst, Bool, true, false, ◌||◌, List, [], ◌∷◌, ◌==◌, any, All,
  arith, Bool-cases, inl, inr,
}
use radar_node.Module.Pool.Run.{PendingJob, JobReport}
use radar_node.Module.Pool.Batch.{
  Result, JobGroup, set_result, reported, write_reports, copy_result, fan_out,
}
use radar_node.Module.Pool.Batch.Slots.{firsts}
use radar_node.Module.Pool.Batch.Keys.{has_other}

-- Writes to results keep what holds of the result at each number, and make it hold where they write.
module _ {M : Type 0} (P : ℕ → Result M → Type 0) where
  unwritten : (i j : ℕ) (r : Result M) → (j == i) ≡ false → P j r ⊎ ((i == j) ≡ true) → P j r
  unwritten i j r differ (inl h) = h
  unwritten i j r differ (inr same) =
      let absurd : ⊥ = ground (arith, same, differ) in elim absurd [ ]

  set_result-keeps :
      (i : ℕ) (r : Result M) (results : ℕ → Result M) (j : ℕ)
      → P i r
      → P j (results j) ⊎ ((i == j) ≡ true)
      → P j (set_result i r results j)
  set_result-keeps i r results j new old = elim (Bool-cases (j == i)) [
    | inl same ↦ let e : i ≡ j = ground (arith, same) in rw same (subst (λ k. P k r) (e) new)
    | inr differ ↦ rw differ (unwritten i j (results j) differ old)
  ]

  -- One write, for what is written there or later.
  written_now_or_later :
      (i : ℕ) (r : Result M) (results : ℕ → Result M) (j : ℕ) (later : Bool)
      → P i r
      → P j (results j) ⊎ ((i == j || later) ≡ true)
      → P j (set_result i r results j) ⊎ (later ≡ true)
  written_now_or_later i r results j later new (inl h) =
      inl (set_result-keeps i r results j new (inl h))
  written_now_or_later i r results j true new (inr h) = inr refl
  written_now_or_later i r results j false new (inr h) =
      inl (set_result-keeps i r results j new (inr (ground (arith, h))))

  pub write_reports-keeps :
      (reports : List (PendingJob × JobReport M)) (results : ℕ → Result M) (j : ℕ)
      → All (λ p. (x : JobReport M) → P p.idx (reported p x)) (firsts reports)
      → P j (results j) ⊎ (any (λ p. p.idx == j) (firsts reports) ≡ true)
      → P j (write_reports reports results j)
  write_reports-keeps [] results j h (inl old) = old
  write_reports-keeps [] results j h (inr e) = let absurd : ⊥ = cc in elim absurd [ ]
  write_reports-keeps ((p, x) ∷ rest) results j (h, hs) old =
      write_reports-keeps rest (set_result p.idx (reported p x) results) j hs (
        written_now_or_later p.idx (reported p x) results j (any (λ q. q.idx == j) (firsts rest))
          (h x) old)

  copy_result-keeps :
      (canonical : Result M) (ds : List PendingJob) (results : ℕ → Result M) (j : ℕ)
      → All (λ d. P d.idx (record canonical { seq = d.o.seq })) ds
      → P j (results j) ⊎ (any (λ d. d.idx == j) ds ≡ true)
      → P j (copy_result canonical ds results j)
  copy_result-keeps canonical [] results j h (inl old) = old
  copy_result-keeps canonical [] results j h (inr e) = let absurd : ⊥ = cc in elim absurd [ ]
  copy_result-keeps canonical (d ∷ ds) results j (h, hs) old =
      let copied = record canonical { seq = d.o.seq } in
      copy_result-keeps canonical ds (set_result d.idx copied results) j hs
        (written_now_or_later d.idx copied results j (any (λ e. e.idx == j) ds) h old)

  -- The copies of a group are made of a result for which it holds.
  abbrev pub Copies : JobGroup → Type 0
  Copies g =
      (r : Result M) → P g.first.idx r → All (λ d. P d.idx (record r { seq = d.o.seq })) g.others

  pub fan_out-keeps :
      (gs : List JobGroup) (results : ℕ → Result M) (j : ℕ)
      → All Copies gs
      → All (λ g. P g.first.idx (results g.first.idx)) gs
      → P j (results j) ⊎ (has_other j gs ≡ true)
      → P j (fan_out gs results j)
  fan_out-keeps [] results j c h (inl old) = old
  fan_out-keeps [] results j c h (inr e) = let absurd : ⊥ = cc in elim absurd [ ]
  fan_out-keeps (g ∷ gs) results j (c, cs) (h, hs) old =
      let canonical = results g.first.idx in
      let copied = copy_result canonical g.others results in
      let keeps = λ (i : ℕ) (before : P i (results i)).
        copy_result-keeps canonical g.others results i (c canonical h) (inl before) in
      fan_out-keeps gs copied j cs
        (All-weaken (λ k. P k.first.idx (results k.first.idx))
          (λ k. P k.first.idx (copied k.first.idx)) gs (λ k before. keeps k.first.idx before) hs)
        (copied_now_or_later old)
    where
      copied_now_or_later :
          P j (results j) ⊎ ((any (λ d. d.idx == j) g.others || has_other j gs) ≡ true)
          → P j (copy_result (results g.first.idx) g.others results j) ⊎ (has_other j gs ≡ true)
      copied_now_or_later (inl before) = inl (
          copy_result-keeps (results g.first.idx) g.others results j (c (results g.first.idx) h)
            (inl before))
      copied_now_or_later (inr e) = elim (Bool-cases (has_other j gs)) [
        | inl later ↦ inr later
        | inr now ↦ inl (
            copy_result-keeps (results g.first.idx) g.others results j (c (results g.first.idx) h)
              (inr (ground (arith, e, now))))
      ]
