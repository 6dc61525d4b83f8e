-- ===== src/Module/Pool/Batch/Heads.antt =====
-- The heads of the groups of CheckBatch of internal/module/pool.go.
use radar_node.Base.{
  All-weaken, ℕ, ◌≡◌, refl, ap, subst, true, ◌||◌, List, [], ◌∷◌, map, ◌==◌, any, All, arith,
  Bool-cases, inl, inr,
}
use radar_node.Module.Pool.Run.{PendingJob}
use radar_node.Module.Pool.Batch.{JobGroup}
use radar_node.Module.Pool.Batch.Keys.{has_head}

pub All-heads :
    (P : PendingJob → Type 0) (gs : List JobGroup)
    → All (λ g. P g.first) gs
    → All P (map (λ (g : JobGroup). g.first) gs)
All-heads P [] h = tt
All-heads P (g ∷ gs) (h, hs) = (h, All-heads P gs hs)

pub any-heads :
    (i : ℕ) (gs : List JobGroup)
    → any (λ p. p.idx == i) (map (λ (g : JobGroup). g.first) gs) ≡ has_head i gs
any-heads i [] = refl
any-heads i (g ∷ gs) = ap (◌||◌ (g.first.idx == i)) (any-heads i gs)

pub head_at :
    (P : ℕ → Type 0) (i : ℕ) (gs : List JobGroup)
    → All (λ g. P g.first.idx) gs
    → has_head i gs ≡ true
    → P i
head_at P i [] h e = let absurd : ⊥ = cc in elim absurd [ ]
head_at P i (g ∷ gs) (h, hs) e = elim (Bool-cases (g.first.idx == i)) [
  | inl same ↦ let at : g.first.idx ≡ i = ground (arith, same) in subst P (at) h
  | inr other ↦ head_at P i gs hs (ground (arith, e, other))
]

pub heads_have_heads : (gs : List JobGroup) → All (λ g. has_head g.first.idx gs ≡ true) gs
heads_have_heads [] = tt
heads_have_heads (g ∷ gs) = (
  ground arith,
  All-weaken (λ h. has_head h.first.idx gs ≡ true) (λ h. has_head h.first.idx (g ∷ gs) ≡ true) gs
      (λ h e. ground (arith, e)) (heads_have_heads gs),
)
