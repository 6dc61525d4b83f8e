-- ===== src/Module/Pool/Batch/Keys.antt =====
-- The keys of the groups that CheckBatch of internal/module/pool.go collects.
use radar_node.Base.{
  ℕ, ◌≡◌, refl, Bool, false, ◌||◌, String, none, some, List, [], ◌∷◌, ◌++◌, ◌==◌, str_eq, eq_iff,
  any, any-append, arith, Bool-cases, inl, inr,
}
use radar_node.Module.Pool.Run.{PendingJob}
use radar_node.Module.Pool.Batch.{JobGroup, add_job}

pub none-some : {A : Type 0} (x : A) → none ≡ some x → ⊥
none-some x h = cc

abbrev pub has_head : ℕ → List JobGroup → Bool
has_head i gs = any (λ g. g.first.idx == i) gs

abbrev pub has_other : ℕ → List JobGroup → Bool
has_other i gs = any (λ g. any (λ d. d.idx == i) g.others) gs

abbrev pub has_key : String → List JobGroup → Bool
has_key key gs = any (λ g. str_eq g.first.key key) gs

abbrev pub Distinct : List JobGroup → Type 0
Distinct [] = Unit
Distinct (g ∷ gs) = (has_key g.first.key gs ≡ false) × Distinct gs

has_key-add_job :
    (key : String) (j : PendingJob) (gs : List JobGroup)
    → has_key key (add_job j gs) ≡ (has_key key gs || str_eq j.key key)
unfolding add_job
has_key-add_job key j [] = ground arith
has_key-add_job key j (g ∷ gs) = ground (
  arith,
  has_key-add_job key j gs,
  eq_iff g.first.key j.key,
  eq_iff g.first.key key,
  eq_iff j.key key,
)

pub add_job-Distinct : (j : PendingJob) (gs : List JobGroup) → Distinct gs → Distinct (add_job j gs)
unfolding add_job
add_job-Distinct j [] d = (refl, tt)
add_job-Distinct j (g ∷ gs) (d, ds) = elim (Bool-cases (str_eq g.first.key j.key)) [
  | inl same ↦ rw (same, add_job) (d, ds)
  | inr other ↦
      rw (other, add_job)
        (
          ground (
            arith,
            has_key-add_job g.first.key j gs,
            d,
            other,
            eq_iff j.key g.first.key,
            eq_iff g.first.key j.key,
          ),
          add_job-Distinct j gs ds,
        )
]

has_other-append :
    (i : ℕ) (g : JobGroup) (j : PendingJob)
    → any (λ d. d.idx == i) (g.others ++ j ∷ []) ≡ (any (λ d. d.idx == i) g.others || j.idx == i)
has_other-append i g j =
    ground (arith, any-append (λ (d : PendingJob). d.idx == i) g.others (j ∷ []))

pub has-add_job :
    (i : ℕ) (j : PendingJob) (gs : List JobGroup)
    → (has_head i (add_job j gs) || has_other i (add_job j gs))
      ≡ (has_head i gs || has_other i gs || j.idx == i)
unfolding add_job
has-add_job i j [] = ground arith
has-add_job i j (g ∷ gs) = ground (arith, has-add_job i j gs, has_other-append i g j)
