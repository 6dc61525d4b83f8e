-- ===== src/Module/Pool/Batch/Words.antt =====
-- Where CheckBatch of internal/module/pool.go writes what the slots say.
use radar_node.Base.{
  ℕ, ◌≤◌, ◌≡◌, refl, sym, ap, ◌∙◌, Bool, true, false, ◌||◌, String, some, get_elem?, List, [], ◌∷◌,
  map, ◌==◌, str_eq, eq_iff, if◌then◌else◌, any, All, sum, sort, sort-sum, arith, Bool-cases, inl,
  inr,
}
use radar_node.Wire.{Value}
use radar_node.Module.Pool.Run.{Options, PendingJob, JobReport}
use radar_node.Module.Pool.Batch.{
  ran, Result, Module, JobGroup, set_result, reported, write_reports,
}
use radar_node.Module.Pool.Batch.Slots.{firsts}
use radar_node.Module.Pool.Batch.Keys.{has_head, has_other, has_key, Distinct}
use radar_node.Module.Pool.Batch.Groups.{key_of, IsJob, IsJob-option, IsGroup}
use radar_node.Module.Pool.Batch.Told.{said_by_slot}

-- How many jobs have a key.
abbrev pub occurs : String → List PendingJob → ℕ
occurs key ps = sum (map (λ p. if str_eq p.key key then 1 else 0) ps)

has_key-occurs :
    (key : String) (gs : List JobGroup)
    → has_key key gs ≡ false
    → occurs key (map (λ (g : JobGroup). g.first) gs) ≡ 0
has_key-occurs key [] h = refl
has_key-occurs key (g ∷ gs) h = ground (arith, h, has_key-occurs key gs)

occurs-heads :
    (key : String) (gs : List JobGroup)
    → Distinct gs
    → occurs key (map (λ (g : JobGroup). g.first) gs) ≤ 1
occurs-heads key [] d = omega arith
occurs-heads key (g ∷ gs) (d, ds) = elim (Bool-cases (str_eq g.first.key key)) [
  | inl same ↦
      let rest : has_key key gs ≡ false =
        ap (λ k. has_key k gs) (sym ((eq_iff g.first.key key).0 same)) ∙ d in
      ground (arith, same, has_key-occurs key gs rest)
  | inr other ↦ ground (arith, other, occurs-heads key gs ds)
]

-- The slots are asked for a key at most once.
pub occurs-sort-heads :
    (less : PendingJob → PendingJob → Bool) (key : String) (gs : List JobGroup)
    → Distinct gs
    → occurs key (sort less (map (λ (g : JobGroup). g.first) gs)) ≤ 1
occurs-sort-heads less key gs d = omega (
  arith,
  sort-sum less (λ p. if str_eq p.key key then 1 else 0) (map (λ (g : JobGroup). g.first) gs),
  occurs-heads key gs d,
)

pub any-key-heads :
    (key : String) (gs : List JobGroup)
    → any (λ p. str_eq p.key key) (map (λ (g : JobGroup). g.first) gs) ≡ has_key key gs
any-key-heads key [] = refl
any-key-heads key (g ∷ gs) = ap (◌||◌ (str_eq g.first.key key)) (any-key-heads key gs)

module _ (parses : String → Bool) (digest : String → ℕ → List (String × Value) → String → String)
    (m : Module) (opts : List Options) where
  same_place :
      (p q : PendingJob)
      → IsJob parses digest m opts p
      → IsJob parses digest m opts q
      → q.idx ≡ p.idx
      → q.key ≡ p.key
  same_place p q hp hq e =
      (IsJob-option parses digest m opts q p.idx hp.option hq e hp.here).2 ∙ sym hp.key

  other_places :
      (p : PendingJob) (qs : List PendingJob)
      → IsJob parses digest m opts p
      → All (IsJob parses digest m opts) qs
      → occurs p.key qs ≡ 0
      → any (λ q. q.idx == p.idx) qs ≡ false
  other_places p [] hp h none_left = refl
  other_places p (q ∷ qs) hp (hq, h) none_left = elim (Bool-cases (q.idx == p.idx)) [
    | inl same ↦
        let e = same_place p q hp hq (ground (arith, same)) in
        absurd (ground (arith, none_left, (eq_iff q.key p.key).1 e))
    | inr other ↦ rw other (other_places p qs hp h (ground (arith, none_left)))
  ]

  in_others :
      (i : ℕ) (o : Options) (key : String) (ds : List PendingJob)
      → get_elem? opts i ≡ some o
      → All (λ d. IsJob parses digest m opts d × (d.key ≡ key)) ds
      → any (λ d. d.idx == i) ds ≡ true
      → key ≡ key_of parses digest m opts o
  in_others i o key [] here h found = cc
  in_others i o key (d ∷ ds) here ((hd, same_key), h) found = elim (Bool-cases (d.idx == i)) [
    | inl same ↦
        sym same_key ∙ (IsJob-option parses digest m opts d i o hd (ground (arith, same)) here).2
    | inr other ↦ in_others i o key ds here h (ground (arith, other, found))
  ]

  -- An option that stands in a group has the key of one.
  pub key_found :
      (i : ℕ) (o : Options) (gs : List JobGroup)
      → get_elem? opts i ≡ some o
      → All (IsGroup parses digest m opts) gs
      → (has_head i gs || has_other i gs) ≡ true
      → has_key (key_of parses digest m opts o) gs ≡ true
  key_found i o [] here a found = cc
  key_found i o (g ∷ gs) here ((first, others), a) found = elim (Bool-cases (g.first.idx == i)) [
    | inl same ↦
        let e =
          (IsJob-option parses digest m opts g.first i o first (ground (arith, same)) here).2 in
        ground (arith, (eq_iff g.first.key (key_of parses digest m opts o)).1 e)
    | inr other ↦ elim (Bool-cases (any (λ d. d.idx == i) g.others)) [
      | inl among ↦
          let e = in_others i o g.first.key g.others here others among in
          ground (arith, (eq_iff g.first.key (key_of parses digest m opts o)).1 e)
      | inr neither ↦
          let rest = key_found i o gs here a (ground (arith, found, other, neither)) in
          ground (arith, rest)
    ]
  ]

module _ {M : Type 0} where
  untouched :
      (reports : List (PendingJob × JobReport M)) (results : ℕ → Result M) (j : ℕ)
      → any (λ p. p.idx == j) (firsts reports) ≡ false
      → write_reports reports results j ≡ results j
  untouched [] results j h = refl
  untouched ((p, x) ∷ rest) results j h =
      let other : (j == p.idx) ≡ false = ground (arith, h) in
      untouched rest (set_result p.idx (reported p x) results) j (ground (arith, h)) ∙ rw other refl

  module _ (parses : String → Bool) (digest : String → ℕ → List (String × Value) → String → String)
      (m : Module) (opts : List Options) where
    -- What a slot says of a job stands at the job's place.
    pub reports_written :
        (reports : List (PendingJob × JobReport M)) (results : ℕ → Result M)
        → All (IsJob parses digest m opts) (firsts reports)
        → ((key : String) → occurs key (firsts reports) ≤ 1)
        → All (λ e. write_reports reports results e.0.idx ≡ reported e.0 e.1) reports
    reports_written [] results h once = tt
    reports_written ((p, x) ∷ rest) results (hp, h) once = (
      untouched rest (set_result p.idx (reported p x) results) p.idx (
            other_places parses digest m opts p (firsts rest) hp h
              (ground (arith, once p.key, (eq_iff p.key p.key).1 refl)))
          ∙ at_place p.idx,
      reports_written rest (set_result p.idx (reported p x) results) h
          (λ key. ground (arith, once key)),
    )
      where
        at_place : (i : ℕ) → set_result i (reported p x) results i ≡ reported p x
        at_place i = ground arith

  -- So the words that are found at the places of the jobs are the slots' own.
  pub words_of_slots :
      (said : String → JobReport M) (written : ℕ → Result M)
      (reports : List (PendingJob × JobReport M))
      → All (λ e. written e.0.idx ≡ reported e.0 e.1) reports
      → All (λ p. (written p.idx).report ≡ ran (said p.key)) (firsts reports)
      → All (λ e. e.1 ≡ said e.0.key) reports
  words_of_slots said written [] a b = tt
  words_of_slots said written ((p, x) ∷ rest) (a, more) (b, bs) = (
    ap said_by_slot (sym (ap (λ (r : Result M). r.report) a) ∙ b),
    words_of_slots said written rest more bs,
  )
