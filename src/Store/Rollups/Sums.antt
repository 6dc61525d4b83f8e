-- ===== src/Store/Rollups/Sums.antt =====
-- The aggregates of internal/store/rollups.go as sums over rows, however they are cut into chunks.
use radar_node.Base.{
  ℕ, zero, suc, ◌+◌, ◌≡◌, refl, sym, ap, ◌∙◌, Bool, true, false, ◌||◌, Option, none, some, List, [],
  ◌∷◌, ◌++◌, eq_iff, eq_refl, if◌then◌else◌, arith, Bool-cases, inl, inr,
}
use radar_node.Store.Rollups.{
  RollupKey, RollupAgg, RollupRow, empty_agg, same_key, lower, higher, add_latency, add_check,
  add_row, merged, merge,
}

-- What a table holds for a key.
abbrev pub value : RollupKey → List (RollupKey × RollupAgg) → RollupAgg
value k [] = empty_agg
value k (e ∷ es) = if same_key e.0 k then e.1 else value k es

abbrev pub has_key : RollupKey → List (RollupKey × RollupAgg) → Bool
has_key k [] = false
has_key k (e ∷ es) = same_key k e.0 || has_key k es

-- The rows of a key added to an aggregate, one by one.
abbrev pub add_rows : RollupKey → List RollupRow → RollupAgg → RollupAgg
add_rows k [] a = a
add_rows k (r ∷ rs) a = add_rows k rs (if same_key r.key k then add_row r a else a)

pub add_rows-append :
    (k : RollupKey) (rs ss : List RollupRow) (a : RollupAgg)
    → add_rows k (rs ++ ss) a ≡ add_rows k ss (add_rows k rs a)
add_rows-append k [] ss a = refl
add_rows-append k (r ∷ rs) ss a =
    add_rows-append k rs ss (if same_key r.key k then add_row r a else a)

same_key_sound : (a b : RollupKey) → same_key a b ≡ true → a ≡ b
unfolding same_key
same_key_sound a b h = ground (arith, eq_iff a.origin b.origin, eq_iff a.probe_id b.probe_id)

same_key_refl : (a : RollupKey) → same_key a a ≡ true
unfolding same_key
same_key_refl a = ground (arith, eq_refl a.origin, eq_refl a.probe_id)

pub same_key_sym : (a b : RollupKey) → same_key a b ≡ same_key b a
unfolding same_key
same_key_sym a b = ground (
  arith,
  eq_iff a.origin b.origin,
  eq_iff b.origin a.origin,
  eq_iff a.probe_id b.probe_id,
  eq_iff b.probe_id a.probe_id,
)

pub same_key-cong : (a b k : RollupKey) → same_key a b ≡ true → same_key a k ≡ same_key b k
same_key-cong a b k h = ap (λ x. same_key x k) (same_key_sound a b h)

-- An aggregate without latencies has no least and no greatest one.
pub IsAgg : RollupAgg → Type 0
IsAgg a = a.latency_count ≡ 0 → (a.latency_min ≡ none) × (a.latency_max ≡ none)

pub add_row-IsAgg : (r : RollupRow) (a : RollupAgg) → IsAgg a → IsAgg (add_row r a)
unfolding IsAgg add_row
add_row-IsAgg r a h e = ground (arith, h)

add_one : (n : ℕ) → n + 1 ≡ suc n
add_one n = omega arith

merged-none :
    (choose : ℕ → Option ℕ → Option ℕ) (n : ℕ) (m : Option ℕ)
    → ((v : ℕ) → choose v none ≡ some v)
    → (n ≡ 0 → m ≡ none)
    → merged choose n m none ≡ m
merged-none choose zero m single h = sym (h refl)
merged-none choose (suc n) none single h = refl
merged-none choose (suc n) (some v) single h = single v

pub merge-empty_agg : (a : RollupAgg) → IsAgg a → merge a empty_agg ≡ a
unfolding IsAgg merge
merge-empty_agg a h = ground (
  arith,
  merged-none lower a.latency_count a.latency_min (λ v. refl) (λ e. (h e).0),
  merged-none higher a.latency_count a.latency_max (λ v. refl) (λ e. (h e).1),
)

pub empty_agg-merge : (a : RollupAgg) → merge empty_agg a ≡ a
unfolding merge
empty_agg-merge a = ground arith

merged-lower :
    (n v u : ℕ) (o : Option ℕ) → merged lower (suc n) (lower v (some u)) o ≡ lower v (lower u o)
merged-lower n v u none = ground arith
merged-lower n v u (some w) = ground arith

merged-higher :
    (n v u : ℕ) (o : Option ℕ) → merged higher (suc n) (higher v (some u)) o ≡ higher v (higher u o)
merged-higher n v u none = ground arith
merged-higher n v u (some w) = ground arith

-- One more excluded latency, for the least and for the greatest.
merged-suc :
    (choose : ℕ → Option ℕ → Option ℕ) (n v : ℕ) (m o : Option ℕ)
    → ((x : ℕ) → choose x none ≡ some x)
    → ((k x u : ℕ) (p : Option ℕ)
        → merged choose (suc k) (choose x (some u)) p ≡ choose x (choose u p))
    → (n ≡ 0 → m ≡ none)
    → merged choose (n + 1) (choose v m) o ≡ choose v (merged choose n m o)
merged-suc choose zero v m o single nested h = rw (h refl, single v) refl
merged-suc choose (suc n) v none none single nested h = rw (add_one (suc n), single v) (single v)
merged-suc choose (suc n) v none (some w) single nested h = rw (add_one (suc n), single v) refl
merged-suc choose (suc n) v (some u) o single nested h = rw (add_one (suc n)) (nested (suc n) v u o)

merge-add_latency :
    (l : Option ℕ) (e a : RollupAgg)
    → IsAgg e
    → merge (add_latency l e) a ≡ add_latency l (merge e a)
unfolding IsAgg merge
merge-add_latency none e a h = refl
merge-add_latency (some v) e a h = ground (
  arith,
  merged-suc lower e.latency_count v e.latency_min a.latency_min (λ x. refl) merged-lower
      (λ z. (h z).0),
  merged-suc higher e.latency_count v e.latency_max a.latency_max (λ x. refl) merged-higher
      (λ z. (h z).1),
)

merge-add_check :
    (ok : Bool) (e a : RollupAgg) → merge (add_check ok e) a ≡ add_check ok (merge e a)
unfolding merge
merge-add_check true e a = ground arith
merge-add_check false e a = ground arith

pub empty_agg-IsAgg : IsAgg empty_agg
unfolding IsAgg
empty_agg-IsAgg h = (refl, refl)

add_check-IsAgg : (ok : Bool) (a : RollupAgg) → IsAgg a → IsAgg (add_check ok a)
unfolding IsAgg
add_check-IsAgg true a h = h
add_check-IsAgg false a h = h

merge-add_row :
    (r : RollupRow) (e a : RollupAgg) → IsAgg e → merge (add_row r e) a ≡ add_row r (merge e a)
unfolding add_row
merge-add_row r e a h =
    merge-add_latency r.latency_us (add_check r.ok e) a (add_check-IsAgg r.ok e h)
    ∙ ap (add_latency r.latency_us) (merge-add_check r.ok e a)

pub merge-add_rows :
    (k : RollupKey) (rs : List RollupRow) (e a : RollupAgg)
    → IsAgg e
    → merge (add_rows k rs e) a ≡ add_rows k rs (merge e a)
merge-add_rows k [] e a h = refl
merge-add_rows k (r ∷ rs) e a h = elim (Bool-cases (same_key r.key k)) [
  | inl hit ↦ rw hit (
      merge-add_rows k rs (add_row r e) a (add_row-IsAgg r e h)
      ∙ ap (add_rows k rs) (merge-add_row r e a h))
  | inr miss ↦ rw miss (merge-add_rows k rs e a h)
]
