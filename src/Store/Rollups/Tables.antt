-- ===== src/Store/Rollups/Tables.antt =====
-- The table of internal/store/rollups.go after a chunk of rows was aggregated and upserted.
use radar_node.Base.{
  ◌≡◌, refl, sym, ap, ◌∙◌, true, false, List, [], ◌∷◌, if◌then◌else◌, arith, Bool-cases, inl, inr,
}
use radar_node.Store.Rollups.{
  RollupKey, RollupAgg, RollupRow, empty_agg, same_key, add_row, add_to, aggregate, merge, upsert,
  upsert_all,
}
use radar_node.Store.Rollups.Sums.{
  value, has_key, add_rows, same_key_sym, same_key-cong, IsAgg, add_row-IsAgg, merge-empty_agg,
  empty_agg-merge, empty_agg-IsAgg, merge-add_rows,
}

-- Every aggregate of a map is one, and no key has two.
pub AreAggs : List (RollupKey × RollupAgg) → Type 0
AreAggs [] = Unit
AreAggs (e ∷ es) = IsAgg e.1 × (has_key e.0 es ≡ false) × AreAggs es

has_key-add_to :
    (k : RollupKey) (r : RollupRow) (m : List (RollupKey × RollupAgg))
    → has_key k m ≡ false
    → same_key k r.key ≡ false
    → has_key k (add_to r m) ≡ false
unfolding add_to
has_key-add_to k r [] h other = ground (arith, other)
has_key-add_to k r (e ∷ es) h other = ground (arith, h, other, has_key-add_to k r es)

add_to-AreAggs :
    (r : RollupRow) (m : List (RollupKey × RollupAgg)) → AreAggs m → AreAggs (add_to r m)
unfolding add_to AreAggs
add_to-AreAggs r [] h = (add_row-IsAgg r empty_agg empty_agg-IsAgg, refl, tt)
add_to-AreAggs r (e ∷ es) (agg, fresh, rest) = elim (Bool-cases (same_key e.0 r.key)) [
  | inl hit ↦ rw hit (add_row-IsAgg r e.1 agg, fresh, rest)
  | inr miss ↦ rw miss (agg, has_key-add_to e.0 r es fresh miss, add_to-AreAggs r es rest)
]

aggregate-AreAggs :
    (rs : List RollupRow) (m : List (RollupKey × RollupAgg)) → AreAggs m → AreAggs (aggregate rs m)
unfolding aggregate
aggregate-AreAggs [] m h = h
aggregate-AreAggs (r ∷ rs) m h = aggregate-AreAggs rs (add_to r m) (add_to-AreAggs r m h)

-- The map that a chunk is aggregated into adds each row to its key's aggregate.
value-add_to :
    (k : RollupKey) (r : RollupRow) (m : List (RollupKey × RollupAgg))
    → value k (add_to r m) ≡ (if same_key r.key k then add_row r (value k m) else value k m)
unfolding add_to
value-add_to k r [] = refl
value-add_to k r (e ∷ es) = elim (Bool-cases (same_key e.0 r.key)) [
  | inl hit ↦ ground (arith, hit, same_key-cong e.0 r.key k hit)
  | inr miss ↦
      ground (arith, miss, value-add_to k r es, same_key-cong e.0 k r.key, same_key_sym r.key k)
]

value-aggregate :
    (k : RollupKey) (rs : List RollupRow) (m : List (RollupKey × RollupAgg))
    → value k (aggregate rs m) ≡ add_rows k rs (value k m)
unfolding aggregate
value-aggregate k [] m = refl
value-aggregate k (r ∷ rs) m =
    value-aggregate k rs (add_to r m) ∙ ap (add_rows k rs) (value-add_to k r m)

value-absent :
    (k : RollupKey) (es : List (RollupKey × RollupAgg))
    → has_key k es ≡ false
    → value k es ≡ empty_agg
value-absent k [] h = refl
value-absent k (e ∷ es) h = ground (arith, h, same_key_sym k e.0, value-absent k es)

absent-cong :
    (a k : RollupKey) (es : List (RollupKey × RollupAgg))
    → same_key a k ≡ true
    → has_key a es ≡ false
    → has_key k es ≡ false
absent-cong a k [] same h = refl
absent-cong a k (e ∷ es) same h =
    ground (arith, h, same_key-cong a k e.0 same, absent-cong a k es same)

value-upsert :
    (k key : RollupKey) (agg : RollupAgg) (table : List (RollupKey × RollupAgg))
    → IsAgg agg
    → value k (upsert key agg table)
      ≡ (if same_key key k then merge agg (value k table) else value k table)
unfolding upsert
value-upsert k key agg [] h = ground (arith, merge-empty_agg agg h)
value-upsert k key agg (e ∷ es) h = elim (Bool-cases (same_key e.0 key)) [
  | inl hit ↦ ground (arith, hit, same_key-cong e.0 key k hit)
  | inr miss ↦
      ground (arith, miss, value-upsert k key agg es h, same_key-cong e.0 k key, same_key_sym key k)
]

value-upsert_all :
    (k : RollupKey) (es table : List (RollupKey × RollupAgg))
    → AreAggs es
    → value k (upsert_all es table) ≡ merge (value k es) (value k table)
unfolding upsert_all AreAggs
value-upsert_all k [] table h = sym (empty_agg-merge (value k table))
value-upsert_all k (e ∷ es) table (agg, fresh, rest) =
    value-upsert_all k es (upsert e.0 e.1 table) rest
    ∙ ap (merge (value k es)) (value-upsert k e.0 e.1 table agg)
    ∙ elim (Bool-cases (same_key e.0 k)) [
      | inl hit ↦
          rw (hit, value-absent k es (absent-cong e.0 k es hit fresh))
            (empty_agg-merge (merge e.1 (value k table)))
      | inr miss ↦ rw miss refl
    ]

-- A chunk adds each of its rows once to the aggregate of the row's key.
pub value-chunk :
    (k : RollupKey) (rs : List RollupRow) (table : List (RollupKey × RollupAgg))
    → value k (upsert_all (aggregate rs []) table) ≡ add_rows k rs (value k table)
unfolding AreAggs
value-chunk k rs table =
    value-upsert_all k (aggregate rs []) table (aggregate-AreAggs rs [] tt)
    ∙ ap (λ e. merge e (value k table)) (value-aggregate k rs [])
    ∙ merge-add_rows k rs empty_agg (value k table) empty_agg-IsAgg
    ∙ ap (add_rows k rs) (empty_agg-merge (value k table))
