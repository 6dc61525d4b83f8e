-- ===== src/Agent/PathHealth/Targets.antt =====
-- The targets that a window of internal/agent/pathhealth.go has seen: the bound on the set does not
-- change whether they are enough.
use radar_node.Base.{
  ◌≤◌, ◌≡◌, refl, arith, ◌⊎◌, inl, inr, ◌||◌, Bool-cases, sym, ◌∙◌, le→leb, String, List, [], ◌∷◌,
  ltb, leb, str_eq, if◌then◌else◌, any, length,
}
use radar_node.Agent.PathHealth.{Check, track, path_max_tracked_hosts}

-- The targets of checks, each once, without the empty one.
abbrev pub distinct_targets : List Check → List String
distinct_targets [] = []
distinct_targets (c ∷ cs) =
    let rest = distinct_targets cs in
    if str_eq c.target "" || any (str_eq c.target) rest then rest else c.target ∷ rest

abbrev pub tracked : List Check → List String
tracked [] = []
tracked (c ∷ cs) = track c.target (tracked cs)

-- Up to its limit the set of targets holds each target once; from there on it stays.
tracked-distinct_targets :
    (cs : List Check)
    → (tracked cs ≡ distinct_targets cs)
      ⊎ ((path_max_tracked_hosts ≤ length (tracked cs))
          × (path_max_tracked_hosts ≤ length (distinct_targets cs)))
unfolding track
tracked-distinct_targets [] = inl refl
tracked-distinct_targets (c ∷ cs) = elim (tracked-distinct_targets cs) [
  | inr h ↦ inr (ground (arith, h))
  | inl e ↦ elim (Bool-cases (ltb (length (tracked cs)) path_max_tracked_hosts)) [
    | inl few ↦ inl (ground (arith, e, few))
    | inr full ↦ inr (ground (arith, e, full))
  ]
]

pub length-distinct_targets-le : (cs : List Check) → length (distinct_targets cs) ≤ length cs
length-distinct_targets-le [] = omega arith
length-distinct_targets-le (c ∷ cs) = ground (arith, length-distinct_targets-le cs)

pub enough_targets :
    (cs : List Check) → leb 5 (length (tracked cs)) ≡ leb 5 (length (distinct_targets cs))
enough_targets cs = elim (tracked-distinct_targets cs) [
  | inl e ↦ rw e refl
  | inr (h, k) ↦ le→leb 5 _ (omega arith) ∙ sym (le→leb 5 _ (omega arith))
]
