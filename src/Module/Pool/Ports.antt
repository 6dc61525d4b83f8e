-- ===== src/Module/Pool/Ports.antt =====
-- The ports that internal/module/pool.go gives to the jobs of an engine. Whether a port can be bound,
-- and the answers of the system to the requests for a port, none where it reports an error, are the
-- arguments `free` and `alloc`.
use radar_node.Base.{
  ℕ, zero, suc, ◌+◌, ◌≤◌, ◌<◌, ◌≡◌, refl, Bool, true, false, not, ◌&&◌, Option, none, some, List,
  [], ◌∷◌, arith, ◌==◌, if◌then◌else◌, any, take, Bool-cases, ◌⊎◌, inl, inr,
}

-- `used[port]`.
abbrev pub taken : List ℕ → ℕ → Bool
taken used port = any (λ p. p == port) used

-- The loop of `allocateUniquePortInRange`, over the next `span` ports.
unfoldable pub allocate_unique_port_in_range : (ℕ → Bool) → List ℕ → ℕ → ℕ → Option ℕ
allocate_unique_port_in_range free used base zero = none
allocate_unique_port_in_range free used base (suc span) =
    let rest = allocate_unique_port_in_range free used (suc base) span in
    if taken used base then rest else if free base then some base else rest

abbrev pub attempts : ℕ
attempts = 256

-- The loop of `allocateUniquePort`, over the next answers to its requests.
unfoldable pub try_ports : List ℕ → List (Option ℕ) → Option ℕ
try_ports used [] = none
try_ports used (none ∷ answers) = none
try_ports used (some port ∷ answers) =
    let rest = try_ports used answers in if taken used port then rest else some port

-- `allocateUniquePort`.
unfoldable pub allocate_unique_port : List ℕ → List (Option ℕ) → Option ℕ
allocate_unique_port used answers = try_ports used (take attempts answers)

-- A port that the range gives: in it, not pinned, able to be bound, and the first such.
abbrev pub usable : (ℕ → Bool) → List ℕ → ℕ → Bool
usable free used port = not (taken used port) && free port

-- The result of a range: the lowest usable port in it, and none only where it has no usable port.
unfoldable pub FirstUsable : (ℕ → Bool) → List ℕ → ℕ → ℕ → Option ℕ → Type 0
FirstUsable free used base span none =
    (port : ℕ) → base ≤ port → port < base + span → usable free used port ≡ false
FirstUsable free used base span (some port) =
    (base ≤ port)
    × (port < base + span)
    × (usable free used port ≡ true)
    × ((other : ℕ) → base ≤ other → other < port → usable free used other ≡ false)

base_or_above : (base port : ℕ) → base ≤ port → (port ≡ base) ⊎ (suc base ≤ port)
base_or_above base port h = elim (Bool-cases (base == port)) [
  | inl same ↦ inl (ground (arith, same))
  | inr other ↦ inr (ground (arith, other, h))
]

FirstUsable-below :
    (free : ℕ → Bool) (used : List ℕ) (base span : ℕ) (o : Option ℕ)
    → usable free used base ≡ false
    → FirstUsable free used (suc base) span o
    → FirstUsable free used base (suc span) o
unfolding FirstUsable
FirstUsable-below free used base span none unusable first = λ port at_least below.
    elim (base_or_above base port at_least) [
      | inl e ↦ rw e unusable
      | inr above ↦ first port above (omega (arith, below))
    ]
FirstUsable-below free used base span (some port) unusable (at_least, below, fine, first) = (
  omega (arith, at_least),
  omega (arith, below),
  fine,
  λ other base_le lt. elim (base_or_above base other base_le) [
    | inl e ↦ rw e unusable
    | inr above ↦ first other above lt
  ],
)

-- `allocateUniquePortInRange` gives the lowest port of its range that is not pinned and can be bound,
-- and reports an error only when the range has no such port.
pub allocate_unique_port_in_range-FirstUsable :
    (free : ℕ → Bool) (used : List ℕ) (base span : ℕ)
    → FirstUsable free used base span (allocate_unique_port_in_range free used base span)
unfolding allocate_unique_port_in_range FirstUsable
allocate_unique_port_in_range-FirstUsable free used base zero = λ port h1 h2. ground (arith, h1, h2)
allocate_unique_port_in_range-FirstUsable free used base (suc span) =
    let ih = allocate_unique_port_in_range-FirstUsable free used (suc base) span in
    elim (Bool-cases (taken used base)) [
      | inl pinned ↦ rw pinned (FirstUsable-below free used base span _ (rw pinned refl) ih)
      | inr unpinned ↦ elim (Bool-cases (free base)) [
        | inl can_bind ↦
            rw (unpinned, can_bind)
              (
                omega arith,
                omega arith,
                rw (unpinned, can_bind) refl,
                λ other h1 h2. ground (arith, h1, h2),
              )
        | inr bound ↦
            rw (unpinned, bound)
              (FirstUsable-below free used base span _ (rw (unpinned, bound) refl) ih)
      ]
    ]
