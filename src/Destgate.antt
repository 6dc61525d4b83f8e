-- ===== src/Destgate.antt =====
-- The spacing of checks that share a destination, internal/destgate/destgate.go. The package's
-- variables are a state; each pass of Wait's loop holds the mutex, so it is one step. A duration of
-- 0 stands for one that is not positive.
pub mod Spacing
pub mod Size
pub mod Tests
use radar_node.Base.{
  ℕ, ◌+◌, ◌-◌, ◌/◌, max, Bool, true, false, ◌&&◌, ◌||◌, String, Option, none, some, List, [], ◌∷◌,
  leb, ltb, ◌==◌, str_eq, if◌then◌else◌, lookup, insert, erase, length, take, sort,
}

abbrev pub max_destinations : ℕ
max_destinations = 4096

pub record Gate : Type 0 where
  pub last : List (String × ℕ)
  pub floor : ℕ
  pub max_wait : ℕ

-- The variables as the program starts, and `Configure`.
abbrev pub unconfigured : Gate
unconfigured = record { last = []; floor = 0; max_wait = 0 }

abbrev pub configure : ℕ → ℕ → Gate → Gate
configure floor max_wait g = record g { floor = floor; max_wait = max_wait }

-- `entries[i].at.Before(entries[j].at)`, and the deletion of entries.
abbrev pub earlier : String × ℕ → String × ℕ → Bool
earlier a b = ltb a.1 b.1

unfoldable pub erase_all : List (String × ℕ) → List (String × ℕ) → List (String × ℕ)
erase_all [] last = last
erase_all (e ∷ es) last = erase_all es (erase e.0 last)

-- `evictOldestLocked`.
unfoldable pub evict_oldest : List (String × ℕ) → List (String × ℕ)
evict_oldest last = erase_all (take (max (length last / 4) 1) (sort earlier last)) last

-- How a pass of Wait's loop ends: without a gate, with the turn recorded, or with a timer.
pub data Turn : Type 0 where
  ungated : Turn
  granted : Turn
  waits : ℕ → Turn

unfoldable pub grant : String → ℕ → Gate → Gate
grant dest now g = record g { last = insert dest now g.last }

unfoldable pub try_turn_from : Option ℕ → String → ℕ → Gate → Gate × Turn
try_turn_from none dest now g =
    if leb max_destinations (length g.last)
    then (grant dest now (record g { last = evict_oldest g.last }), granted)
    else (grant dest now g, granted)
try_turn_from (some prev) dest now g =
    if leb (prev + g.floor) now
    then (grant dest now g, granted)
    else (g, waits (prev + g.floor - now))

-- One pass of the loop of `Wait`, with the comparison of `now.Sub(prev)` and the floor, and the
-- difference of the two, written without a difference that may be negative.
unfoldable pub try_turn : String → ℕ → Gate → Gate × Turn
try_turn dest now g =
    if str_eq dest "" || g.floor == 0
    then (g, ungated)
    else try_turn_from (lookup dest g.last) dest now g
