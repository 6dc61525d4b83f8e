-- ===== src/Destgate/Tests.antt =====
-- Passes through internal/destgate/destgate.go's gate, and the theorems at them.
use radar_node.Base.{ℕ, ◌+◌, ◌≤◌, ◌≡◌, refl, [], ◌∷◌, arith, length, lookup, insert}
use radar_node.Agent.Clock.{seconds, unix_epoch}
use radar_node.Destgate.{
  Gate, waits, max_destinations, configure, unconfigured, grant, try_turn, try_turn_from,
}
use radar_node.Destgate.Spacing.{Reached, begins, turns, Spaced, Reached-Spaced}

abbrev gate : Gate
gate = configure (seconds 10) (seconds 30) unconfigured

-- One destination is granted a turn, waits for 6 seconds, and is granted the next.
abbrev later : ℕ → ℕ
later s = unix_epoch + seconds s

abbrev first : Gate
first = (try_turn "example.org" (later 0) gate).0

busy : (try_turn "example.org" (later 4) first).1 ≡ waits (seconds 6)
unfolding try_turn try_turn_from grant lookup insert
busy = refl

Reached-twice :
    Reached
      (seconds 10)
      (seconds 30)
      (try_turn "example.org" (later 11) first).0
      (("example.org", later 11) ∷ ("example.org", later 0) ∷ [])
unfolding try_turn try_turn_from grant lookup insert
Reached-twice =
    turns "example.org" (later 11) (turns "example.org" (later 0) begins (λ new. omega arith))
      (λ new. omega arith)

Reached-Spaced_example :
    Spaced (seconds 10) (("example.org", later 11) ∷ ("example.org", later 0) ∷ [])
Reached-Spaced_example =
    Reached-Spaced (seconds 10) (seconds 30) (try_turn "example.org" (later 11) first).0
      (("example.org", later 11) ∷ ("example.org", later 0) ∷ []) Reached-twice

first_fits : length first.last ≤ max_destinations
unfolding try_turn try_turn_from grant lookup insert
first_fits = omega arith
