-- ===== src/Destgate/Spacing.antt =====
-- The time between the turns that internal/destgate/destgate.go grants to one destination.
use radar_node.Base.{
  ℕ, ◌+◌, ◌-◌, ◌≤◌, ◌<◌, ◌≡◌, refl, Bool, true, false, ◌||◌, String, Option, none, some, List, [],
  ◌∷◌, leb, ◌==◌, str_eq, lookup, length, lookup-insert, arith, Bool-cases, inl, inr, ◌∙◌, sym,
  subst, ap, le→leb, leb→gt,
}
use mathlib.Core.Option.{some-injective}
use radar_node.Destgate.{
  Gate, Turn, ungated, granted, waits, max_destinations, configure, unconfigured, grant, try_turn,
  try_turn_from,
}

-- The turns granted so far, the newest first.
abbrev pub log_turn : Turn → String → ℕ → List (String × ℕ) → List (String × ℕ)
log_turn ungated dest now log = log
log_turn granted dest now log = (dest, now) ∷ log
log_turn (waits remaining) dest now log = log

-- The states of a gate with its log, while a new destination finds room without an eviction.
pub data Reached (floor max_wait : ℕ) : Gate → List (String × ℕ) → Type 0 where
  begins : Reached floor max_wait (configure floor max_wait unconfigured) []
  turns :
      {g : Gate} {log : List (String × ℕ)} (dest : String) (now : ℕ)
      → Reached floor max_wait g log
      → (lookup dest g.last ≡ none → length g.last < max_destinations)
      → Reached floor max_wait
          (try_turn dest now g).0
          (log_turn (try_turn dest now g).1 dest now log)

-- Each turn comes at least the floor after the turn of the same destination before it.
pub Spaced : ℕ → List (String × ℕ) → Type 0
Spaced floor [] = Unit
Spaced floor (turn ∷ log) =
    ((prev : ℕ) → lookup turn.0 log ≡ some prev → prev + floor ≤ turn.1) × Spaced floor log

record Logs (floor : ℕ) (g : Gate) (log : List (String × ℕ)) : Type 0 where
  floor_kept : g.floor ≡ floor
  last_logged : (dest : String) → lookup dest g.last ≡ lookup dest log
  spaced : Spaced floor log

lt→leb : (m n : ℕ) → n < m → leb m n ≡ false
lt→leb m n h = ground arith

grant-Logs :
    (floor now : ℕ) (dest : String) (g : Gate) (log : List (String × ℕ))
    → Logs floor g log
    → ((prev : ℕ) → lookup dest log ≡ some prev → prev + floor ≤ now)
    → Logs floor (grant dest now g) ((dest, now) ∷ log)
unfolding grant Spaced lookup
grant-Logs floor now dest g log l late = record {
  floor_kept = l.floor_kept;
  last_logged = λ other. lookup-insert dest other now g.last ∙ rw (l.last_logged other) refl;
  spaced = (late, l.spaced);
}

-- The pass, with what the gate knows of the destination, where the gate is on.
try_turn_from-Logs :
    (o : Option ℕ) (floor now : ℕ) (dest : String) (g : Gate) (log : List (String × ℕ))
    → lookup dest g.last ≡ o
    → (g.floor == 0) ≡ false
    → Logs floor g log
    → (o ≡ none → length g.last < max_destinations)
    → let (g', turn) = try_turn_from o dest now g in Logs floor g' (log_turn turn dest now log)
unfolding try_turn_from
try_turn_from-Logs none floor now dest g log e on l room =
    rw (lt→leb max_destinations (length g.last) (room refl))
      (grant-Logs floor now dest g log l (λ prev h. ground (arith, h, e, l.last_logged dest)))
try_turn_from-Logs (some prev) floor now dest g log e on l room =
    elim (Bool-cases (leb (prev + g.floor) now)) [
      | inl waited ↦ rw waited (
          grant-Logs floor now dest g log l (λ p h.
            subst (λ x. x + floor ≤ now) (some-injective _ _ (sym e ∙ l.last_logged dest ∙ h))
              (ground (arith, waited, l.floor_kept))))
      | inr early ↦ rw early l
    ]

try_turn-Logs :
    (floor now : ℕ) (dest : String) (g : Gate) (log : List (String × ℕ))
    → Logs floor g log
    → (lookup dest g.last ≡ none → length g.last < max_destinations)
    → Logs floor (try_turn dest now g).0 (log_turn (try_turn dest now g).1 dest now log)
unfolding try_turn
try_turn-Logs floor now dest g log l room = elim (Bool-cases (str_eq dest "" || g.floor == 0)) [
  | inl off ↦ rw off l
  | inr on ↦ rw on (
      try_turn_from-Logs (lookup dest g.last) floor now dest g log refl (ground (arith, on)) l room)
]

Reached-Logs :
    (floor max_wait : ℕ) (g : Gate) (log : List (String × ℕ))
    → Reached floor max_wait g log
    → Logs floor g log
unfolding Spaced lookup
Reached-Logs floor max_wait _ _ begins = record {
  floor_kept = refl;
  last_logged = λ dest. refl;
  spaced = tt;
}
Reached-Logs floor max_wait _ _ (turns {g} {log} dest now r room) =
    try_turn-Logs floor now dest g log (Reached-Logs floor max_wait g log r) room

-- However the passes of the callers follow each other, and whatever the clock shows, two turns in a
-- row that are granted to one destination lie at least the floor apart, as long as no destination is
-- evicted.
pub Reached-Spaced :
    (floor max_wait : ℕ) (g : Gate) (log : List (String × ℕ))
    → Reached floor max_wait g log
    → Spaced floor log
Reached-Spaced floor max_wait g log r = (Reached-Logs floor max_wait g log r).spaced

remaining_of : Turn → ℕ
remaining_of ungated = 0
remaining_of granted = 0
remaining_of (waits remaining) = remaining

is_waiting : Turn → Bool
is_waiting ungated = false
is_waiting granted = false
is_waiting (waits remaining) = true

no_timer : {A : Type 0} (turn : Turn) (r : ℕ) → is_waiting turn ≡ false → turn ≡ waits r → A
unfolding is_waiting
no_timer turn r h e = ground (arith, subst (λ t. is_waiting t ≡ false) e h)

-- What is to be shown of a pass, at the instant of a later one.
abbrev LaterTurn : ℕ → ℕ → ℕ → Turn → Type 0
LaterTurn now remaining later turn =
    (now + remaining ≤ later → turn ≡ granted)
    × (later < now + remaining → turn ≡ waits (now + remaining - later))

try_turn_from-waits :
    (o : Option ℕ) (now remaining later : ℕ) (dest : String) (g : Gate)
    → (try_turn_from o dest now g).1 ≡ waits remaining
    → ((try_turn_from o dest now g).0 ≡ g)
      × LaterTurn now remaining later (try_turn_from o dest later g).1
unfolding try_turn_from is_waiting remaining_of
try_turn_from-waits none now remaining later dest g busy =
    elim (Bool-cases (leb max_destinations (length g.last))) [
      | inl full ↦ no_timer granted remaining refl (rw full at busy)
      | inr room ↦ no_timer granted remaining refl (rw room at busy)
    ]
try_turn_from-waits (some prev) now remaining later dest g busy =
    elim (Bool-cases (leb (prev + g.floor) now)) [
      | inl waited ↦ no_timer granted remaining refl (rw waited at busy)
      | inr early ↦
          let left = ap remaining_of (rw early at busy) in
          (
            rw early refl,
            (
              λ h.
                  rw
                    (le→leb (prev + g.floor) later
                      (omega (arith, left, h, leb→gt (prev + g.floor) now early)))
                    refl,
              λ h.
                  rw
                    (lt→leb (prev + g.floor) later
                      (omega (arith, left, h, leb→gt (prev + g.floor) now early)))
                    (ap waits (omega (arith, left, h, leb→gt (prev + g.floor) now early))),
            ),
          )
    ]

-- A pass that finds the destination busy changes nothing and asks for exactly the time that is left:
-- while no other turn is granted, a pass after that time is granted, and one before is told what is
-- then left.
pub try_turn-waits :
    (now remaining later : ℕ) (dest : String) (g : Gate)
    → (try_turn dest now g).1 ≡ waits remaining
    → let turn = (try_turn dest later g).1 in
      ((try_turn dest now g).0 ≡ g)
      × ((now + remaining ≤ later → turn ≡ granted)
          × (later < now + remaining → turn ≡ waits (now + remaining - later)))
unfolding try_turn is_waiting
try_turn-waits now remaining later dest g busy =
    elim (Bool-cases (str_eq dest "" || g.floor == 0)) [
      | inl off ↦ no_timer ungated remaining refl (rw off at busy)
      | inr on ↦
          rw on
            (try_turn_from-waits (lookup dest g.last) now remaining later dest g (rw on at busy))
    ]
