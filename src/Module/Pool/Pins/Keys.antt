-- ===== src/Module/Pool/Pins/Keys.antt =====
-- The keys of the jobs of internal/module/pool.go that have a pin.
use radar_node.Base.{
  ℕ, zero, suc, ◌≡◌, refl, ap, ◌∙◌, Bool, true, ◌||◌, String, some, List, [], ◌∷◌, str_eq, any, All,
  retain, insert, lookup, take, drop, eq_iff, arith, Bool-cases, inl, inr,
}
use radar_node.Module.Pool.Run.{PendingJob}

pub All-take :
    (P : PendingJob → Type 0) (n : ℕ) (ps : List PendingJob) → All P ps → All P (take n ps)
All-take P zero ps h = tt
All-take P (suc n) [] h = tt
All-take P (suc n) (p ∷ ps) (h, hs) = (h, All-take P n ps hs)

pub All-drop :
    (P : PendingJob → Type 0) (n : ℕ) (ps : List PendingJob) → All P ps → All P (drop n ps)
All-drop P zero ps h = h
All-drop P (suc n) [] h = tt
All-drop P (suc n) (p ∷ ps) (h, hs) = All-drop P n ps hs

-- Whether a key has a pin.
abbrev pub pinned : String → List (String × ℕ) → Bool
pinned key pins = any (λ e. str_eq e.0 key) pins

pub lookup-pinned :
    (key : String) (port : ℕ) (pins : List (String × ℕ))
    → lookup key pins ≡ some port
    → pinned key pins ≡ true
unfolding lookup
lookup-pinned key port [] h = cc
lookup-pinned key port (e ∷ es) h = ground (arith, h, lookup-pinned key port es)

pub pinned-lookup :
    (key : String) (pins : List (String × ℕ))
    → pinned key pins ≡ true
    → (port : ℕ) × (lookup key pins ≡ some port)
unfolding lookup
pinned-lookup key [] h = cc
pinned-lookup key (e ∷ es) h = elim (Bool-cases (str_eq e.0 key)) [
  | inl here ↦ (e.1, rw (here, lookup) refl)
  | inr other ↦
      let (port, found) = pinned-lookup key es (ground (arith, h, other)) in
      (port, rw (other, lookup) found)
]

pub pinned-insert :
    (key : String) (port : ℕ) (other : String) (pins : List (String × ℕ))
    → pinned other (insert key port pins) ≡ (pinned other pins || str_eq key other)
unfolding insert
pinned-insert key port other [] = ground arith
pinned-insert key port other (e ∷ es) =
    ground
      (arith, pinned-insert key port other es, eq_iff e.0 key, eq_iff e.0 other, eq_iff key other)

-- The pins of live keys stay.
retain-pinned :
    (live : List String) (key : String) (pins : List (String × ℕ))
    → any (str_eq key) live ≡ true
    → pinned key pins ≡ true
    → pinned key (retain (λ e. any (str_eq e.0) live) pins) ≡ true
retain-pinned live key [] alive h = h
retain-pinned live key (e ∷ es) alive h = elim (Bool-cases (str_eq e.0 key)) [
  | inl here ↦
      let kept : any (str_eq e.0) live ≡ true =
        ap (λ k. any (str_eq k) live) ((eq_iff e.0 key).0 here) ∙ alive in
      rw kept (rw here refl)
  | inr other ↦
      let rest = retain-pinned live key es alive (ground (arith, h, other)) in
      ground (arith, other, rest)
]

pub chunk_pinned :
    (live : List String) (pins : List (String × ℕ)) (ps : List PendingJob)
    → All (λ p. any (str_eq p.key) live ≡ true) ps
    → All (λ p. pinned p.key pins ≡ true) ps
    → All (λ p. pinned p.key (retain (λ e. any (str_eq e.0) live) pins) ≡ true) ps
chunk_pinned live pins [] a h = tt
chunk_pinned live pins (p ∷ ps) (a, later) (h, hs) =
    (retain-pinned live p.key pins a h, chunk_pinned live pins ps later hs)
