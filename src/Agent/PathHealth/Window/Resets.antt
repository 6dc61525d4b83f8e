-- ===== src/Agent/PathHealth/Window/Resets.antt =====
-- The window of pathHealth (internal/agent/pathhealth.go) when it begins anew.
use radar_node.Base.{
  ℕ, ◌+◌, ◌*◌, ◌≤◌, ◌<◌, ◌≡◌, refl, arith, ◌⊎◌, inl, inr, Bool, Bool-cases, List, [], ◌∷◌, leb,
  if◌then◌else◌, length, retain, All, tests, leb→le, leb→gt,
}
use radar_node.Module.Placeholder.{Text}
use radar_node.Agent.PathHealth.Targets.{distinct_targets, tracked}
use radar_node.Agent.PathHealth.{
  Check, PathHealth, new_path_health, reset, is_misconfigured, state, path_health_window,
  is_network_error, record_check,
}

-- What happens to the window: a check, or a question for its state at an instant.
pub data Event : Type 0 where
  checked : Check → Event
  asked : ℕ → Event

abbrev pub time : Event → ℕ
time (checked c) = c.at
time (asked now) = now

-- The events, the newest first, are in the order of their instants, none of them Go's zero time.
abbrev pub Ordered : List Event → Type 0
Ordered [] = Unit
Ordered (e ∷ es) = All (λ d. time d ≤ time e) es × 0 < time e × Ordered es

-- The checks that say something of the path.
abbrev pub informative : List Event → List Check
informative [] = []
informative (checked c ∷ es) =
    if is_misconfigured c.err_code then informative es else c ∷ informative es
informative (asked now ∷ es) = informative es

module _ (lower : Text → Text) where
  abbrev perform : Event → PathHealth → PathHealth
  perform (checked c) p = record_check lower c p
  perform (asked now) p = (state now p).0

  abbrev pub performed : List Event → PathHealth
  performed [] = new_path_health
  performed (e ∷ es) = perform e (performed es)

  abbrev pub failed : Check → Bool
  failed c = is_network_error lower c.err_text c.err_code

  -- Checks of at least five targets, of which at least seven in ten failed in the network.
  abbrev pub Degraded : List Check → Type 0
  Degraded cs =
      (5 ≤ length (distinct_targets cs)) × (7 * length cs ≤ 10 * length (retain failed cs))

  abbrev pub since : ℕ → List Check → List Check
  since start cs = retain (λ c. leb start c.at) cs

  -- The window of some checks.
  abbrev pub summary : ℕ → List Check → PathHealth
  summary start cs = record {
    window_start = start;
    total = length cs;
    network_errors = length (retain failed cs);
    targets = tracked cs;
  }

  abbrev pub last_time : List Event → ℕ
  last_time [] = 0
  last_time (checked c ∷ es) = if is_misconfigured c.err_code then last_time es else c.at
  last_time (asked now ∷ es) = now

  pub record IsWindow (cs : List Check) (last : ℕ) (p : PathHealth) : Type 0 where
    pub latest : All (λ c. c.at ≤ last) cs
    pub begun :
        ((p.window_start ≡ 0) × (cs ≡ []))
        ⊎ (0 < p.window_start × p.window_start ≤ last × last < p.window_start + path_health_window)
    pub counts : p ≡ summary p.window_start (since p.window_start cs)

  since-none :
      (start last : ℕ) (cs : List Check)
      → last < start
      → All (λ c. c.at ≤ last) cs
      → since start cs ≡ []
  since-none start last [] h all = refl
  since-none start last (c ∷ cs) h all = ground (arith, since-none start last cs h all.1)

  later-All :
      (last now : ℕ) (cs : List Check)
      → last ≤ now
      → All (λ c. c.at ≤ last) cs
      → All (λ c. c.at ≤ now) cs
  later-All last now [] h all = tt
  later-All last now (c ∷ cs) h all = (omega arith, later-All last now cs h all.1)

  abbrev blank : ℕ → PathHealth
  blank now = record { window_start = now; total = 0; network_errors = 0; targets = [] }

  reset-zero : (now : ℕ) (p : PathHealth) → p.window_start ≡ 0 → reset now p ≡ blank now
  unfolding reset
  reset-zero now p e = ground arith

  reset-expired :
      (now : ℕ) (p : PathHealth)
      → p.window_start + path_health_window ≤ now
      → reset now p ≡ blank now
  unfolding reset
  reset-expired now p le = ground arith

  reset-kept :
      (now : ℕ) (p : PathHealth)
      → 0 < p.window_start
      → now < p.window_start + path_health_window
      → reset now p ≡ p
  unfolding reset
  reset-kept now p pos lt = ground arith

  -- A window that begins now, after the checks.
  blank-IsWindow :
      (cs : List Check) (now : ℕ)
      → 0 < now
      → All (λ c. c.at ≤ now) cs
      → since now cs ≡ []
      → IsWindow cs now (blank now)
  blank-IsWindow cs now pos all none_since = record {
    latest = all;
    begun = inr (pos, omega arith, omega arith);
    counts = rw none_since refl;
  }

  pub reset-IsWindow :
      (cs : List Check) (last now : ℕ) (p : PathHealth)
      → 0 < now
      → last ≤ now
      → IsWindow cs last p
      → IsWindow cs now (reset now p)
  reset-IsWindow cs last now p pos le w = elim w.begun [
    | inl (z, e) ↦
        rw (reset-zero now p z)
          (blank-IsWindow cs now pos (later-All last now cs le w.latest) (rw e refl))
    | inr (p0, b, r) ↦ elim (Bool-cases (leb (p.window_start + path_health_window) now)) [
      | inl old ↦ rw (reset-expired now p (leb→le _ _ old)) (
          blank-IsWindow cs now pos (later-All last now cs le w.latest)
            (since-none now last cs (omega (tests, old)) w.latest))
      | inr recent ↦ rw (reset-kept now p p0 (leb→gt _ _ recent)) (record {
        latest = later-All last now cs le w.latest;
        begun = inr (p0, omega arith, leb→gt _ _ recent);
        counts = w.counts;
      })
    ]
  ]

  pub reset-begun : (now : ℕ) (p : PathHealth) → 0 < now → 0 < (reset now p).window_start
  unfolding reset
  reset-begun now p pos = ground arith
