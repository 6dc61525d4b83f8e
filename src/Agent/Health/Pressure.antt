-- ===== src/Agent/Health/Pressure.antt =====
-- The pressure that internal/agent/health.go derives from the samples.
use radar_node.Base.{
  ℕ, suc, ◌≡◌, refl, Bool, true, false, ◌⊎◌, inl, inr, List, [], ◌∷◌, arith, ℤ, pos, negsuc,
}
use radar_node.Agent.Health.{
  Reading, Resource, HealthSampler, new_health_sampler, hysteresis, high_streak, low_streak,
  measure, mem_high, mem_low, load_high, load_low, steal_high, steal_low, sample, pressure_of,
}

-- Samples that are high or low, the newest first; a sample in between is left out.
pub data Level : Type 0 where
  high : Level
  low : Level

-- A high sample wins where a sample would be both.
abbrev pub decisive : Bool → Bool → List Level → List Level
decisive true l history = high ∷ history
decisive false true history = low ∷ history
decisive false false history = history

-- The pressure that the last two equal neighbours of a history ask for.
unfoldable pub sustained : List Level → Bool
sustained [] = false
sustained (x ∷ []) = false
sustained (high ∷ high ∷ history) = true
sustained (low ∷ low ∷ history) = false
sustained (high ∷ low ∷ history) = sustained (low ∷ history)
sustained (low ∷ high ∷ history) = sustained (high ∷ history)

-- A streak that fits the newest sample.
Fits : List Level → Bool × ℤ → Type 0
Fits [] s = (s.0 ≡ false) × (s.1 ≡ pos 0)
Fits (high ∷ history) s = (s.0 ≡ sustained (high ∷ history)) × ((n : ℕ) × (s.1 ≡ pos (suc n)))
Fits (low ∷ history) s =
    (s.0 ≡ sustained (low ∷ history)) × (((s.0 ≡ false) × (s.1 ≡ pos 0)) ⊎ (s.1 ≡ negsuc 0))

hysteresis-Fits :
    (history : List Level) (active : Bool) (streak : ℤ) (h l : Bool)
    → Fits history (active, streak)
    → Fits (decisive h l history) (hysteresis active streak h l)
unfolding Fits hysteresis high_streak low_streak sustained
hysteresis-Fits history active streak false false fits = fits
hysteresis-Fits [] active streak true l (a, z) = (rw (a, z) refl, (0, rw z refl))
hysteresis-Fits [] active streak false true (a, z) = (rw (a, z) refl, inr (rw z refl))
hysteresis-Fits (high ∷ history) active streak true l (a, (n, z)) =
    (rw z (ground arith), (suc n, rw z refl))
hysteresis-Fits (high ∷ history) active streak false true (a, (n, z)) =
    (rw z (ground arith), inr (rw z (ground arith)))
hysteresis-Fits (low ∷ history) active streak true l (a, inl (f, z)) =
    (rw z (ground arith), (0, rw z refl))
hysteresis-Fits (low ∷ history) active streak true l (a, inr z) =
    (rw z (ground arith), (0, rw z refl))
hysteresis-Fits (low ∷ history) active streak false true (a, inl (f, z)) =
    (rw (f, z) refl, inr (rw z refl))
hysteresis-Fits (low ∷ history) active streak false true (a, inr z) =
    (rw z refl, inl (rw z refl, rw z refl))

-- The histories of the three resources after a run of samples, the newest first, each with the
-- instant at which it was taken, and the resource that they leave.
abbrev pub sampled : ℕ → List (ℕ × Reading) → HealthSampler
sampled start [] = new_health_sampler start
sampled start (r ∷ rs) = sample r.0 r.1 (sampled start rs)

abbrev pub measured_last : ℕ → List (ℕ × Reading) → Resource
measured_last start rs = (sampled start rs).resource

module _ (is_high is_low : Resource → Bool) (start : ℕ) where
  abbrev pub levels : List (ℕ × Reading) → List Level
  levels [] = []
  levels (r ∷ rs) =
      let m = measure r.1 (measured_last start rs) in decisive (is_high m) (is_low m) (levels rs)

sampled-Fits :
    (start : ℕ) (rs : List (ℕ × Reading))
    → let s = sampled start rs in
      Fits (levels mem_high mem_low start rs) (s.mem_hot, s.mem_streak)
      × Fits (levels load_high load_low start rs) (s.load_hot, s.load_streak)
      × Fits (levels steal_high steal_low start rs) (s.steal_hot, s.steal_streak)
unfolding Fits sample
sampled-Fits start [] = ((refl, refl), (refl, refl), (refl, refl))
sampled-Fits start (r ∷ rs) =
    let s = sampled start rs in
    let m = measure r.1 s.resource in
    let (mem, load, steal) = sampled-Fits start rs in
    (
      hysteresis-Fits _ s.mem_hot s.mem_streak (mem_high m) (mem_low m) mem,
      hysteresis-Fits _ s.load_hot s.load_streak (load_high m) (load_low m) load,
      hysteresis-Fits _ s.steal_hot s.steal_streak (steal_high m) (steal_low m) steal,
    )

Fits-sustained : (history : List Level) (s : Bool × ℤ) → Fits history s → s.0 ≡ sustained history
unfolding Fits sustained
Fits-sustained [] s fits = fits.0
Fits-sustained (high ∷ history) s fits = fits.0
Fits-sustained (low ∷ history) s fits = fits.0

-- After any samples, the newest first, memory, load and steal are hot exactly as the last two equal
-- neighbours among their decisive samples ask for, and the pressure of the newest sample is named
-- after these three.
pub sample-sustained :
    (start now : ℕ) (r : Reading) (before : List (ℕ × Reading))
    → let rs = (now, r) ∷ before in
      let s = sampled start rs in
      let memory = sustained (levels mem_high mem_low start rs) in
      let load = sustained (levels load_high load_low start rs) in
      let steal = sustained (levels steal_high steal_low start rs) in
      (s.mem_hot ≡ memory)
      × (s.load_hot ≡ load)
      × (s.steal_hot ≡ steal)
      × (s.resource.pressure ≡ pressure_of memory load steal)
unfolding sample
sample-sustained start now r before =
    let rs = (now, r) ∷ before in
    let (mem, load, steal) = sampled-Fits start rs in
    let memory_hot = Fits-sustained _ _ mem in
    let load_hot = Fits-sustained _ _ load in
    let steal_hot = Fits-sustained _ _ steal in
    (memory_hot, load_hot, steal_hot, rw (memory_hot, load_hot, steal_hot) refl)
