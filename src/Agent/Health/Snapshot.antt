-- ===== src/Agent/Health/Snapshot.antt =====
-- What a heartbeat of internal/agent/health.go reports about the heartbeats before it.
use radar_node.Base.{
  ℕ, suc, ◌-◌, ◌≡◌, refl, Bool, true, false, String, List, [], ◌∷◌, min, leb, ◌||◌, if◌then◌else◌,
}
use radar_node.Agent.Clock.{seconds, is_zero}
use radar_node.Agent.Health.{
  Reading, HealthSampler, new_health_sampler, note_heartbeat, sample, refresh, report, snapshot,
  health_sample_interval,
}

-- What the agent does with the sampler, in any order.
pub data Call : Type 0 where
  notes : ℕ → Bool → Call
  snapshots : ℕ → Reading → String → ℕ → Call

abbrev pub perform : Call → HealthSampler → HealthSampler
perform (notes d ok) s = note_heartbeat d ok s
perform (snapshots now r path_state deferred) s = (snapshot now r path_state deferred s).0

-- The calls, the newest first.
abbrev pub performed : ℕ → List Call → HealthSampler
performed start [] = new_health_sampler start
performed start (c ∷ cs) = perform c (performed start cs)

-- The heartbeats that failed since the last one that succeeded, and the round trip of that one.
abbrev pub failed_since : List Call → ℕ
failed_since [] = 0
failed_since (notes d true ∷ cs) = 0
failed_since (notes d false ∷ cs) = suc (failed_since cs)
failed_since (snapshots now r path_state deferred ∷ cs) = failed_since cs

abbrev pub last_success : List Call → ℕ
last_success [] = 0
last_success (notes d true ∷ cs) = d
last_success (notes d false ∷ cs) = last_success cs
last_success (snapshots now r path_state deferred ∷ cs) = last_success cs

record Counts (cs : List Call) (start : ℕ) (s : HealthSampler) : Type 0 where
  failed : s.failures ≡ failed_since cs
  round_trip : s.last_rtt ≡ last_success cs
  begun : s.started ≡ start

refresh-Counts :
    (cs : List Call) (start now : ℕ) (r : Reading) (s : HealthSampler)
    → Counts cs start s
    → Counts cs start (refresh now r s)
unfolding refresh sample
refresh-Counts cs start now r s c =
    elim (is_zero s.last_sample || leb health_sample_interval (now - s.last_sample))
      as (λ stale. Counts cs start (if stale then sample now r s else s)) [
        | true ↦ record { failed = c.failed; round_trip = c.round_trip; begun = c.begun }
        | false ↦ c
      ]

performed-Counts : (start : ℕ) (cs : List Call) → Counts cs start (performed start cs)
unfolding note_heartbeat snapshot
performed-Counts start [] = record { failed = refl; round_trip = refl; begun = refl }
performed-Counts start (notes d true ∷ cs) =
    let c = performed-Counts start cs in
    record { failed = refl; round_trip = refl; begun = c.begun }
performed-Counts start (notes d false ∷ cs) =
    let c = performed-Counts start cs in
    record { failed = rw c.failed refl; round_trip = c.round_trip; begun = c.begun }
performed-Counts start (snapshots now r path_state deferred ∷ cs) =
    let c = refresh-Counts cs start now r (performed start cs) (performed-Counts start cs) in
    record { failed = c.failed; round_trip = c.round_trip; begun = c.begun }

-- Whatever heartbeats and snapshots came before, the newest first, a snapshot reports the number of
-- heartbeats that failed in a row since the last success and the round trip of that success, and
-- the deferred jobs, each cut off at its limit, and the time since the start.
pub snapshot-performed :
    (start now : ℕ) (r : Reading) (path_state : String) (deferred : ℕ) (cs : List Call)
    → let health = (snapshot now r path_state deferred (performed start cs)).1 in
      (health.consecutive_failures ≡ min (failed_since cs) 1_000_000)
      × (health.heartbeat_rtt ≡ min (last_success cs) (seconds 600))
      × (health.deferred_jobs ≡ min deferred 1_000_000)
      × (health.path ≡ path_state)
      × (health.uptime ≡ now - start)
unfolding snapshot report
snapshot-performed start now r path_state deferred cs =
    let c = refresh-Counts cs start now r (performed start cs) (performed-Counts start cs) in
    (rw c.failed refl, rw c.round_trip refl, refl, refl, rw c.begun refl)
