-- ===== src/Agent/Health/Tests.antt =====
-- Runs of internal/agent/health.go's sampler, and the theorems at them.
use radar_node.Base.{ℕ, ◌+◌, ◌≡◌, refl, true, false, List, [], ◌∷◌, none, some}
use radar_node.Agent.Clock.{seconds, unix_epoch}
use radar_node.Agent.Health.{
  Reading, sample, mem_high, mem_low, load_high, load_low, steal_high, steal_low, pressure_of,
  measure, hysteresis, high_streak, low_streak,
}
use radar_node.Agent.Health.Pressure.{sampled, levels, sustained, sample-sustained}
use radar_node.Agent.Health.Snapshot.{Call, notes, snapshots}

abbrev two_cpus : ℕ → ℕ → Reading
two_cpus mem load = record { cpus = 2; mem_used = some mem; load = some load; steal = none }

-- Memory is high, in between and high again.
abbrev before : List (ℕ × Reading)
before = (unix_epoch + seconds 30, two_cpus 9000 100) ∷ (unix_epoch, two_cpus 9300 500) ∷ []

memory_pressure :
    (sample
      (unix_epoch + seconds 60)
      (two_cpus 9400 100)
      (sampled unix_epoch before)).resource.pressure
    ≡ "memory"
unfolding sample measure hysteresis pressure_of mem_high mem_low high_streak load_high load_low
    low_streak steal_high steal_low
memory_pressure = refl

sample-sustained_example :
    let rs = (unix_epoch + seconds 60, two_cpus 9400 100) ∷ before in
    let s = sampled unix_epoch rs in
    let memory = sustained (levels mem_high mem_low unix_epoch rs) in
    let load = sustained (levels load_high load_low unix_epoch rs) in
    let steal = sustained (levels steal_high steal_low unix_epoch rs) in
    (s.mem_hot ≡ memory)
    × (s.load_hot ≡ load)
    × (s.steal_hot ≡ steal)
    × (s.resource.pressure ≡ pressure_of memory load steal)
sample-sustained_example =
    sample-sustained unix_epoch (unix_epoch + seconds 60) (two_cpus 9400 100) before

abbrev calls : List Call
calls =
    notes 5_000_000 false
    ∷ snapshots (unix_epoch + seconds 30) (two_cpus 100 100) "ok" 0
    ∷ notes 7_000_000 false
    ∷ notes 3_000_000 true
    ∷ notes 9_000_000 false
    ∷ []
