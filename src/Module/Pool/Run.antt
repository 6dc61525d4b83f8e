-- ===== src/Module/Pool/Run.antt =====
-- A slot's turn in a batch of internal/module/pool.go: the jobs' ports, the slot's engine, and what
-- each job reports. What the system, the module's programs and the tests answer is a record that
-- comes with the batch; of other batches only what they release of the pins is seen.
use radar_node.Base.{
  ℕ, Bool, true, false, not, ◌&&◌, String, Option, none, some, List, [], ◌∷◌, map, ltb, str_eq, any,
  retain, insert, if◌then◌else◌, length, lookup, ◌==◌,
}
use mathlib.Core.Option
use radar_node.Wire.{Value}
use radar_node.Module.Pool.Slot.{PoolSlot, acquire, release_slot}
use radar_node.Module.Pool.Ports.{allocate_unique_port_in_range, allocate_unique_port}
use radar_node.Module.Pool.Bisect.{
  BuildError, Outcome, tested, failed, should_bisect, run_ephemeral, all_with,
}

-- `probe.Options`; `bind` is how the binding prints, and the probe's id and the destination, which
-- only the tests read, are left to them.
pub record Options : Type 0 where
  pub target : String
  pub timeout : ℕ
  pub seq : ℕ
  pub params : List (String × Value)
  pub bind : String

pub record PendingJob : Type 0 where
  pub idx : ℕ
  pub key : String
  pub o : Options

pub record PoolJob : Type 0 where
  pub job : PendingJob
  pub port : ℕ

pub record PoolState : Type 0 where
  pub ports : List (String × ℕ)
  pub slots : ℕ → PoolSlot

-- What a slot says of a job. That of a test is the tests'.
pub data JobReport (M : Type 0) : Type 0 where
  no_port : JobReport M
  not_built : BuildError → JobReport M
  measured : M → JobReport M

-- `port_base`, `port_span` and `jobs_limit` are the PoolLimits; `answers` are what portalloc.Alloc
-- gives, one after the other, for a job.
pub record World (M : Type 0) : Type 0 where
  pub jobs_limit : ℕ
  pub port_base : ℕ
  pub port_span : ℕ
  pub free : ℕ → Bool
  pub answers : String → List (Option ℕ)
  pub released : String → Bool
  pub realloc : String → Option ℕ
  pub healthy : ℕ → Bool
  pub hash_jobs : List PoolJob → String
  pub build : List PoolJob → Option BuildError
  pub contains : String → String → Bool
  pub test_job : PoolJob → M

module _ {M : Type 0} (w : World M) where
  -- `allocatePoolPort`.
  unfoldable pub allocate_pool_port : List ℕ → String → Option ℕ
  allocate_pool_port used key =
      if ltb 0 w.port_base && ltb 0 w.port_span
      then allocate_unique_port_in_range w.free used w.port_base w.port_span
      else allocate_unique_port used (w.answers key)

  -- A job's pinned port, or a new one, with the used ports and the pins after it.
  unfoldable pub pin : List ℕ → List (String × ℕ) → String → Option (ℕ × List ℕ × List (String × ℕ))
  pin used ports key = elim (lookup key ports) [
    | some port ↦ some (port, used, ports)
    | none ↦
        Option.map (λ port. (port, port ∷ used, insert key port ports))
          (allocate_pool_port used key)
  ]

  -- The loop of `runSlot` over its chunk: none when a job gets no port, the pins before it kept.
  unfoldable pub allocate_jobs :
      List ℕ → List (String × ℕ) → List PendingJob → List (String × ℕ) × Option (List PoolJob)
  allocate_jobs used ports [] = (ports, some [])
  allocate_jobs used ports (p ∷ ps) = elim (pin used ports p.key) [
    | none ↦ (ports, none)
    | some (port, used', ports') ↦
        let (pins, jobs) = allocate_jobs used' ports' ps in
        (pins, Option.map (λ js. record { job = p; port = port } ∷ js) jobs)
  ]

  abbrev pub report_of : PoolJob × Outcome → PendingJob × JobReport M
  report_of (j, tested) = (j.job, measured (w.test_job j))
  report_of (j, failed e) = (j.job, not_built e)

  -- A job's port when its chunk is isolated: its pin, or a new one that nothing compares with the
  -- pinned ones.
  unfoldable pub repin : List (String × ℕ) → String → Option (ℕ × List (String × ℕ))
  repin ports key = elim (lookup key ports) [
    | some port ↦ some (port, ports)
    | none ↦ Option.map (λ port. (port, insert key port ports)) (w.realloc key)
  ]

  -- The loop of `runBisected`.
  unfoldable pub repin_jobs :
      List (String × ℕ) → List PendingJob → List (String × ℕ) × Option (List PoolJob)
  repin_jobs ports [] = (ports, some [])
  repin_jobs ports (p ∷ ps) = elim (repin ports p.key) [
    | none ↦ (ports, none)
    | some (port, ports') ↦
        let (pins, jobs) = repin_jobs ports' ps in
        (pins, Option.map (λ js. record { job = p; port = port } ∷ js) jobs)
  ]

  abbrev pub isolated : List PendingJob → Option (List PoolJob) → List (PendingJob × JobReport M)
  isolated chunk none = map (λ p. (p, no_port)) chunk
  isolated chunk (some js) = map report_of (run_ephemeral w.contains w.build (length js) js)

  -- `runBisected`.
  unfoldable pub run_bisected :
      List PendingJob → List (String × ℕ) → List (String × ℕ) × List (PendingJob × JobReport M)
  run_bisected chunk ports =
      let (pins, jobs) = repin_jobs (retain (λ pin. not (w.released pin.0)) ports) chunk in
      (pins, isolated chunk jobs)

  -- What becomes of the jobs for which no engine started, and of the pins.
  unfoldable pub without_engine :
      Option BuildError
      → List PendingJob
      → List PoolJob
      → List (String × ℕ)
      → List (String × ℕ) × List (PendingJob × JobReport M)
  without_engine none chunk jobs ports = (ports, map report_of (all_with tested jobs))
  without_engine (some e) chunk jobs ports =
      if should_bisect w.contains e (length chunk)
      then run_bisected chunk ports
      else (ports, map report_of (all_with (failed e) jobs))

  abbrev pub starts : Option BuildError → Bool
  starts none = true
  starts (some e) = false

  abbrev pub with_slot : ℕ → PoolSlot → List (String × ℕ) → PoolState → PoolState
  with_slot slot new ports s = record {
    ports = ports;
    slots = λ i. if i == slot then new else s.slots i;
  }

  -- The rest of `runSlot`, with the jobs and the pins.
  unfoldable pub run_jobs :
      List String
      → ℕ
      → List PendingJob
      → List PoolJob
      → List (String × ℕ)
      → PoolState
      → PoolState × List (PendingJob × JobReport M)
  run_jobs live slot chunk jobs pins s =
      let ports = retain (λ pin. any (str_eq pin.0) live) pins in
      let error = w.build jobs in
      let (taken, instance) =
        acquire (w.hash_jobs jobs) (w.healthy slot) (starts error) (s.slots slot) in
      elim instance [
        | some _ ↦
            (with_slot slot (release_slot taken) ports s, map report_of (all_with tested jobs))
        | none ↦
            let (left, reports) = without_engine error chunk jobs ports in
            (with_slot slot taken left s, reports)
      ]

  -- `runSlot`: the reports in the order in which they are written.
  unfoldable pub run_slot :
      List String → ℕ → List PendingJob → PoolState → PoolState × List (PendingJob × JobReport M)
  run_slot live slot chunk s =
      let (pins, jobs) = allocate_jobs (map (λ pin. pin.1) s.ports) s.ports chunk in
      elim jobs [
        | none ↦ (record s { ports = pins }, map (λ p. (p, no_port)) chunk)
        | some js ↦ run_jobs live slot chunk js pins s
      ]
