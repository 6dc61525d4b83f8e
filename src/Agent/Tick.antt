-- ===== src/Agent/Tick.antt =====
-- The work that one tick of internal/agent/agent.go takes: the limits that Run fixes, the choice of
-- triggers and due probes in runDueProbes, and the checks that executeProbes and executeTriggers make
-- of them. Run refuses negative limits, so they are natural numbers; the products of limits wrap around
-- as Go's int does, whose width, 32 or 64 bits, is `int_bits`.
pub mod Bound
mod Tests
use radar_node.Base.{
  ℕ, zero, suc, ◌+◌, ◌-◌, ◌*◌, ◌/◌, ◌%◌, ◌^◌, Bool, ◌&&◌, String, Option, none, some, List, [], ◌∷◌,
  ◌++◌, ltb, ◌==◌, str_eq, if◌then◌else◌, length,
}
use radar_node.Wire.{ProbeSnapshot}
use radar_node.Agent.Cache.{ProbeCache, PendingTrigger, drain_pending_triggers_limited}
use radar_node.Agent.Cache.Schedule.{take_due_probes, get}

pub record TickLimits : Type 0 where
  pub max_jobs_per_tick : ℕ
  pub max_jobs_per_probe : ℕ
  pub max_triggers_per_tick : ℕ
  pub int_bits : ℕ

-- The limits of `Config` with their defaults, which stand for 0.
unfoldable pub tick_limits : TickLimits → TickLimits
tick_limits cfg =
    let max_jobs = if cfg.max_jobs_per_tick == 0 then 512 else cfg.max_jobs_per_tick in
    let per_probe = if cfg.max_jobs_per_probe == 0 then 32 else cfg.max_jobs_per_probe in
    record {
      max_jobs_per_tick = max_jobs;
      max_jobs_per_probe = if ltb max_jobs per_probe then max_jobs else per_probe;
      max_triggers_per_tick =
          if cfg.max_triggers_per_tick == 0 then 16 else cfg.max_triggers_per_tick;
      int_bits = cfg.int_bits;
    }

unfoldable pub at_least_one : ℕ → ℕ
at_least_one n = if ltb n 1 then 1 else n

unfoldable pub max_jobs : TickLimits → ℕ
max_jobs lim = if ltb lim.max_jobs_per_tick 1 then 1_073_741_824 else lim.max_jobs_per_tick

unfoldable pub per_probe : TickLimits → ℕ
per_probe lim = at_least_one lim.max_jobs_per_probe

-- The bit patterns of ints from here on are the negative numbers.
unfoldable pub sign_bit : TickLimits → ℕ
sign_bit lim = 2 ^ (lim.int_bits - 1)

-- The bit pattern of `a * b`.
unfoldable pub int_product : TickLimits → ℕ → ℕ → ℕ
int_product lim a b = a * b % (2 * sign_bit lim)

-- `product > limit`, of a product's bit pattern.
unfoldable pub exceeds : TickLimits → ℕ → ℕ → Bool
exceeds lim product limit = ltb product (sign_bit lim) && ltb limit product

unfoldable pub trigger_slots : TickLimits → ℕ
unfolding int_product exceeds sign_bit
trigger_slots lim =
    let slots = if ltb lim.max_triggers_per_tick 1 then 16 else lim.max_triggers_per_tick in
    if exceeds lim (int_product lim slots (per_probe lim)) (max_jobs lim)
    then at_least_one (max_jobs lim / per_probe lim)
    else slots

-- What the triggers leave of the tick; a negative budget is as good as 0.
unfoldable pub probe_budget : TickLimits → ℕ → ℕ
unfolding int_product exceeds sign_bit
probe_budget lim triggers =
    let product = int_product lim triggers (per_probe lim) in
    let trigger_budget = if exceeds lim product (max_jobs lim) then max_jobs lim else product in
    let left = (max_jobs lim + 2 * sign_bit lim - trigger_budget) % (2 * sign_bit lim) in
    if ltb left (sign_bit lim) then left else 0

pub record Work : Type 0 where
  pub cache : ProbeCache
  pub triggers : List PendingTrigger
  pub due : List ProbeSnapshot
  pub deferred_jobs : ℕ

-- The choice at the start of `runDueProbes`.
unfoldable pub select_work : TickLimits → ℕ → ProbeCache → Work
select_work lim now c =
    let (drained, triggers) = drain_pending_triggers_limited (trigger_slots lim) c in
    let taken =
      take_due_probes now (probe_budget lim (length triggers)) lim.max_jobs_per_probe drained in
    record {
      cache = record drained { probes = taken.probes };
      triggers = triggers;
      due = taken.selected;
      deferred_jobs = taken.deferred + length drained.pending_triggers;
    }

pub record CheckJob : Type 0 where
  pub pr : ProbeSnapshot
  pub run_id : String
  pub seq : ℕ

-- `probeJobCount`.
unfoldable pub probe_job_count : ℕ → ℕ → ℕ
probe_job_count max_per_probe raw =
    if ltb raw 1
    then 1
    else if ltb 0 max_per_probe && ltb max_per_probe raw
    then max_per_probe
    else raw

-- The checks of a run, numbered from `seq` on.
unfoldable pub numbered_jobs : ProbeSnapshot → String → ℕ → ℕ → List CheckJob
numbered_jobs pr run_id seq zero = []
numbered_jobs pr run_id seq (suc n) =
    record { pr = pr; run_id = run_id; seq = seq } ∷ numbered_jobs pr run_id (suc seq) n

-- `executeProbes` up to its checks; `new_run_id` gives each probe of the tick a fresh run.
unfoldable pub probe_jobs : ℕ → (ℕ → String) → ℕ → List ProbeSnapshot → List CheckJob
probe_jobs max_per_probe new_run_id i [] = []
probe_jobs max_per_probe new_run_id i (pr ∷ prs) =
    numbered_jobs pr (new_run_id i) 1 (probe_job_count max_per_probe pr.probe_count)
    ++ probe_jobs max_per_probe new_run_id (suc i) prs

abbrev pub trigger_run : ℕ → PendingTrigger → Option ProbeSnapshot → List CheckJob
trigger_run max_per_probe t none = []
trigger_run max_per_probe t (some pr) =
    numbered_jobs pr t.run_id 1 (probe_job_count max_per_probe pr.probe_count)

-- The probe of a trigger: its own snapshot, or what the cache has for its id.
unfoldable pub trigger_probe : ProbeCache → PendingTrigger → Option ProbeSnapshot
trigger_probe c t = if str_eq t.probe.id "" then get t.probe_id c else some t.probe

-- `executeTriggers` up to its checks.
unfoldable pub trigger_jobs : ℕ → ProbeCache → List PendingTrigger → List CheckJob
trigger_jobs max_per_probe c [] = []
trigger_jobs max_per_probe c (t ∷ ts) =
    trigger_run max_per_probe t (trigger_probe c t) ++ trigger_jobs max_per_probe c ts

-- All checks of a tick.
unfoldable pub tick_jobs : TickLimits → (ℕ → String) → Work → List CheckJob
tick_jobs lim new_run_id w =
    probe_jobs lim.max_jobs_per_probe new_run_id 0 w.due
    ++ trigger_jobs lim.max_jobs_per_probe w.cache w.triggers
