-- ===== src/Agent/Health.antt =====
-- The resource and heartbeat health of internal/agent/health.go. A percentage or a load average is
-- a number of hundredths, a duration a number of nanoseconds. What gopsutil measures is a reading
-- that comes with each sample, none where it reports an error; the steal percentage is taken as
-- measured, since it is a quotient of floating-point counters.
pub mod Pressure
pub mod Snapshot
pub mod Tests
use radar_node.Base.{
  ℕ, zero, suc, ◌+◌, ◌-◌, ◌*◌, max, min, Bool, true, false, ◌&&◌, ◌||◌, String, Option, none, some,
  ltb, leb, if◌then◌else◌, ℤ, pos, negsuc, inc, dec, at_most,
}
use radar_node.Agent.Clock.{seconds, is_zero}

abbrev pub health_sample_interval : ℕ
health_sample_interval = seconds 30

pub record Reading : Type 0 where
  pub cpus : ℕ
  pub mem_used : Option ℕ
  pub load : Option ℕ
  pub steal : Option ℕ

pub record Resource : Type 0 where
  pub cpu_count : ℕ
  pub mem_used_pct : ℕ
  pub load1 : ℕ
  pub cpu_steal_pct : ℕ
  pub pressure : String

pub record HealthSampler : Type 0 where
  pub started : ℕ
  pub last_sample : ℕ
  pub resource : Resource
  pub last_rtt : ℕ
  pub failures : ℕ
  pub mem_hot : Bool
  pub load_hot : Bool
  pub steal_hot : Bool
  pub mem_streak : ℤ
  pub load_streak : ℤ
  pub steal_streak : ℤ

pub record NodeHealth : Type 0 where
  pub sampled : Resource
  pub heartbeat_rtt : ℕ
  pub consecutive_failures : ℕ
  pub deferred_jobs : ℕ
  pub path : String
  pub uptime : ℕ

-- `newHealthSampler`, at the instant that it is called.
abbrev pub new_health_sampler : ℕ → HealthSampler
new_health_sampler now = record {
  started = now;
  last_sample = 0;
  resource = record {
    cpu_count = 0;
    mem_used_pct = 0;
    load1 = 0;
    cpu_steal_pct = 0;
    pressure = "";
  };
  last_rtt = 0;
  failures = 0;
  mem_hot = false;
  load_hot = false;
  steal_hot = false;
  mem_streak = pos 0;
  load_streak = pos 0;
  steal_streak = pos 0;
}

unfoldable pub note_heartbeat : ℕ → Bool → HealthSampler → HealthSampler
note_heartbeat d ok s =
    if ok then record s { last_rtt = d; failures = 0 } else record s { failures = suc s.failures }

-- The streak after a high and after a low sample.
unfoldable pub high_streak : ℤ → ℤ
high_streak streak = if at_most streak (negsuc 0) then pos 1 else inc streak

unfoldable pub low_streak : ℤ → ℤ
low_streak streak = if at_most (pos 1) streak then negsuc 0 else dec streak

unfoldable pub hysteresis : Bool → ℤ → Bool → Bool → Bool × ℤ
hysteresis active streak high low =
    if high
    then (active || at_most (pos 2) (high_streak streak), high_streak streak)
    else if low
    then (if at_most (low_streak streak) (negsuc 1)
        then (false, pos 0)
        else (active, low_streak streak))
    else (active, streak)

-- `if v, err := ...; err == nil { field = v }`.
abbrev pub measured : Option ℕ → ℕ → ℕ
measured none previous = previous
measured (some value) previous = value

-- The measurements of `sampleLocked`.
unfoldable pub measure : Reading → Resource → Resource
measure r old = record old {
  cpu_count = r.cpus;
  mem_used_pct = measured r.mem_used old.mem_used_pct;
  load1 = measured r.load old.load1;
  cpu_steal_pct = measured r.steal old.cpu_steal_pct;
}

unfoldable pub mem_high : Resource → Bool
mem_high m = leb 9200 m.mem_used_pct

unfoldable pub mem_low : Resource → Bool
mem_low m = leb m.mem_used_pct 8500

unfoldable pub load_high : Resource → Bool
load_high m = ltb (max m.cpu_count 1 * 200) m.load1

unfoldable pub load_low : Resource → Bool
load_low m = leb m.load1 (max m.cpu_count 1 * 150)

unfoldable pub steal_high : Resource → Bool
steal_high m = leb 3000 m.cpu_steal_pct

unfoldable pub steal_low : Resource → Bool
steal_low m = leb m.cpu_steal_pct 1500

-- The `switch` that names the pressure.
unfoldable pub pressure_of : Bool → Bool → Bool → String
pressure_of mem load steal =
    if mem && (load || steal) || load && steal
    then "mixed"
    else if mem
    then "memory"
    else if load
    then "load"
    else if steal
    then "steal"
    else "ok"

-- `sampleLocked`, with the reading that gopsutil gives.
unfoldable pub sample : ℕ → Reading → HealthSampler → HealthSampler
sample now r s =
    let m = measure r s.resource in
    let memory = hysteresis s.mem_hot s.mem_streak (mem_high m) (mem_low m) in
    let load = hysteresis s.load_hot s.load_streak (load_high m) (load_low m) in
    let steal = hysteresis s.steal_hot s.steal_streak (steal_high m) (steal_low m) in
    record s {
      last_sample = now;
      resource = record m { pressure = pressure_of memory.0 load.0 steal.0 };
      mem_hot = memory.0;
      mem_streak = memory.1;
      load_hot = load.0;
      load_streak = load.1;
      steal_hot = steal.0;
      steal_streak = steal.1;
    }

-- `snapshot`: a new sample where the last one is old, then the report with its limits.
unfoldable pub refresh : ℕ → Reading → HealthSampler → HealthSampler
refresh now r s =
    if is_zero s.last_sample || leb health_sample_interval (now - s.last_sample)
    then sample now r s
    else s

unfoldable pub report : ℕ → String → ℕ → HealthSampler → NodeHealth
report now path_state deferred s = record {
  sampled = s.resource;
  heartbeat_rtt = min s.last_rtt (seconds 600);
  consecutive_failures = min s.failures 1_000_000;
  deferred_jobs = min deferred 1_000_000;
  path = path_state;
  uptime = now - s.started;
}

unfoldable pub snapshot : ℕ → Reading → String → ℕ → HealthSampler → HealthSampler × NodeHealth
snapshot now r path_state deferred s =
    let refreshed = refresh now r s in (refreshed, report now path_state deferred refreshed)
