-- ===== src/Agent/Cache/Stagger.antt =====
-- The first run of new probes, as internal/agent/cache.go spreads it.
use native.Mathlib.Nat.{mod-lt}
use radar_node.Base.{ℕ, ◌+◌, ◌≤◌, ◌<◌, ◌≡◌, String, true, false, arith, str_eq, min, ◌%◌}
use radar_node.Wire.{probe_status_active}
use radar_node.Agent.Clock.{seconds, unix_milli}
use radar_node.Agent.Cache.{CachedProbe}
use radar_node.Agent.Cache.Schedule.{probe_due, stagger_probe}

-- A new active interval probe inside its window becomes due at one instant of the spreading window
-- that starts now and lasts the jitter or the interval, the shorter: it is not due before that
-- instant, and due from it on until its end.
pub stagger_probe-probe_due :
    (hash : String → ℕ) (now jitter later : ℕ) (id : String) (p : CachedProbe)
    → p.last_run_at ≡ 0
    → str_eq p.status probe_status_active ≡ true
    → str_eq p.schedule_type "manual" ≡ false
    → unix_milli p.starts_at ≤ now
    → p.ends_at ≡ 0
    → 0 < p.interval_seconds
    → 0 < jitter
    → seconds p.interval_seconds < now
    → now ≤ later
    → let q = (stagger_probe hash now jitter (id, p)).1 in
      let instant = now + hash id % min jitter (seconds p.interval_seconds) in
      (instant < now + jitter)
      × (later < instant → probe_due q later ≡ false)
      × (instant ≤ later → probe_due q later ≡ true)
unfolding stagger_probe probe_due
stagger_probe-probe_due hash now jitter later id p unstarted active timed started endless every wide
      past future =
    let width = min jitter (seconds p.interval_seconds) in
    ground (arith, mod-lt (hash id) {m = width} (omega arith))
