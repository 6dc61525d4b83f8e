-- ===== src/Agent/Tick/Bound.antt =====
-- A tick of internal/agent/agent.go stays within its budget of checks.
use native.Mathlib.Nat.{div-mul-le_self, mul-le-mul_right, mod-eq_of_lt, add-mod_right}
use radar_node.Base.{
  ℕ, zero, suc, ◌+◌, ◌-◌, ◌*◌, ◌/◌, ◌%◌, ◌∙◌, false, true, ◌≤◌, ◌<◌, ◌≡◌, refl, sym, ap, subst,
  String, Option, none, some, List, [], ◌∷◌, ◌++◌, ltb, if◌then◌else◌, if_both, ◌==◌, length,
  length-append, All, sort, sort-All, arith, Bool-cases, inl, inr,
}
use radar_node.Wire.{ProbeSnapshot}
use radar_node.Agent.Cache.{CachedProbe, ProbeCache, PendingTrigger, drain_pending_triggers_limited}
use radar_node.Agent.Cache.Schedule.{
  DueEntry, Taken, take_due_probes, take_entries, take_entry, due_entries, job_count, older,
  probe_due,
}
use radar_node.Agent.Cache.Budget.{jobs, take_due_probes-budget}
use radar_node.Agent.Cache.Queue.{drain_splits}
use radar_node.Agent.Tick.{
  TickLimits, tick_limits, max_jobs, per_probe, at_least_one, sign_bit, int_product, exceeds,
  trigger_slots, probe_budget, select_work, probe_job_count, numbered_jobs, probe_jobs, trigger_run,
  trigger_probe, trigger_jobs, tick_jobs,
}

length-numbered_jobs :
    (pr : ProbeSnapshot) (run_id : String) (seq n : ℕ) → length (numbered_jobs pr run_id seq n) ≡ n
unfolding numbered_jobs
length-numbered_jobs pr run_id seq zero = refl
length-numbered_jobs pr run_id seq (suc n) = ap suc (length-numbered_jobs pr run_id (suc seq) n)

probe_job_count-le : (m raw : ℕ) → 0 < m → probe_job_count m raw ≤ m
unfolding probe_job_count
probe_job_count-le m raw h = ground (arith, h)

probe_job_count-le_raw : (m raw : ℕ) → 0 < raw → probe_job_count m raw ≤ raw
unfolding probe_job_count
probe_job_count-le_raw m raw h = ground (arith, h)

length-trigger_run-le :
    (m : ℕ) (t : PendingTrigger) (o : Option ProbeSnapshot) → 0 < m → length (trigger_run m t o) ≤ m
length-trigger_run-le m t none h = omega arith
length-trigger_run-le m t (some pr) h = omega (
  arith,
  length-numbered_jobs pr t.run_id 1 (probe_job_count m pr.probe_count),
  probe_job_count-le m pr.probe_count h,
)

length-trigger_jobs-le :
    (m : ℕ) (c : ProbeCache) (ts : List PendingTrigger)
    → 0 < m
    → length (trigger_jobs m c ts) ≤ length ts * m
unfolding trigger_jobs
length-trigger_jobs-le m c [] h = omega arith
length-trigger_jobs-le m c (t ∷ ts) h = omega (
  arith,
  length-append (trigger_run m t (trigger_probe c t)) (trigger_jobs m c ts),
  length-trigger_run-le m t (trigger_probe c t) h,
  length-trigger_jobs-le m c ts h,
)

abbrev Wanted : ProbeSnapshot → Type 0
Wanted s = 0 < s.probe_count

length-probe_jobs-le :
    (m : ℕ) (new_run_id : ℕ → String) (i : ℕ) (prs : List ProbeSnapshot)
    → All Wanted prs
    → length (probe_jobs m new_run_id i prs) ≤ jobs prs
unfolding probe_jobs
length-probe_jobs-le m new_run_id i [] h = omega arith
length-probe_jobs-le m new_run_id i (pr ∷ prs) (h, hs) =
    let run = numbered_jobs pr (new_run_id i) 1 (probe_job_count m pr.probe_count) in
    omega (
      arith,
      length-append run (probe_jobs m new_run_id (suc i) prs),
      h,
      length-numbered_jobs pr (new_run_id i) 1 (probe_job_count m pr.probe_count),
      probe_job_count-le_raw m pr.probe_count h,
      length-probe_jobs-le m new_run_id (suc i) prs hs,
    )

abbrev Counted : DueEntry → Type 0
Counted e = 0 < e.count

due_entries-Counted :
    (now budget m : ℕ) (probes : List (String × CachedProbe))
    → All Counted (due_entries now budget m probes)
unfolding due_entries job_count
due_entries-Counted now budget m [] = tt
due_entries-Counted now budget m ((id, p) ∷ ps) = elim (Bool-cases (probe_due p now)) [
  | inl due ↦ rw (due, due_entries) (ground arith, due_entries-Counted now budget m ps)
  | inr early ↦ rw (early, due_entries) (due_entries-Counted now budget m ps)
]

All-snoc :
    (ss : List ProbeSnapshot) (s : ProbeSnapshot)
    → All Wanted ss
    → Wanted s
    → All Wanted (ss ++ s ∷ [])
All-snoc [] s h k = (k, tt)
All-snoc (x ∷ ss) s (h, hs) k = (h, All-snoc ss s hs k)

take_entries-Wanted :
    (now budget : ℕ) (es : List DueEntry) (t : Taken)
    → All Counted es
    → All Wanted t.selected
    → All Wanted (take_entries now budget es t).selected
unfolding take_entries take_entry
take_entries-Wanted now budget [] t h k = k
take_entries-Wanted now budget (e ∷ es) t (h, hs) k =
    take_entries-Wanted now budget es (take_entry now budget e t) hs
      (if_both (λ (x : Taken). All Wanted x.selected) _ k (All-snoc t.selected _ k h))

take_due_probes-Wanted :
    (now budget m : ℕ) (c : ProbeCache) → All Wanted (take_due_probes now budget m c).selected
unfolding take_due_probes
take_due_probes-Wanted now budget m c =
    let entries = due_entries now budget m c.probes in
    if_both (λ (x : Taken). All Wanted x.selected) (budget == 0) tt
      (take_entries-Wanted now budget (sort older entries) _
        (sort-All older Counted entries (due_entries-Counted now budget m c.probes)) tt)

-- Limits under which a probe's checks fit into a tick.
pub record IsFitting (lim : TickLimits) : Type 0 where
  pub some_job : 0 < lim.max_jobs_per_probe
  pub probe_fits : lim.max_jobs_per_probe ≤ lim.max_jobs_per_tick

tick_limits-IsFitting : (cfg : TickLimits) → IsFitting (tick_limits cfg)
unfolding tick_limits
tick_limits-IsFitting cfg = record { some_job = ground arith; probe_fits = ground arith }

tick_limits-some_trigger : (cfg : TickLimits) → 0 < (tick_limits cfg).max_triggers_per_tick
unfolding tick_limits
tick_limits-some_trigger cfg = ground arith

per_probe-max_jobs :
    (lim : TickLimits)
    → IsFitting lim
    → (per_probe lim ≡ lim.max_jobs_per_probe) × (max_jobs lim ≡ lim.max_jobs_per_tick)
unfolding per_probe max_jobs at_least_one
per_probe-max_jobs lim fits =
    (ground (arith, fits.some_job), ground (arith, fits.some_job, fits.probe_fits))

-- Limits that an int of the platform can hold with what the code makes of them: the checks that the
-- triggers of a tick may ask for, and twice the checks of a tick.
pub record IsExact (lim : TickLimits) : Type 0 where
  pub triggers_fit : lim.max_triggers_per_tick * lim.max_jobs_per_probe < sign_bit lim
  pub jobs_fit : lim.max_jobs_per_tick + lim.max_jobs_per_tick < sign_bit lim

int_product-exact :
    (lim : TickLimits) (a b : ℕ) → a * b < sign_bit lim → int_product lim a b ≡ a * b
unfolding int_product
int_product-exact lim a b h = mod-eq_of_lt {n = a * b} {m = 2 * sign_bit lim} (omega (arith, h))

exceeds-exact :
    (lim : TickLimits) (product limit : ℕ)
    → product < sign_bit lim
    → exceeds lim product limit ≡ ltb limit product
unfolding exceeds
exceeds-exact lim product limit h = ground (arith, h)

-- The slots of triggers, each with the most checks of a probe, fit into the tick.
slots_fit :
    (slots per most : ℕ)
    → 0 < per
    → per ≤ most
    → 0 < slots
    → let chosen = if ltb most (slots * per) then at_least_one (most / per) else slots in
      (chosen * per ≤ most) × (0 < chosen)
unfolding at_least_one
slots_fit slots per most some_job fits some_slot = elim (Bool-cases (ltb most (slots * per))) [
  | inr small ↦ rw small (ground (arith, small), some_slot)
  | inl large ↦ rw large (elim (Bool-cases (ltb (most / per) 1)) [
    | inl none_fits ↦ rw none_fits (ground (arith, fits), omega arith)
    | inr some_fit ↦ rw some_fit (div-mul-le_self most per, ground (arith, some_fit))
  ])
]

trigger_slots-exact :
    (lim : TickLimits)
    → IsFitting lim
    → IsExact lim
    → 0 < lim.max_triggers_per_tick
    → trigger_slots lim ≡ (
        if ltb lim.max_jobs_per_tick (lim.max_triggers_per_tick * lim.max_jobs_per_probe)
        then at_least_one (lim.max_jobs_per_tick / lim.max_jobs_per_probe)
        else lim.max_triggers_per_tick)
unfolding trigger_slots
trigger_slots-exact lim fits exact some_slot =
    let slots = lim.max_triggers_per_tick in
    let m = lim.max_jobs_per_probe in
    let (per, most) = per_probe-max_jobs lim fits in
    let chosen : (if ltb slots 1 then 16 else slots) ≡ slots = ground (arith, some_slot) in
    let test : exceeds lim (int_product lim slots m) lim.max_jobs_per_tick
        ≡ ltb lim.max_jobs_per_tick (slots * m) =
      ap (λ n. exceeds lim n lim.max_jobs_per_tick)
        (int_product-exact lim slots m exact.triggers_fit)
      ∙ exceeds-exact lim (slots * m) lim.max_jobs_per_tick exact.triggers_fit in
    rw chosen (rw per (rw most (rw test refl)))

trigger_slots-fit :
    (lim : TickLimits)
    → IsFitting lim
    → IsExact lim
    → 0 < lim.max_triggers_per_tick
    → (trigger_slots lim * lim.max_jobs_per_probe ≤ lim.max_jobs_per_tick) × (0 < trigger_slots lim)
trigger_slots-fit lim fits exact some_slot =
    subst (λ n. (n * lim.max_jobs_per_probe ≤ lim.max_jobs_per_tick) × (0 < n))
      (sym (trigger_slots-exact lim fits exact some_slot))
      (slots_fit lim.max_triggers_per_tick lim.max_jobs_per_probe lim.max_jobs_per_tick
        fits.some_job fits.probe_fits some_slot)

left_mod :
    (most product half : ℕ)
    → product ≤ most
    → most < half
    → (most + 2 * half - product) % (2 * half) ≡ most - product
left_mod most product half h k =
    let moved : most + 2 * half - product ≡ most - product + 2 * half = omega (arith, h) in
    ap (λ n. n % (2 * half)) moved
    ∙ add-mod_right (most - product) (2 * half)
    ∙ mod-eq_of_lt {n = most - product} {m = 2 * half} (omega (arith, k))

-- What is left for the probes, where the triggers fit.
probe_budget-exact :
    (lim : TickLimits) (triggers : ℕ)
    → IsFitting lim
    → IsExact lim
    → triggers * lim.max_jobs_per_probe ≤ lim.max_jobs_per_tick
    → probe_budget lim triggers ≡ lim.max_jobs_per_tick - triggers * lim.max_jobs_per_probe
unfolding probe_budget
probe_budget-exact lim triggers fits exact h =
    let m = lim.max_jobs_per_probe in
    let j = lim.max_jobs_per_tick in
    let half = sign_bit lim in
    let (per, most) = per_probe-max_jobs lim fits in
    let small : triggers * m < half = omega (arith, h, exact.jobs_fit) in
    let product = int_product-exact lim triggers m small in
    let test : exceeds lim (triggers * m) j ≡ false =
      exceeds-exact lim (triggers * m) j small ∙ ground (arith, h) in
    let wrapped : (j + 2 * half - triggers * m) % (2 * half) ≡ j - triggers * m =
      left_mod j (triggers * m) half h (omega (arith, exact.jobs_fit)) in
    let positive : ltb (j - triggers * m) half ≡ true = ground (arith, exact.jobs_fit) in
    rw per (rw most (rw product (rw test (rw wrapped (rw positive refl)))))

-- With the limits that Run makes of a configuration, where an int can hold what the code makes of them,
-- the checks of a tick, those of its triggers and those of its due probes together, are no more
-- than the limit of a tick.
pub length-tick_jobs-le :
    (cfg : TickLimits) (now : ℕ) (new_run_id : ℕ → String) (c : ProbeCache)
    → IsExact (tick_limits cfg)
    → let lim = tick_limits cfg in
      length (tick_jobs lim new_run_id (select_work lim now c)) ≤ lim.max_jobs_per_tick
unfolding tick_jobs select_work
length-tick_jobs-le cfg now new_run_id c exact =
    let lim = tick_limits cfg in
    let m = lim.max_jobs_per_probe in
    let fits = tick_limits-IsFitting cfg in
    let (slots, some_slot) = trigger_slots-fit lim fits exact (tick_limits-some_trigger cfg) in
    let w = select_work lim now c in
    let drained = drain_pending_triggers_limited (trigger_slots lim) c in
    let budget = probe_budget lim (length drained.1) in
    let few_triggers = mul-le-mul_right m ((drain_splits (trigger_slots lim) c).1 some_slot) in
    omega (
      arith,
      length-append (probe_jobs m new_run_id 0 w.due) (trigger_jobs m w.cache w.triggers),
      length-probe_jobs-le m new_run_id 0 w.due (take_due_probes-Wanted now budget m drained.0),
      length-trigger_jobs-le m w.cache w.triggers fits.some_job,
      (take_due_probes-budget now budget m drained.0).0,
      few_triggers,
      slots,
      probe_budget-exact lim (length drained.1) fits exact (omega (arith, few_triggers, slots)),
    )
