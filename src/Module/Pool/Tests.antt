-- ===== src/Module/Pool/Tests.antt =====
-- Runs of internal/module/pool.go's slots, ports and bisection, and the theorems at them.
use radar_node.Base.{
  ℕ, ◌<◌, ◌≡◌, refl, String, Bool, true, false, Option, none, some, List, [], ◌∷◌, arith, pos,
  str_eq, Bool-cases, inl, inr, subst, length, ◌==◌, if◌then◌else◌,
}
use mathlib.Core.Option.{some-injective}
use radar_node.Module.Pool.Slot.{
  PoolSlot, empty_slot, acquire, close, acquire_from, rebuild_slot, retire, reusable,
}
use radar_node.Module.Pool.Testers.{
  Reached, begins, reuses, rebuilds, closes, Reached-CountsTesters,
}
use radar_node.Module.Pool.Testers.Counts.{CountsTesters}
use radar_node.Module.Pool.Overlap.{overlapped, overlapped-stopped}
use radar_node.Module.Pool.Ports.{allocate_unique_port_in_range}
use radar_node.Module.Pool.Bisect.{
  BuildError, should_bisect, error_bisects, phase_bisects, run_ephemeral, BlamesJobs, BuildsAlone,
  each_alone, run_ephemeral-each_alone,
}

-- A tester starts the first engine, a second shares it, and the checker is closed.
abbrev shared : PoolSlot
shared = (acquire "a" true true (acquire "a" true true empty_slot).0).0

shared_refs : (shared.instances 0).refs ≡ pos 2
unfolding acquire acquire_from rebuild_slot retire reusable
shared_refs = refl

shared-Reached : Reached (close shared) 2
unfolding acquire acquire_from rebuild_slot retire reusable
shared-Reached = closes (reuses "a" true true (rebuilds "a" true begins) refl)

Reached-CountsTesters_example : CountsTesters (close shared) 2
Reached-CountsTesters_example = Reached-CountsTesters (close shared) 2 shared-Reached

abbrev held : PoolSlot
held = record {
  current = some 0;
  built = 1;
  instances = λ i. record { jobs_key = "a"; refs = pos 1; retired = false; stopped = false };
}

overlapped-stopped_example :
    let s' = overlapped "b" "c" held in
    ((acquire "b" true true held).1 ≡ some 1)
    × ((s'.instances 1).stopped ≡ true)
    × ((s'.instances 0).stopped ≡ false)
    × (s'.current ≡ some 2)
overlapped-stopped_example =
    overlapped-stopped "b" "c" 0 held refl (omega arith) refl refl refl refl

abbrev even_ports : ℕ → Bool
even_ports port = port == 20_002

first_port : allocate_unique_port_in_range even_ports (20_000 ∷ []) 20_000 4 ≡ some 20_002
unfolding allocate_unique_port_in_range
first_port = refl

-- An engine that exits whenever its configuration has job 7.
abbrev exited : BuildError
exited = record { phase = some "start"; message = "engine exited"; is_deadline_exceeded = false }

abbrev contains_equal : String → String → Bool
contains_equal s t = str_eq s t

build_without_seven : List ℕ → Option BuildError
build_without_seven [] = none
build_without_seven (j ∷ js) = if j == 7 then some exited else build_without_seven js

isolated :
    (js : List ℕ)
    → build_without_seven js ≡ none
    → BuildsAlone contains_equal build_without_seven js
unfolding build_without_seven
isolated [] built = tt
isolated (j ∷ js) built = elim (Bool-cases (j == 7)) [
  | inl seven ↦ ground (arith, rw seven at built)
  | inr other ↦ (rw other refl, isolated js (rw other at built))
]

only_exited : (js : List ℕ) (e : BuildError) → build_without_seven js ≡ some e → exited ≡ e
unfolding build_without_seven
only_exited [] e h = ground (arith, h)
only_exited (j ∷ js) e h = elim (Bool-cases (j == 7)) [
  | inl seven ↦ some-injective _ _ (rw seven at h)
  | inr other ↦ only_exited js e (rw other at h)
]

exited_bisects : (size : ℕ) → 1 < size → should_bisect contains_equal exited size ≡ true
unfolding should_bisect error_bisects phase_bisects
exited_bisects size more = ground (arith, more)

seven-BlamesJobs : BlamesJobs contains_equal build_without_seven
seven-BlamesJobs = record {
  builds_each = isolated;
  bisected = λ js e h more.
      subst (λ x. should_bisect contains_equal x (length js) ≡ true) (only_exited js e h)
        (exited_bisects (length js) more);
}

run_ephemeral-each_alone_example :
    run_ephemeral contains_equal build_without_seven 3 (1 ∷ 7 ∷ 2 ∷ [])
    ≡ each_alone contains_equal build_without_seven (1 ∷ 7 ∷ 2 ∷ [])
run_ephemeral-each_alone_example =
    run_ephemeral-each_alone contains_equal build_without_seven 3 (1 ∷ 7 ∷ 2 ∷ []) (omega arith)
      seven-BlamesJobs
