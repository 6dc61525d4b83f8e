-- ===== src/Module/Pool/Overlap.antt =====
-- An engine of internal/module/pool.go that is rebuilt while a tester still holds the old one.
use radar_node.Base.{
  ℕ, suc, ◌<◌, ◌≡◌, refl, Bool, true, false, String, some, arith, ◌==◌, pos, str_eq, ℤ, ap, ◌∙◌,
}
use radar_node.Module.Pool.Testers.Counts.{same_number, unused-suc}
use radar_node.Module.Pool.Slot.{
  WarmInstance, PoolSlot, teardown, reusable, retire, rebuild_slot, acquire_from, acquire,
  release_from, release_slot,
}

abbrev pub started_with : String → ℤ → WarmInstance
started_with key refs = record { jobs_key = key; refs = refs; retired = false; stopped = false }

other_number : (i j : ℕ) → i < j → (i == j) ≡ false
other_number i j h = ground arith

not_reusable :
    (key : String) (healthy : Bool) (w : WarmInstance)
    → str_eq w.jobs_key key ≡ false
    → reusable key healthy w ≡ false
unfolding reusable
not_reusable key healthy w h = ground arith

-- A call for other jobs, while one tester holds the engine.
rebuild_held :
    (key : String) (id : ℕ) (s : PoolSlot)
    → s.current ≡ some id
    → id < s.built
    → (s.instances id).refs ≡ pos 1
    → str_eq (s.instances id).jobs_key key ≡ false
    → let (s', tested) = acquire key true true s in
      (tested ≡ some s.built)
      × (s'.current ≡ some s.built)
      × (s'.built ≡ suc s.built)
      × (s'.instances s.built ≡ started_with key (pos 1))
      × ((s'.instances id).stopped ≡ (s.instances id).stopped)
unfolding acquire acquire_from rebuild_slot retire
rebuild_held key id s current below refs other =
    rw (current, not_reusable key true (s.instances id) other, unused-suc (s.instances id) 0 refs)
      (
        refl,
        refl,
        refl,
        rw (same_number s.built) refl,
        rw (other_number id s.built below, same_number id) refl,
      )

release_held :
    (key : String) (id j : ℕ) (s : PoolSlot)
    → s.current ≡ some id
    → j < id
    → s.instances id ≡ started_with key (pos 1)
    → let s' = release_slot s in
      (s'.current ≡ some id)
      × (s'.built ≡ s.built)
      × (s'.instances id ≡ started_with key (pos 0))
      × ((s'.instances j).stopped ≡ (s.instances j).stopped)
unfolding release_slot release_from
release_held key id j s current below held =
    rw (current, held) (refl, refl, rw (same_number id) refl, rw (other_number j id below) refl)

-- A call for other jobs, while no tester is counted.
rebuild_unused :
    (key old_key : String) (id j : ℕ) (s : PoolSlot)
    → s.current ≡ some id
    → j < id
    → id < s.built
    → s.instances id ≡ started_with old_key (pos 0)
    → str_eq old_key key ≡ false
    → let s' = (acquire key true true s).0 in
      (s'.current ≡ some s.built)
      × ((s'.instances id).stopped ≡ true)
      × ((s'.instances j).stopped ≡ (s.instances j).stopped)
unfolding acquire acquire_from rebuild_slot retire teardown reusable
rebuild_unused key old_key id j s current before below held other =
    rw (current, held, other, same_number id)
      (
        refl,
        rw (other_number id s.built below, same_number id) refl,
        rw (other_number j s.built (omega (arith, before, below)), other_number j id before) refl,
      )

-- The slot after a second tester rebuilt the engine of a first, the first has finished, and a third
-- rebuilt it again.
abbrev pub overlapped : String → String → PoolSlot → PoolSlot
overlapped second third s =
    (acquire third true true (release_slot (acquire second true true s).0)).0

-- Let one tester hold the slot's engine, and two more calls come for other jobs, the first tester
-- finishing in between. The second tester's engine, which it still uses, is stopped by the third
-- call, because the first tester's release took its reference; and the first engine, which no tester
-- uses and no slot holds any more, runs on.
pub overlapped-stopped :
    (second third : String) (id : ℕ) (s : PoolSlot)
    → s.current ≡ some id
    → id < s.built
    → (s.instances id).refs ≡ pos 1
    → (s.instances id).stopped ≡ false
    → str_eq (s.instances id).jobs_key second ≡ false
    → str_eq second third ≡ false
    → let s' = overlapped second third s in
      ((acquire second true true s).1 ≡ some s.built)
      × ((s'.instances s.built).stopped ≡ true)
      × ((s'.instances id).stopped ≡ false)
      × (s'.current ≡ some (suc s.built))
overlapped-stopped second third id s current below refs runs other_jobs more_jobs =
    let (tested, current2, built2, held2, stays2) =
      rebuild_held second id s current below refs other_jobs in
    let s2 = (acquire second true true s).0 in
    let (current3, built3, held3, stays3) =
      release_held second s.built id s2 current2 below held2 in
    let (current4, stopped4, stays4) =
      rebuild_unused third second s.built id (release_slot s2) current3 below
        (rw (built3, built2) (omega arith)) held3 more_jobs in
    (tested, stopped4, stays4 ∙ stays3 ∙ stays2 ∙ runs, current4 ∙ ap some (built3 ∙ built2))
