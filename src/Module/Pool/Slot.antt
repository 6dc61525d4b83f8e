-- ===== src/Module/Pool/Slot.antt =====
-- One slot of internal/module/pool.go's PoolChecker: the locked parts of runSlot, releaseSlot and
-- Close. Slots share no instance, so each is a state of its own.
use radar_node.Base.{
  ℕ, suc, Bool, true, false, not, ◌&&◌, String, Option, none, some, ◌==◌, str_eq, if◌then◌else◌, ℤ,
  pos, inc, dec, at_most,
}

pub record WarmInstance : Type 0 where
  pub jobs_key : String
  pub refs : ℤ
  pub retired : Bool
  pub stopped : Bool

-- `current` is `c.slots[slot]`, a pointer into the instances that were ever built.
pub record PoolSlot : Type 0 where
  pub current : Option ℕ
  pub built : ℕ
  pub instances : ℕ → WarmInstance

abbrev pub empty_slot : PoolSlot
empty_slot = record {
  current = none;
  built = 0;
  instances = λ id. record { jobs_key = ""; refs = pos 0; retired = false; stopped = false };
}

-- `*w = new`.
abbrev pub write : ℕ → WarmInstance → PoolSlot → PoolSlot
write id new s = record s { instances = λ i. if i == id then new else s.instances i }

-- `teardownLocked`: a second call does nothing, as the first stopped the engine.
unfoldable pub teardown : ℕ → PoolSlot → PoolSlot
teardown id s =
    if (s.instances id).stopped then s else write id (record (s.instances id) { stopped = true }) s

-- `teardownLocked(w)` and `delete(c.slots, slot)`.
abbrev pub discard : ℕ → PoolSlot → PoolSlot
discard id s = record (teardown id s) { current = none }

abbrev pub unused : WarmInstance → Bool
unused w = at_most w.refs (pos 0) && at_most (pos 0) w.refs

-- Whether runSlot takes the instance as it is.
unfoldable pub reusable : String → Bool → WarmInstance → Bool
reusable key healthy w = not w.retired && (str_eq w.jobs_key key && healthy)

abbrev pub share : ℕ → PoolSlot → PoolSlot
share id s = write id (record (s.instances id) { refs = inc (s.instances id).refs }) s

unfoldable pub retire : Option ℕ → PoolSlot → PoolSlot
retire none s = s
retire (some id) s =
    let retired = write id (record (s.instances id) { retired = true }) s in
    if unused (s.instances id) then discard id retired else retired

-- `c.slots[slot] = built`, with the reference of the caller.
abbrev pub install : String → PoolSlot → PoolSlot
install key s = record {
  current = some s.built;
  built = suc s.built;
  instances = λ i.
      if i == s.built
      then record { jobs_key = key; refs = pos 1; retired = false; stopped = false }
      else s.instances i;
}

-- The rest of runSlot: `starts` tells whether buildAndStart succeeds.
unfoldable pub rebuild_slot : String → Bool → PoolSlot → PoolSlot × Option ℕ
rebuild_slot key starts s =
    let cleared = retire s.current s in
    if starts then (install key cleared, some cleared.built) else (cleared, none)

unfoldable pub acquire_from : Option ℕ → String → Bool → Bool → PoolSlot → PoolSlot × Option ℕ
acquire_from none key healthy starts s = rebuild_slot key starts s
acquire_from (some id) key healthy starts s =
    if reusable key healthy (s.instances id)
    then (share id s, some id)
    else rebuild_slot key starts s

-- `runSlot` up to its tests: the instance that they run against, none when no engine starts.
unfoldable pub acquire : String → Bool → Bool → PoolSlot → PoolSlot × Option ℕ
acquire key healthy starts s = acquire_from s.current key healthy starts s

unfoldable pub release_from : Option ℕ → PoolSlot → PoolSlot
release_from none s = s
release_from (some id) s =
    let w = record (s.instances id) { refs = dec (s.instances id).refs } in
    if w.retired && at_most w.refs (pos 0) then discard id (write id w s) else write id w s

-- `releaseSlot`.
unfoldable pub release_slot : PoolSlot → PoolSlot
release_slot s = release_from s.current s

unfoldable pub close_from : Option ℕ → PoolSlot → PoolSlot
close_from none s = s
close_from (some id) s =
    if unused (s.instances id)
    then discard id s
    else write id (record (s.instances id) { retired = true }) s

-- One turn of `Close`.
unfoldable pub close : PoolSlot → PoolSlot
close s = close_from s.current s
