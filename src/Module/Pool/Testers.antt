-- ===== src/Module/Pool/Testers.antt =====
-- The references of internal/module/pool.go's slots count their testers.
pub mod Counts
use radar_node.Module.Pool.Testers.Counts.{
  IsCurrent, OthersStopped, CountsTesters, same_number, number_of_same, write-OthersStopped,
  write-CountsTesters, teardown_stopped, teardown-current, teardown-built, discard-CountsTesters,
  install-CountsTesters, unused_zero, unused-suc, last_release, retire-CountsTesters,
  share-CountsTesters, release_from-CountsTesters, close_from-CountsTesters,
}
use radar_node.Base.{
  ℕ, zero, suc, ◌<◌, ◌≡◌, refl, sym, Bool, true, false, ◌&&◌, ◌⊎◌, inl, inr, String, Option, none,
  some, arith, ◌==◌, pos, inc, dec, at_most, Bool-cases, subst, ◌∙◌,
}
use mathlib.Core.Option.{some-injective}
use radar_node.Module.Pool.Slot.{
  WarmInstance, PoolSlot, empty_slot, write, teardown, discard, unused, reusable, share, retire,
  install, rebuild_slot, acquire_from, acquire, release_from, release_slot, close_from, close,
}

-- Whether the call finds an instance that it takes as it is.
abbrev pub reuses_from : Option ℕ → String → Bool → PoolSlot → Bool
reuses_from none key healthy s = false
reuses_from (some id) key healthy s = reusable key healthy (s.instances id)

-- The states of a slot with the number of its testers, while no engine is rebuilt under a tester.
pub data Reached : PoolSlot → ℕ → Type 0 where
  begins : Reached empty_slot 0
  reuses :
      {s : PoolSlot} {n : ℕ} (key : String) (healthy starts : Bool)
      → Reached s n
      → reuses_from s.current key healthy s ≡ true
      → Reached (acquire key healthy starts s).0 (suc n)
  rebuilds :
      {s : PoolSlot} (key : String) (healthy : Bool)
      → Reached s 0
      → Reached (acquire key healthy true s).0 1
  fails :
      {s : PoolSlot} (key : String) (healthy : Bool)
      → Reached s 0
      → reuses_from s.current key healthy s ≡ false
      → Reached (acquire key healthy false s).0 0
  finishes : {s : PoolSlot} {n : ℕ} → Reached s (suc n) → Reached (release_slot s) n
  closes : {s : PoolSlot} {n : ℕ} → Reached s n → Reached (close s) n

rebuild_slot-CountsTesters :
    (key : String) (s : PoolSlot)
    → CountsTesters s 0
    → CountsTesters (rebuild_slot key true s).0 1 × CountsTesters (rebuild_slot key false s).0 0
unfolding rebuild_slot
rebuild_slot-CountsTesters key s c =
    let (cleared, unmapped) = retire-CountsTesters s.current s refl c.counted c.others_stopped in
    (install-CountsTesters key 0 (retire s.current s) unmapped cleared.others_stopped, cleared)

acquire_from-CountsTesters :
    (o : Option ℕ) (key : String) (healthy : Bool) (s : PoolSlot)
    → s.current ≡ o
    → CountsTesters s 0
    → CountsTesters (acquire_from o key healthy true s).0 1
unfolding acquire_from
acquire_from-CountsTesters none key healthy s current c = (rebuild_slot-CountsTesters key s c).0
acquire_from-CountsTesters (some id) key healthy s current c =
    elim (Bool-cases (reusable key healthy (s.instances id))) [
      | inl h ↦ rw h (
          share-CountsTesters id 0 s current (subst (λ o. IsCurrent o s 0) current c.counted)
            c.others_stopped)
      | inr h ↦ rw h (rebuild_slot-CountsTesters key s c).0
    ]

reuse-CountsTesters :
    (o : Option ℕ) (key : String) (healthy starts : Bool) (n : ℕ) (s : PoolSlot)
    → s.current ≡ o
    → reuses_from o key healthy s ≡ true
    → CountsTesters s n
    → CountsTesters (acquire_from o key healthy starts s).0 (suc n)
unfolding acquire_from
reuse-CountsTesters none key healthy starts n s current h c = ground (arith, h)
reuse-CountsTesters (some id) key healthy starts n s current h c = rw h (
    share-CountsTesters id n s current (subst (λ o. IsCurrent o s n) current c.counted)
      c.others_stopped)

fail-CountsTesters :
    (o : Option ℕ) (key : String) (healthy : Bool) (s : PoolSlot)
    → reuses_from o key healthy s ≡ false
    → CountsTesters s 0
    → CountsTesters (acquire_from o key healthy false s).0 0
unfolding acquire_from
fail-CountsTesters none key healthy s h c = (rebuild_slot-CountsTesters key s c).1
fail-CountsTesters (some id) key healthy s h c = rw h (rebuild_slot-CountsTesters key s c).1

-- While no engine is rebuilt under a tester, the slot's engine runs as long as it has testers and
-- its references are their number, a slot without an engine has no tester, and every other engine
-- that was ever built is stopped.
pub Reached-CountsTesters : (s : PoolSlot) (n : ℕ) → Reached s n → CountsTesters s n
unfolding acquire release_slot close IsCurrent OthersStopped
Reached-CountsTesters _ _ begins = record {
  counted = refl;
  others_stopped = λ i below. ground (arith, below);
}
Reached-CountsTesters _ _ (reuses {s} {n} key healthy starts r h) =
    reuse-CountsTesters s.current key healthy starts n s refl h (Reached-CountsTesters s n r)
Reached-CountsTesters _ _ (rebuilds {s} key healthy r) =
    acquire_from-CountsTesters s.current key healthy s refl (Reached-CountsTesters s 0 r)
Reached-CountsTesters _ _ (fails {s} key healthy r h) =
    fail-CountsTesters s.current key healthy s h (Reached-CountsTesters s 0 r)
Reached-CountsTesters _ _ (finishes {s} {n} r) =
    let c = Reached-CountsTesters s (suc n) r in
    release_from-CountsTesters s.current n s refl c.counted c.others_stopped
Reached-CountsTesters _ _ (closes {s} {n} r) =
    let c = Reached-CountsTesters s n r in
    close_from-CountsTesters s.current n s refl c.counted c.others_stopped
