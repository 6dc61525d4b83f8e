-- ===== src/Agent/Spool/Prune.antt =====
-- The files that internal/agent/spool.go evicts.
use radar_node.Base.{
  ℕ, zero, suc, ◌-◌, ◌≤◌, ◌<◌, ◌≡◌, ◌⊎◌, refl, Bool, true, ◌||◌, List, [], ◌∷◌, leb, length, drop,
  arith, Bool-cases, inl, inr,
}
use radar_node.Agent.Spool.{SpoolEntry, bytes, prune_from, prune}

-- The first files were evicted, no more than needed for the budget, and the newest is there.
pub record IsPruned (max_bytes : ℕ) (es left : List SpoolEntry) : Type 0 where
  pub evicted : ℕ
  pub suffix : left ≡ drop evicted es
  pub fits : (bytes left ≤ max_bytes) ⊎ (length left ≤ 1)
  pub needed : (fewer : ℕ) → fewer < evicted → max_bytes < bytes (drop fewer es)
  pub newest_kept : 1 ≤ length es → 1 ≤ length left

more_needed :
    (max_bytes k fewer : ℕ) (e : SpoolEntry) (es : List SpoolEntry)
    → max_bytes < bytes (e ∷ es)
    → ((n : ℕ) → n < k → max_bytes < bytes (drop n es))
    → fewer < suc k
    → max_bytes < bytes (drop fewer (e ∷ es))
more_needed max_bytes k zero e es over needed h = over
more_needed max_bytes k (suc fewer) e es over needed h = needed fewer (omega (arith, h))

prune_from-IsPruned :
    (max_bytes total files : ℕ) (removes : SpoolEntry → Bool) (es : List SpoolEntry)
    → ((e : SpoolEntry) → removes e ≡ true)
    → total ≡ bytes es
    → files ≡ length es
    → IsPruned max_bytes es (prune_from removes max_bytes total files es)
unfolding prune_from
prune_from-IsPruned max_bytes total files removes [] all t f = record {
  evicted = 0;
  suffix = refl;
  fits = inl (omega arith);
  needed = λ fewer h. omega (arith, h);
  newest_kept = λ h. h;
}
prune_from-IsPruned max_bytes total files removes (e ∷ es) all t f =
    elim (Bool-cases (leb total max_bytes || leb files 1)) [
      | inl enough ↦
          rw (enough, prune_from)
            (record {
              evicted = 0;
              suffix = refl;
              fits = ground (arith, enough, t, f);
              needed = λ fewer h. omega (arith, h);
              newest_kept = λ h. h;
            })
      | inr over ↦
          rw (over, all e, prune_from)
            (let p =
                prune_from-IsPruned max_bytes (total - e.size) (files - 1) removes es all
                  (omega (arith, t)) (omega (arith, f)) in
              record {
                evicted = suc p.evicted;
                suffix = p.suffix;
                fits = p.fits;
                needed = λ fewer.
                    more_needed max_bytes p.evicted fewer e es (ground (arith, over, t)) p.needed;
                newest_kept = λ h. p.newest_kept (ground (arith, over, f));
              })
    ]

-- While every removal succeeds, prune evicts oldest files only, as few as the byte budget needs, and
-- leaves the newest one, so that the files fit the budget or a single one is left.
pub prune-IsPruned :
    (max_bytes : ℕ) (removes : SpoolEntry → Bool) (es : List SpoolEntry)
    → ((e : SpoolEntry) → removes e ≡ true)
    → IsPruned max_bytes es (prune removes max_bytes es)
unfolding prune
prune-IsPruned max_bytes removes es all =
    prune_from-IsPruned max_bytes (bytes es) (length es) removes es all refl refl
