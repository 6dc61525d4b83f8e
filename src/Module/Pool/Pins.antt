-- ===== src/Module/Pool/Pins.antt =====
-- The ports that internal/module/pool.go pins to jobs. runBisected gives a job whose pin another batch
-- released a port that it does not compare with the pinned ones.
mod Keys
use radar_node.Base.{
  ℕ, zero, suc, ◌≡◌, refl, sym, ap, ◌∙◌, subst, Bool, true, false, ◌&&◌, ◌||◌, String, Option, none,
  some, List, [], ◌∷◌, map, ltb, ◌==◌, str_eq, any, All, retain, retain-everything, insert, lookup,
  take, drop, not, eq_iff, eq_refl, arith, Bool-cases, Option-cases, inl, inr, if_both,
}
use mathlib.Core.Option
use radar_node.Module.Pool.Slot.{acquire}
use radar_node.Module.Pool.Bisect.{BuildError}
use radar_node.Module.Pool.Ports.{
  taken, attempts, try_ports, allocate_unique_port, FirstUsable,
  allocate_unique_port_in_range-FirstUsable,
}
use radar_node.Module.Pool.Run.{
  PendingJob, PoolJob, PoolState, JobReport, World, allocate_pool_port, pin, allocate_jobs, repin,
  repin_jobs, run_bisected, without_engine, run_jobs, run_slot, starts,
}
use radar_node.Module.Pool.Batch.{run_slots}
use radar_node.Module.Pool.Pins.Keys.{
  All-take, All-drop, pinned, lookup-pinned, pinned-lookup, pinned-insert, chunk_pinned,
}

abbrev pub ports_of : List (String × ℕ) → List ℕ
ports_of pins = map (λ e. e.1) pins

-- No two pins have one port.
abbrev pub Unshared : List (String × ℕ) → Type 0
Unshared [] = Unit {0}
Unshared (e ∷ es) = (taken (ports_of es) e.1 ≡ false) × Unshared es

-- A port that was given is none of the used ones.
abbrev Fresh : List ℕ → Option ℕ → Type 0
Fresh used none = Unit {0}
Fresh used (some port) = taken used port ≡ false

try_ports-Fresh : (used : List ℕ) (answers : List (Option ℕ)) → Fresh used (try_ports used answers)
unfolding try_ports
try_ports-Fresh used [] = tt
try_ports-Fresh used (none ∷ answers) = tt
try_ports-Fresh used (some port ∷ answers) = elim (Bool-cases (taken used port)) [
  | inl pinned ↦ rw (pinned, try_ports) (try_ports-Fresh used answers)
  | inr unpinned ↦ rw (unpinned, try_ports) unpinned
]

FirstUsable-Fresh :
    (free : ℕ → Bool) (used : List ℕ) (base span : ℕ) (o : Option ℕ)
    → FirstUsable free used base span o
    → Fresh used o
unfolding FirstUsable
FirstUsable-Fresh free used base span none h = tt
FirstUsable-Fresh free used base span (some port) (at_least, below, fine, first) =
    ground (arith, fine)

taken-insert :
    (key : String) (port q : ℕ) (pins : List (String × ℕ))
    → lookup key pins ≡ none
    → taken (ports_of (insert key port pins)) q ≡ (taken (ports_of pins) q || port == q)
unfolding lookup insert
taken-insert key port q [] h = ground arith
taken-insert key port q (e ∷ es) h = ground (arith, h, taken-insert key port q es)

insert-Unshared :
    (key : String) (port : ℕ) (pins : List (String × ℕ))
    → lookup key pins ≡ none
    → taken (ports_of pins) port ≡ false
    → Unshared pins
    → Unshared (insert key port pins)
unfolding lookup insert
insert-Unshared key port [] h f u = (refl, tt)
insert-Unshared key port (e ∷ es) h f (u, us) =
    let other : str_eq e.0 key ≡ false = ground (arith, h) in
    let absent : lookup key es ≡ none = ground (arith, h, other) in
    rw (other, insert)
      (
        ground (arith, taken-insert key port e.1 es absent, u, f),
        insert-Unshared key port es absent (ground (arith, f)) us,
      )

taken-retain :
    (p : String × ℕ → Bool) (pins : List (String × ℕ)) (q : ℕ)
    → taken (ports_of pins) q ≡ false
    → taken (ports_of (retain p pins)) q ≡ false
taken-retain p [] q h = h
taken-retain p (e ∷ es) q h = ground (arith, h, taken-retain p es q)

retain-Unshared :
    (p : String × ℕ → Bool) (pins : List (String × ℕ)) → Unshared pins → Unshared (retain p pins)
retain-Unshared p [] u = tt
retain-Unshared p (e ∷ es) (u, us) = elim (Bool-cases (p e)) [
  | inl kept ↦ rw kept (taken-retain p es e.1 u, retain-Unshared p es us)
  | inr dropped ↦ rw dropped (retain-Unshared p es us)
]

module _ {M : Type 0} (w : World M) where
  allocate_pool_port-Fresh :
      (used : List ℕ) (key : String) → Fresh used (allocate_pool_port w used key)
  unfolding allocate_pool_port allocate_unique_port
  allocate_pool_port-Fresh used key =
      if_both (Fresh used) (ltb 0 w.port_base && ltb 0 w.port_span)
        (FirstUsable-Fresh w.free used w.port_base w.port_span _
          (allocate_unique_port_in_range-FirstUsable w.free used w.port_base w.port_span))
        (try_ports-Fresh used (take attempts (w.answers key)))

  -- The used ports are at least the pinned ones.
  abbrev Knows : List ℕ → List (String × ℕ) → Type 0
  Knows used pins = (q : ℕ) → taken (ports_of pins) q ≡ true → taken used q ≡ true

  abbrev PinIsGood : Option (ℕ × List ℕ × List (String × ℕ)) → Type 0
  PinIsGood none = Unit {0}
  PinIsGood (some (port, used, pins)) = Knows used pins × Unshared pins

  pin-PinIsGood :
      (used : List ℕ) (pins : List (String × ℕ)) (key : String)
      → Knows used pins
      → Unshared pins
      → PinIsGood (pin w used pins key)
  unfolding pin
  pin-PinIsGood used pins key knows u = elim (Option-cases (lookup key pins)) [
    | inr (port, e) ↦ rw (e, pin) (knows, u)
    | inl e ↦
        rw (e, pin)
          (allocated e (allocate_pool_port w used key) (allocate_pool_port-Fresh used key))
  ]
    where
      allocated :
          lookup key pins ≡ none
          → (o : Option ℕ) → Fresh used o
          → PinIsGood (Option.map (λ port. (port, port ∷ used, insert key port pins)) o)
      allocated e none f = tt
      allocated e (some port) f = (
        λ q h. ground (arith, h, taken-insert key port q pins e, knows q),
        insert-Unshared key port pins e (ground (arith, knows port, f)) u,
      )

  allocate_jobs-Unshared :
      (used : List ℕ) (pins : List (String × ℕ)) (ps : List PendingJob)
      → Knows used pins
      → Unshared pins
      → Unshared (allocate_jobs w used pins ps).0
  unfolding allocate_jobs
  allocate_jobs-Unshared used pins [] knows u = u
  allocate_jobs-Unshared used pins (p ∷ ps) knows u = elim (Option-cases (pin w used pins p.key)) [
    | inl e ↦ rw (e, allocate_jobs) u
    | inr ((port, used', pins'), e) ↦
        let good = subst PinIsGood (e) (pin-PinIsGood used pins p.key knows u) in
        rw (e, allocate_jobs) (allocate_jobs-Unshared used' pins' ps good.0 good.1)
  ]

  PinsKey : String → List (String × ℕ) → Option (ℕ × List ℕ × List (String × ℕ)) → Type 0
  PinsKey key pins none = Unit {0}
  PinsKey key pins (some (port, used, pins')) =
      (pinned key pins' ≡ true) × ((k : String) → pinned k pins ≡ true → pinned k pins' ≡ true)

  pin-PinsKey :
      (used : List ℕ) (pins : List (String × ℕ)) (key : String)
      → PinsKey key pins (pin w used pins key)
  unfolding pin PinsKey
  pin-PinsKey used pins key = elim (Option-cases (lookup key pins)) [
    | inr (port, e) ↦ rw (e, pin) (lookup-pinned key port pins e, λ k h. h)
    | inl e ↦ rw (e, pin) (allocated (allocate_pool_port w used key))
  ]
    where
      allocated :
          (o : Option ℕ)
          → PinsKey key pins (Option.map (λ port. (port, port ∷ used, insert key port pins)) o)
      allocated none = tt
      allocated (some port) = (
        ground (arith, pinned-insert key port key pins, eq_refl key),
        λ k h. ground (arith, h, pinned-insert key port k pins),
      )

  AllPinned : List PendingJob → List (String × ℕ) → Option (List PoolJob) → Type 0
  AllPinned ps pins none = Unit {0}
  AllPinned ps pins (some js) = All (λ p. pinned p.key pins ≡ true) ps

  AllPinned-with_job :
      (p : PendingJob) (port : ℕ) (ps : List PendingJob) (pins : List (String × ℕ))
      (o : Option (List PoolJob))
      → pinned p.key pins ≡ true
      → AllPinned ps pins o
      → AllPinned (p ∷ ps) pins (Option.map (λ js. record { job = p; port = port } ∷ js) o)
  unfolding AllPinned
  AllPinned-with_job p port ps pins none h hs = tt
  AllPinned-with_job p port ps pins (some js) h hs = (h, hs)

  allocate_jobs-AllPinned :
      (used : List ℕ) (pins : List (String × ℕ)) (ps : List PendingJob)
      → let r = allocate_jobs w used pins ps in
        AllPinned ps r.0 r.1 × ((k : String) → pinned k pins ≡ true → pinned k r.0 ≡ true)
  unfolding allocate_jobs AllPinned
  allocate_jobs-AllPinned used pins [] = (tt, λ k h. h)
  allocate_jobs-AllPinned used pins (p ∷ ps) = elim (Option-cases (pin w used pins p.key)) [
    | inl e ↦ rw (e, allocate_jobs) (tt, λ k h. h)
    | inr ((port, used', pins'), e) ↦
        let (here, kept) = pinned_by e (pin-PinsKey used pins p.key) in
        let (rest, more) = allocate_jobs-AllPinned used' pins' ps in
        rw (e, allocate_jobs)
          (AllPinned-with_job p port ps _ _ (more p.key here) rest, λ k h. more k (kept k h))
  ]
    where
      pinned_by :
          {port : ℕ} {used' : List ℕ} {pins' : List (String × ℕ)}
          → pin w used pins p.key ≡ some (port, used', pins')
          → PinsKey p.key pins (pin w used pins p.key)
          → (pinned p.key pins' ≡ true)
            × ((k : String) → pinned k pins ≡ true → pinned k pins' ≡ true)
      pinned_by e h = unfold PinsKey in subst (PinsKey p.key pins) e h

  repin_jobs-same :
      (ports : List (String × ℕ)) (ps : List PendingJob)
      → All (λ p. pinned p.key ports ≡ true) ps
      → (repin_jobs w ports ps).0 ≡ ports
  unfolding repin_jobs repin
  repin_jobs-same ports [] h = refl
  repin_jobs-same ports (p ∷ ps) (h, hs) =
      let (port, e) = pinned-lookup p.key ports h in
      rw (e, repin_jobs, repin) (repin_jobs-same ports ps hs)

  module _ (alone : (key : String) → w.released key ≡ false) where
    without_engine-ports :
        (error : Option BuildError) (chunk : List PendingJob) (js : List PoolJob)
        (ports : List (String × ℕ))
        → All (λ p. pinned p.key ports ≡ true) chunk
        → (without_engine w error chunk js ports).0 ≡ ports
    unfolding without_engine run_bisected
    without_engine-ports none chunk js ports h = refl
    without_engine-ports (some e) chunk js ports h =
        let whole : retain (λ (pin : String × ℕ). not (w.released pin.0)) ports ≡ ports =
          retain-everything (λ pin. not (w.released pin.0)) ports (λ pin. rw (alone pin.0) refl) in
        if_both (λ (r : List (String × ℕ) × List (PendingJob × JobReport M)). r.0 ≡ ports) _
          (ap (λ l. (repin_jobs w l chunk).0) whole ∙ repin_jobs-same ports chunk h) refl

    run_jobs-Unshared :
        (live : List String) (slot : ℕ) (chunk : List PendingJob) (js : List PoolJob)
        (pins : List (String × ℕ)) (s : PoolState)
        → All (λ p. any (str_eq p.key) live ≡ true) chunk
        → All (λ p. pinned p.key pins ≡ true) chunk
        → Unshared pins
        → Unshared (run_jobs w live slot chunk js pins s).0.ports
    unfolding run_jobs
    run_jobs-Unshared live slot chunk js pins s alive got u =
        let result =
          acquire (w.hash_jobs js) (w.healthy slot) (starts w (w.build js)) (s.slots slot) in
        let kept = retain-Unshared (λ e. any (str_eq e.0) live) pins u in
        elim (Option-cases result.1) [
          | inl e ↦
              rw (e, run_jobs)
                (subst Unshared
                  (sym (
                    without_engine-ports (w.build js) chunk js _
                      (chunk_pinned live pins chunk alive got)))
                  kept)
          | inr (id, e) ↦ rw (e, run_jobs) kept
        ]

    run_slot-Unshared :
        (live : List String) (slot : ℕ) (chunk : List PendingJob) (s : PoolState)
        → All (λ p. any (str_eq p.key) live ≡ true) chunk
        → Unshared s.ports
        → Unshared (run_slot w live slot chunk s).0.ports
    unfolding run_slot AllPinned
    run_slot-Unshared live slot chunk s alive u =
        let used = map (λ (e : String × ℕ). e.1) s.ports in
        let pins = (allocate_jobs w used s.ports chunk).0 in
        let kept = allocate_jobs-Unshared used s.ports chunk (λ q h. h) u in
        let got = (allocate_jobs-AllPinned used s.ports chunk).0 in
        elim (Option-cases (allocate_jobs w used s.ports chunk).1) [
          | inl e ↦ rw (e, run_slot) kept
          | inr (js, e) ↦
              rw (e, run_slot)
                (run_jobs-Unshared live slot chunk js pins s alive
                  (subst (AllPinned chunk pins) e got) kept)
        ]

    -- However the slots of a batch go, whether jobs are pinned, released, refused a port or isolated
    -- after a failed start, no two jobs are pinned to one port when none were before, where the jobs
    -- are live ones and no other batch releases their pins between a failed start and the isolation.
    pub run_slots-Unshared :
        (max_jobs : ℕ) (live : List String) (fuel slot : ℕ) (ps : List PendingJob) (s : PoolState)
        → All (λ p. any (str_eq p.key) live ≡ true) ps
        → Unshared s.ports
        → Unshared (run_slots w max_jobs live fuel slot ps s).0.ports
    unfolding run_slots
    run_slots-Unshared max_jobs live zero slot ps s alive u = u
    run_slots-Unshared max_jobs live (suc fuel) slot [] s alive u = u
    run_slots-Unshared max_jobs live (suc fuel) slot (p ∷ ps) s alive u =
        let chunk = take max_jobs (p ∷ ps) in
        let P = λ (q : PendingJob). any (str_eq q.key) live ≡ true in
        run_slots-Unshared max_jobs live fuel (suc slot) _ (run_slot w live slot chunk s).0
          (All-drop P max_jobs (p ∷ ps) alive)
          (run_slot-Unshared live slot chunk s (All-take P max_jobs (p ∷ ps) alive) u)
