-- ===== src/Agent/Cache/Oldest.antt =====
-- Which probe `takeDueProbes` of internal/agent/cache.go takes first.
use radar_node.Base.{
  ℕ, zero, suc, ◌+◌, ◌≤◌, ◌<◌, ◌≡◌, refl, sym, ap, ◌∙◌, subst, inl, inr, String, List, [], ◌∷◌,
  ◌++◌, map, arith, Bool, ◌&&◌, any, sort, sort-All, sort-any, length-sort, insert_sorted,
  insert_sorted-All, length, All, All-weaken, retain, append-nil, append_assoc, Bool-cases, ltb,
  false, true, ◌⊎◌,
}
use radar_node.Wire.{ProbeSnapshot}
use radar_node.Agent.Cache.{CachedProbe, ProbeCache}
use radar_node.Agent.Cache.Schedule.{
  Taken, DueEntry, take_entry, take_entries, take_due_probes, due_entries, older, with_count,
  job_count, probe_due,
}

job_count-le :
    (max_jobs max_per_probe wanted : ℕ)
    → 0 < max_jobs
    → job_count max_jobs max_per_probe wanted ≤ max_jobs
unfolding job_count
job_count-le max_jobs max_per_probe wanted h = ground arith

due_entries-fit :
    (now max_jobs max_per_probe : ℕ) (m : List (String × CachedProbe))
    → 0 < max_jobs
    → All (λ e. e.count ≤ max_jobs) (due_entries now max_jobs max_per_probe m)
unfolding due_entries
due_entries-fit now max_jobs max_per_probe [] h = tt
due_entries-fit now max_jobs max_per_probe ((id, p) ∷ m) h = ground (
  arith,
  due_entries-fit now max_jobs max_per_probe m h,
  job_count-le max_jobs max_per_probe p.probe_count,
)

take_entry-extends :
    (now max_jobs : ℕ) (e : DueEntry) (t : Taken)
    → (more : List ProbeSnapshot) × ((take_entry now max_jobs e t).selected ≡ t.selected ++ more)
unfolding take_entry
take_entry-extends now max_jobs e t =
    elim (Bool-cases (ltb 0 max_jobs && ltb max_jobs (t.used + e.count))) [
      | inl no_room ↦ ([], rw no_room (sym (append-nil t.selected)))
      | inr room ↦ (with_count e ∷ [], rw room)
    ]

-- What is selected stays selected.
take_entries-extends :
    (now max_jobs : ℕ) (es : List DueEntry) (t : Taken)
    → (more : List ProbeSnapshot) × ((take_entries now max_jobs es t).selected ≡ t.selected ++ more)
unfolding take_entries
take_entries-extends now max_jobs [] t = ([], sym (append-nil t.selected))
take_entries-extends now max_jobs (e ∷ es) t =
    let (first, p) = take_entry-extends now max_jobs e t in
    let (rest, q) = take_entries-extends now max_jobs es (take_entry now max_jobs e t) in
    (first ++ rest, q ∙ ap (λ ss. ss ++ rest) p ∙ append_assoc t.selected first rest)

-- The entry of the least last run stands first in the sorted list.
abbrev RanFirst : DueEntry → DueEntry → Type 0
RanFirst e d = e.probe.last_run_at ≤ d.probe.last_run_at

RanFirst-older :
    (e d : DueEntry) → (older e d ≡ true → RanFirst e d) × (older e d ≡ false → RanFirst d e)
unfolding older
RanFirst-older e d = (λ h. ground (arith, h), λ h. ground (arith, h))

abbrev IsFirst : List DueEntry → Type 0
IsFirst [] = Unit {0}
IsFirst (e ∷ es) = All (RanFirst e) es

insert_sorted-IsFirst :
    (x : DueEntry) (es : List DueEntry) → IsFirst es → IsFirst (insert_sorted older x es)
unfolding insert_sorted
insert_sorted-IsFirst x [] h = tt
insert_sorted-IsFirst x (e ∷ es) h = elim (Bool-cases (older e x)) [
  | inl before ↦
      rw (before, insert_sorted)
        (insert_sorted-All older (RanFirst e) x es ((RanFirst-older e x).0 before) h)
  | inr later ↦
      rw (later, insert_sorted)
        (
          (RanFirst-older e x).1 later,
          All-weaken (RanFirst e) (RanFirst x) es
              (λ d f. omega (arith, f, (RanFirst-older e x).1 later)) h,
        )
]

sort-IsFirst : (es : List DueEntry) → IsFirst (sort older es)
unfolding sort
sort-IsFirst [] = tt
sort-IsFirst (e ∷ es) = insert_sorted-IsFirst e (sort older es) (sort-IsFirst es)

-- The cached probes that are due.
abbrev pub due_now : ℕ → List (String × CachedProbe) → List CachedProbe
due_now now m = retain (λ p. probe_due p now) (map (λ e. e.1) m)

abbrev pub Among : CachedProbe → List CachedProbe → Type 0
Among p [] = ⊥
Among p (q ∷ qs) = (p ≡ q) ⊎ Among p qs

abbrev pub ran_before : CachedProbe → CachedProbe → Bool
ran_before p q = ltb q.last_run_at p.last_run_at

length-map : (f : DueEntry → CachedProbe) (es : List DueEntry) → length (map f es) ≡ length es
length-map f [] = refl
length-map f (e ∷ es) = ap suc (length-map f es)

abbrev probes_of : List DueEntry → List CachedProbe
probes_of es = map (λ e. e.probe) es

due_entries-probes :
    (now max_jobs max_per_probe : ℕ) (m : List (String × CachedProbe))
    → probes_of (due_entries now max_jobs max_per_probe m) ≡ due_now now m
unfolding due_entries
due_entries-probes now max_jobs max_per_probe [] = refl
due_entries-probes now max_jobs max_per_probe ((id, p) ∷ m) =
    ground (arith, due_entries-probes now max_jobs max_per_probe m)

abbrev IsDueEntry : List DueEntry → DueEntry → Type 0
IsDueEntry all e = Among e.probe (probes_of all)

entries_among : (es : List DueEntry) → All (IsDueEntry es) es
entries_among [] = tt
entries_among (e ∷ es) = (
  inl refl,
  All-weaken (IsDueEntry es) (IsDueEntry (e ∷ es)) es (λ d h. inr h) (entries_among es),
)

any-probes_of :
    (p : CachedProbe) (es : List DueEntry)
    → any (ran_before p) (probes_of es) ≡ any (λ d. ran_before p d.probe) es
any-probes_of p [] = refl
any-probes_of p (e ∷ es) = ground (arith, any-probes_of p es)

RanFirst-any :
    (e : DueEntry) (es : List DueEntry)
    → All (RanFirst e) es
    → any (λ d. ran_before e.probe d.probe) es ≡ false
RanFirst-any e [] h = refl
RanFirst-any e (d ∷ es) (h, hs) = ground (arith, h, RanFirst-any e es hs)

-- The head of the sorted entries is a due probe that no due probe ran before.
IsFirst-any :
    (e : DueEntry) (es all : List DueEntry)
    → sort older all ≡ e ∷ es
    → Among e.probe (probes_of all) × (any (ran_before e.probe) (probes_of all) ≡ false)
IsFirst-any e es all sorted =
    let first = subst IsFirst sorted (sort-IsFirst all) in
    let among =
      subst (All (IsDueEntry all)) sorted
        (sort-All older (IsDueEntry all) all (entries_among all)) in
    (
      among.0,
      any-probes_of e.probe all
          ∙ sym (sort-any older (λ d. ran_before e.probe d.probe) all)
          ∙ ap (any (λ d. ran_before e.probe d.probe)) sorted
          ∙ ground (arith, RanFirst-any e es first),
    )

take_entries-head :
    (now max_jobs : ℕ) (c : ProbeCache) (e : DueEntry) (es : List DueEntry)
    → 0 < max_jobs
    → e.count ≤ max_jobs
    → let start : Taken = record { probes = c.probes; selected = []; deferred = 0; used = 0 } in
      (more : List ProbeSnapshot) × ((take_entries now max_jobs (e ∷ es) start).selected
        ≡ with_count e ∷ more)
unfolding take_entries
take_entries-head now max_jobs c e es pos fits =
    let start : Taken = record { probes = c.probes; selected = []; deferred = 0; used = 0 } in
    let (more, p) = take_entries-extends now max_jobs es (take_entry now max_jobs e start) in
    (more, ground (arith, p, fits))

list-cases :
    (es : List DueEntry) → (es ≡ []) ⊎ ((e : DueEntry) × (r : List DueEntry) × (es ≡ e ∷ r))
list-cases [] = inl refl
list-cases (e ∷ es) = inr (e, es, refl)

take_due_probes-some :
    (now k max_per_probe : ℕ) (c : ProbeCache)
    → take_due_probes now (suc k) max_per_probe c
      ≡ take_entries now
          (suc k)
          (sort older (due_entries now (suc k) max_per_probe c.probes))
          (record { probes = c.probes; selected = []; deferred = 0; used = 0 })
unfolding take_due_probes
take_due_probes-some now k max_per_probe c = ground arith

-- With a budget, and a probe that is due, the first probe that is taken is a due one whose last run
-- is the longest ago: no due probe's last run was before its.
pub take_due_probes-oldest :
    (now max_jobs max_per_probe : ℕ) (c : ProbeCache)
    → 0 < max_jobs
    → 0 < length (due_now now c.probes)
    → let due = due_now now c.probes in
      (p : CachedProbe) × (count : ℕ) × (more : List ProbeSnapshot) × Among p due
      × (any (λ q. ltb q.last_run_at p.last_run_at) due ≡ false)
      × ((take_due_probes now max_jobs max_per_probe c).selected
          ≡ record (p.snapshot) { probe_count = count } ∷ more)
take_due_probes-oldest now zero max_per_probe c pos some_due = absurd (omega (arith, pos))
take_due_probes-oldest now (suc k) max_per_probe c pos some_due =
    let entries = due_entries now (suc k) max_per_probe c.probes in
    let same = due_entries-probes now (suc k) max_per_probe c.probes in
    elim (list-cases (sort older entries)) [
      | inl none_due ↦ absurd (
          omega (
            arith,
            some_due,
            ap length same,
            length-map (λ (e : DueEntry). e.probe) entries,
            ap length none_due,
            length-sort older entries,
          ))
      | inr (e, es, sorted) ↦
          let first =
            subst (λ ps. Among e.probe ps × (any (ran_before e.probe) ps ≡ false)) same
              (IsFirst-any e es entries sorted) in
          let fits = subst (All (λ (d : DueEntry). d.count ≤ suc k)) sorted (
            sort-All older (λ (d : DueEntry). d.count ≤ suc k) entries
              (due_entries-fit now (suc k) max_per_probe c.probes pos)) in
          let (more, head) = take_entries-head now (suc k) c e es pos fits.0 in
          (
            e.probe,
            e.count,
            more,
            first.0,
            first.1,
            ap (λ (t : Taken). t.selected) (take_due_probes-some now k max_per_probe c)
                ∙ ap
                    (λ l.
                      (take_entries now (suc k) l (record {
                        probes = c.probes;
                        selected = [];
                        deferred = 0;
                        used = 0;
                      })).selected)
                    sorted
                ∙ head,
          )
    ]
