-- ===== src/Module/Pool/Testers/Counts.antt =====
-- What each operation on a slot of internal/module/pool.go does to the references and the engines.
use radar_node.Base.{
  ℕ, zero, suc, ◌<◌, ◌≡◌, refl, sym, true, false, ◌&&◌, ◌⊎◌, inl, inr, String, Option, none, some,
  arith, ◌==◌, pos, inc, dec, at_most, Bool-cases, subst, ◌∙◌,
}
use mathlib.Core.Option.{some-injective}
use radar_node.Module.Pool.Slot.{
  WarmInstance, PoolSlot, write, teardown, discard, unused, share, retire, install, release_from,
  close_from,
}

-- The current instance runs and counts the testers, none means no tester, and all others stopped.
unfoldable pub IsCurrent : Option ℕ → PoolSlot → ℕ → Type 0
IsCurrent none s n = n ≡ 0
IsCurrent (some id) s n =
    (id < s.built) × ((s.instances id).refs ≡ pos n) × ((s.instances id).stopped ≡ false)

unfoldable pub OthersStopped : PoolSlot → Type 0
OthersStopped s = (i : ℕ) → i < s.built → (s.current ≡ some i) ⊎ ((s.instances i).stopped ≡ true)

pub record CountsTesters (s : PoolSlot) (n : ℕ) : Type 0 where
  pub counted : IsCurrent s.current s n
  pub others_stopped : OthersStopped s

pub same_number : (i : ℕ) → (i == i) ≡ true
same_number i = ground arith

pub number_of_same : (i j : ℕ) → (i == j) ≡ true → i ≡ j
number_of_same i j h = ground arith

pub write-OthersStopped :
    (id : ℕ) (w : WarmInstance) (s : PoolSlot)
    → s.current ≡ some id
    → OthersStopped s
    → OthersStopped (write id w s)
unfolding OthersStopped
write-OthersStopped id w s current others i below = elim (others i below) [
  | inl c ↦ inl c
  | inr stopped ↦ elim (Bool-cases (i == id)) [
    | inl same ↦ inl (rw (number_of_same i id same) current)
    | inr other ↦ inr (rw other stopped)
  ]
]

pub write-CountsTesters :
    (id n : ℕ) (w : WarmInstance) (s : PoolSlot)
    → s.current ≡ some id
    → id < s.built
    → w.refs ≡ pos n
    → w.stopped ≡ false
    → OthersStopped s
    → CountsTesters (write id w s) n
unfolding IsCurrent
write-CountsTesters id n w s current below refs runs others = record {
  counted = rw current (below, rw (same_number id) refs, rw (same_number id) runs);
  others_stopped = write-OthersStopped id w s current others;
}

pub teardown_stopped :
    (id i : ℕ) (s : PoolSlot)
    → (i ≡ id) ⊎ ((s.instances i).stopped ≡ true)
    → ((teardown id s).instances i).stopped ≡ true
unfolding teardown
teardown_stopped id i s either = elim (Bool-cases (s.instances id).stopped) [
  | inl h ↦ rw h (elim either [ inl e ↦ rw e h | inr stopped ↦ stopped ])
  | inr h ↦ rw h (elim either [
    | inl e ↦ rw (e, same_number id) refl
    | inr stopped ↦ elim (Bool-cases (i == id)) [ inl e ↦ rw e refl | inr e ↦ rw e stopped ]
  ])
]

pub teardown-current : (id : ℕ) (s : PoolSlot) → (teardown id s).current ≡ s.current
unfolding teardown
teardown-current id s = elim (Bool-cases (s.instances id).stopped) [
  | inl h ↦ rw h refl
  | inr h ↦ rw h refl
]

pub teardown-built : (id : ℕ) (s : PoolSlot) → (teardown id s).built ≡ s.built
unfolding teardown
teardown-built id s = elim (Bool-cases (s.instances id).stopped) [
  | inl h ↦ rw h refl
  | inr h ↦ rw h refl
]

pub discard-CountsTesters :
    (id : ℕ) (s : PoolSlot) → s.current ≡ some id → OthersStopped s → CountsTesters (discard id s) 0
unfolding IsCurrent OthersStopped teardown
discard-CountsTesters id s current others = record {
  counted = refl;
  others_stopped = λ i below. inr (
      teardown_stopped id i s (elim (others i (rw (sym (teardown-built id s)) below)) [
        | inl c ↦ inl (some-injective _ _ (sym c ∙ current))
        | inr stopped ↦ inr stopped
      ]));
}

pub install-CountsTesters :
    (key : String) (n : ℕ) (s : PoolSlot)
    → s.current ≡ none
    → OthersStopped s
    → CountsTesters (install key s) 1
unfolding IsCurrent OthersStopped
install-CountsTesters key n s current others = record {
  counted = (omega arith, rw (same_number s.built) refl, rw (same_number s.built) refl);
  others_stopped = λ i below. elim (Bool-cases (i == s.built)) [
    | inl same ↦ inl (rw (number_of_same i s.built same) refl)
    | inr other ↦ elim (others i (ground arith)) [
      | inl c ↦ inl (ground (arith, c, current))
      | inr stopped ↦ inr (rw other stopped)
    ]
  ];
}

pub unused_zero : (w : WarmInstance) → w.refs ≡ pos 0 → unused w ≡ true
unused_zero w refs = rw refs refl

pub unused-suc : (w : WarmInstance) (n : ℕ) → w.refs ≡ pos (suc n) → unused w ≡ false
unused-suc w n refs = rw refs (ground arith)

pub last_release :
    (w : WarmInstance) (n : ℕ)
    → w.refs ≡ pos (suc n)
    → (w.retired && at_most (dec w.refs) (pos 0)) ≡ true
    → n ≡ 0
last_release w n refs h = ground (arith, rw refs at h)

pub retire-CountsTesters :
    (o : Option ℕ) (s : PoolSlot)
    → s.current ≡ o
    → IsCurrent o s 0
    → OthersStopped s
    → CountsTesters (retire o s) 0 × ((retire o s).current ≡ none)
unfolding retire IsCurrent
retire-CountsTesters none s current is_current others =
    (record { counted = rw current refl; others_stopped = others }, current)
retire-CountsTesters (some id) s current (below, refs, runs) others =
    let w = record (s.instances id) { retired = true } in
    rw (unused_zero (s.instances id) refs) (
      discard-CountsTesters id (write id w s) current (write-OthersStopped id w s current others),
      refl,
    )

pub share-CountsTesters :
    (id n : ℕ) (s : PoolSlot)
    → s.current ≡ some id
    → IsCurrent (some id) s n
    → OthersStopped s
    → CountsTesters (share id s) (suc n)
unfolding IsCurrent
share-CountsTesters id n s current (below, refs, runs) others =
    write-CountsTesters id (suc n) (record (s.instances id) { refs = inc (s.instances id).refs }) s
      current below (rw refs refl) runs others

pub release_from-CountsTesters :
    (o : Option ℕ) (n : ℕ) (s : PoolSlot)
    → s.current ≡ o
    → IsCurrent o s (suc n)
    → OthersStopped s
    → CountsTesters (release_from o s) n
unfolding release_from IsCurrent
release_from-CountsTesters none n s current is_current others = ground (arith, is_current)
release_from-CountsTesters (some id) n s current (below, refs, runs) others =
    let old = s.instances id in
    let w = record old { refs = dec old.refs } in
    elim (Bool-cases (old.retired && at_most (dec old.refs) (pos 0))) [
      | inl h ↦ rw h (
          subst (CountsTesters (discard id (write id w s))) (sym (last_release old n refs h)) (
            discard-CountsTesters id (write id w s) current
              (write-OthersStopped id w s current others)))
      | inr h ↦ rw h (write-CountsTesters id n w s current below (rw refs refl) runs others)
    ]

pub close_from-CountsTesters :
    (o : Option ℕ) (n : ℕ) (s : PoolSlot)
    → s.current ≡ o
    → IsCurrent o s n
    → OthersStopped s
    → CountsTesters (close_from o s) n
unfolding close_from IsCurrent
close_from-CountsTesters none n s current is_current others = record {
  counted = rw current is_current;
  others_stopped = others;
}
close_from-CountsTesters (some id) zero s current (below, refs, runs) others =
    rw (unused_zero (s.instances id) refs) (discard-CountsTesters id s current others)
close_from-CountsTesters (some id) (suc n) s current (below, refs, runs) others =
    let w = record (s.instances id) { retired = true } in
    rw (unused-suc (s.instances id) n refs)
      (write-CountsTesters id (suc n) w s current below refs runs others)
