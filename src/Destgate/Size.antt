-- ===== src/Destgate/Size.antt =====
-- The number of destinations that internal/destgate/destgate.go remembers.
use radar_node.Base.{
  ℕ, zero, suc, ◌+◌, ◌/◌, max, ◌≤◌, ◌<◌, ◌≡◌, Bool, true, false, ◌||◌, String, some, List, [], ◌∷◌,
  leb, ◌==◌, str_eq, eq_refl, lookup, insert, erase, length, take, length-insert-le, arith,
  Bool-cases, Option-cases, inl, inr, sort, length-sort, All, sort-All,
}
use radar_node.Destgate.{
  Gate, max_destinations, earlier, erase_all, evict_oldest, grant, try_turn, try_turn_from,
}

length-erase-le : (key : String) (m : List (String × ℕ)) → length (erase key m) ≤ length m
unfolding erase
length-erase-le key [] = omega arith
length-erase-le key (e ∷ m) = ground (arith, length-erase-le key m)

-- An entry whose key a map has.
has_key : List (String × ℕ) → String × ℕ → Bool
has_key [] entry = false
has_key (e ∷ m) entry = str_eq e.0 entry.0 || has_key m entry

length-erase :
    (entry : String × ℕ) (m : List (String × ℕ))
    → has_key m entry ≡ true
    → length (erase entry.0 m) < length m
unfolding erase has_key
length-erase entry [] h = ground (arith, h)
length-erase entry (e ∷ m) h = ground (arith, h, length-erase entry m)

length-erase_all-le : (es m : List (String × ℕ)) → length (erase_all es m) ≤ length m
unfolding erase_all
length-erase_all-le [] m = omega arith
length-erase_all-le (e ∷ es) m =
    omega (arith, length-erase_all-le es (erase e.0 m), length-erase-le e.0 m)

still_have_key :
    (x : String × ℕ) (m es : List (String × ℕ))
    → All (λ e. has_key m e ≡ true) es
    → All (λ e. has_key (x ∷ m) e ≡ true) es
unfolding has_key
still_have_key x m [] h = tt
still_have_key x m (e ∷ es) h = (ground (arith, h.0), still_have_key x m es h.1)

known_keys : (m : List (String × ℕ)) → All (λ e. has_key m e ≡ true) m
unfolding has_key
known_keys [] = tt
known_keys (e ∷ m) = (ground (arith, eq_refl e.0), still_have_key e m m (known_keys m))

length-erase_first :
    (n : ℕ) (es m : List (String × ℕ))
    → All (λ e. has_key m e ≡ true) es
    → 1 ≤ n
    → 1 ≤ length es
    → length (erase_all (take n es) m) < length m
unfolding erase_all
length-erase_first zero es m known h k = omega (arith, h)
length-erase_first (suc n) [] m known h k = omega (arith, k)
length-erase_first (suc n) (e ∷ es) m known h k =
    omega (arith, length-erase_all-le (take n es) (erase e.0 m), length-erase e m known.0)

length-evict_oldest : (m : List (String × ℕ)) → 1 ≤ length m → length (evict_oldest m) < length m
unfolding evict_oldest
length-evict_oldest m some_there =
    length-erase_first (max (length m / 4) 1) (sort earlier m) m
      (sort-All earlier (λ e. has_key m e ≡ true) m (known_keys m)) (omega arith)
      (omega (arith, length-sort earlier m, some_there))

length-insert-known :
    (key : String) (value prev : ℕ) (m : List (String × ℕ))
    → lookup key m ≡ some prev
    → length (insert key value m) ≡ length m
unfolding lookup insert
length-insert-known key value prev [] h = ground (arith, h)
length-insert-known key value prev (e ∷ m) h =
    ground (arith, h, length-insert-known key value prev m)

-- Whatever the passes, no more than 4096 destinations are remembered: a new one that comes at the
-- limit takes the place of the oldest quarter.
pub length-try_turn :
    (dest : String) (now : ℕ) (g : Gate)
    → length g.last ≤ max_destinations
    → length (try_turn dest now g).0.last ≤ max_destinations
unfolding try_turn try_turn_from grant
length-try_turn dest now g within = elim (Bool-cases (str_eq dest "" || g.floor == 0)) [
  | inl off ↦ rw off within
  | inr on ↦ rw on (elim (Option-cases (lookup dest g.last)) [
    | inl new ↦
        rw (new, try_turn_from)
          (elim (Bool-cases (leb max_destinations (length g.last))) [
            | inl full ↦ rw full (
                omega (
                  arith,
                  within,
                  length-insert-le dest now (evict_oldest g.last),
                  length-evict_oldest g.last (ground (arith, full)),
                ))
            | inr room ↦ rw room (ground (arith, room, length-insert-le dest now g.last))
          ])
    | inr (prev, known) ↦
        rw (known, try_turn_from)
          (elim (Bool-cases (leb (prev + g.floor) now)) [
            | inl waited ↦
                rw waited (omega (arith, within, length-insert-known dest now prev g.last known))
            | inr early ↦ rw early within
          ])
  ])
]
