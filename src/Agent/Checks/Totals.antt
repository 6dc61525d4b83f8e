-- ===== src/Agent/Checks/Totals.antt =====
-- Counts over the lists of checks and results of internal/agent/agent.go.
use mathlib.Core.List.{Perm, foldr}
use mathlib.Core.List.Perm
use radar_node.Base.{
  ℕ, ◌+◌, ◌≡◌, refl, ◌∙◌, sym, ap, arith, Bool, List, [], ◌∷◌, ◌++◌, map, length, retain,
}

-- Of some items, how many pass a test.
abbrev pub count {ℓ} : {A : Type ℓ} → (A → Bool) → List A → ℕ
count p xs = length (retain p xs)

pub count-append {ℓ} :
    {A : Type ℓ} (p : A → Bool) (xs ys : List A) → count p (xs ++ ys) ≡ count p xs + count p ys
count-append p [] ys = omega arith
count-append p (x ∷ xs) ys = ground (arith, count-append p xs ys)

abbrev pub total {ℓ} : {A : Type ℓ} → (A → ℕ) → List A → ℕ
total f [] = 0
total f (x ∷ xs) = f x + total f xs

total-foldr {ℓ} : {A : Type ℓ} (f : A → ℕ) (xs : List A) → total f xs ≡ foldr (λ x n. f x + n) 0 xs
total-foldr f [] = refl
total-foldr f (x ∷ xs) = ap (λ (n : ℕ). f x + n) (total-foldr f xs)

pub total-Perm {ℓ} :
    {A : Type ℓ} (f : A → ℕ) (xs ys : List A) → Perm xs ys → total f xs ≡ total f ys
total-Perm f xs ys h =
    total-foldr f xs
    ∙ Perm.foldr-eq (hlevel) (λ x n. f x + n) (λ x y n. omega arith) h 0
    ∙ sym (total-foldr f ys)

pub total-append {ℓ} :
    {A : Type ℓ} (f : A → ℕ) (xs ys : List A) → total f (xs ++ ys) ≡ total f xs + total f ys
total-append f [] ys = omega arith
total-append f (x ∷ xs) ys = omega (arith, total-append f xs ys)

pub total-map {ℓ κ} :
    {A : Type ℓ} {B : Type κ} (f : B → ℕ) (g : A → B) (xs : List A)
    → total f (map g xs) ≡ total (λ x. f (g x)) xs
total-map f g [] = refl
total-map f g (x ∷ xs) = ap (λ (n : ℕ). f (g x) + n) (total-map f g xs)
