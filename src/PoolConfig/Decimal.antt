-- ===== src/PoolConfig/Decimal.antt =====
-- How fmt.Sprintf writes the tags of internal/poolconfig/poolconfig.go: `%d` of a number that is not
-- negative, and the two formats "job-%d-in" and "job-%d-out-%d".
use Prim.Native.Char.{Char, code}
use radar_node.Base.{
  ℕ, zero, suc, ◌+◌, ◌-◌, ◌*◌, ◌/◌, ◌%◌, ◌<◌, ◌≡◌, refl, sym, ap, ◌∙◌, Bool, ◌&&◌, String, ltb, leb,
  if◌then◌else◌, arith, Bool-cases, inl, inr,
}

unfoldable pub digit : ℕ → Char
digit zero = "0"
digit (suc zero) = "1"
digit (suc (suc zero)) = "2"
digit (suc (suc (suc zero))) = "3"
digit (suc (suc (suc (suc zero)))) = "4"
digit (suc (suc (suc (suc (suc zero))))) = "5"
digit (suc (suc (suc (suc (suc (suc zero)))))) = "6"
digit (suc (suc (suc (suc (suc (suc (suc zero))))))) = "7"
digit (suc (suc (suc (suc (suc (suc (suc (suc zero)))))))) = "8"
digit (suc (suc (suc (suc (suc (suc (suc (suc (suc n))))))))) = "9"

-- The digits of a number in front of a text; a number has fewer digits than it counts and one.
unfoldable pub digits : ℕ → ℕ → String → String
unfolding digit
digits zero n rest = rest
digits (suc fuel) n rest =
    let more = digits fuel (n / 10) (String.◌∷◌ (digit (n % 10)) rest) in
    if ltb n 10 then String.◌∷◌ (digit n) rest else more

abbrev pub decimal : ℕ → String → String
decimal n rest = digits (suc n) n rest

abbrev job_prefix : String → String
job_prefix s = String.◌∷◌ "j" (String.◌∷◌ "o" (String.◌∷◌ "b" (String.◌∷◌ "-" s)))

abbrev out_infix : String → String
out_infix s = String.◌∷◌ "-" (String.◌∷◌ "o" (String.◌∷◌ "u" (String.◌∷◌ "t" (String.◌∷◌ "-" s))))

unfoldable pub in_tag : ℕ → String
unfolding digits
in_tag i = job_prefix (decimal i "-in")

unfoldable pub out_tag : ℕ → ℕ → String
unfolding digits
out_tag i k = job_prefix (decimal i (out_infix (decimal k "")))

-- Reading the digits at the start of a text, after a number.
abbrev is_digit : Char → Bool
is_digit c = leb b'0' (code c) && leb (code c) b'9'

read_number : ℕ → String → ℕ × String
read_number n String.[] = (n, "")
read_number n (String.◌∷◌ c s) =
    let more = read_number (n * 10 + (code c - b'0')) s in
    if is_digit c then more else (n, String.◌∷◌ c s)

read_number-digit :
    (n d : ℕ) (s : String)
    → d < 10
    → read_number n (String.◌∷◌ (digit d) s) ≡ read_number (n * 10 + d) s
unfolding read_number digit
read_number-digit n zero s h = refl
read_number-digit n (suc zero) s h = refl
read_number-digit n (suc (suc zero)) s h = refl
read_number-digit n (suc (suc (suc zero))) s h = refl
read_number-digit n (suc (suc (suc (suc zero)))) s h = refl
read_number-digit n (suc (suc (suc (suc (suc zero))))) s h = refl
read_number-digit n (suc (suc (suc (suc (suc (suc zero)))))) s h = refl
read_number-digit n (suc (suc (suc (suc (suc (suc (suc zero))))))) s h = refl
read_number-digit n (suc (suc (suc (suc (suc (suc (suc (suc zero)))))))) s h = refl
read_number-digit n (suc (suc (suc (suc (suc (suc (suc (suc (suc zero))))))))) s h = refl
read_number-digit n (suc (suc (suc (suc (suc (suc (suc (suc (suc (suc d)))))))))) s h =
    absurd (omega (arith, h))

read_number-digits :
    (fuel n : ℕ) (rest : String)
    → n < fuel
    → read_number 0 (digits fuel n rest) ≡ read_number n rest
unfolding digits
read_number-digits zero n rest h = absurd (omega (arith, h))
read_number-digits (suc fuel) n rest h = elim (Bool-cases (ltb n 10)) [
  | inl small ↦
      rw (small, digits)
        (read_number-digit 0 n rest (ground (arith, small))
          ∙ ap (λ k. read_number k rest) (omega arith))
  | inr large ↦
      rw (large, digits)
        (read_number-digits fuel (n / 10) (String.◌∷◌ (digit (n % 10)) rest)
            (ground (arith, large, h))
          ∙ read_number-digit (n / 10) (n % 10) rest (omega arith)
          ∙ ap (λ k. read_number k rest) (omega arith))
]

abbrev drop_four : String → String
drop_four (String.◌∷◌ a (String.◌∷◌ b (String.◌∷◌ c (String.◌∷◌ d s)))) = s
drop_four s = ""

abbrev drop_five : String → String
drop_five (String.◌∷◌ a s) = drop_four s
drop_five s = ""

read_in_tag : (i : ℕ) → read_number 0 (drop_four (in_tag i)) ≡ (i, "-in")
unfolding in_tag read_number
read_in_tag i = read_number-digits (suc i) i "-in" (omega arith)

read_out_tag : (i k : ℕ) → read_number 0 (drop_four (out_tag i k)) ≡ (i, out_infix (decimal k ""))
unfolding out_tag read_number
read_out_tag i k = read_number-digits (suc i) i (out_infix (decimal k "")) (omega arith)

-- Different numbers give different tags.
pub in_tag-injective : (i j : ℕ) → in_tag i ≡ in_tag j → i ≡ j
in_tag-injective i j e =
    ap (λ (r : ℕ × String). r.0)
      (sym (read_in_tag i) ∙ ap (λ s. read_number 0 (drop_four s)) e ∙ read_in_tag j)

pub out_tag-injective : (i k j l : ℕ) → out_tag i k ≡ out_tag j l → (i ≡ j) × (k ≡ l)
unfolding read_number
out_tag-injective i k j l e =
    let same : ◌≡◌ {A = ℕ × String} (i, out_infix (decimal k "")) (j, out_infix (decimal l "")) =
      sym (read_out_tag i k) ∙ ap (λ s. read_number 0 (drop_four s)) e ∙ read_out_tag j l in
    (
      ap (λ (r : ℕ × String). r.0) same,
      ap (λ (r : ℕ × String). r.0)
          (sym (read_number-digits (suc k) k "" (omega arith))
            ∙ ap (λ (r : ℕ × String). read_number 0 (drop_five r.1)) same
            ∙ read_number-digits (suc l) l "" (omega arith)),
    )
