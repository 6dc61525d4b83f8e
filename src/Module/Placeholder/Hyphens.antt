-- ===== src/Module/Placeholder/Hyphens.antt =====
-- A name with a hyphen is no token of internal/module/placeholder.go, though it may name a parameter.
use radar_node.Base.{
  ℕ, zero, suc, ◌≤◌, ◌≡◌, refl, ap, ◌∙◌, Bool, true, false, not, ◌&&◌, none, [], ◌∷◌, ◌++◌, ◌==◌,
  map, length, arith,
}
use radar_node.Module.Placeholder.{
  Text, codes, is_space, is_name, all_pass, span, Token, close_token, name_token, match_token,
  literal, pieces_from, pieces, first_unknown, validate_placeholders, ExecContext, expand,
  replace_pieces, resolve,
}

-- The run of name characters stops at a hyphen.
span-is_name :
    (name end : Text)
    → all_pass is_name name ≡ true
    → span is_name (name ++ (b'-' ∷ end)) ≡ (name, b'-' ∷ end)
span-is_name [] end h = refl
span-is_name (c ∷ cs) end h =
    let pass : is_name c ≡ true = ground (arith, h) in
    rw pass (ap (λ r. (c ∷ r.0, r.1)) (span-is_name cs end (ground (arith, h))))

span-is_space :
    (name end : Text)
    → all_pass is_name name ≡ true
    → span is_space (name ++ (b'-' ∷ end)) ≡ ([], name ++ (b'-' ∷ end))
span-is_space [] end h = refl
span-is_space (c ∷ cs) end h = let solid : is_space c ≡ false = ground (arith, h) in rw solid refl

close_token-hyphen : (name end : Text) → close_token [] name ([], b'-' ∷ end) ≡ none
unfolding close_token
close_token-hyphen name [] = refl
close_token-hyphen name (d ∷ end) = refl

name_token-hyphen : (name end : Text) → name_token [] (name, b'-' ∷ end) ≡ none
unfolding name_token
name_token-hyphen [] end = refl
name_token-hyphen (c ∷ cs) end = close_token-hyphen (c ∷ cs) end

match_token-hyphen :
    (name end : Text)
    → all_pass is_name name ≡ true
    → match_token (b'{' ∷ b'{' ∷ (name ++ (b'-' ∷ end))) ≡ none
unfolding match_token
match_token-hyphen name end h =
    ap (λ r. name_token r.0 (span is_name r.1)) (span-is_space name end h)
    ∙ ap (name_token []) (span-is_name name end h)
    ∙ name_token-hyphen name end

-- A text in which no character opens a token.
abbrev pub no_brace : Text → Bool
no_brace cs = all_pass (λ c. not (c == b'{')) cs

match_token-closed : (c : ℕ) (cs : Text) → no_brace cs ≡ true → match_token (c ∷ cs) ≡ none
unfolding match_token
match_token-closed c [] h = refl
match_token-closed c (d ∷ cs) h =
    let other : (c == b'{' && d == b'{') ≡ false = ground (arith, h) in rw (other, match_token) refl

pieces_from-literal :
    (fuel c : ℕ) (cs : Text)
    → match_token (c ∷ cs) ≡ none
    → pieces_from (suc fuel) (c ∷ cs) ≡ literal c ∷ pieces_from fuel cs
unfolding pieces_from
pieces_from-literal fuel c cs e = rw (e, pieces_from) refl

pieces_from-literals :
    (fuel : ℕ) (cs : Text)
    → length cs ≤ fuel
    → no_brace cs ≡ true
    → pieces_from fuel cs ≡ map literal cs
unfolding pieces_from
pieces_from-literals zero [] enough h = refl
pieces_from-literals zero (c ∷ cs) enough h = ground (arith, enough)
pieces_from-literals (suc fuel) [] enough h = refl
pieces_from-literals (suc fuel) (c ∷ cs) enough h =
    pieces_from-literal fuel c cs (match_token-closed c cs (ground (arith, h)))
    ∙ ap (◌∷◌ (literal c))
        (pieces_from-literals fuel cs (omega (arith, enough)) (ground (arith, h)))

replace_pieces-literals : (f : Token → Text) (cs : Text) → replace_pieces f (map literal cs) ≡ cs
replace_pieces-literals f [] = refl
replace_pieces-literals f (c ∷ cs) = ap (◌∷◌ c) (replace_pieces-literals f cs)

first_unknown-literals : (cs : Text) → first_unknown (map literal cs) ≡ none
unfolding first_unknown
first_unknown-literals [] = refl
first_unknown-literals (c ∷ cs) = first_unknown-literals cs

no_brace-name :
    (name end : Text)
    → all_pass is_name name ≡ true
    → no_brace end ≡ true
    → no_brace (name ++ (b'-' ∷ end)) ≡ true
no_brace-name [] end h k = ground (arith, k)
no_brace-name (c ∷ cs) end h k = ground (arith, h, no_brace-name cs end (ground (arith, h)) k)

pieces-hyphen :
    (name end : Text)
    → all_pass is_name name ≡ true
    → no_brace end ≡ true
    → pieces (codes "{{" ++ (name ++ (b'-' ∷ end)))
      ≡ map literal (codes "{{" ++ (name ++ (b'-' ∷ end)))
unfolding pieces
pieces-hyphen name end h k =
    let inner = name ++ (b'-' ∷ end) in
    let plain = no_brace-name name end h k in
    pieces_from-literal (suc (length inner)) b'{' (b'{' ∷ inner) (match_token-hyphen name end h)
    ∙ ap (◌∷◌ (literal b'{')) (
        pieces_from-literal (length inner) b'{' inner (match_token-closed b'{' inner plain)
        ∙ ap (◌∷◌ (literal b'{')) (pieces_from-literals (length inner) inner (omega arith) plain))

-- An argument that opens a token whose name has a hyphen, and opens no other, passes
-- validatePlaceholders, and resolve leaves it as it is: the name is neither refused nor replaced.
pub resolve-hyphen :
    (ec : ExecContext) (name end : Text)
    → all_pass is_name name ≡ true
    → no_brace end ≡ true
    → let arg = codes "{{" ++ (name ++ (b'-' ∷ end)) in
      (validate_placeholders arg ≡ none) × (resolve ec arg ≡ arg)
unfolding validate_placeholders resolve
resolve-hyphen ec name end h k =
    let arg = codes "{{" ++ (name ++ (b'-' ∷ end)) in
    (
      ap first_unknown (pieces-hyphen name end h k) ∙ first_unknown-literals arg,
      ap (replace_pieces (expand ec)) (pieces-hyphen name end h k)
          ∙ replace_pieces-literals (expand ec) arg,
    )
