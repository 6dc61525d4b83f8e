-- ===== src/Module/Placeholder/Pieces.antt =====
-- The tokens that internal/module/placeholder.go finds in an argument, and what becomes of it.
use mathlib.Core.Option
use radar_node.Base.{
  ℕ, zero, suc, ◌≤◌, ◌<◌, ◌≡◌, refl, sym, ap, ◌∙◌, subst, Bool, true, ◌&&◌, Option, none, some,
  List, [], ◌∷◌, ◌++◌, append_assoc, ◌==◌, if◌then◌else◌, length, length-append, All, arith,
  Bool-cases, Option-cases, inl, inr,
}
use radar_node.Module.Placeholder.{
  Text, codes, same_text, is_space, is_name, span, Token, close_token, name_token, match_token,
  Piece, literal, token, pieces_from, pieces, param_of, is_known, first_unknown,
  validate_placeholders, ExecContext, or_empty, source_of, expand, replace_pieces, resolve,
}

span-append : (p : ℕ → Bool) (cs : Text) → (span p cs).0 ++ (span p cs).1 ≡ cs
span-append p [] = refl
span-append p (c ∷ cs) = elim (Bool-cases (p c)) [
  | inl pass ↦ rw pass (ap (◌∷◌ c) (span-append p cs))
  | inr stop ↦ rw stop refl
]

-- What a match at the start of a text says: the token's source and the rest are the text.
abbrev Matches : Text → Option (Token × Text) → Type 0
Matches cs none = Unit {0}
Matches cs (some (t, rest)) = source_of t ++ rest ≡ cs

close_token-Matches :
    (before name after end : Text)
    → Matches
        (codes "{{" ++ (before ++ (name ++ (after ++ end))))
        (close_token before name (after, end))
unfolding close_token
close_token-Matches before name after [] = tt
close_token-Matches before name after (c ∷ []) = tt
close_token-Matches before name after (c ∷ d ∷ rest) = elim (Bool-cases (c == b'}' && d == b'}')) [
  | inr other ↦ rw (other, close_token) tt
  | inl closed ↦
      let first : b'}' ≡ c = ground (arith, closed) in
      let second : b'}' ≡ d = ground (arith, closed) in
      rw (closed, close_token)
        (ap (λ x. b'{' ∷ b'{' ∷ x)
            (append_assoc before (name ++ (after ++ codes "}}")) rest
              ∙ ap (λ x. before ++ x)
                  (append_assoc name (after ++ codes "}}") rest
                    ∙ ap (λ x. name ++ x) (append_assoc after (codes "}}") rest)))
          ∙ ap (λ x. codes "{{" ++ (before ++ (name ++ (after ++ (x ∷ b'}' ∷ rest))))) first
          ∙ ap (λ x. codes "{{" ++ (before ++ (name ++ (after ++ (c ∷ x ∷ rest))))) second)
]

name_token-Matches :
    (before name end : Text)
    → Matches (codes "{{" ++ (before ++ (name ++ end))) (name_token before (name, end))
unfolding name_token
name_token-Matches before [] end = tt
name_token-Matches before (c ∷ cs) end =
    let name = c ∷ cs in
    subst (λ x. Matches (codes "{{" ++ (before ++ (name ++ x))) (name_token before (name, end)))
      (span-append is_space end)
      (close_token-Matches before name (span is_space end).0 (span is_space end).1)

match_token-Matches : (cs : Text) → Matches cs (match_token cs)
unfolding match_token
match_token-Matches [] = tt
match_token-Matches (c ∷ []) = tt
match_token-Matches (c ∷ d ∷ cs) = elim (Bool-cases (c == b'{' && d == b'{')) [
  | inr other ↦ rw (other, match_token) tt
  | inl opened ↦
      let first : b'{' ≡ c = ground (arith, opened) in
      let second : b'{' ≡ d = ground (arith, opened) in
      let inner = (span is_space cs).1 in
      rw (opened, match_token)
        (subst (λ x. Matches x (name_token (span is_space cs).0 (span is_name inner)))
          (ap (λ x. codes "{{" ++ ((span is_space cs).0 ++ x)) (span-append is_name inner)
            ∙ ap (λ x. codes "{{" ++ x) (span-append is_space cs)
            ∙ ap (λ x. x ∷ b'{' ∷ cs) first
            ∙ ap (λ x. c ∷ x ∷ cs) second)
          (name_token-Matches (span is_space cs).0 (span is_name inner).0 (span is_name inner).1))
]

length-rest : (t : Token) (rest cs : Text) → source_of t ++ rest ≡ cs → length rest < length cs
length-rest t rest cs h =
    omega (arith, ap length h, length-append (t.before ++ (t.name ++ (t.after ++ codes "}}"))) rest)

-- The sources of the pieces are the text again.
pieces_from-source_of :
    (fuel : ℕ) (cs : Text) → length cs ≤ fuel → replace_pieces source_of (pieces_from fuel cs) ≡ cs
unfolding pieces_from
pieces_from-source_of zero [] enough = refl
pieces_from-source_of zero (c ∷ cs) enough = ground (arith, enough)
pieces_from-source_of (suc fuel) [] enough = refl
pieces_from-source_of (suc fuel) (c ∷ cs) enough = elim (Option-cases (match_token (c ∷ cs))) [
  | inl e ↦ rw (e, pieces_from) (ap (◌∷◌ c) (pieces_from-source_of fuel cs (omega (arith, enough))))
  | inr ((t, rest), e) ↦
      let matches = subst (Matches (c ∷ cs)) (e) (match_token-Matches (c ∷ cs)) in
      rw (e, pieces_from)
        (ap (λ x. source_of t ++ x)
            (pieces_from-source_of fuel rest
              (omega (arith, enough, length-rest t rest (c ∷ cs) matches)))
          ∙ matches)
]

-- The value that a name stands for, none for a name that is no placeholder.
abbrev pub values : ExecContext → List (Text × Text)
values ec =
    (codes "target", ec.target)
    ∷ (codes "timeout_ms", ec.timeout_ms)
    ∷ (codes "params_json", ec.params_json_path)
    ∷ (codes "alloc_port", ec.alloc_port)
    ∷ (codes "source_ip", or_empty ec.source_ip)
    ∷ (codes "bind_interface", ec.bind_interface)
    ∷ (codes "jobs_json", ec.jobs_json_path)
    ∷ (codes "config_path", ec.config_path)
    ∷ []

abbrev pub value_in : Text → List (Text × Text) → Option Text → Option Text
value_in name [] otherwise = otherwise
value_in name (e ∷ es) otherwise =
    if same_text name e.0 then some e.1 else value_in name es otherwise

abbrev pub value_of : ExecContext → Text → Option Text
value_of ec name =
    value_in name (values ec) (Option.map (λ param. or_empty (ec.param param)) (param_of name))

-- What validated pieces give: a literal itself, a token the value of its name.
abbrev pub IsResolved : ExecContext → Piece → Type 0
IsResolved ec (literal c) = Unit {0}
IsResolved ec (token t) = value_of ec t.name ≡ some (expand ec t)

is_known-value_of :
    (ec : ExecContext) (t : Token)
    → is_known t.name ≡ true
    → value_of ec t.name ≡ some (expand ec t)
unfolding is_known expand
is_known-value_of ec t known = by_param (param_of t.name) refl
  where
    by_param : (o : Option Text) → param_of t.name ≡ o → value_of ec t.name ≡ some (expand ec t)
    by_param none e = ground (arith, known, e)
    by_param (some param) e = ground (arith, e)

first_unknown-IsResolved :
    (ec : ExecContext) (ps : List Piece) → first_unknown ps ≡ none → All (IsResolved ec) ps
unfolding first_unknown
first_unknown-IsResolved ec [] h = tt
first_unknown-IsResolved ec (literal c ∷ ps) h = (tt, first_unknown-IsResolved ec ps h)
first_unknown-IsResolved ec (token t ∷ ps) h = elim (Bool-cases (is_known t.name)) [
  | inl known ↦
      (is_known-value_of ec t known, first_unknown-IsResolved ec ps (ground (arith, h, known)))
  | inr unknown ↦ let absurd : ⊥ = ground (arith, h, unknown) in elim absurd [ ]
]

-- An argument that validatePlaceholders accepts is cut by its tokens into pieces that make it up
-- again; resolve keeps the characters between the tokens and puts for each token the value of its
-- name, which it has: the case that leaves the token as it is does not occur.
pub validate_placeholders-IsResolved :
    (ec : ExecContext) (arg : Text)
    → validate_placeholders arg ≡ none
    → (replace_pieces source_of (pieces arg) ≡ arg)
      × All (IsResolved ec) (pieces arg)
      × (resolve ec arg ≡ replace_pieces (λ t. or_empty (value_of ec t.name)) (pieces arg))
unfolding validate_placeholders pieces resolve
validate_placeholders-IsResolved ec arg h =
    let resolved = first_unknown-IsResolved ec (pieces_from (length arg) arg) h in
    (
      pieces_from-source_of (length arg) arg (omega arith),
      resolved,
      values_of (pieces_from (length arg) arg) resolved,
    )
  where
    values_of :
        (ps : List Piece)
        → All (IsResolved ec) ps
        → replace_pieces (expand ec) ps ≡ replace_pieces (λ t. or_empty (value_of ec t.name)) ps
    values_of [] r = refl
    values_of (literal c ∷ ps) (r, rest) = ap (◌∷◌ c) (values_of ps rest)
    values_of (token t ∷ ps) (r, rest) =
        ap (λ x. x ++ replace_pieces (expand ec) ps) (sym (ap or_empty r))
        ∙ ap (λ x. or_empty (value_of ec t.name) ++ x) (values_of ps rest)
