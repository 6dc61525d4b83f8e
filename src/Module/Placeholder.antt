-- ===== src/Module/Placeholder.antt =====
-- The placeholders of a module's commands, internal/module/placeholder.go. A text is the list of its
-- code points, so the regular expressions are written out.
pub mod Pieces
pub mod Hyphens
mod Tests
use Prim.Native.Char.{code}
use Prim.Native.String
use radar_node.Base.{
  ℕ, zero, suc, Bool, true, false, not, ◌&&◌, ◌||◌, String, Option, none, some, List, [], ◌∷◌, ◌++◌,
  leb, ◌==◌, if◌then◌else◌, any, length,
}

abbrev pub Text : Type 0
Text = List ℕ

abbrev pub codes : String → Text
codes String.[] = []
codes (String.◌∷◌ c s) = code c ∷ codes s

abbrev pub same_text : Text → Text → Bool
same_text [] [] = true
same_text [] (d ∷ ds) = false
same_text (c ∷ cs) [] = false
same_text (c ∷ cs) (d ∷ ds) = c == d && same_text cs ds

-- `\s`: a tab, a line feed, a form feed, a carriage return or a space.
abbrev pub is_space : ℕ → Bool
is_space c = c == 9 || c == 10 || c == 12 || c == 13 || c == 32

abbrev pub is_word : ℕ → Bool
is_word c =
    leb b'a' c && leb c b'z' || leb b'A' c && leb c b'Z' || leb b'0' c && leb c b'9' || c == b'_'

-- `[a-zA-Z0-9_.]`.
abbrev pub is_name : ℕ → Bool
is_name c = is_word c || c == b'.'

-- The longest run of characters that pass a test, and the text after it.
abbrev pub span : (ℕ → Bool) → Text → Text × Text
span p [] = ([], [])
span p (c ∷ cs) = let (run, rest) = span p cs in if p c then (c ∷ run, rest) else ([], c ∷ cs)

-- A matched token, with its parts.
pub record Token : Type 0 where
  pub before : Text
  pub name : Text
  pub after : Text

-- The end of `placeholderRe`, after the name.
unfoldable pub close_token : Text → Text → Text × Text → Option (Token × Text)
close_token before name (after, []) = none
close_token before name (after, c ∷ []) = none
close_token before name (after, c ∷ d ∷ rest) =
    if c == b'}' && d == b'}'
    then some (record { before = before; name = name; after = after }, rest)
    else none

unfoldable pub name_token : Text → Text × Text → Option (Token × Text)
name_token before ([], rest) = none
name_token before (c ∷ cs, rest) = close_token before (c ∷ cs) (span is_space rest)

-- `placeholderRe` at the start of a text: the token and the text after it. The three runs that it
-- matches have no character in common with what follows them, so the longest runs are the only ones.
unfoldable pub match_token : Text → Option (Token × Text)
match_token [] = none
match_token (c ∷ []) = none
match_token (c ∷ d ∷ cs) =
    if c == b'{' && d == b'{'
    then (let (before, rest) = span is_space cs in name_token before (span is_name rest))
    else none

pub data Piece : Type 0 where
  literal : ℕ → Piece
  token : Token → Piece

-- The matches in a text from left to right, with the characters between them, on fuel: a round takes
-- at least one character.
unfoldable pub pieces_from : ℕ → Text → List Piece
pieces_from zero cs = []
pieces_from (suc fuel) [] = []
pieces_from (suc fuel) (c ∷ cs) = elim (match_token (c ∷ cs)) [
  | none ↦ literal c ∷ pieces_from fuel cs
  | some (t, rest) ↦ token t ∷ pieces_from fuel rest
]

unfoldable pub pieces : Text → List Piece
pieces cs = pieces_from (length cs) cs

abbrev pub fixed_placeholders : List Text
fixed_placeholders =
    codes "target"
    ∷ codes "timeout_ms"
    ∷ codes "params_json"
    ∷ codes "alloc_port"
    ∷ codes "source_ip"
    ∷ codes "bind_interface"
    ∷ codes "jobs_json"
    ∷ codes "config_path"
    ∷ []

-- The rest of a text after a prefix.
abbrev pub strip : Text → Text → Option Text
strip [] cs = some cs
strip (p ∷ ps) [] = none
strip (p ∷ ps) (c ∷ cs) = if p == c then strip ps cs else none

abbrev pub all_pass : (ℕ → Bool) → Text → Bool
all_pass p [] = true
all_pass p (c ∷ cs) = p c && all_pass p cs

-- `[a-zA-Z0-9_-]+`.
abbrev pub is_param_name : Text → Bool
is_param_name [] = false
is_param_name (c ∷ cs) = all_pass (λ d. is_word d || d == b'-') (c ∷ cs)

-- What `paramPlaceholderRe` matches, as the name after `param.`.
unfoldable pub param_of : Text → Option Text
param_of name = elim (strip (codes "param.") name) [
  | none ↦ none
  | some param ↦ if is_param_name param then some param else none
]

abbrev pub is_some : Option Text → Bool
is_some none = false
is_some (some _) = true

unfoldable pub is_known : Text → Bool
is_known name = any (same_text name) fixed_placeholders || is_some (param_of name)

-- `validatePlaceholders`: the name of the first token that is not known.
unfoldable pub first_unknown : List Piece → Option Text
first_unknown [] = none
first_unknown (literal c ∷ ps) = first_unknown ps
first_unknown (token t ∷ ps) =
    let rest = first_unknown ps in if is_known t.name then rest else some t.name

unfoldable pub validate_placeholders : Text → Option Text
validate_placeholders arg = first_unknown (pieces arg)

-- `execContext`, its values as the texts that they print; `param` is a parameter's text, none where
-- the probe has no such parameter, or a nil one.
pub record ExecContext : Type 0 where
  pub target : Text
  pub timeout_ms : Text
  pub params_json_path : Text
  pub alloc_port : Text
  pub source_ip : Option Text
  pub bind_interface : Text
  pub jobs_json_path : Text
  pub config_path : Text
  pub param : Text → Option Text

abbrev pub or_empty : Option Text → Text
or_empty none = []
or_empty (some t) = t

abbrev pub source_of : Token → Text
source_of t = codes "{{" ++ (t.before ++ (t.name ++ (t.after ++ codes "}}")))

abbrev pub param_value : ExecContext → Token → Option Text → Text
param_value ec t none = source_of t
param_value ec t (some param) = or_empty (ec.param param)

-- The cases of `resolve`, the token itself where none fits.
unfoldable pub expand : ExecContext → Token → Text
expand ec t =
    if same_text t.name (codes "target")
    then ec.target
    else if same_text t.name (codes "timeout_ms")
    then ec.timeout_ms
    else if same_text t.name (codes "params_json")
    then ec.params_json_path
    else if same_text t.name (codes "alloc_port")
    then ec.alloc_port
    else if same_text t.name (codes "source_ip")
    then or_empty ec.source_ip
    else if same_text t.name (codes "bind_interface")
    then ec.bind_interface
    else if same_text t.name (codes "jobs_json")
    then ec.jobs_json_path
    else if same_text t.name (codes "config_path")
    then ec.config_path
    else param_value ec t (param_of t.name)

abbrev pub replace_pieces : (Token → Text) → List Piece → Text
replace_pieces f [] = []
replace_pieces f (literal c ∷ ps) = c ∷ replace_pieces f ps
replace_pieces f (token t ∷ ps) = f t ++ replace_pieces f ps

-- `resolve` of one argument.
unfoldable pub resolve : ExecContext → Text → Text
resolve ec arg = replace_pieces (expand ec) (pieces arg)
