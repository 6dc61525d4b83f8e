-- ===== src/Agent/Install/Shell.antt =====
-- How a POSIX shell reads a line into words (XCU 2.2 and 2.3), as far as the line needs no expansion:
-- the reading fails at an unquoted character that would ask for one, or for another operator.
use radar_node.Base.{
  ℕ, ◌==◌, ◌||◌, Bool, Option, none, some, List, [], ◌∷◌, ◌++◌, if◌then◌else◌, any,
}
use radar_node.Module.Placeholder.{Text, codes}

pub data Mode : Type 0 where
  plain quoted escaped : Mode

abbrev pub is_blank : ℕ → Bool
is_blank c = c == 0x20 || c == 0x09

-- Operators, expansions, patterns, the double quote, and what is special at the start of a word.
abbrev pub is_special : ℕ → Bool
is_special c = any (◌==◌ c) (0x22 ∷ codes "|&;<>()$`*?[]#~!{}")

-- A word that was begun joins the words before it.
abbrev pub close_word : Option Text → List Text → List Text
close_word none ws = ws
close_word (some w) ws = ws ++ w ∷ []

-- The word so far with one more character.
abbrev pub grow : Option Text → ℕ → Option Text
grow none c = some (c ∷ [])
grow (some w) c = some (w ++ c ∷ [])

-- A quotation begins a word, also an empty one.
abbrev pub open_word : Option Text → Option Text
open_word none = some []
open_word (some w) = some w

-- The words up to the end of the line and the text after it; the arguments are the mode, the word so
-- far and the words before it.
unfoldable pub read : Mode → Option Text → List Text → Text → Option (List Text × Text)
read m w ws [] = none
read plain w ws (c ∷ cs) =
    let end_word = read plain none (close_word w ws) cs in
    let quotation = read quoted (open_word w) ws cs in
    let escape = read escaped w ws cs in
    let character = read plain (grow w c) ws cs in
    if c == 0x0a
    then some (close_word w ws, cs)
    else if is_blank c
    then end_word
    else if c == 0x27
    then quotation
    else if c == 0x5c
    then escape
    else if is_special c
    then none
    else character
read quoted w ws (c ∷ cs) =
    let end_quotation = read plain w ws cs in
    let character = read quoted (grow w c) ws cs in if c == 0x27 then end_quotation else character
read escaped w ws (c ∷ cs) = if c == 0x0a then none else read plain (grow w c) ws cs

unfoldable pub read_line : Text → Option (List Text × Text)
read_line line = read plain none [] line
