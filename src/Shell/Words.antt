-- ===== src/Shell/Words.antt =====
-- How a POSIX shell reads quoted words (POSIX.1, 2.2): an independent description, for text in which
-- every character of a word is quoted. Other text, and a `$`, a backquote or a backslash between
-- double quotes, has no reading here.
use dataprotection.Base.{
  ℕ, List, [], ◌∷◌, ◌++◌, Option, none, some, Bool, ◌||◌, Text, ◌==◌, if◌then◌else◌,
}

pub data Mode : Type 0 where
  bare single double : Mode

-- What has been read: the words that are complete, and the one that has begun.
pub record Reader : Type 0 where
  pub mode : Mode
  pub word : Option Text
  pub done : List Text

abbrev pub begun : Option Text → Text
begun none = []
begun (some w) = w

abbrev pub finished : Option Text → List Text
finished none = []
finished (some w) = w ∷ []

-- Characters that keep a meaning between double quotes.
abbrev pub is_active : ℕ → Bool
is_active c = (c == b'$') || (c == b'`') || (c == b'\\')

unfoldable pub read_char : Mode → Option Text → List Text → ℕ → Option Reader
read_char bare word done c =
    if c == b' '
    then some (record { mode = bare; word = none; done = done ++ finished word })
    else if c == b'\''
    then some (record { mode = single; word = some (begun word); done = done })
    else if c == b'"'
    then some (record { mode = double; word = some (begun word); done = done })
    else none
read_char single word done c =
    if c == b'\''
    then some (record { mode = bare; word = word; done = done })
    else some (record { mode = single; word = some (begun word ++ c ∷ []); done = done })
read_char double word done c =
    if c == b'"'
    then some (record { mode = bare; word = word; done = done })
    else if is_active c
    then none
    else some (record { mode = double; word = some (begun word ++ c ∷ []); done = done })

abbrev pub at_end : Mode → Option Text → List Text → Option (List Text)
at_end bare word done = some (done ++ finished word)
at_end single word done = none
at_end double word done = none

unfoldable pub read : Reader → Text → Option (List Text)
unfolding read_char
read r [] = at_end r.mode r.word r.done
read r (c ∷ s) = elim (read_char r.mode r.word r.done c) [ none ↦ none | some r' ↦ read r' s ]

abbrev pub start : Reader
start = record { mode = bare; word = none; done = [] }

-- The words of a command line, or nothing if it is not fully quoted.
unfoldable pub words : Text → Option (List Text)
unfolding read
words s = read start s
