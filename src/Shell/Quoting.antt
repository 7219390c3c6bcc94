-- ===== src/Shell/Quoting.antt =====
-- The shell reads a quoted command line back as the words that were quoted.
use dataprotection.Base.{
  ℕ, List, [], ◌∷◌, ◌++◌, map, append_assoc, append-nil, none, some, false, Text, ◌==◌, ==_iff,
  is_empty, join, replace_all, ◌≡◌, refl, ◌∙◌, inl, inr, Bool-cases,
}
use dataprotection.Shell.{quote, escaped_quote, space, shell_quote, command_line}
use dataprotection.Shell.Words.{bare, single, Reader, read, words}

abbrev inside : Text → List Text → Reader
inside w done = record { mode = single; word = some w; done = done }

abbrev between : Text → List Text → Reader
between w done = record { mode = bare; word = some w; done = done }

read_escaped :
    (w : Text) (done : List Text) (rest : Text)
    → read (inside w done) (escaped_quote ++ rest) ≡ read (inside (w ++ quote ∷ []) done) rest
unfolding read
read_escaped w done rest = refl

read_plain :
    (w : Text) (done : List Text) (c : ℕ) (rest : Text)
    → (c == quote) ≡ false
    → read (inside w done) (c ∷ rest) ≡ read (inside (w ++ c ∷ []) done) rest
unfolding read
read_plain w done c rest h = rw (h, read) refl

-- The inside of a quoted word is read as the value.
read-replace_all :
    (v w : Text) (done : List Text) (rest : Text)
    → read (inside w done) (replace_all v quote escaped_quote ++ quote ∷ rest)
      ≡ read (between (w ++ v) done) rest
unfolding replace_all
read-replace_all [] w done rest = rw (append-nil w) (unfold read in refl)
read-replace_all (c ∷ v) w done rest = elim (Bool-cases (c == quote)) [
  | inl e ↦ rw e (
      read_escaped w done (replace_all v quote escaped_quote ++ quote ∷ rest)
      ∙ read-replace_all v (w ++ quote ∷ []) done rest
      ∙ rw (append_assoc w (quote ∷ []) v, (==_iff c quote).0 e) refl)
  | inr e ↦ rw e (
      read_plain w done c (replace_all v quote escaped_quote ++ quote ∷ rest) e
      ∙ read-replace_all v (w ++ c ∷ []) done rest
      ∙ rw (append_assoc w (c ∷ []) v) refl)
]

-- From a place where a word may begin, a quoted value is read as one word.
read-shell_quote :
    (v : Text) (done : List Text) (rest : Text)
    → read (record { mode = bare; word = none; done = done }) (shell_quote v ++ rest)
      ≡ read (between v done) rest
unfolding shell_quote read
read-shell_quote v done rest =
    rw (append_assoc (replace_all v quote escaped_quote) (quote ∷ []) rest)
      (read-replace_all v [] done rest)

read_space :
    (w : Text) (done : List Text) (rest : Text)
    → read (between w done) (b' ' ∷ rest)
      ≡ read (record { mode = bare; word = none; done = done ++ w ∷ [] }) rest
unfolding read
read_space w done rest = refl

read-join :
    (v : Text) (vs done : List Text)
    → read
        (record { mode = bare; word = none; done = done })
        (join (map shell_quote (v ∷ vs)) space)
      ≡ some (done ++ v ∷ vs)
unfolding join
read-join v [] done =
    rw (← append-nil (shell_quote v)) (read-shell_quote v done [] ∙ unfold read in refl)
read-join v (w ∷ vs) done =
    rw (append_assoc (shell_quote v) space (join (map shell_quote (w ∷ vs)) space)) (
      read-shell_quote v done (space ++ join (map shell_quote (w ∷ vs)) space)
      ∙ read_space v done (join (map shell_quote (w ∷ vs)) space)
      ∙ read-join w vs (done ++ v ∷ [])
      ∙ rw (append_assoc done (v ∷ []) (w ∷ vs)) refl)

-- Whatever bytes a value holds, the shell reads its quoted form as that one word.
pub words-shell_quote : (v : Text) → words (shell_quote v) ≡ some (v ∷ [])
unfolding words
words-shell_quote v =
    rw (← append-nil (shell_quote v)) (read-shell_quote v [] [] ∙ unfold read in refl)

-- The line that runs an addon is read by the shell as the template's command words followed by its
-- argument words, unchanged, for every template that has a command or an argument.
pub words-command_line :
    (command args : List Text)
    → is_empty (command ++ args) ≡ false
    → words (command_line command args) ≡ some (command ++ args)
unfolding words command_line
words-command_line [] [] h = cc
words-command_line [] (a ∷ args) h = read-join a args []
words-command_line (c ∷ command) args h = read-join c (command ++ args) []
