-- ===== src/Shell.antt =====
-- controllers/runtime_helpers.go: the quoting of shell words, and the commands built from an addon's
-- template. The proofs are in the modules below this one.
pub mod Words
pub mod Quoting
use dataprotection.Base.{
  ℕ, List, [], ◌∷◌, ◌++◌, map, Bool, true, false, Text, codes, if◌then◌else◌, is_empty, is_blank,
  join, replace_all,
}

abbrev pub quote : ℕ
quote = b'\''

-- What stands for a single quote inside a quoted word: '"'"'.
abbrev pub escaped_quote : Text
escaped_quote = codes "'\"'\"'"

abbrev pub space : Text
space = codes " "

abbrev pub newline : Text
newline = codes "\n"

unfoldable pub shell_quote : Text → Text
shell_quote value = quote ∷ (replace_all value quote escaped_quote ++ quote ∷ [])

unfoldable pub shell_quote_slice : List Text → List Text
unfolding shell_quote
shell_quote_slice values = map shell_quote values

abbrev pub no_command : Text
no_command = codes "echo '[ERROR] addon template requires command or args'; exit 1"

-- The line that runs the template: its command with its arguments, or the arguments alone.
unfoldable pub command_line : List Text → List Text → Text
unfolding shell_quote_slice
command_line [] [] = no_command
command_line [] (a ∷ args) = join (shell_quote_slice (a ∷ args)) space
command_line (c ∷ command) args = join (shell_quote_slice ((c ∷ command) ++ args)) space

unfoldable pub shell_command : List Text → List Text → Text → Text
unfolding command_line
shell_command command args working_dir =
    let lines = command_line command args ∷ [] in
    join (if is_blank working_dir then lines else (codes "cd " ++ shell_quote working_dir) ∷ lines)
      newline

unfoldable pub addon_wrapped_command : List Text → List Text → Text → Text → Text → Text
unfolding shell_command
addon_wrapped_command command args working_dir done_file failed_file =
    join
      (codes "set -eu"
        ∷ (codes "trap 'touch " ++ shell_quote failed_file ++ codes "' ERR")
        ∷ shell_command command args working_dir
        ∷ (codes "touch " ++ shell_quote done_file)
        ∷ [])
      newline
