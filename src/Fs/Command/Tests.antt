-- ===== src/Fs/Command/Tests.antt =====
-- The theorem on `parse_command` at a command, and runs.
use operating_systems_lab.Base.{◌≡◌, refl, Option, none, some, List, ℕ, [], ◌∷◌, arith, true}
use operating_systems_lab.Fs.Command.{
  Context, parse_command, bind, parse_words, parse_rest, counted, clear_words, set_word, strtok_r,
  cut,
}
use operating_systems_lab.Fs.Command.Array.{Command}
use operating_systems_lab.Fs.Command.Bounds.{parse_command-Command}
use operating_systems_lab.Fs.Command.Words.{Line}

-- `read` and `a 0 5`
abbrev read_name : List ℕ
read_name = 114 ∷ 101 ∷ 97 ∷ 100 ∷ []

abbrev read_args : List ℕ
read_args = 97 ∷ 32 ∷ 48 ∷ 32 ∷ 53 ∷ []

abbrev no_words : Context
no_words = record { nargs = 0; cmd = λ i. none; cur_dir = 5 }

parse_command-Command_example :
    (c : Context) × (ws : List (List ℕ)) × (parse_command 4 read_name (some read_args) no_words
      ≡ some c)
    × Line true 3 read_args ws
    × Command (read_name ∷ ws) 5 5 c
parse_command-Command_example =
    parse_command-Command 4 read_name read_args no_words (omega arith) (omega arith)

counts_four :
    bind {B = ℕ × Option (List ℕ)}
      (parse_command 4 read_name (some read_args) no_words)
      (λ c. some (c.nargs, c.cmd 3))
    ≡ some (4, some (53 ∷ []))
unfolding parse_command parse_words parse_rest counted clear_words set_word strtok_r cut
counts_four = refl

-- A blank behind the name of a command is a word.
blank_is_word :
    bind {B = ℕ × Option (List ℕ)}
      (parse_command 1 read_name (some (32 ∷ [])) no_words)
      (λ c. some (c.nargs, c.cmd 1))
    ≡ some (2, some (32 ∷ []))
unfolding parse_command parse_words parse_rest counted clear_words set_word strtok_r cut
blank_is_word = refl
