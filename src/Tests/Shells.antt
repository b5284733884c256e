-- ===== src/Tests/Shells.antt =====
-- The shell with a command that counts its calls.
use cpp_readline.Common.{ℕ, suc, ◌∷◌, [], List, ◌≡◌, refl, some, if◌then◌else◌}
use cpp_readline.Shell.{
  Str, words, help_name, ShellFunc, new_shell, register_command, find, xs_success, str_eq,
  ok_prompt,
}
use cpp_readline.Shell.Words.{
  plain-nil, plain-cons, AllWords, words-nil, words-cons, line_of, words-line_of,
}
use cpp_readline.Shell.Table.{find-register_command}

abbrev count_calls : ShellFunc ℕ
count_calls args n = (xs_success, suc n)

abbrev count_name : Str
count_name = 99 ∷ 110 ∷ 116 ∷ []

abbrev typed_name : Str
typed_name = 97 ∷ count_name

abbrev typed : List Str
typed = count_name ∷ help_name ∷ []

typed-AllWords : AllWords typed
typed-AllWords =
    words-cons
      (record {
        plain = plain-cons refl (plain-cons refl (plain-cons refl plain-nil));
        nonempty = refl;
      })
      (words-cons
        (record {
          plain = plain-cons refl (plain-cons refl (plain-cons refl (plain-cons refl plain-nil)));
          nonempty = refl;
        })
        words-nil)

words-line_of_example : words (line_of 32 typed) ≡ typed
words-line_of_example = words-line_of 32 typed refl typed-AllWords

find-register_command_example :
    find ℕ
      (register_command ℕ count_name help_name count_calls (new_shell ℕ ok_prompt)).commands
      count_name
    ≡ (if str_eq count_name count_name
        then some (record { name = count_name; help = help_name; func = count_calls })
        else find ℕ (new_shell ℕ ok_prompt).commands count_name)
find-register_command_example =
    find-register_command ℕ count_name help_name count_calls (new_shell ℕ ok_prompt) count_name
