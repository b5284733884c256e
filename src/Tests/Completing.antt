-- ===== src/Tests/Completing.antt =====
-- Completion in a shell that has its two own commands, with a readline that gives up after one match.
use cpp_readline.Common.{
  ℕ, List, [], ◌∷◌, Option, none, some, Result, ok, fault, out_of_fuel, ◌≡◌, refl,
}
use cpp_readline.Shell.{Str, new_shell, help_name, ok_prompt}
use cpp_readline.Shell.Completion.{
  Generator, Readline, command_completion, Completes, command_completion_lem,
}

one_match : Option Str → Option Str → Result (Option (List Str))
one_match none next = ok none
one_match (some s) none = ok (some (s ∷ []))
one_match (some s) (some t) = fault out_of_fuel

one_match-ends :
    (text : Str) (g : Generator) (a b : Option Str) (m : Option (List Str))
    → g text 0 ≡ a
    → g text 1 ≡ b
    → one_match a b ≡ ok m
    → (n : ℕ) × (g text n ≡ none)
unfolding one_match
one_match-ends text g none b m first second e = (0, first)
one_match-ends text g (some s) none m first second e = (1, second)
one_match-ends text g (some s) (some t) m first second e = cc

one_match-none : (a b : Option Str) → a ≡ none → one_match a b ≡ ok none
unfolding one_match
one_match-none none b e = refl
one_match-none (some s) b e = cc

abbrev impatient : Readline
impatient = record {
  completion_matches = λ text g. one_match (g text 0) (g text 1);
  matches-ends = λ text g m e. one_match-ends text g (g text 0) (g text 1) m refl refl e;
  matches-none = λ text g e. one_match-none (g text 0) (g text 1) e;
}

-- "help" at the start of the line
command_completion_lem_example :
    Completes ℕ impatient
      (new_shell ℕ ok_prompt).commands
      help_name
      0
      (command_completion ℕ impatient (new_shell ℕ ok_prompt).commands help_name 0 4)
command_completion_lem_example =
    command_completion_lem ℕ impatient (new_shell ℕ ok_prompt).commands help_name 0 4
