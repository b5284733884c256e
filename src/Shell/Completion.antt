-- ===== src/Shell/Completion.antt =====
-- src/xma_shell.cpp: the completion of a command's name. rl_completion_matches(3) of readline is a
-- parameter, with what its documentation says: it calls the generator with the text and a count from 0 on,
-- until the generator gives a null pointer, which is `none` here.
use cpp_readline.Common.{
  ℕ, if◌then◌else◌, ◌==◌, ==→≡, List, Option, none, some, Result, ok, arith, ◌≡◌, ◌≢◌, refl, sym,
  ◌∙◌, ap, Bool-cases, inl, inr,
}
use cpp_readline.Shell.{Str, ShellCommand, find}

abbrev pub Generator : Type 0
Generator = Str → ℕ → Option Str

-- the matches, or a null pointer where there are none; a call that does not return is a fault
pub record Readline : Type 0 where
  pub completion_matches : Str → Generator → Result (Option (List Str))
  -- it returns only after the generator gave a null pointer
  pub matches-ends :
      (text : Str) (g : Generator) (m : Option (List Str))
      → completion_matches text g ≡ ok m
      → (n : ℕ) × (g text n ≡ none)
  -- a generator that gives one at once has no matches
  pub matches-none :
      (text : Str) (g : Generator) → g text 0 ≡ none → completion_matches text g ≡ ok none

module _ (W : Type 0) where
  key_of : Option (ShellCommand W) → Option Str
  key_of none = none
  key_of (some c) = some c.name

  -- `Shell::CommandGenerator`
  pub command_generator : List (ShellCommand W) → Generator
  unfolding find key_of
  command_generator commands text state = key_of (find W commands text)

  module _ (lib : Readline) where
    open lib use {completion_matches, matches-ends, matches-none}

    -- `Shell::CommandCompletion`
    pub command_completion : List (ShellCommand W) → Str → ℕ → ℕ → Result (Option (List Str))
    command_completion commands text start end =
        let matches = completion_matches text (command_generator commands) in
        if start == 0 then matches else ok none

    -- How a completion ends, if it does.
    pub data Completes (commands : List (ShellCommand W)) (text : Str) (start : ℕ)
        : Result (Option (List Str)) → Type 0 where
      no_matches :
          (start ≡ 0 → find W commands text ≡ none) → Completes commands text start (ok none)
      hangs :
          {r : Result (Option (List Str))} (c : ShellCommand W)
          → start ≡ 0
          → find W commands text ≡ some c
          → ((m : Option (List Str)) → r ≢ ok m)
          → Completes commands text start r

    at_start :
        (commands : List (ShellCommand W)) (text : Str) (start : ℕ) (o : Option (ShellCommand W))
        → find W commands text ≡ o
        → start ≡ 0
        → Completes commands text start (completion_matches text (command_generator commands))
    unfolding command_generator key_of
    at_start commands text start none missing front =
        rw (matches-none text (command_generator commands) (ap key_of missing))
          (no_matches λ front'. missing)
    at_start commands text start (some c) found front = hangs c front found λ m e.
        let ends = matches-ends text (command_generator commands) m e in
        let gone = sym (ap key_of found) ∙ ends.1 in cc

    -- `CommandCompletion` never completes anything: it gives no matches where the text does not stand at the
    -- start of the line or is not the whole name of a command, and it does not return where the text stands at
    -- the start of the line and is the whole name of a command.
    pub command_completion_lem :
        (commands : List (ShellCommand W)) (text : Str) (start end : ℕ)
        → Completes commands text start (command_completion commands text start end)
    unfolding command_completion command_generator key_of
    command_completion_lem commands text start end = elim (Bool-cases (start == 0)) [
      | inl front ↦
          rw front (at_start commands text start (find W commands text) refl (==→≡ start 0 front))
      | inr later ↦ rw later (no_matches λ front. absurd (ground arith))
    ]
