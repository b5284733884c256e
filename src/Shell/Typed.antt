-- ===== src/Shell/Typed.antt =====
-- src/xma_shell.cpp: `ExecCommand` on a line that names a registered command.
use cpp_readline.Common.{ℕ, Bool, true, false, not, ◌&&◌, List, [], ◌∷◌, ◌≡◌, refl, ap, ◌∙◌, some}
use cpp_readline.Shell.{Str, is_space, ShellCommand, find, call, exec_words, exec_command}
use cpp_readline.Shell.Words.{IsPlain, plain-nil, plain-cons, AllWords, line_of, words-line_of}

-- No byte of a text is white space, as a test.
unfoldable pub no_space : Str → Bool
no_space [] = true
no_space (c ∷ cs) = not (is_space c) && no_space cs

not-and : (a b : Bool) → (not a && b) ≡ true → (a ≡ false) × (b ≡ true)
not-and true b h = cc
not-and false b h = (refl, h)

pub no_space-IsPlain : (s : Str) → no_space s ≡ true → IsPlain s
unfolding no_space
no_space-IsPlain [] h = plain-nil
no_space-IsPlain (c ∷ cs) h =
    let p = not-and (is_space c) (no_space cs) h in plain-cons p.0 (no_space-IsPlain cs p.1)

-- A command that the table has is run on the words of the line, its own name the first of them.
pub exec_command-line_of :
    (W : Type 0) (cs : List (ShellCommand W)) (c : ShellCommand W) (gap : ℕ) (name : Str)
    (args : List Str) (w : W)
    → is_space gap ≡ true
    → AllWords (name ∷ args)
    → find W cs name ≡ some c
    → exec_command W cs (line_of gap (name ∷ args)) w ≡ c.func (name ∷ args) w
unfolding exec_command exec_words call
exec_command-line_of W cs c gap name args w space all found =
    ap (λ ws. exec_words W cs ws w) (words-line_of gap (name ∷ args) space all)
    ∙ ap (λ o. call W o (name ∷ args) w) found
