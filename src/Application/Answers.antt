-- ===== src/Application/Answers.antt =====
-- src/xma_shell.h: the answer of a registered function that ends without a fault.
use cpp_readline.Common.{List, ℤ, Result, ok, Returns, returns}
use cpp_readline.Shell.{Str}
use cpp_readline.Application.{settle, lifted}

-- The answer of a command that ended well: its status, with the state it leaves.
pub data Answers {S : Type 0} (P : ℤ × S → Type 0) : ℤ × Result S → Type 0 where
  answers : {status : ℤ} {st : S} → P (status, st) → Answers P (status, ok st)

settle-Answers :
    {S : Type 0} (P : ℤ × S → Type 0) (m : Result (ℤ × S)) → Returns P m → Answers P (settle m)
unfolding settle
settle-Answers P m (returns p) = answers p

pub lifted-Answers :
    {S : Type 0} (P : ℤ × S → Type 0) (f : List Str → S → Result (ℤ × S)) (args : List Str) (st : S)
    → Returns P (f args st)
    → Answers P (lifted f args (ok st))
unfolding lifted
lifted-Answers P f args st run = settle-Answers P (f args st) run
