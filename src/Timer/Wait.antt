-- ===== src/Timer/Wait.antt =====
-- src/xma_process.cpp: the wait of the main loop.
use cpp_readline.Common.{ℕ, ◌≤◌, arith}
use cpp_readline.Timer.{next_timeout}

-- Where the wait was between 1 and 10 milliseconds, the next one is too, whatever `CheckTimers` gave.
pub next_timeout_lem :
    (wait timeout : ℕ)
    → 1 ≤ timeout
    → timeout ≤ 10
    → (1 ≤ next_timeout wait timeout) × (next_timeout wait timeout ≤ 10)
unfolding next_timeout
next_timeout_lem wait timeout low high = (ground arith, ground arith)
