-- ===== src/Threads/Stopping.antt =====
-- src/xma_thread.cpp: what state a thread shows, and that `Application::Exit` ends every thread.
use cpp_readline.Common.{
  ap, ◌∙◌, ℕ, zero, suc, ◌+◌, ◌*◌, ◌≤◌, ◌≡◌, refl, ◌⊎◌, inl, inr, Bool, true, false, List, [], ◌∷◌,
  length, replicate, arith,
}
use cpp_readline.Threads.{
  ApplicationRun, application_run, State, stopped, running, Stand, unborn, called, looping,
  returned, Thread, new_thread, run_thread, stop_thread, run_all, stop_all, enter_loop, leave_loop,
  Step, enters, rounds, leaves, Moves, moves-here, moves-later, Steps, no_step, a_step,
}

-- A thread that was run. It shows Running in its loop, and Stopped before and after it.
pub data Launched (t : Thread) : Type 0 where
  is_called : t.stand ≡ called → t.state ≡ stopped → Launched t
  is_looping : t.stand ≡ looping → t.state ≡ running → Launched t
  is_returned : t.stand ≡ returned → t.state ≡ stopped → Launched t

pub data AllLaunched : List Thread → Type 0 where
  all-nil : AllLaunched []
  all-cons : {t : Thread} {ts : List Thread} → Launched t → AllLaunched ts → AllLaunched (t ∷ ts)

Step-Launched : {t u : Thread} → Step t u → Launched t → Launched u
unfolding enter_loop leave_loop
Step-Launched (enters t) l = is_looping refl refl
Step-Launched (rounds t) (is_called e s) = cc
Step-Launched (rounds t) (is_looping e s) = is_looping refl s
Step-Launched (rounds t) (is_returned e s) = cc
Step-Launched (leaves t) l = is_returned refl refl

Moves-AllLaunched : {ts us : List Thread} → Moves ts us → AllLaunched ts → AllLaunched us
Moves-AllLaunched (moves-here s) (all-cons l ls) = all-cons (Step-Launched s l) ls
Moves-AllLaunched (moves-later m) (all-cons l ls) = all-cons l (Moves-AllLaunched m ls)

Steps-AllLaunched : {n : ℕ} {ts us : List Thread} → Steps n ts us → AllLaunched ts → AllLaunched us
Steps-AllLaunched no_step ls = ls
Steps-AllLaunched (a_step m steps) ls = Steps-AllLaunched steps (Moves-AllLaunched m ls)

new-AllLaunched : (k : ℕ) → AllLaunched (run_all (replicate k new_thread))
unfolding run_all run_thread
new-AllLaunched zero = all-nil
new-AllLaunched (suc k) = all-cons (is_called refl refl) (new-AllLaunched k)

-- Whatever steps the threads take after `ThreadMgr::Run` has run `k` new threads, each of them shows
-- Running exactly where it is in its loop, and Stopped before and after it.
pub run_all_lem :
    (k n : ℕ) (us : List Thread) → Steps n (run_all (replicate k new_thread)) us → AllLaunched us
run_all_lem k n us steps = Steps-AllLaunched steps (new-AllLaunched k)

-- How many steps a thread that is told to stop has left.
left_of : Stand → ℕ
left_of unborn = 0
left_of called = 2
left_of looping = 1
left_of returned = 0

total : List Thread → ℕ
unfolding left_of
total [] = 0
total (t ∷ ts) = left_of t.stand + total ts

data AllTold : List Thread → Type 0 where
  told-nil : AllTold []
  told-cons : {t : Thread} {ts : List Thread} → t.is_running ≡ false → AllTold ts → AllTold (t ∷ ts)

Step-left :
    {t u : Thread}
    → Step t u
    → t.is_running ≡ false
    → (left_of t.stand ≡ suc (left_of u.stand)) × (u.is_running ≡ false)
unfolding enter_loop leave_loop left_of
Step-left (enters t) e = (refl, e)
Step-left (rounds t) e = cc
Step-left (leaves t) e = (refl, refl)

Moves-total :
    {ts us : List Thread} → Moves ts us → AllTold ts → (total ts ≡ suc (total us)) × AllTold us
unfolding total
Moves-total (moves-here s) (told-cons e es) =
    (omega (arith, (Step-left s e).0), told-cons (Step-left s e).1 es)
Moves-total (moves-later m) (told-cons e es) =
    (omega (arith, (Moves-total m es).0), told-cons e (Moves-total m es).1)

Steps-total :
    {n : ℕ} {ts us : List Thread}
    → Steps n ts us
    → AllTold ts
    → (total ts ≡ n + total us) × AllTold us
Steps-total no_step es = (omega arith, es)
Steps-total (a_step m steps) es = (
  omega (arith, (Moves-total m es).0, (Steps-total steps (Moves-total m es).1).0),
  (Steps-total steps (Moves-total m es).1).1,
)

stop_all-AllTold : (ts : List Thread) → AllTold (stop_all ts)
unfolding stop_all stop_thread
stop_all-AllTold [] = told-nil
stop_all-AllTold (t ∷ ts) = told-cons refl (stop_all-AllTold ts)

left-le : (p : Stand) → left_of p ≤ 2
unfolding left_of
left-le unborn = omega arith
left-le called = omega arith
left-le looping = omega arith
left-le returned = omega arith

total-le : (ts : List Thread) → total (stop_all ts) ≤ 2 * length ts
unfolding total stop_all stop_thread
total-le [] = omega arith
total-le (t ∷ ts) = omega (arith, left-le t.stand, total-le ts)

stop_all-AllLaunched : (ts : List Thread) → AllLaunched ts → AllLaunched (stop_all ts)
unfolding stop_all stop_thread
stop_all-AllLaunched [] all-nil = all-nil
stop_all-AllLaunched (t ∷ ts) (all-cons l ls) = all-cons (told l) (stop_all-AllLaunched ts ls)
  where
    told : Launched t → Launched (stop_thread t)
    told (is_called e s) = is_called e s
    told (is_looping e s) = is_looping e s
    told (is_returned e s) = is_returned e s

-- Every thread has returned, and shows Stopped.
pub data AllReturned : List Thread → Type 0 where
  returned-nil : AllReturned []
  returned-cons :
      {t : Thread} {ts : List Thread}
      → t.stand ≡ returned
      → t.state ≡ stopped
      → AllReturned ts
      → AllReturned (t ∷ ts)

-- Some thread can take a step.
pub data CanMove (ts : List Thread) : Type 0 where
  can_move : {us : List Thread} → Moves ts us → CanMove ts

data CanStep (t : Thread) : Type 0 where
  can_step : {u : Thread} → Step t u → CanStep t

step-or-returned :
    (p : Stand) (s : State) (r : Bool)
    → Launched (record { stand = p; state = s; is_running = r })
    → ((p ≡ returned) × (s ≡ stopped)) ⊎ CanStep (record { stand = p; state = s; is_running = r })
step-or-returned p s r (is_called e f) =
    rw e (inr (can_step (enters (record { stand = called; state = s; is_running = r }))))
step-or-returned p s true (is_looping e f) =
    rw e (inr (can_step (rounds (record { stand = looping; state = s; is_running = true }))))
step-or-returned p s false (is_looping e f) =
    rw e (inr (can_step (leaves (record { stand = looping; state = s; is_running = false }))))
step-or-returned p s r (is_returned e f) = inl (e, f)

move-or-returned : (ts : List Thread) → AllLaunched ts → AllReturned ts ⊎ CanMove ts
move-or-returned [] all-nil = inl returned-nil
move-or-returned (t ∷ ts) (all-cons l ls) = elim (step-or-returned t.stand t.state t.is_running l) [
  | inr (can_step s) ↦ inr (can_move (moves-here s))
  | inl (e, f) ↦ elim (move-or-returned ts ls) [
    | inl rs ↦ inl (returned-cons e f rs)
    | inr (can_move m) ↦ inr (can_move (moves-later m))
  ]
]

-- After `Exit` on threads that were run, no order of steps has more than two steps for each thread, and
-- where no thread can take a step, every thread has returned from `DoRun` and shows Stopped.
pub exit_lem :
    (ts us : List Thread) (n : ℕ)
    → AllLaunched ts
    → Steps n (stop_all ts) us
    → (n ≤ 2 * length ts) × (AllReturned us ⊎ CanMove us)
exit_lem ts us n ls steps = (
  omega (arith, (Steps-total steps (stop_all-AllTold ts)).0, total-le ts),
  move-or-returned us (Steps-AllLaunched steps (stop_all-AllLaunched ts ls)),
)

Moves-length : {ts us : List Thread} → Moves ts us → length us ≡ length ts
Moves-length (moves-here s) = refl
Moves-length (moves-later m) = ap suc (Moves-length m)

Steps-length : {n : ℕ} {ts us : List Thread} → Steps n ts us → length us ≡ length ts
Steps-length no_step = refl
Steps-length (a_step m steps) = Steps-length steps ∙ Moves-length m

run_all-length : (k : ℕ) → length (run_all (replicate k new_thread)) ≡ k
unfolding run_all
run_all-length zero = refl
run_all-length (suc k) = ap suc (run_all-length k)

-- After `Application::Run` with `k` new threads, in any order of the threads' steps while it ran: no order
-- of further steps has more than two for each thread, and where no thread can take a step, every thread
-- has returned from `DoRun` and shows Stopped.
pub application_run_lem :
    (k n : ℕ) (us ws : List Thread)
    → ApplicationRun (replicate k new_thread) us
    → Steps n us ws
    → (n ≤ 2 * k) × (AllReturned ws ⊎ CanMove ws)
application_run_lem k n us ws (application_run {us = vs} before) after = (
  omega (
    arith,
    (exit_lem vs ws n (run_all_lem k _ vs before) after).0,
    Steps-length before,
    run_all-length k,
  ),
  (exit_lem vs ws n (run_all_lem k _ vs before) after).1,
)
