-- ===== src/Tests/Mains.antt =====
-- The main loop with two timers that are set again whenever they fire, each by a period of 5.
use cpp_readline.Common.{
  ℕ, ◌+◌, ◌-◌, ◌*◌, ◌≡◌, refl, sym, subst, ap, true, false, if◌then◌else◌, ltb, [], ◌∷◌, some, ok,
  fault, exception, ◌>>=◌, OrFault, returns, arith, ok-injective,
}
use cpp_readline.Timer.{Timer, set, due_of, ticks_per_ms}
use cpp_readline.Timer.Check.{all-nil, all-cons}
use cpp_readline.Timer.Cycle.{done}
use cpp_readline.Timer.Changes.{set_ok, done_lem, update-here}
use cpp_readline.Timer.Turns.{sets, called}
use cpp_readline.Timer.Again.{Turns}
use cpp_readline.Process.{process_main}
use cpp_readline.Process.Punctual.{Running, Rest, Timeouts, host_of, SamePunctual, Ready, RestLaws}
use cpp_readline.Process.Punctual.Left.{LeftBehind}
use cpp_readline.Process.Punctual.Same.{process_main-LeftBehind}
use cpp_readline.Tests.Ticks.{busy, busy-IsListed, expire-update}

-- the state counts the rounds that are left
abbrev start : Running ℕ
start = record { time_now = 0; world = 3; timers = busy }

abbrev rounds : Rest ℕ
rounds = record {
  is_running = λ w. ltb 0 w;
  wait = λ s ms. (
    some (some 0 ∷ []),
    record s { time_now = s.time_now + ms * ticks_per_ms; world = s.world - 1 },
  );
  handle = λ e s. ok s;
}

Periodic : ℕ → (ℕ → Timer) → Type 0
Periodic w o = (u : ℕ) → (o u).expire ≡ 5

start-Ready : Ready Periodic start
unfolding Periodic
start-Ready = record {
  listed = busy-IsListed;
  after = all-cons (omega arith) (all-cons (omega arith) all-nil);
  holds = λ u. refl;
}

rounds-RestLaws : RestLaws Periodic rounds 0
unfolding Periodic
rounds-RestLaws = record {
  not_back = λ s ms. omega arith;
  in_time = λ s ms. omega arith;
  same_timers = λ s ms. refl;
  wait_holds = λ s ms h. h;
  handled = λ e s s' r went. subst (Ready Periodic) (ok-injective went) r;
}

abbrev periodic : Timeouts ℕ
periodic now t w st = set true now t st >>= λ r. ok (w, r.1)

-- the same, but it refuses to be late
abbrev strict : Timeouts ℕ
strict now t w st =
    if ltb now (due_of st.objects t + (10 * ticks_per_ms + 0))
    then periodic now t w st
    else fault exception

periodic-Turns : (now : ℕ) → Turns (periodic now) (λ due w o. Periodic w o) now
unfolding Periodic
periodic-Turns now n due w st h idle numbered =
    let q : (u : ℕ) → ((called n st).objects u).expire ≡ 5 =
      expire-update st.objects n.timer (record (st.objects n.timer) { active = false }) (h n.timer)
        h in
    rw (set_ok true now n.timer (called n st) idle numbered) (
      returns (
        subst (λ o. (u : ℕ) → (o u).expire ≡ 5) (sym (done_lem now n.timer (called n st)).0)
            (expire-update (called n st).objects n.timer _ (q n.timer) q),
        sets true true now (done now n.timer (called n st)) (omega arith) (omega (arith, q n.timer))
            (set_ok true now n.timer (called n st) idle numbered),
      ))

same_in_time : SamePunctual (10 * ticks_per_ms + 0) periodic strict
same_in_time now n w st due short = rw in_time refl
  where
    same_due : due_of (called n st).objects n.timer ≡ due_of st.objects n.timer
    same_due =
        ap (λ x. x.timepoint)
          (update-here st.objects n.timer (record (st.objects n.timer) { active = false }))

    in_time : ltb now (due_of (called n st).objects n.timer + (10 * ticks_per_ms + 0)) ≡ true
    in_time = rw same_due (ground arith)

process_main-LeftBehind_example :
    (process_main (host_of rounds periodic) 4 start ≡ process_main (host_of rounds strict) 4 start)
    × OrFault (LeftBehind (10 * ticks_per_ms + 0)) (process_main (host_of rounds periodic) 4 start)
process_main-LeftBehind_example =
    process_main-LeftBehind Periodic rounds 0 rounds-RestLaws periodic periodic-Turns strict
      same_in_time 4 start start-Ready
