-- ===== src/Tests/Ticks.antt =====
-- Timers that are set again while `CheckTimers` runs, and a manager without timers.
use cpp_readline.Common.{
  subst, List, length, ◌+◌, returns, suc, ℕ, ◌∷◌, [], ◌≡◌, refl, sym, ok, true, false, Result,
  Returns, arith, ◌*◌, ◌==◌, ◌||◌, Bool-cases, inl, inr, ==→≡, ◌>>=◌,
}
use cpp_readline.Timer.{update, Node, Timer, Timers, set, check_timers, new_timer, due_of}
use cpp_readline.Timer.Order.{asc-nil, asc-cons, NoId, no-nil, no-cons}
use cpp_readline.Timer.Check.{due_part}
use cpp_readline.Timer.Arm.{Waits, waits-here, waits-later}
use cpp_readline.Timer.Cycle.{done}
use cpp_readline.Timer.Listed.{IsListed, dis-nil, dis-cons, act-nil, act-cons}
use cpp_readline.Timer.Changes.{set_ok, done_lem}
use cpp_readline.Timer.Turns.{sets, called}
use cpp_readline.Timer.Again.{Turns, FiredOnce, check_timers_again}
use cpp_readline.Timer.Invariant.{Changes, no_change, a_change, was_made, was_set, Changes-IsListed}

-- The timers 1 and 3 are active; the timer at the address t has the id t + 1 and is due at 10 * t.
abbrev pub two_active : ℕ → Timer
two_active t = record { expire = 5; active = t == 1 || t == 3; id = suc t; timepoint = 10 * t }

abbrev pub busy : Timers
busy = record {
  last_id = 4;
  fresh = 2;
  nodes = record { at = 0; timer = 1 } ∷ record { at = 1; timer = 3 } ∷ [];
  objects = two_active;
}

busy-listed : (t : ℕ) → (t == 1 || t == 3) ≡ true → Waits t busy.nodes
busy-listed t = elim (Bool-cases (t == 1)) [
  | inl one ↦ λ e. waits-here (sym (==→≡ t 1 one))
  | inr other ↦ rw other λ e. waits-later (waits-here (sym (==→≡ t 3 e)))
]

pub busy-IsListed : IsListed busy.objects busy.nodes
busy-IsListed = record {
  ordered = asc-cons (omega arith) (asc-cons (omega arith) asc-nil);
  distinct = dis-cons (no-cons refl no-nil) (dis-cons no-nil dis-nil);
  active = act-cons refl refl (act-cons refl refl act-nil);
  listed = busy-listed;
}

-- a `Timeout` that counts its calls and sets its own timer again, at 31
abbrev regular : ℕ → ℕ → Timers → Result (ℕ × Timers)
regular t w st = set true 31 t st >>= λ r. ok (suc w, r.1)

-- with so many timers still to fire, the others of the two have been counted; the periods stay
record Counted (due : List Node) (w : ℕ) (objects : ℕ → Timer) : Type 0 where
  count : w + length due ≡ 2
  periods : (t : ℕ) → (objects t).expire ≡ 5

pub expire-update :
    (o : ℕ → Timer) (t : ℕ) (x : Timer)
    → x.expire ≡ 5
    → ((u : ℕ) → (o u).expire ≡ 5)
    → (u : ℕ) → (update o t x u).expire ≡ 5
expire-update o t x here others u = elim (Bool-cases (u == t)) [
  | inl hit ↦ rw hit here
  | inr miss ↦ rw miss (others u)
]

regular-Turns : Turns regular Counted 30
regular-Turns n due w st c idle numbered =
    let q : (u : ℕ) → ((called n st).objects u).expire ≡ 5 =
      expire-update st.objects n.timer (record (st.objects n.timer) { active = false })
        (c.periods n.timer) c.periods in
    rw (set_ok true 31 n.timer (called n st) idle numbered) (
      returns (
        record {
          count = omega (arith, c.count);
          periods =
              subst (λ o. (u : ℕ) → (o u).expire ≡ 5) (sym (done_lem 31 n.timer (called n st)).0)
                (expire-update (called n st).objects n.timer _ (q n.timer) q);
        },
        sets true true 31 (done 31 n.timer (called n st)) (omega arith) (omega (arith, q n.timer))
            (set_ok true 31 n.timer (called n st) idle numbered),
      ))

busy-Counted : Counted (due_part (due_of two_active) 30 busy.nodes) 0 two_active
unfolding due_part
busy-Counted = record { count = refl; periods = λ t. refl }

-- At 30 both are due, both are set again, and two calls are counted.
check_timers_again_example :
    Returns
      (λ r.
        FiredOnce regular 30 (due_part (due_of two_active) 30 busy.nodes) 0 busy (r.1, r.2)
        × Counted [] r.1 r.2.objects)
      (check_timers regular 3 30 0 busy)
check_timers_again_example =
    check_timers_again regular Counted 3 30 0 busy regular-Turns busy-IsListed busy-Counted
      (omega arith)

abbrev none_made : Timers
none_made = record {
  last_id = 0;
  fresh = 0;
  nodes = [];
  objects = λ t. record { expire = 0; active = false; id = 0; timepoint = 0 };
}

none_made-IsListed : IsListed none_made.objects none_made.nodes
none_made-IsListed = record {
  ordered = asc-nil;
  distinct = dis-nil;
  active = act-nil;
  listed = λ t e. cc;
}

abbrev one_made : Timers
one_made = new_timer 1 50 none_made

one_numbered : ((one_made.objects 1).id == 0) ≡ false
unfolding new_timer
one_numbered = refl

one_idle : (one_made.objects 1).active ≡ false
unfolding new_timer
one_idle = refl

one_alone : NoId one_made.objects (one_made.objects 1).id one_made.nodes
unfolding new_timer
one_alone = no-nil

two-Changes : Changes none_made (done 31 1 one_made)
two-Changes = a_change (was_made 1 50 refl) (
    a_change (was_set 31 1 true _ one_alone (set_ok true 31 1 one_made one_idle one_numbered))
      no_change)

Changes-IsListed_example : IsListed (done 31 1 one_made).objects (done 31 1 one_made).nodes
Changes-IsListed_example = Changes-IsListed two-Changes none_made-IsListed
