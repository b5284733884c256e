-- ===== src/Process/Punctual.antt =====
-- src/xma_process.cpp and src/xma_timer.cpp: the main loop with the timers of its process.
pub mod Left
pub mod Same
use cpp_readline.Common.{
  ℕ, zero, suc, ◌+◌, ◌*◌, ◌≤◌, ◌<◌, ◌≡◌, refl, sym, ap, ◌∙◌, subst, Bool, if◌then◌else◌, List, [],
  ◌∷◌, length, Option, none, some, Result, ok, ◌>>=◌, Returns, returns, Returns-mono, Returns-bind,
  bind-cong, bind_assoc, arith,
}
use cpp_readline.Timer.{Timer, Timers, Node, due_of, check_timers, ticks_per_ms}
use cpp_readline.Timer.Due.{AllAfter}
use cpp_readline.Timer.Listed.{IsListed}
use cpp_readline.Timer.Turns.{called}
use cpp_readline.Timer.Again.{Turns, FiredOnce, check_timers_again}
use cpp_readline.Timer.Punctual.{check_timers_same}
use cpp_readline.Timer.Wait.{next_timeout_lem}
use cpp_readline.Timer.{next_timeout}
use cpp_readline.Process.{Host, handle_events, after_wait, main_loop, process_main}

-- The state of a process: what the clock shows, in ticks, its timers, and all the rest.
pub record Running (W : Type 0) : Type 0 where
  pub time_now : ℕ
  pub world : W
  pub timers : Timers

-- What the main loop calls beside `CheckTimers`, as in `Host`.
pub record Rest (W : Type 0) : Type 0 where
  pub is_running : W → Bool
  pub wait : Running W → ℕ → Option (List (Option ℕ)) × Running W
  pub handle : ℕ → Running W → Result (Running W)

-- the virtual `Timeout` of the timer at an address, by the time of its `CheckTimers`
abbrev pub Timeouts : Type 0 → Type 0
Timeouts W = ℕ → ℕ → W → Timers → Result (W × Timers)

module _ {W : Type 0} where
  -- `CheckTimers` at the time that the clock shows
  pub check_now : Timeouts W → Running W → Result (ℕ × Running W)
  check_now timeout s =
      check_timers (timeout s.time_now) (suc (length s.timers.nodes)) s.time_now s.world s.timers
      >>= λ r. ok (r.0, record s { world = r.1; timers = r.2 })

  -- the main loop's host, with the timers
  abbrev pub host_of : Rest W → Timeouts W → Host (Running W)
  host_of rest timeout = record {
    is_running = λ s. rest.is_running s.world;
    wait = rest.wait;
    check_timers = check_now timeout;
    handle = rest.handle;
  }

  -- The `Timeout`s do the same where they are called at a time that a timer is due, and has been for less
  -- than so many ticks.
  abbrev pub SamePunctual : ℕ → Timeouts W → Timeouts W → Type 0
  SamePunctual late A B =
      (now : ℕ) (n : Node) (w : W) (st : Timers)
      → due_of st.objects n.timer ≤ now
      → now < due_of st.objects n.timer + late
      → A now n.timer w (called n st) ≡ B now n.timer w (called n st)

  module _ (J : W → (ℕ → Timer) → Type 0) where
    -- The list of timers is as it should be, none is due, and `J` holds.
    pub record Ready (s : Running W) : Type 0 where
      pub listed : IsListed s.timers.objects s.timers.nodes
      pub after : AllAfter s.time_now s.timers.objects s.timers.nodes
      pub holds : J s.world s.timers.objects

    -- A wait takes as long as it is asked for, and `slack` more, at most, and leaves the timers alone; what
    -- handles an event leaves the state ready. The time that this takes counts for the wait after it.
    pub record RestLaws (rest : Rest W) (slack : ℕ) : Type 0 where
      pub not_back : (s : Running W) (ms : ℕ) → s.time_now ≤ (rest.wait s ms).1.time_now
      pub in_time :
          (s : Running W) (ms : ℕ)
          → (rest.wait s ms).1.time_now ≤ s.time_now + ms * ticks_per_ms + slack
      pub same_timers : (s : Running W) (ms : ℕ) → (rest.wait s ms).1.timers ≡ s.timers
      pub wait_holds :
          (s : Running W) (ms : ℕ)
          → J s.world s.timers.objects
          → J (rest.wait s ms).1.world s.timers.objects
      pub handled : (e : ℕ) (s s' : Running W) → Ready s → rest.handle e s ≡ ok s' → Ready s'

    module _ (rest : Rest W) (slack : ℕ) (laws : RestLaws rest slack) where
      open laws use {not_back, in_time, same_timers, wait_holds}

      -- after a wait that began at `last`
      pub record Woken (last : ℕ) (s : Running W) : Type 0 where
        pub listed : IsListed s.timers.objects s.timers.nodes
        pub after : AllAfter last s.timers.objects s.timers.nodes
        pub holds : J s.world s.timers.objects
        pub not_back : last ≤ s.time_now
        pub in_time : s.time_now ≤ last + (10 * ticks_per_ms + slack)

      pub wait-Woken :
          (s : Running W) (t : ℕ) → t ≤ 10 → Ready s → Woken s.time_now (rest.wait s t).1
      wait-Woken s t small r =
          subst (λ ts. Woken s.time_now (record (rest.wait s t).1 { timers = ts }))
            (sym (same_timers s t))
            (record {
              listed = r.listed;
              after = r.after;
              holds = wait_holds s t r.holds;
              not_back = not_back s t;
              in_time = omega (arith, in_time s t, small);
            })

      module _ (A : Timeouts W) (turns : (now : ℕ) → Turns (A now) (λ due w o. J w o) now) where
        pub check_now-Ready :
            (last : ℕ) (s : Running W) → Woken last s → Returns (λ q. Ready q.1) (check_now A s)
        unfolding check_now
        check_now-Ready last s k =
            Returns-bind _
              (check_timers_again (A s.time_now) (λ due w o. J w o) (suc (length s.timers.nodes))
                s.time_now s.world s.timers (turns s.time_now) k.listed k.holds (omega arith))
              λ q f. returns (record { listed = f.0.listed; after = f.0.later; holds = f.1 })
