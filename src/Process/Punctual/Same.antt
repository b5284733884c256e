-- ===== src/Process/Punctual/Same.antt =====
-- src/xma_process.cpp and src/xma_timer.cpp: which `Timeout`s the main loop calls.
use cpp_readline.Common.{
  ℕ, zero, suc, ◌+◌, ◌*◌, ◌≤◌, ◌≡◌, refl, sym, ap, ◌∙◌, if◌then◌else◌, List, [], ◌∷◌, length,
  Option, none, some, Result, ok, ◌>>=◌, Returns, returns, bind-cong, bind_assoc, arith, OrFault,
}
use cpp_readline.Timer.{Timer, ticks_per_ms}
use cpp_readline.Timer.Again.{Turns}
use cpp_readline.Timer.Punctual.{check_timers_same}
use cpp_readline.Timer.Wait.{next_timeout_lem}
use cpp_readline.Timer.{next_timeout}
use cpp_readline.Process.{handle_events, after_wait, main_loop, process_main}
use cpp_readline.Process.Punctual.{
  Running, Rest, Timeouts, check_now, host_of, SamePunctual, Ready, RestLaws, Woken, wait-Woken,
  check_now-Ready,
}
use cpp_readline.Process.Punctual.Left.{LeftBehind, main_loop-LeftBehind}

Returns-cong :
    {A B : Type 0} {P : A → Type 0} {m m' : Result A} {f g : A → Result B}
    → Returns P m
    → m ≡ m'
    → ((a : A) → P a → f a ≡ g a)
    → (m >>= f) ≡ (m' >>= g)
Returns-cong {g = g} (returns p) e same = same _ p ∙ ap (λ x. x >>= g) e

module _ {W : Type 0} (J : W → (ℕ → Timer) → Type 0) (rest : Rest W) (slack : ℕ)
    (laws : RestLaws J rest slack) (A : Timeouts W)
    (turns : (now : ℕ) → Turns (A now) (λ due w o. J w o) now) (B : Timeouts W)
    (same : SamePunctual (10 * ticks_per_ms + slack) A B) where
  open laws use {handled}

  -- a timer that was due later than `last` is not due for long
  check_now_same :
      (last : ℕ) (s : Running W) → Woken J rest slack laws last s → check_now A s ≡ check_now B s
  unfolding check_now
  check_now_same last s k =
      rw
        (check_timers_same (A s.time_now) (B s.time_now) (λ due w o. J w o) last s.time_now
          (turns s.time_now) k.not_back
          (λ n w st behind due. same s.time_now n w st due (omega (arith, behind, k.in_time)))
          (suc (length s.timers.nodes)) s.world s.timers k.listed k.holds k.after (omega arith))
        refl

  Same : (Running W → Result (Running W)) → (Running W → Result (Running W)) → Type 0
  Same f g = (s : Running W) → Ready J s → f s ≡ g s

  events-Same :
      (events : List (Option ℕ)) (f g : Running W → Result (Running W))
      → Same f g
      → Same
          (λ s. handle_events (host_of rest A) events s >>= f)
          (λ s. handle_events (host_of rest B) events s >>= g)
  unfolding Same handle_events
  events-Same [] f g alike s r = alike s r
  events-Same (none ∷ events) f g alike s r = events-Same events f g alike s r
  events-Same (some e ∷ events) f g alike s r =
      bind_assoc (rest.handle e s) _ f
      ∙ bind-cong (rest.handle e s) _ _
          (λ s' went. events-Same events f g alike s' (handled e s s' r went))
      ∙ sym (bind_assoc (rest.handle e s) _ g)

  after_wait-Same :
      (f g : ℕ → Running W → Result (Running W)) (last t : ℕ)
      (r : Option (List (Option ℕ)) × Running W)
      → 1 ≤ t
      → t ≤ 10
      → Woken J rest slack laws last r.1
      → ((t' : ℕ) → 1 ≤ t' → t' ≤ 10 → Same (f t') (g t'))
      → after_wait (host_of rest A) f t r ≡ after_wait (host_of rest B) g t r
  unfolding after_wait Same
  after_wait-Same f g last t (none, s) low high k alike = refl
  after_wait-Same f g last t (some events, s) low high k alike =
      Returns-cong (check_now-Ready J rest slack laws A turns last s k) (check_now_same last s k)
        λ c r.
          let next = next_timeout_lem c.0 t low high in
          events-Same events (f (next_timeout c.0 t)) (g (next_timeout c.0 t))
            (alike (next_timeout c.0 t) next.0 next.1) c.1 r

  main_loop-Same :
      (fuel t : ℕ)
      → 1 ≤ t
      → t ≤ 10
      → Same (main_loop (host_of rest A) fuel t) (main_loop (host_of rest B) fuel t)
  unfolding main_loop Same
  main_loop-Same zero t low high s r = refl
  main_loop-Same (suc fuel) t low high s r =
      ap (λ m. if rest.is_running s.world then m else ok s)
        (after_wait-Same (main_loop (host_of rest A) fuel) (main_loop (host_of rest B) fuel)
          s.time_now t (rest.wait s t) low high (wait-Woken J rest slack laws s t high r)
          λ t' low' high'. main_loop-Same fuel t' low' high')

  -- `Process::Main` with the timers of its process, where the list of timers is in order with distinct ids and
  -- has exactly the active timers, none of them due at the start; where a wait takes at most as long as it is
  -- asked for and `slack` ticks more; where what handles an event leaves the state like this; and where each
  -- `Timeout` returns and leaves the timers alone or sets its own timer again, by a period that is not 0. A
  -- `Timeout` is called only for a timer that is due, and has been for less than 10 milliseconds and `slack`
  -- ticks: the loop ends the same with any other `Timeout`s that do the same in such calls. And where it returns, no
  -- timer of the list has been due for as long as that.
  pub process_main-LeftBehind :
      (fuel : ℕ) (s : Running W)
      → Ready J s
      → (process_main (host_of rest A) fuel s ≡ process_main (host_of rest B) fuel s)
        × OrFault (LeftBehind (10 * ticks_per_ms + slack)) (process_main (host_of rest A) fuel s)
  unfolding process_main Same
  process_main-LeftBehind fuel s r = (
    main_loop-Same fuel 10 (omega arith) (omega arith) s r,
    main_loop-LeftBehind J rest slack laws A turns fuel 10 s (omega arith) (omega arith) r,
  )
