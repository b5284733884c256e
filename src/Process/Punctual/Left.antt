-- ===== src/Process/Punctual/Left.antt =====
-- src/xma_process.cpp and src/xma_timer.cpp: the timers that are left when the main loop ends.
use cpp_readline.Common.{
  ℕ, zero, suc, ◌+◌, ◌*◌, ◌≤◌, ◌<◌, ◌≡◌, refl, List, [], ◌∷◌, Option, none, some, Result, ok, ◌>>=◌,
  arith, fault, OrFault, fine, faulty, OrFault-bind, Returns-elim, Bool-cases, inl, inr,
}
use cpp_readline.Timer.{Timer, Node, due_of, ticks_per_ms}
use cpp_readline.Timer.Check.{AllOf, all-nil, all-cons}
use cpp_readline.Timer.Due.{AllAfter}
use cpp_readline.Timer.Again.{Turns}
use cpp_readline.Timer.Wait.{next_timeout_lem}
use cpp_readline.Timer.{next_timeout}
use cpp_readline.Process.{handle_events, after_wait, main_loop}
use cpp_readline.Process.Punctual.{
  Running, Rest, Timeouts, host_of, Ready, RestLaws, Woken, wait-Woken, check_now-Ready,
}

-- Each timer of the list is not due, or has been for less than so many ticks.
abbrev pub LeftBehind : {W : Type 0} → ℕ → Running W → Type 0
LeftBehind late s = AllOf (λ n. s.time_now < due_of s.timers.objects n.timer + late) s.timers.nodes

AllAfter-LeftBehind :
    (last clock late : ℕ) (o : ℕ → Timer) {ns : List Node}
    → clock ≤ last + late
    → AllAfter last o ns
    → AllOf (λ n. clock < due_of o n.timer + late) ns
AllAfter-LeftBehind last clock late o h all-nil = all-nil
AllAfter-LeftBehind last clock late o h (all-cons g gs) =
    all-cons (omega (arith, h, g)) (AllAfter-LeftBehind last clock late o h gs)

OrFault-given :
    {A : Type 0} {P Q : A → Type 0} (m : Result A) {k : A → Result A}
    → ((a : A) → m ≡ ok a → P a)
    → ((a : A) → P a → OrFault Q (k a))
    → OrFault Q (m >>= k)
OrFault-given (ok a) h next = next a (h a refl)
OrFault-given (fault e) h next = faulty

module _ {W : Type 0} (J : W → (ℕ → Timer) → Type 0) (rest : Rest W) (slack : ℕ)
    (laws : RestLaws J rest slack) (A : Timeouts W)
    (turns : (now : ℕ) → Turns (A now) (λ due w o. J w o) now) where
  open laws use {handled}

  abbrev late : ℕ
  late = 10 * ticks_per_ms + slack

  events-Ready :
      (events : List (Option ℕ)) (s : Running W)
      → Ready J s
      → OrFault (Ready J) (handle_events (host_of rest A) events s)
  unfolding handle_events
  events-Ready [] s r = fine r
  events-Ready (none ∷ events) s r = events-Ready events s r
  events-Ready (some e ∷ events) s r =
      OrFault-given (rest.handle e s) (λ s' went. handled e s s' r went) (events-Ready events)

  after_wait-LeftBehind :
      (f : ℕ → Running W → Result (Running W)) (last t : ℕ)
      (r : Option (List (Option ℕ)) × Running W)
      → Woken J rest slack laws last r.1
      → ((t' : ℕ) (s : Running W)
          → 1 ≤ t'
          → t' ≤ 10
          → Ready J s
          → OrFault (LeftBehind late) (f t' s))
      → 1 ≤ t
      → t ≤ 10
      → OrFault (LeftBehind late) (after_wait (host_of rest A) f t r)
  unfolding after_wait
  after_wait-LeftBehind f last t (none, s) k next low high =
      fine (AllAfter-LeftBehind last s.time_now late s.timers.objects k.in_time k.after)
  after_wait-LeftBehind f last t (some events, s) k next low high =
      Returns-elim (OrFault (LeftBehind late)) _
        (check_now-Ready J rest slack laws A turns last s k)
        λ c r.
          let bounds = next_timeout_lem c.0 t low high in
          OrFault-bind _ (events-Ready events c.1 r)
            λ s' r'. next (next_timeout c.0 t) s' bounds.0 bounds.1 r'

  pub main_loop-LeftBehind :
      (fuel t : ℕ) (s : Running W)
      → 1 ≤ t
      → t ≤ 10
      → Ready J s
      → OrFault (LeftBehind late) (main_loop (host_of rest A) fuel t s)
  unfolding main_loop
  main_loop-LeftBehind zero t s low high r = faulty
  main_loop-LeftBehind (suc fuel) t s low high r = elim (Bool-cases (rest.is_running s.world)) [
    | inl on ↦ rw on (
        after_wait-LeftBehind (main_loop (host_of rest A) fuel) s.time_now t (rest.wait s t)
          (wait-Woken J rest slack laws s t high r)
          (λ t' s' low' high' r'. main_loop-LeftBehind fuel t' s' low' high' r') low high)
    | inr off ↦ rw off (
        fine
          (AllAfter-LeftBehind s.time_now s.time_now late s.timers.objects (omega arith) r.after))
  ]
