-- ===== src/Process/Rounds.antt =====
-- src/xma_process.cpp: the waits of `Process::Main`.
use cpp_readline.Common.{
  ℕ, zero, suc, ◌≤◌, ◌≡◌, refl, ap, ◌∙◌, if◌then◌else◌, List, Option, none, some, Result, ok, ◌>>=◌,
  bind-cong, arith,
}
use cpp_readline.Timer.{next_timeout}
use cpp_readline.Timer.Wait.{next_timeout_lem}
use cpp_readline.Process.{Host, handle_events, after_wait, main_loop, process_main}

module _ {S : Type 0} where
  -- the same host with another epoll_wait(2)
  abbrev pub with_wait : Host S → (S → ℕ → Option (List (Option ℕ)) × S) → Host S
  with_wait host wait = record host { wait = wait }

  module _ (host : Host S) (wait : S → ℕ → Option (List (Option ℕ)) × S)
      (agree : (s : S) (t : ℕ) → 1 ≤ t → t ≤ 10 → wait s t ≡ host.wait s t) where
    handle_events_same :
        (events : List (Option ℕ)) (s : S)
        → handle_events (with_wait host wait) events s ≡ handle_events host events s
    unfolding handle_events
    handle_events_same List.[] s = refl
    handle_events_same (List.◌∷◌ none events) s = handle_events_same events s
    handle_events_same (List.◌∷◌ (some l) events) s =
        bind-cong (host.handle l s) _ _ λ s' went. handle_events_same events s'

    after_wait_same :
        (rest rest' : ℕ → S → Result S) (t : ℕ) (r : Option (List (Option ℕ)) × S)
        → 1 ≤ t
        → t ≤ 10
        → ((t' : ℕ) (s : S) → 1 ≤ t' → t' ≤ 10 → rest t' s ≡ rest' t' s)
        → after_wait (with_wait host wait) rest t r ≡ after_wait host rest' t r
    unfolding after_wait
    after_wait_same rest rest' t (none, s) low high same = refl
    after_wait_same rest rest' t (some events, s) low high same =
        bind-cong (host.check_timers s) _ _ λ c went.
          ap (λ m. m >>= rest (next_timeout c.0 t)) (handle_events_same events c.1)
          ∙ bind-cong (handle_events host events c.1) _ _ λ s' went'.
            same (next_timeout c.0 t) s' (next_timeout_lem c.0 t low high).0
              (next_timeout_lem c.0 t low high).1

    main_loop_same :
        (fuel t : ℕ) (s : S)
        → 1 ≤ t
        → t ≤ 10
        → main_loop (with_wait host wait) fuel t s ≡ main_loop host fuel t s
    unfolding main_loop
    main_loop_same zero t s low high = refl
    main_loop_same (suc fuel) t s low high =
        ap (λ m. if host.is_running s then m else ok s)
          (ap (after_wait (with_wait host wait) (main_loop (with_wait host wait) fuel) t)
              (agree s t low high)
            ∙ after_wait_same _ _ t (host.wait s t) low high (main_loop_same fuel))

    -- `Process::Main` waits at least 1 and at most 10 milliseconds in every round: it ends the same
    -- with any other epoll_wait(2) that answers waits of 1 to 10 milliseconds the same.
    pub process_main_lem :
        (fuel : ℕ) (s : S) → process_main (with_wait host wait) fuel s ≡ process_main host fuel s
    unfolding process_main
    process_main_lem fuel s = main_loop_same fuel 10 s (omega arith) (omega arith)
