-- ===== src/Timer/Punctual.antt =====
-- src/xma_timer.cpp: when `CheckTimers` calls a `Timeout`.
use cpp_readline.Common.{
  ==-refl, ℕ, zero, suc, ◌≤◌, ◌<◌, ◌≡◌, refl, sym, subst, ap, ◌∙◌, leb, leb→le, List, [], ◌∷◌,
  length, Result, Returns, returns, Bool-cases, inl, inr, arith,
}
use cpp_readline.Timer.{
  Timer, Timers, Node, due_of, check_loop, check_timers, fire, deref, first_node,
}
use cpp_readline.Timer.Check.{due_part, all-cons}
use cpp_readline.Timer.Due.{AllAfter, due_part-le, due_part-ready}
use cpp_readline.Timer.Listed.{IsListed}
use cpp_readline.Timer.Turns.{Stepped, called}
use cpp_readline.Timer.Again.{Turns, fire_lem, turn_lem}

-- The two `Timeout`s do the same for a timer that came due after `last` and is due at `now`.
abbrev pub SameAt :
    {W : Type 0} (last now : ℕ) → (A B : ℕ → W → Timers → Result (W × Timers)) → Type 0
SameAt {W = W} last now A B =
    (n : Node) (w : W) (st : Timers)
    → last < due_of st.objects n.timer
    → due_of st.objects n.timer ≤ now
    → A n.timer w (called n st) ≡ B n.timer w (called n st)

module _ {W : Type 0} (A B : ℕ → W → Timers → Result (W × Timers))
    (P : List Node → W → (ℕ → Timer) → Type 0) (last now : ℕ) (turns : Turns A P now)
    (earlier : last ≤ now) (same : SameAt last now A B) where
  abbrev dues : Timers → List Node → List Node
  dues st ns = due_part (due_of st.objects) now ns

  abbrev at : Timers → List Node → Timers
  at st nodes = record st { nodes = nodes }

  SameLoop : ℕ → Type 0
  SameLoop fuel =
      (nodes : List Node) (w : W) (st : Timers)
      → IsListed st.objects nodes
      → P (dues st nodes) w st.objects
      → AllAfter last st.objects nodes
      → length (dues st nodes) < fuel
      → check_loop A fuel now (first_node nodes) w (at st nodes)
        ≡ check_loop B fuel now (first_node nodes) w (at st nodes)

  same_round :
      (fuel : ℕ) (n : Node) (ns : List Node) (w : W) (st : Timers)
      → SameLoop fuel
      → length (dues st ns) < fuel
      → AllAfter last st.objects ns
      → A n.timer w (called n (at st (n ∷ ns))) ≡ B n.timer w (called n (at st (n ∷ ns)))
      → {r : Result (W × Timers)} → A n.timer w (called n (at st (n ∷ ns))) ≡ r
      → Returns (λ q. P (dues st ns) q.0 q.1.objects × Stepped now n ns (at st (n ∷ ns)) q.1) r
      → fire A (check_loop A fuel now) n.at n.timer w (at st (n ∷ ns))
        ≡ fire B (check_loop B fuel now) n.at n.timer w (at st (n ∷ ns))
  unfolding SameLoop
  same_round fuel n ns w st loop enough hs alike went (returns {a = (v, mid)} (holds, s)) =
      fire_lem A now (check_loop A fuel now) n ns w v (at st (n ∷ ns)) mid s went
      ∙ loop s.ms v mid s.listed (subst (λ d. P d v mid.objects) (sym s.same_due) holds)
          (s.after last earlier hs) (subst (λ d. length d < fuel) (sym s.same_due) enough)
      ∙ sym (
          fire_lem B now (check_loop B fuel now) n ns w v (at st (n ∷ ns)) mid s (sym alike ∙ went))

  check_loop_same : (fuel : ℕ) → SameLoop fuel
  unfolding SameLoop check_loop deref first_node due_part
  check_loop_same fuel [] w st v holds after enough = refl
  check_loop_same zero (n ∷ ns) w st v holds after enough = absurd (omega (arith, enough))
  check_loop_same (suc fuel) (n ∷ ns) w st v holds (all-cons h hs) enough =
      elim (Bool-cases (leb (due_of st.objects n.timer) now)) [
        | inl ready ↦
            let split = due_part-ready now (due_of st.objects) n ns ready in
            rw (==-refl n.at, ready)
              (same_round fuel n ns w st (check_loop_same fuel)
                (omega (arith, enough, ap (λ d. length d) split)) hs
                (same n w (at st (n ∷ ns)) h (leb→le (due_of st.objects n.timer) now ready)) refl
                (turn_lem A P now turns n ns w st v (subst (λ d. P d w st.objects) split holds)))
        | inr early ↦ rw (==-refl n.at, early) refl
      ]

  -- `CheckTimers` at `now` calls a `Timeout` only for a timer that is due, and that was not due at `last`
  -- where no timer of the list was.
  pub check_timers_same :
      (fuel : ℕ) (w : W) (st : Timers)
      → IsListed st.objects st.nodes
      → P (dues st st.nodes) w st.objects
      → AllAfter last st.objects st.nodes
      → length st.nodes < fuel
      → check_timers A fuel now w st ≡ check_timers B fuel now w st
  unfolding check_timers SameLoop
  check_timers_same fuel w st v holds after enough =
      rw
        (check_loop_same fuel st.nodes w st v holds after
          (omega (arith, due_part-le (due_of st.objects) now st.nodes)))
        refl
