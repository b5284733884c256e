-- ===== src/Timer/Again.antt =====
-- src/xma_timer.cpp: `CheckTimers` where a `Timeout` may set its own timer again, while the loop holds an
-- iterator to the timer's node.
use cpp_readline.Common.{
  ==-refl, Option, ℕ, zero, suc, ◌<◌, ◌≡◌, refl, sym, subst, ap, ◌∙◌, false, leb, ◌==◌, List, [],
  ◌∷◌, length, Result, ok, ◌>>=◌, Returns, returns, Returns-mono, Returns-bind, Bool-cases, inl,
  inr, arith, leb→gt,
}
use cpp_readline.Timer.{
  Timer, Timers, Node, deactivate, due_of, check_loop, check_timers, fire, do_handle, erase, deref,
  first_node,
}
use cpp_readline.Timer.Check.{due_part, AllOf, all-nil, all-cons, Ascending-later}
use cpp_readline.Timer.Due.{due_part-le, due_part-ready, due_part-early}
use cpp_readline.Timer.Listed.{IsListed}
use cpp_readline.Timer.Turns.{
  Turn, Stepped, called, front-Ascending, retired-idle, retired-numbered, Turn-Stepped,
}

-- The `Timeout`s that ran, of the timers of a list in order: each once, with its timer not active, after
-- which its node is erased.
pub data Fires {W : Type 0} (timeout : ℕ → W → Timers → Result (W × Timers))
    : List Node → W → Timers → W → Timers → Type 0 where
  no_more : {w : W} {st : Timers} → Fires timeout [] w st w st
  fires :
      {n : Node} {ns ms : List Node} {w v w' : W} {st mid st' : Timers}
      → timeout n.timer w (record st { objects = deactivate st.objects n.timer }) ≡ ok (v, mid)
      → erase n.at mid.nodes ≡ ok (first_node ms, ms)
      → Fires timeout ns v (record mid { nodes = ms }) w' st'
      → Fires timeout (n ∷ ns) w st w' st'

-- The state after `CheckTimers` at `now`, from a list of timers `due`: each `Timeout` ran once, and every
-- timer of the list is due later than `now`.
pub record FiredOnce {W : Type 0} (timeout : ℕ → W → Timers → Result (W × Timers)) (now : ℕ)
    (due : List Node) (w : W) (st : Timers) (r : W × Timers) : Type 0 where
  pub fired : Fires timeout due w st r.0 r.1
  pub listed : IsListed r.1.objects r.1.nodes
  pub later : AllOf (λ n. now < due_of r.1.objects n.timer) r.1.nodes

erase_front : (n : Node) (ms : List Node) → erase n.at (n ∷ ms) ≡ ok (first_node ms, ms)
unfolding erase
erase_front n ms = rw (==-refl n.at) refl

-- What each `Timeout` does while `CheckTimers` runs, since `now`: it returns and takes its turn, and turns
-- what holds of the state and the timers with its own timer still to fire into what holds without it.
abbrev pub Turns :
    {W : Type 0}
    → (ℕ → W → Timers → Result (W × Timers))
    → (List Node → W → (ℕ → Timer) → Type 0)
    → ℕ
    → Type 0
Turns {W = W} timeout P now =
    (n : Node) (due : List Node) (w : W) (st : Timers)
    → P (n ∷ due) w st.objects
    → ((called n st).objects n.timer).active ≡ false
    → (((called n st).objects n.timer).id == 0) ≡ false
    → Returns (λ r. P due r.0 r.1.objects × Turn now n.timer (called n st) r.1)
        (timeout n.timer w (called n st))

module _ {W : Type 0} (timeout : ℕ → W → Timers → Result (W × Timers)) (now : ℕ) where
  pub fire_lem :
      (rest : Option ℕ → W → Timers → Result (W × Timers)) (n : Node) (ns : List Node) (w v : W)
      (st mid : Timers) (s : Stepped now n ns st mid)
      → timeout n.timer w (called n st) ≡ ok (v, mid)
      → fire timeout rest n.at n.timer w st ≡ rest (first_node s.ms) v (record mid { nodes = s.ms })
  unfolding fire do_handle
  fire_lem rest n ns w v st mid s went =
      rw (==-refl n.timer, went) refl
      ∙ ap (λ e. e >>= λ q. rest q.0 v (record mid { nodes = q.1 }))
          (ap (erase n.at) s.split ∙ erase_front n s.ms)

module _ {W : Type 0} (timeout : ℕ → W → Timers → Result (W × Timers))
    (P : List Node → W → (ℕ → Timer) → Type 0) (now : ℕ) (turns : Turns timeout P now) where
  -- the state with a list of nodes
  abbrev at : Timers → List Node → Timers
  at st nodes = record st { nodes = nodes }

  FiredOnce-step :
      (n : Node) (ns due : List Node) (w v : W) (st mid : Timers) (r : W × Timers)
      (s : Stepped now n ns st mid)
      → timeout n.timer w (called n st) ≡ ok (v, mid)
      → FiredOnce timeout now due v (at mid s.ms) r
      → FiredOnce timeout now (n ∷ due) w st r
  FiredOnce-step n ns due w v st mid r s went c = record {
    fired = fires went (ap (erase n.at) s.split ∙ erase_front n s.ms) c.fired;
    listed = c.listed;
    later = c.later;
  }

  abbrev dues : Timers → List Node → List Node
  dues st ns = due_part (due_of st.objects) now ns

  -- the loop from a list on, with this fuel
  Loop : ℕ → Type 0
  Loop fuel =
      (nodes : List Node) (w : W) (st : Timers)
      → IsListed st.objects nodes
      → P (dues st nodes) w st.objects
      → length (dues st nodes) < fuel
      → Returns
          (λ r. FiredOnce timeout now (dues st nodes) w (at st nodes) r × P [] r.0 r.1.objects)
          (check_loop timeout fuel now (first_node nodes) w (at st nodes))

  -- the round for a timer that is due, and the rest of the loop
  fire_round :
      (fuel : ℕ) (n : Node) (ns : List Node) (w : W) (st : Timers)
      → Loop fuel
      → length (dues st ns) < fuel
      → {r : Result (W × Timers)} → timeout n.timer w (called n (at st (n ∷ ns))) ≡ r
      → Returns (λ q. P (dues st ns) q.0 q.1.objects × Stepped now n ns (at st (n ∷ ns)) q.1) r
      → Returns
          (λ q. FiredOnce timeout now (n ∷ dues st ns) w (at st (n ∷ ns)) q × P [] q.0 q.1.objects)
          (fire timeout (check_loop timeout fuel now) n.at n.timer w (at st (n ∷ ns)))
  unfolding Loop
  fire_round fuel n ns w st loop enough went (returns {a = (v, mid)} (holds, s)) =
      rw (fire_lem timeout now (check_loop timeout fuel now) n ns w v (at st (n ∷ ns)) mid s went) (
        Returns-mono
          (loop s.ms v mid s.listed (subst (λ d. P d v mid.objects) (sym s.same_due) holds)
            (subst (λ d. length d < fuel) (sym s.same_due) enough))
          λ q c. (
            FiredOnce-step n ns (dues st ns) w v (at st (n ∷ ns)) mid q s went
                (subst (λ d. FiredOnce timeout now d v (at mid s.ms) q) s.same_due c.0),
            c.1,
          ))

  -- the turn of the front timer, which is due
  pub turn_lem :
      (n : Node) (ns : List Node) (w : W) (st : Timers)
      → IsListed st.objects (n ∷ ns)
      → P (n ∷ dues st ns) w st.objects
      → Returns
          (λ q. P (dues st ns) q.0 q.1.objects × Stepped now n ns (at st (n ∷ ns)) q.1)
          (timeout n.timer w (called n (at st (n ∷ ns))))
  turn_lem n ns w st v holds =
      let front = at st (n ∷ ns) in
      Returns-mono
        (turns n (dues st ns) w front holds (retired-idle now n ns front refl v)
          (retired-numbered now n ns front refl v))
        λ q t. (t.0, Turn-Stepped now n ns front refl v t.1)

  check_loop_lem : (fuel : ℕ) → Loop fuel
  unfolding Loop check_loop deref first_node due_part
  check_loop_lem fuel [] w st v holds enough =
      returns (record { fired = no_more; listed = v; later = all-nil }, holds)
  check_loop_lem zero (n ∷ ns) w st v holds enough = absurd (omega (arith, enough))
  check_loop_lem (suc fuel) (n ∷ ns) w st v holds enough =
      elim (Bool-cases (leb (due_of st.objects n.timer) now)) [
        | inl ready ↦
            let split = due_part-ready now (due_of st.objects) n ns ready in
            rw (==-refl n.at, ready)
              (fire_round fuel n ns w st (check_loop_lem fuel)
                (omega (arith, enough, ap (λ d. length d) split)) refl
                (turn_lem n ns w st v (subst (λ d. P d w st.objects) split holds)))
        | inr early ↦
            rw (==-refl n.at, early)
              (returns (
                record {
                  fired = no_more;
                  listed = v;
                  later = all-cons (leb→gt (due_of st.objects n.timer) now early) (
                      Ascending-later (due_of st.objects) now (due_of st.objects n.timer) ns
                        (leb→gt (due_of st.objects n.timer) now early) (front-Ascending v.ordered));
                },
                subst (λ d. P d w st.objects) (due_part-early now (due_of st.objects) n ns early)
                    holds,
              ))
      ]

-- `CheckTimers` at `now` returns, with fuel for more rounds than there are timers, where the list is in
-- order with distinct ids and has exactly the active timers, and each `Timeout` returns and leaves the
-- timers alone or sets its own timer again, by a period that is not 0. The `Timeout` of each timer
-- that was due has run exactly once, in the order of the list, and a timer that was set again does not
-- fire a second time; the list is again in order with distinct ids and has exactly the active timers, and
-- all of them are due later than `now`. What the `Timeout`s do to other state and to
-- the timers holds at the end, as far as each takes what holds with its own timer still to fire to what
-- holds without it.
pub check_timers_again :
    {W : Type 0} (timeout : ℕ → W → Timers → Result (W × Timers))
    (P : List Node → W → (ℕ → Timer) → Type 0) (fuel now : ℕ) (w : W) (st : Timers)
    → Turns timeout P now
    → IsListed st.objects st.nodes
    → P (due_part (due_of st.objects) now st.nodes) w st.objects
    → length st.nodes < fuel
    → Returns
        (λ r.
          FiredOnce timeout now (due_part (due_of st.objects) now st.nodes) w st (r.1, r.2)
          × P [] r.1 r.2.objects)
        (check_timers timeout fuel now w st)
unfolding check_timers Loop
check_timers_again timeout P fuel now w st turns v holds enough =
    Returns-bind _
      (check_loop_lem timeout P now turns fuel st.nodes w st v holds
        (omega (arith, due_part-le (due_of st.objects) now st.nodes)))
      λ r c. returns c
