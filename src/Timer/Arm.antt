-- ===== src/Timer/Arm.antt =====
-- src/xma_timer.cpp: what `Timer::Set` does to a timer that is not active.
use cpp_readline.Common.{
  ==-refl, ℕ, ◌+◌, ◌*◌, ◌≡◌, refl, true, false, Bool, ltb, ◌==◌, List, [], ◌∷◌, Returns, returns,
  Bool-cases, inl, inr, assertion, assert_passes,
}
use cpp_readline.Timer.{Timers, Node, insert, set_timer, set, set_active, put, due_of, ticks_per_ms}

-- a node of the list has this timer
pub data Waits (t : ℕ) : List Node → Type 0 where
  waits-here : {n : Node} {ns : List Node} → n.timer ≡ t → Waits t (n ∷ ns)
  waits-later : {n : Node} {ns : List Node} → Waits t ns → Waits t (n ∷ ns)

pub insert-Waits : (due : ℕ → ℕ) (n : Node) (ns : List Node) → Waits n.timer (insert due n ns)
unfolding insert
insert-Waits due n [] = waits-here refl
insert-Waits due n (m ∷ ms) = elim (Bool-cases (ltb (due n.timer) (due m.timer))) [
  | inl before ↦ rw before (waits-here refl)
  | inr after ↦ rw after (waits-later (insert-Waits due n ms))
]

-- A timer that is active, in the list, and due `expire` milliseconds after `now`.
pub record IsArmed (now expire t : ℕ) (st : Timers) : Type 0 where
  pub active : (st.objects t).active ≡ true
  pub due : (st.objects t).timepoint ≡ now + expire * ticks_per_ms
  pub waits : Waits t st.nodes

armed :
    (now t : ℕ) (st : Timers)
    → IsArmed now
        (st.objects t).expire
        t
        (set_active true t (
          set_timer t (
            put st t (record (st.objects t) {
              timepoint = now + (st.objects t).expire * ticks_per_ms;
            })))).1
unfolding set_timer set_active
armed now t st = record {
  active = rw (==-refl t) refl;
  due = rw (==-refl t) refl;
  waits =
      insert-Waits
        (due_of
          (put st t (record (st.objects t) {
            timepoint = now + (st.objects t).expire * ticks_per_ms;
          })).objects)
        (record { at = st.fresh; timer = t }) st.nodes;
}

-- `Set` on a timer that has an id and is not active returns true, and afterwards the timer is armed.
pub set_lem :
    (asserts : Bool) (now t : ℕ) (st : Timers)
    → (st.objects t).active ≡ false
    → ((st.objects t).id == 0) ≡ false
    → Returns (λ r. (r.0 ≡ true) × IsArmed now (st.objects t).expire t r.1) (set asserts now t st)
unfolding set set_timer set_active
set_lem asserts now t st idle numbered =
    rw
      (
        assert_passes asserts (st.objects t).active assertion idle,
        assert_passes asserts ((st.objects t).id == 0) assertion numbered,
      )
      (returns (refl, armed now t st))
