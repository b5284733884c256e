-- ===== src/Timer/Order.antt =====
-- `SetTimer` keeps the list in the order in which the timers are due, and `StopTimer` undoes it.
use cpp_readline.Common.{
  ==-refl, ℕ, ◌≤◌, ◌≡◌, refl, true, false, ltb, ◌==◌, List, [], ◌∷◌, Bool-cases, inl, inr, arith,
  ltb→lt, ltb→ge,
}
use cpp_readline.Timer.{Timer, Timers, Node, insert, set_timer, erase_id, stop_timer, due_of}

-- each timer is due at `lo` or later, and not before the one in front of it
pub data Ascending (due : ℕ → ℕ) : ℕ → List Node → Type 0 where
  asc-nil : {lo : ℕ} → Ascending due lo []
  asc-cons :
      {lo : ℕ} {n : Node} {ns : List Node}
      → lo ≤ due n.timer
      → Ascending due (due n.timer) ns
      → Ascending due lo (n ∷ ns)

pub insert-Ascending :
    (due : ℕ → ℕ) (lo : ℕ) (n : Node) (ms : List Node)
    → lo ≤ due n.timer
    → Ascending due lo ms
    → Ascending due lo (insert due n ms)
unfolding insert
insert-Ascending due lo n [] h a = asc-cons h asc-nil
insert-Ascending due lo n (m ∷ ms) h (asc-cons g a) =
    elim (Bool-cases (ltb (due n.timer) (due m.timer))) [
      | inl before ↦
          rw before
            (asc-cons h (asc-cons (omega (arith, ltb→lt (due n.timer) (due m.timer) before)) a))
      | inr after ↦ rw after (
          asc-cons g
            (insert-Ascending due (due m.timer) n ms (ltb→ge (due n.timer) (due m.timer) after) a))
    ]

-- no node of the list has a timer with this id
pub data NoId (objects : ℕ → Timer) (id : ℕ) : List Node → Type 0 where
  no-nil : NoId objects id []
  no-cons :
      {n : Node} {ns : List Node}
      → (id == (objects n.timer).id) ≡ false
      → NoId objects id ns
      → NoId objects id (n ∷ ns)

pub erase_id-insert :
    (objects : ℕ → Timer) (due : ℕ → ℕ) (n : Node) (ms : List Node)
    → NoId objects (objects n.timer).id ms
    → erase_id objects (objects n.timer).id (insert due n ms) ≡ (true, ms)
unfolding erase_id insert
erase_id-insert objects due n [] no-nil = rw (==-refl (objects n.timer).id) refl
erase_id-insert objects due n (m ∷ ms) (no-cons other none_else) =
    elim (Bool-cases (ltb (due n.timer) (due m.timer))) [
      | inl before ↦ rw before (rw (==-refl (objects n.timer).id) refl)
      | inr after ↦ rw after (rw (other, erase_id-insert objects due n ms none_else) refl)
    ]

-- `SetTimer` keeps the list in the order in which the timers are due.
set_timer-Ascending :
    (t lo : ℕ) (st : Timers)
    → lo ≤ due_of st.objects t
    → Ascending (due_of st.objects) lo st.nodes
    → Ascending (due_of (set_timer t st).1.objects) lo (set_timer t st).1.nodes
unfolding set_timer
set_timer-Ascending t lo st h a = insert-Ascending (due_of st.objects) lo _ st.nodes h a

-- `StopTimer` right after `SetTimer` succeeds and leaves the list as it was before the two, where the
-- timer has an id that no timer of the list has.
pub stop_timer-set_timer :
    (t : ℕ) (st : Timers)
    → ((st.objects t).id == 0) ≡ false
    → NoId st.objects (st.objects t).id st.nodes
    → ((stop_timer t (set_timer t st).1).0 ≡ true)
      × ((stop_timer t (set_timer t st).1).1.nodes ≡ st.nodes)
unfolding stop_timer set_timer
stop_timer-set_timer t st numbered alone =
    rw
      (
        numbered,
        erase_id-insert st.objects (due_of st.objects) (record { at = st.fresh; timer = t })
            st.nodes alone,
      )
      (refl, refl)
