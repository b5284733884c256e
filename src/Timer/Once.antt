-- ===== src/Timer/Once.antt =====
-- src/xma_timer.cpp: a timer of the list that is due stands once among those that are.
use cpp_readline.Common.{
  ==-sym, ℕ, ◌≤◌, ◌≡◌, sym, subst, true, false, leb, ◌==◌, List, [], ◌∷◌, Bool-cases, inl, inr,
  arith, le→leb,
}
use cpp_readline.Timer.{Timer, Node, due_of}
use cpp_readline.Timer.Order.{Ascending, asc-nil, asc-cons, NoId, no-nil, no-cons}
use cpp_readline.Timer.Arm.{Waits, waits-here, waits-later}
use cpp_readline.Timer.Check.{due_part}
use cpp_readline.Timer.Due.{due_part-ready}
use cpp_readline.Timer.Listed.{Distinct, dis-nil, dis-cons, NoId-Waits, differ-ids}

-- no node of the list has this timer, or one has
pub data Absent (t : ℕ) : List Node → Type 0 where
  absent-nil : Absent t []
  absent-cons :
      {n : Node} {ns : List Node} → (n.timer == t) ≡ false → Absent t ns → Absent t (n ∷ ns)

pub data Once (t : ℕ) : List Node → Type 0 where
  once-here : {n : Node} {ns : List Node} → n.timer ≡ t → Absent t ns → Once t (n ∷ ns)
  once-later : {n : Node} {ns : List Node} → (n.timer == t) ≡ false → Once t ns → Once t (n ∷ ns)

module _ (o : ℕ → Timer) (now : ℕ) where
  Absent-due_part :
      (t : ℕ) (ns : List Node) → NoId o (o t).id ns → Absent t (due_part (due_of o) now ns)
  unfolding due_part
  Absent-due_part t [] no-nil = absent-nil
  Absent-due_part t (n ∷ ns) (no-cons h hs) = elim (Bool-cases (leb (due_of o n.timer) now)) [
    | inl ready ↦ rw ready (absent-cons (differ-ids o t n.timer h) (Absent-due_part t ns hs))
    | inr early ↦ rw early absent-nil
  ]

  -- what waits behind a timer is not due before it
  Ascending-Waits :
      (lo t : ℕ) (ns : List Node) → Ascending (due_of o) lo ns → Waits t ns → lo ≤ due_of o t
  Ascending-Waits lo t [] asc-nil w = elim w [ ]
  Ascending-Waits lo t (n ∷ ns) (asc-cons h a) (waits-here e) = subst (λ u. lo ≤ due_of o u) e h
  Ascending-Waits lo t (n ∷ ns) (asc-cons h a) (waits-later w) =
      let behind = Ascending-Waits (due_of o n.timer) t ns a w in omega (arith, h, behind)

  pub Once-due_part :
      (lo t : ℕ) (ns : List Node)
      → Ascending (due_of o) lo ns
      → Distinct o ns
      → Waits t ns
      → due_of o t ≤ now
      → Once t (due_part (due_of o) now ns)
  Once-due_part lo t [] asc-nil dis-nil w due = elim w [ ]
  Once-due_part lo t (n ∷ ns) (asc-cons h a) (dis-cons d ds) (waits-here e) due =
      rw
        (due_part-ready now (due_of o) n ns
          (subst (λ u. leb (due_of o u) now ≡ true) (sym e) (le→leb (due_of o t) now due)))
        (once-here e
          (subst (λ u. Absent u (due_part (due_of o) now ns)) e (Absent-due_part n.timer ns d)))
  Once-due_part lo t (n ∷ ns) (asc-cons h a) (dis-cons d ds) (waits-later w) due =
      let behind = Ascending-Waits (due_of o n.timer) t ns a w in
      rw
        (due_part-ready now (due_of o) n ns
          (le→leb (due_of o n.timer) now (omega (arith, behind, due))))
        (once-later
          (==-sym t n.timer (differ-ids o n.timer t (NoId-Waits o (o n.timer).id t ns d w)))
          (Once-due_part (due_of o n.timer) t ns a ds w due))
