-- ===== src/Timer/Due.antt =====
-- src/xma_timer.cpp: the timers in front of the list that are due, and lists of timers that are due later.
use cpp_readline.Common.{
  ℕ, ◌≤◌, ◌<◌, ◌≡◌, refl, sym, subst, ap, ◌∙◌, true, false, leb, ltb, List, [], ◌∷◌, length,
  if◌then◌else◌, Bool-cases, inl, inr, arith, gt→leb,
}
use cpp_readline.Timer.{Timer, Node, insert, due_of}
use cpp_readline.Timer.Check.{due_part, AllOf, all-nil, all-cons}
use cpp_readline.Timer.Listed.{SameOn, same-nil, same-cons}

pub due_part-same :
    (o p : ℕ → Timer) (now : ℕ) (ns : List Node)
    → SameOn o p ns
    → due_part (due_of p) now ns ≡ due_part (due_of o) now ns
unfolding due_part
due_part-same o p now [] same-nil = refl
due_part-same o p now (n ∷ ns) (same-cons e es) =
    ap (λ x. if leb x.timepoint now then n ∷ due_part (due_of p) now ns else []) e
    ∙ ap (λ l. if leb (due_of o n.timer) now then n ∷ l else []) (due_part-same o p now ns es)

pub due_part-insert :
    (due : ℕ → ℕ) (now : ℕ) (n : Node) (ns : List Node)
    → now < due n.timer
    → due_part due now (insert due n ns) ≡ due_part due now ns
unfolding due_part insert
due_part-insert due now n [] late = rw (gt→leb (due n.timer) now late) refl
due_part-insert due now n (m ∷ ms) late = elim (Bool-cases (ltb (due n.timer) (due m.timer))) [
  | inl before ↦
      rw (before, gt→leb (due n.timer) now late, gt→leb (due m.timer) now (later before)) refl
  | inr after ↦
      rw after
        (ap (λ l. if leb (due m.timer) now then m ∷ l else []) (due_part-insert due now n ms late))
]
  where
    later : ltb (due n.timer) (due m.timer) ≡ true → now < due m.timer
    later before = ground arith

-- every timer of the list is due later than `lo`
abbrev pub AllAfter : ℕ → (ℕ → Timer) → List Node → Type 0
AllAfter lo o ns = AllOf (λ n. lo < due_of o n.timer) ns

pub AllAfter-same :
    (lo : ℕ) {o p : ℕ → Timer} {ns : List Node}
    → SameOn o p ns
    → AllAfter lo o ns
    → AllAfter lo p ns
AllAfter-same lo same-nil all-nil = all-nil
AllAfter-same lo (same-cons {n} e es) (all-cons h hs) =
    all-cons (subst (λ x. lo < x.timepoint) (sym e) h) (AllAfter-same lo es hs)

pub AllAfter-insert :
    (lo : ℕ) (o : ℕ → Timer) (n : Node) {ns : List Node}
    → lo < due_of o n.timer
    → AllAfter lo o ns
    → AllAfter lo o (insert (due_of o) n ns)
unfolding insert
AllAfter-insert lo o n h all-nil = all-cons h all-nil
AllAfter-insert lo o n h (all-cons {n = m} g gs) =
    elim (Bool-cases (ltb (due_of o n.timer) (due_of o m.timer))) [
      | inl before ↦ rw before (all-cons h (all-cons g gs))
      | inr after ↦ rw after (all-cons g (AllAfter-insert lo o n h gs))
    ]

pub due_part-le :
    (due : ℕ → ℕ) (now : ℕ) (ns : List Node) → length (due_part due now ns) ≤ length ns
unfolding due_part
due_part-le due now [] = omega arith
due_part-le due now (n ∷ ns) = elim (Bool-cases (leb (due n.timer) now)) [
  | inl ready ↦ rw ready (omega (arith, due_part-le due now ns))
  | inr early ↦ rw early (omega arith)
]

module _ (now : ℕ) (due : ℕ → ℕ) (n : Node) (ns : List Node) where
  pub due_part-ready :
      leb (due n.timer) now ≡ true → due_part due now (n ∷ ns) ≡ n ∷ due_part due now ns
  unfolding due_part
  due_part-ready ready = rw ready refl

  pub due_part-early : leb (due n.timer) now ≡ false → due_part due now (n ∷ ns) ≡ []
  unfolding due_part
  due_part-early early = rw early refl
