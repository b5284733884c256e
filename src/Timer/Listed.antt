-- ===== src/Timer/Listed.antt =====
-- src/xma_timer.cpp: the invariant of `TimerMgr`. Its list is in order, no two of its timers have the
-- same id, and it has exactly the timers that are active.
use cpp_readline.Common.{
  ==→≡, ==-refl, ℕ, ◌≤◌, ◌≡◌, refl, sym, ap, ◌∙◌, subst, true, false, ◌==◌, List, [], ◌∷◌,
  Bool-cases, inl, inr, arith,
}
use cpp_readline.Timer.{Timer, Node, update, deactivate, due_of}
use cpp_readline.Timer.Order.{Ascending, asc-nil, asc-cons, NoId, no-nil, no-cons}
use cpp_readline.Timer.Arm.{Waits, waits-here, waits-later}

-- every timer of the list has an id that none behind it has
pub data Distinct (objects : ℕ → Timer) : List Node → Type 0 where
  dis-nil : Distinct objects []
  dis-cons :
      {n : Node} {ns : List Node}
      → NoId objects (objects n.timer).id ns
      → Distinct objects ns
      → Distinct objects (n ∷ ns)

-- every timer of the list is active and has an id
pub data AllActive (objects : ℕ → Timer) : List Node → Type 0 where
  act-nil : AllActive objects []
  act-cons :
      {n : Node} {ns : List Node}
      → (objects n.timer).active ≡ true
      → ((objects n.timer).id == 0) ≡ false
      → AllActive objects ns
      → AllActive objects (n ∷ ns)

pub record IsListed (objects : ℕ → Timer) (nodes : List Node) : Type 0 where
  pub ordered : Ascending (due_of objects) 0 nodes
  pub distinct : Distinct objects nodes
  pub active : AllActive objects nodes
  pub listed : (t : ℕ) → (objects t).active ≡ true → Waits t nodes

-- Every timer of the list is the same object state in both.
pub data SameOn (o p : ℕ → Timer) : List Node → Type 0 where
  same-nil : SameOn o p []
  same-cons :
      {n : Node} {ns : List Node} → p n.timer ≡ o n.timer → SameOn o p ns → SameOn o p (n ∷ ns)

pub update-other : (o : ℕ → Timer) (t u : ℕ) (x : Timer) → (u == t) ≡ false → update o t x u ≡ o u
update-other o t u x miss = rw miss refl

pub differ-ids : (o : ℕ → Timer) (t u : ℕ) → ((o t).id == (o u).id) ≡ false → (u == t) ≡ false
differ-ids o t u e = elim (Bool-cases (u == t)) [
  | inr miss ↦ miss
  | inl hit ↦ absurd-ids (ap (λ v. (o t).id == (o v).id) (==→≡ u t hit)) e
]
  where
    absurd-ids :
        ((o t).id == (o u).id) ≡ ((o t).id == (o t).id)
        → ((o t).id == (o u).id) ≡ false
        → (u == t) ≡ false
    absurd-ids a b = absurd-true (sym (==-refl (o t).id) ∙ sym a ∙ b)
      where
        absurd-true : true ≡ false → (u == t) ≡ false
        absurd-true f = cc

pub SameOn-update :
    (o : ℕ → Timer) (t : ℕ) (x : Timer) (ns : List Node)
    → NoId o (o t).id ns
    → SameOn o (update o t x) ns
SameOn-update o t x [] no-nil = same-nil
SameOn-update o t x (n ∷ ns) (no-cons other others) =
    same-cons (update-other o t n.timer x (differ-ids o t n.timer other))
      (SameOn-update o t x ns others)

module _ {o p : ℕ → Timer} where
  pub same-Ascending :
      (lo : ℕ) (ns : List Node)
      → SameOn o p ns
      → Ascending (due_of o) lo ns
      → Ascending (due_of p) lo ns
  same-Ascending lo [] same-nil asc-nil = asc-nil
  same-Ascending lo (n ∷ ns) (same-cons e es) (asc-cons h a) =
      asc-cons (subst (λ x. lo ≤ x.timepoint) (sym e) h) (
        subst (λ x. Ascending (due_of p) x.timepoint ns) (sym e)
          (same-Ascending (due_of o n.timer) ns es a))

  pub same-NoId : {id : ℕ} {ns : List Node} → SameOn o p ns → NoId o id ns → NoId p id ns
  same-NoId same-nil no-nil = no-nil
  same-NoId {id = id} (same-cons e es) (no-cons h hs) =
      no-cons (ap (λ x. id == x.id) e ∙ h) (same-NoId es hs)

  pub same-Distinct : {ns : List Node} → SameOn o p ns → Distinct o ns → Distinct p ns
  same-Distinct same-nil dis-nil = dis-nil
  same-Distinct (same-cons {ns = ns} e es) (dis-cons h hs) =
      dis-cons (subst (λ x. NoId p x.id ns) (sym e) (same-NoId es h)) (same-Distinct es hs)

  pub same-AllActive : {ns : List Node} → SameOn o p ns → AllActive o ns → AllActive p ns
  same-AllActive same-nil act-nil = act-nil
  same-AllActive (same-cons e es) (act-cons h g hs) =
      act-cons (ap (λ x. x.active) e ∙ h) (ap (λ x. x.id == 0) e ∙ g) (same-AllActive es hs)

pub NoId-Waits :
    (o : ℕ → Timer) (id t : ℕ) (ns : List Node)
    → NoId o id ns
    → Waits t ns
    → (id == (o t).id) ≡ false
NoId-Waits o id t [] no-nil w = elim w [ ]
NoId-Waits o id t (n ∷ ns) (no-cons h hs) (waits-here e) = ap (λ u. id == (o u).id) (sym e) ∙ h
NoId-Waits o id t (n ∷ ns) (no-cons h hs) (waits-later w) = NoId-Waits o id t ns hs w

pub Ascending-weaken :
    (due : ℕ → ℕ) (lo hi : ℕ) (ns : List Node) → lo ≤ hi → Ascending due hi ns → Ascending due lo ns
Ascending-weaken due lo hi [] h asc-nil = asc-nil
Ascending-weaken due lo hi (n ∷ ns) h (asc-cons g a) = asc-cons (omega arith) a

-- a timer that is not active and not listed under its id: a change of it alone keeps what is listed
pub changed-listed :
    (o : ℕ → Timer) (t : ℕ) (x : Timer) (ns : List Node)
    → ((u : ℕ) → (u == t) ≡ false → (o u).active ≡ true → Waits u ns)
    → x.active ≡ false
    → (u : ℕ) → (update o t x u).active ≡ true
    → Waits u ns
changed-listed o t x ns listed idle u = elim (Bool-cases (u == t)) [
  | inl hit ↦ rw hit (λ e. absurd-active (sym idle ∙ e))
  | inr miss ↦ rw miss (listed u miss)
]
  where
    absurd-active : false ≡ true → Waits u ns
    absurd-active e = cc

-- The front node goes, and its timer is not active any more.
pub IsListed-front :
    (o : ℕ → Timer) (n : Node) (ns : List Node)
    → IsListed o (n ∷ ns)
    → IsListed (deactivate o n.timer) ns
IsListed-front o n ns v = go v.ordered v.distinct v.active
  where
    later : (u : ℕ) → (u == n.timer) ≡ false → Waits u (n ∷ ns) → Waits u ns
    later u miss (waits-here e) = absurd-hit (sym (ap (λ w. u == w) e) ∙ miss)
      where
        absurd-hit : (u == u) ≡ false → Waits u ns
        absurd-hit f = absurd-true (sym (==-refl u) ∙ f)
          where
            absurd-true : true ≡ false → Waits u ns
            absurd-true g = cc
    later u miss (waits-later w) = w

    go :
        Ascending (due_of o) 0 (n ∷ ns)
        → Distinct o (n ∷ ns)
        → AllActive o (n ∷ ns)
        → IsListed (deactivate o n.timer) ns
    go (asc-cons h a) (dis-cons d ds) (act-cons c g cs) =
        let same = SameOn-update o n.timer (record (o n.timer) { active = false }) ns d in
        record {
          ordered = same-Ascending 0 ns same (Ascending-weaken (due_of o) 0 _ ns (omega arith) a);
          distinct = same-Distinct same ds;
          active = same-AllActive same cs;
          listed =
              changed-listed o n.timer (record (o n.timer) { active = false }) ns
                (λ u miss on. later u miss (v.listed u on)) refl;
        }
