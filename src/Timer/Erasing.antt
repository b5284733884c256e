-- ===== src/Timer/Erasing.antt =====
-- src/xma_timer.cpp: what `StopTimer` leaves of the list of `TimerMgr`.
use cpp_readline.Common.{
  ==→≡, ==-refl, ==-sym, ℕ, ◌≡◌, refl, sym, ap, ◌∙◌, subst, true, false, ◌==◌, List, [], ◌∷◌,
  Bool-cases, inl, inr,
}
use cpp_readline.Timer.{Timer, Node, erase_id, update, due_of}
use cpp_readline.Timer.Order.{Ascending, asc-nil, asc-cons, NoId, no-nil, no-cons}
use cpp_readline.Timer.Arm.{Waits, waits-here, waits-later}
use cpp_readline.Timer.Listed.{
  Distinct, dis-nil, dis-cons, AllActive, act-nil, act-cons, IsListed, SameOn, SameOn-update,
  same-Ascending, same-Distinct, same-AllActive, NoId-Waits, changed-listed, Ascending-weaken,
}

module _ (o : ℕ → Timer) (id : ℕ) where
  erase_id-NoId : (j : ℕ) (ns : List Node) → NoId o j ns → NoId o j (erase_id o id ns).1
  unfolding erase_id
  erase_id-NoId j [] no-nil = no-nil
  erase_id-NoId j (n ∷ ns) (no-cons h hs) = elim (Bool-cases (id == (o n.timer).id)) [
    | inl hit ↦ rw hit hs
    | inr miss ↦ rw miss (no-cons h (erase_id-NoId j ns hs))
  ]

  erase_id-Distinct : (ns : List Node) → Distinct o ns → Distinct o (erase_id o id ns).1
  unfolding erase_id
  erase_id-Distinct [] dis-nil = dis-nil
  erase_id-Distinct (n ∷ ns) (dis-cons d ds) = elim (Bool-cases (id == (o n.timer).id)) [
    | inl hit ↦ rw hit ds
    | inr miss ↦ rw miss (dis-cons (erase_id-NoId (o n.timer).id ns d) (erase_id-Distinct ns ds))
  ]

  erase_id-Ascending :
      (lo : ℕ) (ns : List Node)
      → Ascending (due_of o) lo ns
      → Ascending (due_of o) lo (erase_id o id ns).1
  unfolding erase_id
  erase_id-Ascending lo [] asc-nil = asc-nil
  erase_id-Ascending lo (n ∷ ns) (asc-cons h a) = elim (Bool-cases (id == (o n.timer).id)) [
    | inl hit ↦ rw hit (Ascending-weaken (due_of o) lo (due_of o n.timer) ns h a)
    | inr miss ↦ rw miss (asc-cons h (erase_id-Ascending (due_of o n.timer) ns a))
  ]

  erase_id-AllActive : (ns : List Node) → AllActive o ns → AllActive o (erase_id o id ns).1
  unfolding erase_id
  erase_id-AllActive [] act-nil = act-nil
  erase_id-AllActive (n ∷ ns) (act-cons h g hs) = elim (Bool-cases (id == (o n.timer).id)) [
    | inl hit ↦ rw hit hs
    | inr miss ↦ rw miss (act-cons h g (erase_id-AllActive ns hs))
  ]

  erase_id-gone : (ns : List Node) → Distinct o ns → NoId o id (erase_id o id ns).1
  unfolding erase_id
  erase_id-gone [] dis-nil = no-nil
  erase_id-gone (n ∷ ns) (dis-cons d ds) = elim (Bool-cases (id == (o n.timer).id)) [
    | inl hit ↦ rw hit (subst (λ j. NoId o j ns) (sym (==→≡ id (o n.timer).id hit)) d)
    | inr miss ↦ rw miss (no-cons miss (erase_id-gone ns ds))
  ]

module _ (o : ℕ → Timer) (t : ℕ) where
  -- the node that is erased is that of `t`
  front_is :
      (n : Node) (ns : List Node)
      → Distinct o (n ∷ ns)
      → Waits t (n ∷ ns)
      → ((o t).id == (o n.timer).id) ≡ true
      → n.timer ≡ t
  front_is n ns d (waits-here e) hit = e
  front_is n ns (dis-cons d ds) (waits-later w) hit =
      absurd-hit (==-sym (o n.timer).id (o t).id (NoId-Waits o (o n.timer).id t ns d w))
    where
      absurd-hit : ((o t).id == (o n.timer).id) ≡ false → n.timer ≡ t
      absurd-hit miss = cc

  other-front :
      (u : ℕ) (n : Node) (ns : List Node)
      → n.timer ≡ t
      → (u == t) ≡ false
      → Waits u (n ∷ ns)
      → Waits u ns
  other-front u n ns e other (waits-later w) = w
  other-front u n ns e other (waits-here f) = absurd-eq (ap (λ v. u == v) (sym e ∙ f) ∙ ==-refl u)
    where
      absurd-eq : (u == t) ≡ true → Waits u ns
      absurd-eq hit = cc

  tail-Waits :
      (n : Node) (ns : List Node)
      → ((o t).id == (o n.timer).id) ≡ false
      → Waits t (n ∷ ns)
      → Waits t ns
  tail-Waits n ns miss (waits-later w) = w
  tail-Waits n ns miss (waits-here e) =
      absurd-eq (sym (==-refl (o t).id) ∙ sym (ap (λ v. (o t).id == (o v).id) e) ∙ miss)
    where
      absurd-eq : true ≡ false → Waits t ns
      absurd-eq f = cc

  tail-Distinct : {n : Node} {ns : List Node} → Distinct o (n ∷ ns) → Distinct o ns
  tail-Distinct (dis-cons d ds) = ds

  erase_id-others :
      (u : ℕ) (ns : List Node)
      → Distinct o ns
      → Waits t ns
      → (u == t) ≡ false
      → Waits u ns
      → Waits u (erase_id o (o t).id ns).1
  unfolding erase_id
  erase_id-others u [] d w other v = elim w [ ]
  erase_id-others u (n ∷ ns) d w other (waits-here e) =
      elim (Bool-cases ((o t).id == (o n.timer).id)) [
        | inl hit ↦ rw hit (other-front u n ns (front_is n ns d w hit) other (waits-here e))
        | inr miss ↦ rw miss (waits-here e)
      ]
  erase_id-others u (n ∷ ns) d w other (waits-later v) =
      elim (Bool-cases ((o t).id == (o n.timer).id)) [
        | inl hit ↦ rw hit v
        | inr miss ↦
            rw miss (
              waits-later (erase_id-others u ns (tail-Distinct d) (tail-Waits n ns miss w) other v))
      ]

-- A timer of the list that is stopped: the list without it keeps the invariant.
pub IsListed-erase :
    (o : ℕ → Timer) (t : ℕ) (ns : List Node)
    → IsListed o ns
    → (o t).active ≡ true
    → IsListed (update o t (record (o t) { active = false })) (erase_id o (o t).id ns).1
IsListed-erase o t ns v on =
    let same : SameOn o (update o t (record (o t) { active = false })) (erase_id o (o t).id ns).1 =
      SameOn-update o t (record (o t) { active = false }) (erase_id o (o t).id ns).1
        (erase_id-gone o (o t).id ns v.distinct) in
    record {
      ordered =
          same-Ascending 0 (erase_id o (o t).id ns).1 same
            (erase_id-Ascending o (o t).id 0 ns v.ordered);
      distinct = same-Distinct same (erase_id-Distinct o (o t).id ns v.distinct);
      active = same-AllActive same (erase_id-AllActive o (o t).id ns v.active);
      listed =
          changed-listed o t (record (o t) { active = false }) (erase_id o (o t).id ns).1
            (λ u other here.
              erase_id-others o t u ns v.distinct (v.listed t on) other (v.listed u here))
            refl;
    }

-- A timer that waits is found by its id.
pub erase_id-found :
    (o : ℕ → Timer) (t : ℕ) (ns : List Node) → Waits t ns → (erase_id o (o t).id ns).0 ≡ true
unfolding erase_id
erase_id-found o t [] w = elim w [ ]
erase_id-found o t (n ∷ ns) w = elim (Bool-cases ((o t).id == (o n.timer).id)) [
  | inl hit ↦ rw hit refl
  | inr miss ↦ rw miss (erase_id-found o t ns (tail-Waits o t n ns miss w))
]
