-- ===== src/Timer/Changes.antt =====
-- src/xma_timer.cpp: `Set` of a timer and the invariant of `TimerMgr`.
use cpp_readline.Common.{
  ok, assertion, assert_passes, Bool, false, ==→≡, ==-refl, ==-sym, ℕ, ◌+◌, ◌*◌, ◌≡◌, refl, sym, ap,
  ◌∙◌, subst, true, false, ltb, ◌==◌, List, [], ◌∷◌, Bool-cases, inl, inr, arith,
}
use cpp_readline.Timer.{
  set, Timer, Timers, Node, insert, set_timer, set_active, update, due_of, ticks_per_ms,
}
use cpp_readline.Timer.Order.{NoId, no-nil, no-cons, insert-Ascending}
use cpp_readline.Timer.Arm.{Waits, waits-here, waits-later, insert-Waits}
use cpp_readline.Timer.Cycle.{done}
use cpp_readline.Timer.Listed.{
  Distinct, dis-nil, dis-cons, AllActive, act-nil, act-cons, IsListed, SameOn, SameOn-update,
  same-Ascending, same-NoId, same-Distinct, same-AllActive,
}

module _ (due : ℕ → ℕ) (p : ℕ → Timer) (n : Node) where
  insert-NoId :
      (id : ℕ) (ms : List Node)
      → (id == (p n.timer).id) ≡ false
      → NoId p id ms
      → NoId p id (insert due n ms)
  unfolding insert
  insert-NoId id [] other no-nil = no-cons other no-nil
  insert-NoId id (m ∷ ms) other (no-cons h hs) =
      elim (Bool-cases (ltb (due n.timer) (due m.timer))) [
        | inl before ↦ rw before (no-cons other (no-cons h hs))
        | inr after ↦ rw after (no-cons h (insert-NoId id ms other hs))
      ]

  insert-Distinct :
      (ms : List Node) → NoId p (p n.timer).id ms → Distinct p ms → Distinct p (insert due n ms)
  unfolding insert
  insert-Distinct [] alone dis-nil = dis-cons no-nil dis-nil
  insert-Distinct (m ∷ ms) (no-cons h hs) (dis-cons d ds) =
      elim (Bool-cases (ltb (due n.timer) (due m.timer))) [
        | inl before ↦ rw before (dis-cons (no-cons h hs) (dis-cons d ds))
        | inr after ↦ rw after (
            dis-cons (insert-NoId (p m.timer).id ms (==-sym (p n.timer).id (p m.timer).id h) d)
              (insert-Distinct ms hs ds))
      ]

  insert-AllActive :
      (ms : List Node)
      → (p n.timer).active ≡ true
      → ((p n.timer).id == 0) ≡ false
      → AllActive p ms
      → AllActive p (insert due n ms)
  unfolding insert
  insert-AllActive [] on numbered act-nil = act-cons on numbered act-nil
  insert-AllActive (m ∷ ms) on numbered (act-cons h g hs) =
      elim (Bool-cases (ltb (due n.timer) (due m.timer))) [
        | inl before ↦ rw before (act-cons on numbered (act-cons h g hs))
        | inr after ↦ rw after (act-cons h g (insert-AllActive ms on numbered hs))
      ]

  insert-keeps : (u : ℕ) (ms : List Node) → Waits u ms → Waits u (insert due n ms)
  unfolding insert
  insert-keeps u [] w = elim w [ ]
  insert-keeps u (m ∷ ms) (waits-here e) = elim (Bool-cases (ltb (due n.timer) (due m.timer))) [
    | inl before ↦ rw before (waits-later (waits-here e))
    | inr after ↦ rw after (waits-here e)
  ]
  insert-keeps u (m ∷ ms) (waits-later w) = elim (Bool-cases (ltb (due n.timer) (due m.timer))) [
    | inl before ↦ rw before (waits-later (waits-later w))
    | inr after ↦ rw after (waits-later (insert-keeps u ms w))
  ]

-- A timer whose id is not in the list is made active, with any time point, and put into the list.
pub IsListed-insert :
    (o : ℕ → Timer) (at t : ℕ) (x : Timer) (ns : List Node)
    → IsListed o ns
    → NoId o (o t).id ns
    → ((o t).id == 0) ≡ false
    → x.id ≡ (o t).id
    → x.active ≡ true
    → IsListed (update o t x) (insert (due_of (update o t x)) (record { at = at; timer = t }) ns)
IsListed-insert o at t x ns v alone numbered same_id on =
    let p : ℕ → Timer = update o t x in
    let here : p t ≡ x = rw (==-refl t) refl in
    let same : SameOn o p ns = SameOn-update o t x ns alone in
    let node : Node = record { at = at; timer = t } in
    record {
      ordered =
          insert-Ascending (due_of p) 0 node ns (omega arith) (same-Ascending 0 ns same v.ordered);
      distinct =
          insert-Distinct (due_of p) p node ns
            (subst (λ i. NoId p i ns) (sym (ap (λ y. y.id) here ∙ same_id)) (same-NoId same alone))
            (same-Distinct same v.distinct);
      active =
          insert-AllActive (due_of p) p node ns (ap (λ y. y.active) here ∙ on)
            (ap (λ y. y.id == 0) here ∙ ap (λ i. i == 0) same_id ∙ numbered)
            (same-AllActive same v.active);
      listed = listed;
    }
  where
    listed :
        (u : ℕ)
        → (update o t x u).active ≡ true
        → Waits u (insert (due_of (update o t x)) (record { at = at; timer = t }) ns)
    listed u = elim (Bool-cases (u == t)) [
      | inl hit ↦ λ e.
          subst (λ w. Waits w (insert (due_of (update o t x)) (record { at = at; timer = t }) ns))
            (sym (==→≡ u t hit))
            (insert-Waits (due_of (update o t x)) (record { at = at; timer = t }) ns)
      | inr miss ↦ rw miss λ e.
          insert-keeps (due_of (update o t x)) (update o t x) (record { at = at; timer = t }) u ns
            (v.listed u e)
    ]

update-update : (o : ℕ → Timer) (t : ℕ) (x y : Timer) → update (update o t x) t y ≡ update o t y
update-update o t x y = λ i u. pointwise u i
  where
    pointwise : (u : ℕ) → update (update o t x) t y u ≡ update o t y u
    pointwise u = elim (Bool-cases (u == t)) [ inl hit ↦ rw hit refl | inr miss ↦ rw miss refl ]

same_due_of :
    (o : ℕ → Timer) (t : ℕ) (x y : Timer)
    → x.timepoint ≡ y.timepoint
    → due_of (update o t x) ≡ due_of (update o t y)
same_due_of o t x y e = λ i u. pointwise u i
  where
    pointwise : (u : ℕ) → due_of (update o t x) u ≡ due_of (update o t y) u
    pointwise u = elim (Bool-cases (u == t)) [
      | inl hit ↦ rw (hit, due_of) e
      | inr miss ↦ rw (miss, due_of) refl
    ]

-- the timer as `Set` leaves it
abbrev pub armed_at : ℕ → Timer → Timer
armed_at later x = record x { timepoint = later; active = true }

pub update-here : (o : ℕ → Timer) (t : ℕ) (x : Timer) → update o t x t ≡ x
update-here o t x = rw (==-refl t) refl

done-objects :
    (later t : ℕ) (o : ℕ → Timer)
    → update
        (update o t (record (o t) { timepoint = later }))
        t
        (record (update o t (record (o t) { timepoint = later }) t) { active = true })
      ≡ update o t (armed_at later (o t))
done-objects later t o =
    update-update o t (record (o t) { timepoint = later }) _
    ∙ ap (λ x. update o t (record x { active = true }))
        (update-here o t (record (o t) { timepoint = later }))

-- What `Set` does to a state, without its assertions.
pub done_lem :
    (now t : ℕ) (st : Timers)
    → (done now t st).objects
        ≡ update st.objects t (armed_at (now + (st.objects t).expire * ticks_per_ms) (st.objects t))
      × ((done now t st).nodes
          ≡ insert
              (due_of (
                update st.objects t
                  (armed_at (now + (st.objects t).expire * ticks_per_ms) (st.objects t))))
              (record { at = st.fresh; timer = t })
              st.nodes)
unfolding set_timer set_active
done_lem now t st = (
  done-objects (now + (st.objects t).expire * ticks_per_ms) t st.objects,
  ap (λ d. insert d (record { at = st.fresh; timer = t }) st.nodes)
      (same_due_of st.objects t _
        (armed_at (now + (st.objects t).expire * ticks_per_ms) (st.objects t)) refl),
)

pub done-IsListed :
    (now t : ℕ) (st : Timers)
    → IsListed st.objects st.nodes
    → NoId st.objects (st.objects t).id st.nodes
    → ((st.objects t).id == 0) ≡ false
    → IsListed (done now t st).objects (done now t st).nodes
done-IsListed now t st v alone numbered =
    let later : ℕ = now + (st.objects t).expire * ticks_per_ms in
    subst (λ o. IsListed o (done now t st).nodes) (sym (done_lem now t st).0)
      (subst (λ ns. IsListed (update st.objects t (armed_at later (st.objects t))) ns)
        (sym (done_lem now t st).1)
        (IsListed-insert st.objects st.fresh t (armed_at later (st.objects t)) st.nodes v alone
          numbered refl refl))

-- `Set` of a timer that is not active and has an id passes its assertions.
pub set_ok :
    (asserts : Bool) (now t : ℕ) (st : Timers)
    → (st.objects t).active ≡ false
    → ((st.objects t).id == 0) ≡ false
    → set asserts now t st ≡ ok (true, done now t st)
unfolding set set_timer set_active
set_ok asserts now t st idle numbered =
    rw
      (
        assert_passes asserts (st.objects t).active assertion idle,
        assert_passes asserts ((st.objects t).id == 0) assertion numbered,
      )
      refl
