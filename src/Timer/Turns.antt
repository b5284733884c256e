-- ===== src/Timer/Turns.antt =====
-- src/xma_timer.cpp: one timer that fires, where its `Timeout` may set it again.
use cpp_readline.Common.{
  ℕ, ◌+◌, ◌*◌, ◌≤◌, ◌<◌, ◌≡◌, refl, sym, subst, ap, ◌∙◌, Bool, true, false, ltb, ◌==◌, List, ◌∷◌,
  ok, guards_passed, assertion, arith, not, ◌&&◌,
}
use cpp_readline.Timer.{
  Timer, Timers, Node, insert, set, deactivate, update, due_of, ticks_per_ms, set_active, set_timer,
}
use cpp_readline.Timer.Order.{Ascending, asc-cons, NoId}
use cpp_readline.Timer.Check.{due_part}
use cpp_readline.Timer.Due.{
  due_part-same, due_part-insert, AllAfter, AllAfter-same, AllAfter-insert,
}
use cpp_readline.Timer.Cycle.{done}
use cpp_readline.Timer.Listed.{
  IsListed, AllActive, act-cons, IsListed-front, Distinct, dis-cons, SameOn, SameOn-update,
  same-NoId,
}
use cpp_readline.Timer.Changes.{IsListed-insert, done_lem, armed_at, update-here}

-- What a `Timeout` of the timer `t` may do while `CheckTimers` runs, since `now`: leave the timers alone,
-- or `Set` its own timer again, which has a period, at the time `later`.
pub data Turn (now t : ℕ) (st : Timers) : Timers → Type 0 where
  leaves : Turn now t st st
  sets :
      (asserts b : Bool) (later : ℕ) (st' : Timers)
      → now ≤ later
      → 0 < (st.objects t).expire
      → set asserts later t st ≡ ok (b, st')
      → Turn now t st st'

ltb_irrefl : (a : ℕ) → ltb a a ≡ false
ltb_irrefl a = ground arith

set-done :
    (asserts b : Bool) (now t : ℕ) (st st' : Timers)
    → set asserts now t st ≡ ok (b, st')
    → st' ≡ done now t st
unfolding set set_active set_timer
set-done asserts b now t st st' e = sym (
    ap (λ r. r.1)
      (guards_passed (not (asserts && (st.objects t).active))
        (not (asserts && (st.objects t).id == 0)) assertion (true, done now t st) (b, st') e).2)

-- What is left of the list and of the objects when the front node has fired.
pub record Stepped (now : ℕ) (n : Node) (ns : List Node) (st mid : Timers) : Type 0 where
  pub ms : List Node
  pub split : mid.nodes ≡ n ∷ ms
  pub same_due : due_part (due_of mid.objects) now ms ≡ due_part (due_of st.objects) now ns
  pub listed : IsListed mid.objects ms
  pub after : (lo : ℕ) → lo ≤ now → AllAfter lo st.objects ns → AllAfter lo mid.objects ms

-- the state that `Timeout` is called in
abbrev pub called : Node → Timers → Timers
called n st = record st { objects = deactivate st.objects n.timer }

front-NoId :
    {o : ℕ → Timer} {n : Node} {ns : List Node} → Distinct o (n ∷ ns) → NoId o (o n.timer).id ns
front-NoId (dis-cons d ds) = d

front-numbered :
    {o : ℕ → Timer} {n : Node} {ns : List Node}
    → AllActive o (n ∷ ns)
    → ((o n.timer).id == 0) ≡ false
front-numbered (act-cons h g hs) = g

pub front-Ascending :
    {due : ℕ → ℕ} {n : Node} {ns : List Node}
    → Ascending due 0 (n ∷ ns)
    → Ascending due (due n.timer) ns
front-Ascending (asc-cons h a) = a

module _ (now : ℕ) (n : Node) (ns : List Node) (st : Timers) (front : st.nodes ≡ n ∷ ns)
    (v : IsListed st.objects (n ∷ ns)) where
  retired-SameOn : SameOn st.objects (called n st).objects ns
  retired-SameOn =
      SameOn-update st.objects n.timer (record (st.objects n.timer) { active = false }) ns
        (front-NoId v.distinct)

  retired-NoId : NoId (called n st).objects ((called n st).objects n.timer).id ns
  retired-NoId =
      subst (λ x. NoId (called n st).objects x.id ns)
        (sym (update-here st.objects n.timer (record (st.objects n.timer) { active = false })))
        (same-NoId retired-SameOn (front-NoId v.distinct))

  pub retired-idle : ((called n st).objects n.timer).active ≡ false
  retired-idle =
      ap (λ x. x.active)
        (update-here st.objects n.timer (record (st.objects n.timer) { active = false }))

  pub retired-numbered : (((called n st).objects n.timer).id == 0) ≡ false
  retired-numbered =
      ap (λ x. x.id == 0)
        (update-here st.objects n.timer (record (st.objects n.timer) { active = false }))
      ∙ front-numbered v.active

  leaves-Stepped : Stepped now n ns st (called n st)
  leaves-Stepped = record {
    ms = ns;
    split = front;
    same_due = due_part-same st.objects (called n st).objects now ns retired-SameOn;
    listed = IsListed-front st.objects n ns v;
    after = λ lo h. AllAfter-same lo retired-SameOn;
  }

  -- the timer as it was set again, and the objects with it
  again : ℕ → Timer
  again later =
      armed_at (later + ((called n st).objects n.timer).expire * ticks_per_ms)
        ((called n st).objects n.timer)

  abbrev rearmed : ℕ → ℕ → Timer
  rearmed later = update (called n st).objects n.timer (again later)

  again_late :
      (later : ℕ)
      → now ≤ later
      → 0 < ((called n st).objects n.timer).expire
      → now < due_of (rearmed later) n.timer
  unfolding again
  again_late later h period =
      subst (λ x. now < x.timepoint) (sym (update-here (called n st).objects n.timer (again later)))
        (omega (arith, h, period))

  rearmed-SameOn : (later : ℕ) → SameOn (called n st).objects (rearmed later) ns
  rearmed-SameOn later = SameOn-update (called n st).objects n.timer (again later) ns retired-NoId

  rearmed-Stepped :
      (later : ℕ)
      → now ≤ later
      → 0 < ((called n st).objects n.timer).expire
      → Stepped now n ns st (done later n.timer (called n st))
  unfolding again insert
  rearmed-Stepped later h period = record {
    ms = insert (due_of (rearmed later)) new ns;
    split =
        (done_lem later n.timer (called n st)).1
        ∙ ap (insert (due_of (rearmed later)) new) front
        ∙ rw (ltb_irrefl (due_of (rearmed later) n.timer)) refl;
    same_due =
        ap (λ o. due_part (due_of o) now (insert (due_of (rearmed later)) new ns))
          (done_lem later n.timer (called n st)).0
        ∙ due_part-insert (due_of (rearmed later)) now new ns (again_late later h period)
        ∙ due_part-same (called n st).objects (rearmed later) now ns (rearmed-SameOn later)
        ∙ due_part-same st.objects (called n st).objects now ns retired-SameOn;
    listed =
        subst (λ o. IsListed o (insert (due_of (rearmed later)) new ns))
          (sym (done_lem later n.timer (called n st)).0)
          (IsListed-insert (called n st).objects st.fresh n.timer (again later) ns
            (IsListed-front st.objects n ns v) retired-NoId retired-numbered refl refl);
    after = λ lo low hs.
        subst (λ o. AllAfter lo o (insert (due_of (rearmed later)) new ns))
          (sym (done_lem later n.timer (called n st)).0)
          (AllAfter-insert lo (rearmed later) new (omega (arith, low, again_late later h period))
            (AllAfter-same lo (rearmed-SameOn later) (AllAfter-same lo retired-SameOn hs)));
  }
    where
      new : Node
      new = record { at = st.fresh; timer = n.timer }

  pub Turn-Stepped : {st' : Timers} → Turn now n.timer (called n st) st' → Stepped now n ns st st'
  Turn-Stepped leaves = leaves-Stepped
  Turn-Stepped (sets asserts b later st' h period went) =
      subst (Stepped now n ns st) (sym (set-done asserts b later n.timer (called n st) st' went))
        (rearmed-Stepped later h period)
