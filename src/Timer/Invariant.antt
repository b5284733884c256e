-- ===== src/Timer/Invariant.antt =====
-- src/xma_timer.cpp: the invariant of `TimerMgr` over all that changes its timers.
use cpp_readline.Common.{
  ==→≡, ℕ, ◌≡◌, refl, sym, ap, ◌∙◌, subst, Bool, true, false, not, ◌||◌, ◌==◌, ◌<◌, List, [], ◌∷◌,
  length, Result, ok, fault, assertion, ok-injective, guards_passed, guard, if◌then◌else◌, ◌⊎◌,
  ◌>>=◌, ◌>>◌, Bool-cases, inl, inr, Returns, returns,
}
use cpp_readline.Timer.{
  Timer, Timers, Node, set, stop, destroy, check_timers, new_timer, stop_timer, set_active, update,
  put, erase_id, due_of,
}
use cpp_readline.Timer.Check.{due_part}
use cpp_readline.Timer.Order.{NoId}
use cpp_readline.Timer.Cycle.{done}
use cpp_readline.Timer.Listed.{
  IsListed, AllActive, act-nil, act-cons, SameOn, same-nil, same-cons, changed-listed,
  same-Ascending, same-Distinct, same-AllActive, update-other,
}
use cpp_readline.Timer.Changes.{done-IsListed}
use cpp_readline.Timer.Erasing.{IsListed-erase, erase_id-found}
use cpp_readline.Timer.Again.{Turns, FiredOnce, check_timers_again}

-- What changes the timers of a process, where `assert` is compiled in: a timer is made at an address that
-- is not one of an active timer, set with an id that no timer of the list has, stopped or destroyed, or
-- `CheckTimers` runs.
pub data Change (st : Timers) : Timers → Type 1 where
  was_made : (t expire : ℕ) → (st.objects t).active ≡ false → Change st (new_timer t expire st)
  was_set :
      (now t : ℕ) (b : Bool) (st' : Timers)
      → NoId st.objects (st.objects t).id st.nodes
      → set true now t st ≡ ok (b, st')
      → Change st st'
  was_stopped : (t : ℕ) (b : Bool) (st' : Timers) → stop true t st ≡ ok (b, st') → Change st st'
  was_destroyed : (t : ℕ) (st' : Timers) → destroy true t st ≡ ok st' → Change st st'
  were_checked :
      {W : Type 0} (timeout : ℕ → W → Timers → Result (W × Timers))
      (P : List Node → W → (ℕ → Timer) → Type 0) (fuel now wait : ℕ) (w w' : W) (st' : Timers)
      → Turns timeout P now
      → P (due_part (due_of st.objects) now st.nodes) w st.objects
      → length st.nodes < fuel
      → check_timers timeout fuel now w st ≡ ok (wait, w', st')
      → Change st st'

-- Any number of changes, one after the other.
pub data Changes : Timers → Timers → Type 1 where
  no_change : {st : Timers} → Changes st st
  a_change : {st mid st' : Timers} → Change st mid → Changes mid st' → Changes st st'

not-false : {b : Bool} → not b ≡ true → b ≡ false
not-false {b = true} e = cc
not-false {b = false} e = refl

set-IsListed :
    (now t : ℕ) (b : Bool) (st st' : Timers)
    → IsListed st.objects st.nodes
    → NoId st.objects (st.objects t).id st.nodes
    → set true now t st ≡ ok (b, st')
    → IsListed st'.objects st'.nodes
unfolding set
set-IsListed now t b st st' v alone e =
    let p =
      guards_passed (not (st.objects t).active) (not ((st.objects t).id == 0)) assertion
        (true, done now t st) (b, st') e in
    subst (λ s. IsListed s.objects s.nodes) (ap (λ r. r.1) p.2)
      (done-IsListed now t st v alone (not-false p.1))

stop_done :
    (t : ℕ) (st : Timers)
    → IsListed st.objects st.nodes
    → (st.objects t).active ≡ true
    → ((st.objects t).id == 0) ≡ false
    → set_active false t (stop_timer t st) ≡ (
      true,
      put
          (record st { nodes = (erase_id st.objects (st.objects t).id st.nodes).1 })
          t
          (record (st.objects t) { active = false }),
    )
unfolding set_active stop_timer
stop_done t st v on numbered =
    rw (numbered, erase_id-found st.objects t st.nodes (v.listed t on)) refl

or-false : (a b : Bool) → not (a || not b) ≡ true → (a ≡ false) × (b ≡ true)
or-false true b e = cc
or-false false true e = (refl, refl)
or-false false false e = cc

one_guard :
    {A : Type 0} (g : Bool) (r x : A) → (guard g assertion >> ok r) ≡ ok x → (g ≡ true) × (r ≡ x)
one_guard true r x e = (refl, ok-injective e)
one_guard false r x e = cc

stop-IsListed :
    (t : ℕ) (b : Bool) (st st' : Timers)
    → IsListed st.objects st.nodes
    → stop true t st ≡ ok (b, st')
    → IsListed st'.objects st'.nodes
unfolding stop
stop-IsListed t b st st' v e =
    let p =
      one_guard (not ((st.objects t).id == 0 || not (st.objects t).active))
        (set_active false t (stop_timer t st)) (b, st') e in
    let q = or-false ((st.objects t).id == 0) (st.objects t).active p.0 in
    subst (λ s. IsListed s.objects s.nodes) (ap (λ r. r.1) (sym (stop_done t st v q.1 q.0) ∙ p.1))
      (IsListed-erase st.objects t st.nodes v q.1)

is_first : Result (Bool × Timers) → Bool
is_first (ok r) = r.0
is_first (fault f) = false

bound_stop :
    (m : Result (Bool × Timers)) (st' : Timers)
    → (m >>= λ r. ok r.1) ≡ ok st'
    → m ≡ ok (is_first m, st')
unfolding is_first
bound_stop (ok r) st' e = ap (λ s. ok (r.0, s)) (ok-injective e)
bound_stop (fault f) st' e = cc

if-cases :
    {A : Type 0} (b : Bool) (x y r : A)
    → (if b then x else y) ≡ r
    → ((b ≡ true) × (x ≡ r)) ⊎ ((b ≡ false) × (y ≡ r))
if-cases true x y r e = inl (refl, e)
if-cases false x y r e = inr (refl, e)

destroy-IsListed :
    (t : ℕ) (st st' : Timers)
    → IsListed st.objects st.nodes
    → destroy true t st ≡ ok st'
    → IsListed st'.objects st'.nodes
unfolding destroy
destroy-IsListed t st st' v e =
    elim (if-cases (st.objects t).active (stop true t st >>= λ r. ok r.1) (ok st) (ok st') e) [
      | inl (on, went) ↦ stop-IsListed t _ st st' v (bound_stop (stop true t st) st' went)
      | inr (off, went) ↦ subst (λ s. IsListed s.objects s.nodes) (ok-injective went) v
    ]

idle-SameOn :
    (o : ℕ → Timer) (t : ℕ) (x : Timer) (ns : List Node)
    → (o t).active ≡ false
    → AllActive o ns
    → SameOn o (update o t x) ns
idle-SameOn o t x [] idle act-nil = same-nil
idle-SameOn o t x (n ∷ ns) idle (act-cons h g hs) =
    same-cons (update-other o t n.timer x (apart h)) (idle-SameOn o t x ns idle hs)
  where
    apart : (o n.timer).active ≡ true → (n.timer == t) ≡ false
    apart on = elim (Bool-cases (n.timer == t)) [
      | inr miss ↦ miss
      | inl hit ↦ absurd-on (sym on ∙ ap (λ u. (o u).active) (==→≡ n.timer t hit) ∙ idle)
    ]
      where
        absurd-on : true ≡ false → (n.timer == t) ≡ false
        absurd-on f = cc

new_timer-IsListed :
    (t expire : ℕ) (st : Timers)
    → IsListed st.objects st.nodes
    → (st.objects t).active ≡ false
    → IsListed (new_timer t expire st).objects (new_timer t expire st).nodes
unfolding new_timer
new_timer-IsListed t expire st v idle =
    let same = idle-SameOn st.objects t _ st.nodes idle v.active in
    record {
      ordered = same-Ascending 0 st.nodes same v.ordered;
      distinct = same-Distinct same v.distinct;
      active = same-AllActive same v.active;
      listed = changed-listed st.objects t _ st.nodes (λ u other on. v.listed u on) refl;
    }

check-IsListed :
    {W : Type 0} {timeout : ℕ → W → Timers → Result (W × Timers)} {now : ℕ} {due : List Node}
    {w w' : W} {st : Timers} {wait : ℕ} {st' : Timers} (P : W → (ℕ → Timer) → Type 0)
    (m : Result (ℕ × W × Timers))
    → Returns (λ r. FiredOnce timeout now due w st (r.1, r.2) × P r.1 r.2.objects) m
    → m ≡ ok (wait, w', st')
    → IsListed st'.objects st'.nodes
check-IsListed P m (returns c) e =
    subst (λ r. IsListed r.2.objects r.2.nodes) (ok-injective e) c.0.listed

Change-IsListed :
    {st st' : Timers}
    → Change st st'
    → IsListed st.objects st.nodes
    → IsListed st'.objects st'.nodes
Change-IsListed {st = st} (was_made t expire idle) v = new_timer-IsListed t expire st v idle
Change-IsListed {st = st} (was_set now t b st' alone e) v = set-IsListed now t b st st' v alone e
Change-IsListed {st = st} (was_stopped t b st' e) v = stop-IsListed t b st st' v e
Change-IsListed {st = st} (was_destroyed t st' e) v = destroy-IsListed t st st' v e
Change-IsListed {st = st} (were_checked timeout P fuel now wait w w' st' turns holds enough e) v =
    check-IsListed (P []) (check_timers timeout fuel now w st)
      (check_timers_again timeout P fuel now w st turns v holds enough) e

-- Whatever sequence of timers made, `Set`, `Stop`, timers destroyed and `CheckTimers` returns, where `assert`
-- is compiled in, no timer is set while another with its id is in the list, and each `Timeout` returns and leaves the
-- timers alone or sets its own timer again by a period that is not 0: the list of `TimerMgr` is in the order
-- in which the timers are due, no two of them have the same id, and it has exactly the active timers, if
-- that was so before.
pub Changes-IsListed :
    {st st' : Timers}
    → Changes st st'
    → IsListed st.objects st.nodes
    → IsListed st'.objects st'.nodes
Changes-IsListed no_change v = v
Changes-IsListed (a_change c cs) v = Changes-IsListed cs (Change-IsListed c v)
