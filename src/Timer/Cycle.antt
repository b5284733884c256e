-- ===== src/Timer/Cycle.antt =====
-- src/xma_timer.cpp: a timer that is set and then destroyed.
use cpp_readline.Common.{
  subst, ==-refl, ==→≡, ℕ, ◌+◌, ◌*◌, ◌≡◌, refl, sym, ap, ◌∙◌, Bool, true, false, ◌||◌, ◌==◌, List,
  [], ◌∷◌, Bool-cases, inl, inr, Returns, returns, ◌>>=◌, assertion, assert_passes,
}
use cpp_readline.Timer.{
  Timer, Timers, Node, set_timer, set, set_active, stop_timer, stop, destroy, erase_id, update, put,
  due_of, ticks_per_ms,
}
use cpp_readline.Timer.Order.{NoId, no-nil, no-cons, erase_id-insert}

NoId-ids :
    (o p : ℕ → Timer) (id : ℕ) (ns : List Node)
    → ((u : ℕ) → (p u).id ≡ (o u).id)
    → NoId o id ns
    → NoId p id ns
NoId-ids o p id [] same no-nil = no-nil
NoId-ids o p id (n ∷ ns) same (no-cons other others) =
    no-cons (ap (λ i. id == i) (same n.timer) ∙ other) (NoId-ids o p id ns same others)

update-id :
    (o : ℕ → Timer) (t : ℕ) (x : Timer) (u : ℕ) → x.id ≡ (o t).id → (update o t x u).id ≡ (o u).id
update-id o t x u same = elim (Bool-cases (u == t)) [
  | inl hit ↦ rw hit (same ∙ sym (ap (λ v. (o v).id) (==→≡ u t hit)))
  | inr miss ↦ rw miss refl
]

-- the timer as `Set` leaves it before it is put into the list, and after
abbrev pub timed : ℕ → ℕ → Timers → Timers
timed now t st =
    put st t (record (st.objects t) { timepoint = now + (st.objects t).expire * ticks_per_ms })

abbrev pub done : ℕ → ℕ → Timers → Timers
done now t st = (set_active true t (set_timer t (timed now t st))).1

-- what the two calls leave of the list
pub record IsBack (old : List Node) (t : ℕ) (st : Timers) : Type 0 where
  pub nodes : st.nodes ≡ old
  pub idle : (st.objects t).active ≡ false

done-ids : (now t : ℕ) (st : Timers) (u : ℕ) → ((done now t st).objects u).id ≡ (st.objects u).id
unfolding set_timer set_active
done-ids now t st u =
    update-id (timed now t st).objects t (record ((timed now t st).objects t) { active = true }) u
      refl
    ∙ update-id st.objects t
        (record (st.objects t) { timepoint = now + (st.objects t).expire * ticks_per_ms }) u refl

done-erase :
    (now t : ℕ) (st : Timers)
    → NoId st.objects (st.objects t).id st.nodes
    → erase_id (done now t st).objects ((done now t st).objects t).id (done now t st).nodes
      ≡ (true, st.nodes)
unfolding set_timer set_active
done-erase now t st alone =
    erase_id-insert (done now t st).objects (due_of (timed now t st).objects)
      (record { at = st.fresh; timer = t }) st.nodes
      (NoId-ids st.objects (done now t st).objects ((done now t st).objects t).id st.nodes
        (done-ids now t st)
        (subst (λ i. NoId st.objects i st.nodes) (sym (done-ids now t st t)) alone))

stop_timer_lem :
    (t : ℕ) (st : Timers) (old : List Node)
    → ((st.objects t).id == 0) ≡ false
    → erase_id st.objects (st.objects t).id st.nodes ≡ (true, old)
    → stop_timer t st ≡ (true, record st { nodes = old })
unfolding stop_timer
stop_timer_lem t st old numbered erased = rw (numbered, erased) refl

destroy_active :
    (asserts : Bool) (t : ℕ) (st : Timers) (old : List Node)
    → (st.objects t).active ≡ true
    → ((st.objects t).id == 0) ≡ false
    → erase_id st.objects (st.objects t).id st.nodes ≡ (true, old)
    → Returns (IsBack old t) (destroy asserts t st)
unfolding destroy stop set_active
destroy_active asserts t st old active numbered erased =
    rw
      (
        active,
        assert_passes asserts ((st.objects t).id == 0 || false) assertion (rw numbered refl),
        stop_timer_lem t st old numbered erased,
      )
      (returns (record { nodes = refl; idle = rw (==-refl t) refl }))

done-active : (now t : ℕ) (st : Timers) → ((done now t st).objects t).active ≡ true
unfolding set_timer set_active
done-active now t st = rw (==-refl t) refl

-- A timer that has an id, which no timer of the list has, and that is not active: `Set` and then its
-- destructor return, leave the list as it was, and the timer is not active.
pub destroy-set :
    (asserts : Bool) (now t : ℕ) (st : Timers)
    → (st.objects t).active ≡ false
    → ((st.objects t).id == 0) ≡ false
    → NoId st.objects (st.objects t).id st.nodes
    → Returns (IsBack st.nodes t) (set asserts now t st >>= λ r. destroy asserts t r.1)
unfolding set
destroy-set asserts now t st idle numbered alone =
    rw
      (
        assert_passes asserts (st.objects t).active assertion idle,
        assert_passes asserts ((st.objects t).id == 0) assertion numbered,
      )
      (destroy_active asserts t (done now t st) st.nodes (done-active now t st)
        (ap (λ i. i == 0) (done-ids now t st t) ∙ numbered) (done-erase now t st alone))
