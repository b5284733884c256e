-- ===== src/Client/Ticking.antt =====
-- client/client_service.cpp and src/xma_timer.cpp: the client's timer in the list of its process, and
-- `CheckTimers` where it is due.
use cpp_readline.Common.{
  ==-refl, ==-sym, ℕ, ◌+◌, ◌*◌, ◌≤◌, ◌<◌, ◌≡◌, refl, sym, ap, ◌∙◌, subst, true, false, not,
  if◌then◌else◌, ◌==◌, List, [], length, Result, ok, ◌>>=◌, Returns, returns, Returns-bind,
  Returns-mono, assertion, out_of_bounds, guard_passes, assert_passes,
}
use cpp_readline.Sys.{Sys, SysLaws}
use cpp_readline.Epoll.{Env}
use cpp_readline.Machine.Live.{IsLive}
use cpp_readline.Timer.{Timer, Timers, Node, check_timers, deactivate, due_of, set, ticks_per_ms}
use cpp_readline.Timer.Text.{Tm}
use cpp_readline.Timer.Arm.{IsArmed}
use cpp_readline.Timer.Check.{due_part}
use cpp_readline.Timer.Cycle.{done}
use cpp_readline.Timer.Listed.{IsListed, update-other}
use cpp_readline.Timer.Changes.{set_ok, done_lem, armed_at, update-here}
use cpp_readline.Timer.Turns.{Turn, leaves, sets, called}
use cpp_readline.Timer.Again.{Turns, FiredOnce, check_timers_again}
use cpp_readline.Timer.Once.{Absent, absent-cons, Once, once-here, once-later, Once-due_part}
use cpp_readline.Client.{Client, timeout}
use cpp_readline.Client.Sending.{Offers, send_data_lem}

module _ (sys : Sys) (tm : Tm) (read_at later : ℕ) where
  -- the virtual `Timeout`, where no other timer of the process does anything; the parameters are what the
  -- clock gives in it
  unfoldable pub tick : ℕ → Client × Env sys → Timers → Result ((Client × Env sys) × Timers)
  tick t (c, env) st =
      if t == c.timer
      then (timeout sys tm read_at later c env st >>= λ r. ok ((r.0, r.1), r.2))
      else ok ((c, env), st)

  module _ (laws : SysLaws sys) where
    -- `Timeout` leaves the timers as `Set` does.
    timeout-done :
        (c : Client) (env : Env sys) (st : Timers)
        → IsLive c.socket
        → c.linked ≡ true
        → (st.objects c.timer).active ≡ false
        → ((st.objects c.timer).id == 0) ≡ false
        → Returns
            (λ r. Offers sys laws tm read_at c env (r.0, r.1) × (r.2 ≡ done later c.timer st))
            (timeout sys tm read_at later c env st)
    unfolding timeout
    timeout-done c env st live linked idle numbered =
        rw
          (
            assert_passes sys.asserts (not c.linked) assertion (rw linked refl),
            guard_passes c.linked out_of_bounds linked,
          )
          (Returns-bind _ (send_data_lem sys laws tm read_at c env live) λ r o.
            rw
              (ap (λ t. set sys.asserts later t st) o.same_timer
                ∙ set_ok sys.asserts later c.timer st idle numbered)
              (returns (o, refl)))

    -- While the timers that are due fire: the client's is still to fire, once, and nothing has changed for it,
    -- or it has fired, has offered its message, and is set again.
    data Progress (c : Client) (env : Env sys) (x : Timer)
        : List Node → Client × Env sys → (ℕ → Timer) → Type 0 where
      to_fire :
          {due : List Node} {o : ℕ → Timer}
          → Once c.timer due
          → o c.timer ≡ x
          → Progress c env x due (c, env) o
      has_fired :
          {due : List Node} {r : Client × Env sys} {o : ℕ → Timer}
          → Absent c.timer due
          → Offers sys laws tm read_at c env r
          → (o c.timer).active ≡ true
          → (o c.timer).timepoint ≡ later + x.expire * ticks_per_ms
          → Progress c env x due r o

    module _ (now : ℕ) (in_time : now ≤ later) (c : Client) (env : Env sys) (x : Timer)
        (live : IsLive c.socket) (linked : c.linked ≡ true) (period : 0 < x.expire) where
      -- what is asked of one turn
      Good : Node → List Node → Timers → Result ((Client × Env sys) × Timers) → Type 0
      Good n due st m =
          Returns (λ r. Progress c env x due r.0 r.1.objects × Turn now n.timer (called n st) r.1) m

      own_expire :
          (n : Node) (st : Timers)
          → n.timer ≡ c.timer
          → st.objects c.timer ≡ x
          → ((called n st).objects c.timer).expire ≡ x.expire
      own_expire n st same is =
          subst (λ u. (deactivate st.objects u c.timer).expire ≡ x.expire) (sym same)
            (ap (λ y. y.expire)
                (update-here st.objects c.timer (record (st.objects c.timer) { active = false }))
              ∙ ap (λ y. y.expire) is)

      -- the timer after `Set`
      armed_again :
          (st : Timers) (n : Node)
          → (done later c.timer (called n st)).objects c.timer
            ≡ armed_at
                (later + ((called n st).objects c.timer).expire * ticks_per_ms)
                ((called n st).objects c.timer)
      armed_again st n =
          ap (λ o. o c.timer) (done_lem later c.timer (called n st)).0
          ∙ update-here (called n st).objects c.timer _

      own_turn :
          (n : Node) (due : List Node) (st : Timers)
          → n.timer ≡ c.timer
          → Absent c.timer due
          → st.objects c.timer ≡ x
          → ((called n st).objects c.timer).active ≡ false
          → (((called n st).objects c.timer).id == 0) ≡ false
          → Good n due st
              (timeout sys tm read_at later c env (called n st) >>= λ r. ok ((r.0, r.1), r.2))
      unfolding Good
      own_turn n due st same absent is idle numbered =
          Returns-bind _ (timeout-done c env (called n st) live linked idle numbered) λ r h.
            subst (λ q. Good n due st (ok ((r.0, r.1), q))) (sym h.1)
              (returns (
                has_fired absent h.0 (ap (λ y. y.active) (armed_again st n)) (
                    ap (λ y. y.timepoint) (armed_again st n)
                    ∙ ap (λ e. later + e * ticks_per_ms) (own_expire n st same is)),
                subst (λ t. Turn now t (called n st) (done later c.timer (called n st))) (sym same)
                    (sets sys.asserts true later (done later c.timer (called n st)) in_time
                      (subst (λ e. 0 < e) (sym (own_expire n st same is)) period)
                      (set_ok sys.asserts later c.timer (called n st) idle numbered)),
              ))

      other_turn :
          (n : Node) (st : Timers)
          → (n.timer == c.timer) ≡ false
          → (called n st).objects c.timer ≡ st.objects c.timer
      other_turn n st other =
          update-other st.objects n.timer c.timer (record (st.objects n.timer) { active = false })
            (==-sym n.timer c.timer other)

      tick-Turns : Turns tick (Progress c env x) now
      unfolding tick Good
      tick-Turns n due w st (to_fire (once-here same absent) is) idle numbered =
          rw (subst (λ t. (t == c.timer) ≡ true) (sym same) (==-refl c.timer)) (
            own_turn n due st same absent is
              (subst (λ t. ((called n st).objects t).active ≡ false) same idle)
              (subst (λ t. (((called n st).objects t).id == 0) ≡ false) same numbered))
      tick-Turns n due w st (to_fire (once-later other once) is) idle numbered =
          rw other (returns (to_fire once (other_turn n st other ∙ is), leaves))
      tick-Turns n due (c', env') st (has_fired (absent-cons other absent) o on at) idle numbered =
          rw (subst (λ t. (n.timer == t) ≡ false) (sym o.same_timer) other) (
            returns (
              has_fired absent o (ap (λ y. y.active) (other_turn n st other) ∙ on)
                  (ap (λ y. y.timepoint) (other_turn n st other) ∙ at),
              leaves,
            ))

      -- what is left when all have fired
      Progress-end :
          (r : Client × Env sys) (o : ℕ → Timer)
          → Progress c env x [] r o
          → Offers sys laws tm read_at c env r
            × ((o c.timer).active ≡ true)
            × ((o c.timer).timepoint ≡ later + x.expire * ticks_per_ms)
      Progress-end r o (has_fired absent offers on at) = (offers, on, at)
      Progress-end r o (to_fire once is) = elim once [ ]

    -- `CheckTimers` at `now`, with fuel for more rounds than there are timers, returns for a client whose stream
    -- is live and whose timer points to it, is active and due and has a period, where the list of timers is
    -- in order with distinct ids and has exactly the active timers, and the other timers do nothing. It
    -- called `WriteMsg` on the stream once, with the text of the time, 31 bytes, which took it whole, refused
    -- it or tore it; the
    -- client's timer is armed again, for its period after the time that `Set` read; and all timers of the
    -- list, which is as it should be, are due later than `now`.
    pub check_timers-tick :
        (fuel now : ℕ) (c : Client) (env : Env sys) (st : Timers)
        → IsLive c.socket
        → c.linked ≡ true
        → IsListed st.objects st.nodes
        → (st.objects c.timer).active ≡ true
        → due_of st.objects c.timer ≤ now
        → 0 < (st.objects c.timer).expire
        → now ≤ later
        → length st.nodes < fuel
        → Returns
            (λ r.
              Offers sys laws tm read_at c env r.1
              × IsArmed later (st.objects c.timer).expire c.timer r.2
              × FiredOnce tick now
                  (due_part (due_of st.objects) now st.nodes)
                  (c, env)
                  st
                  (r.1, r.2))
            (check_timers tick fuel now (c, env) st)
    check_timers-tick fuel now c env st live linked v active due period in_time enough =
        let x = st.objects c.timer in
        let once =
          Once-due_part st.objects now 0 c.timer st.nodes v.ordered v.distinct
            (v.listed c.timer active) due in
        Returns-mono
          (check_timers_again tick (Progress c env x) fuel now (c, env) st
            (tick-Turns now in_time c env x live linked period) v (to_fire once refl) enough)
          λ r p.
            let q = Progress-end now in_time c env x live linked period r.1 r.2.objects p.1 in
            (q.0, record { active = q.1; due = q.2; waits = p.0.listed.listed c.timer q.1 }, p.0)
