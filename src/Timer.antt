-- ===== src/Timer.antt =====
-- src/xma_timer.cpp: `Timer` and `TimerMgr`. A timer is an object with an address, and `timers_` is a
-- list of addresses. `fresh` numbers the nodes of the list, since `CheckTimers` keeps an iterator to a
-- node while `Timeout` may change the list. Time points count
-- the nanoseconds of `high_resolution_clock`, a `Duration` milliseconds.
pub mod Order
pub mod Check
pub mod Wait
pub mod Text
pub mod Arm
pub mod Cycle
pub mod Listed
pub mod Due
pub mod Once
pub mod Punctual
pub mod Changes
pub mod Turns
pub mod Erasing
pub mod Again
pub mod Invariant
use Prim.Native.Nat.{◌/◌}
use cpp_readline.Common.{
  ◌*◌, min, ℕ, ◌+◌, ◌-◌, zero, suc, ◌%◌, ◌^◌, Bool, true, false, if◌then◌else◌, ◌&&◌, ◌||◌, not,
  ◌==◌, ltb, leb, List, [], ◌∷◌, Option, none, some, Result, ok, fault, assertion, out_of_bounds,
  out_of_fuel, ◌>>=◌, ◌>>◌, guard, add_u64,
}

abbrev pub ticks_per_ms : ℕ
ticks_per_ms = 10 ^ 6

pub record Timer : Type 0 where
  pub expire : ℕ
  -- `Status::Actived`
  pub active : Bool
  pub id : ℕ
  pub timepoint : ℕ

pub record Node : Type 0 where
  pub at : ℕ
  pub timer : ℕ

pub record Timers : Type 0 where
  -- `id_` of the manager
  pub last_id : ℕ
  pub fresh : ℕ
  pub nodes : List Node
  pub objects : ℕ → Timer

abbrev pub update : (ℕ → Timer) → ℕ → Timer → ℕ → Timer
update objects t x u = if u == t then x else objects u

abbrev pub put : Timers → ℕ → Timer → Timers
put st t x = record st { objects = update st.objects t x }

-- `Timer(name, c, expire)` at the address `t`, with the `GetId` it calls
unfoldable pub new_timer : ℕ → ℕ → Timers → Timers
new_timer t expire st =
    put (record st { last_id = add_u64 st.last_id 1 }) t
      (record { expire = expire; active = false; id = add_u64 st.last_id 1; timepoint = 0 })

-- `emplace` before the first timer that is due later
pub insert : (ℕ → ℕ) → Node → List Node → List Node
insert due n [] = n ∷ []
insert due n (m ∷ ms) =
    let after = insert due n ms in if ltb (due n.timer) (due m.timer) then n ∷ m ∷ ms else m ∷ after

-- when the timer at an address is due
abbrev pub due_of : (ℕ → Timer) → ℕ → ℕ
due_of objects t = (objects t).timepoint

-- `TimerMgr::SetTimer`
unfoldable pub set_timer : ℕ → Timers → Bool × Timers
unfolding insert
set_timer t st = (
  true,
  record st {
    nodes = insert (due_of st.objects) (record { at = st.fresh; timer = t }) st.nodes;
    fresh = suc st.fresh;
  },
)

-- `erase` of the first timer with this id, where there is one
pub erase_id : (ℕ → Timer) → ℕ → List Node → Bool × List Node
erase_id objects id [] = (false, [])
erase_id objects id (m ∷ ms) =
    let rest = erase_id objects id ms in
    if id == (objects m.timer).id then (true, ms) else (rest.0, m ∷ rest.1)

-- `TimerMgr::StopTimer`
unfoldable pub stop_timer : ℕ → Timers → Bool × Timers
unfolding erase_id
stop_timer t st = if (st.objects t).id == 0 then (false, st) else (
  (erase_id st.objects (st.objects t).id st.nodes).0,
  record st { nodes = (erase_id st.objects (st.objects t).id st.nodes).1 },
)

pub set_active : Bool → ℕ → Bool × Timers → Bool × Timers
set_active b t (true, st) = (true, put st t (record (st.objects t) { active = b }))
set_active b t (false, st) = (false, st)

-- `Timer::Set`, at the time `now`; `asserts` is whether `assert` is compiled in
unfoldable pub set : Bool → ℕ → ℕ → Timers → Result (Bool × Timers)
unfolding set_timer set_active
set asserts now t st = do
  guard (not (asserts && (st.objects t).active)) assertion
  guard (not (asserts && (st.objects t).id == 0)) assertion
  ok (
      set_active true t (
        set_timer t (
          put st t
            (record (st.objects t) { timepoint = now + (st.objects t).expire * ticks_per_ms }))))

-- `Timer::Stop`
unfoldable pub stop : Bool → ℕ → Timers → Result (Bool × Timers)
unfolding stop_timer set_active
stop asserts t st =
    guard (not (asserts && ((st.objects t).id == 0 || not (st.objects t).active))) assertion
    >> ok (set_active false t (stop_timer t st))

-- `Timer::~Timer`: an active timer is stopped; the result of `Stop` is not looked at
unfoldable pub destroy : Bool → ℕ → Timers → Result Timers
unfolding stop
destroy asserts t st = if (st.objects t).active then (stop asserts t st >>= λ r. ok r.1) else ok st

-- `erase(it)`: the list without the node, and the node behind it. A node that is no longer there
-- makes the iterator invalid.
pub first_node : List Node → Option ℕ
first_node [] = none
first_node (n ∷ ns) = some n.at

pub erase : ℕ → List Node → Result (Option ℕ × List Node)
unfolding first_node
erase at [] = fault out_of_bounds
erase at (n ∷ ns) =
    let rest = erase at ns in
    if at == n.at then ok (first_node ns, ns) else (rest >>= λ r. ok (r.0, n ∷ r.1))

pub deref : ℕ → List Node → Result ℕ
deref at [] = fault out_of_bounds
deref at (n ∷ ns) = let rest = deref at ns in if at == n.at then ok n.timer else rest

abbrev pub deactivate : (ℕ → Timer) → ℕ → ℕ → Timer
deactivate objects t = update objects t (record (objects t) { active = false })

-- `timeout` is the virtual `Timeout` of the timer at an address, and `W` what it may change beside the timers.
module _ {W : Type 0} (timeout : ℕ → W → Timers → Result (W × Timers)) where
  -- `Timer::DoHandle(data)`
  unfoldable pub do_handle : ℕ → ℕ → W → Timers → Result (Bool × W × Timers)
  do_handle t data_ptr w st =
      if data_ptr == t
      then (timeout t w (record st { objects = deactivate st.objects t }) >>= λ r.
          ok (true, r.0, r.1))
      else ok (false, w, st)

  -- the body of the loop of `CheckTimers`, and the rest of the loop
  pub fire :
      (Option ℕ → W → Timers → Result (W × Timers)) → ℕ → ℕ → W → Timers → Result (W × Timers)
  unfolding do_handle erase
  fire rest at t w st = do
    (handled, w', st') ← do_handle t t w st
    (it, nodes) ← erase at st'.nodes
    rest it w' (record st' { nodes = nodes })

  -- the loop of `CheckTimers`, on an iterator
  unfoldable pub check_loop : ℕ → ℕ → Option ℕ → W → Timers → Result (W × Timers)
  unfolding fire deref
  check_loop fuel now none w st = ok (w, st)
  check_loop zero now (some at) w st = fault out_of_fuel
  check_loop (suc fuel) now (some at) w st =
      let rest = check_loop fuel now in
      deref at st.nodes >>= λ t.
      if leb (st.objects t).timepoint now then fire rest at t w st else ok (w, st)

  unfoldable pub wait_time : ℕ → Timers → ℕ
  wait_time now st = first_wait st.nodes
    where
      first_wait : List Node → ℕ
      first_wait [] = 0
      first_wait (n ∷ ns) = ((st.objects n.timer).timepoint - now) / ticks_per_ms

  -- `TimerMgr::CheckTimers`: the milliseconds until the next timer is due, or 0 where there is none
  unfoldable pub check_timers : ℕ → ℕ → W → Timers → Result (ℕ × W × Timers)
  unfolding check_loop wait_time first_node
  check_timers fuel now w st =
      check_loop fuel now (first_node st.nodes) w st >>= λ r. ok (wait_time now r.1, r.0, r.1)

-- src/xma_process.cpp: `Process::RestartTimer`
unfoldable pub restart_timer : ℕ → Timers → Bool × Timers
unfolding stop_timer set_timer
restart_timer t st =
    if (stop_timer t st).0 then set_timer t (stop_timer t st).1 else (false, (stop_timer t st).1)

-- The wait of `Process::Main` for its next round, from the milliseconds that `CheckTimers` gave and the
-- wait before. The count is cast to `int`.
unfoldable pub next_timeout : ℕ → ℕ → ℕ
next_timeout wait timeout =
    if leb (2 ^ 31) (wait % 2 ^ 32)
    then 10
    else if min (wait % 2 ^ 32) timeout == 0
    then 10
    else min (wait % 2 ^ 32) timeout
