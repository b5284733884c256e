-- ===== src/Process.antt =====
-- src/xma_process.cpp: `Process::Main` and the start of the process's own service,
-- `ProcessService::OnInit`. `Process::Init` is in Start, the messages in Message, the timers in Timer.
pub mod Rounds
pub mod Start
pub mod Order
pub mod Wiring
pub mod Uses
pub mod Tally
pub mod Ending
pub mod Size
pub mod Punctual
use cpp_readline.Common.{
  ℕ, zero, suc, Bool, true, false, if◌then◌else◌, not, ◌&&◌, List, [], ◌∷◌, ◌++◌, Option, none,
  some, Result, ok, fault, assertion, exception, out_of_fuel, guard, ◌>>=◌, ◌>>◌,
}
use cpp_readline.Sys.{Sys, in_err_hup}
use cpp_readline.Epoll.{EpollListener, Env, new_listener, add, set_events}
use cpp_readline.Timer.{next_timeout}

-- What the main loop calls, on the state `S` of the process: `IsRunning`; `Epoll::Wait` with a number of
-- milliseconds, which gives the listener of each event, or a null pointer, or -1; `CheckTimers`; and
-- `Handle` of a listener, whose result is not looked at.
pub record Host (S : Type 0) : Type 0 where
  pub is_running : S → Bool
  pub wait : S → ℕ → Option (List (Option ℕ)) × S
  pub check_timers : S → Result (ℕ × S)
  pub handle : ℕ → S → Result S

module _ {S : Type 0} (host : Host S) where
  -- the events of one round, in order; a null pointer is passed over
  unfoldable pub handle_events : List (Option ℕ) → S → Result S
  handle_events [] s = ok s
  handle_events (none ∷ events) s = handle_events events s
  handle_events (some l ∷ events) s = let rest = handle_events events in host.handle l s >>= rest

  -- the body of the loop after the wait, and the rest of the loop
  after_wait : (ℕ → S → Result S) → ℕ → Option (List (Option ℕ)) × S → Result S
  unfolding handle_events
  after_wait rest timeout (none, s) = ok s
  after_wait rest timeout (some events, s) = do
    (count, s') ← host.check_timers s
    s'' ← handle_events events s'
    rest (next_timeout count timeout) s''

  -- the loop, with the wait of its next round
  unfoldable pub main_loop : ℕ → ℕ → S → Result S
  unfolding after_wait
  main_loop zero timeout s = fault out_of_fuel
  main_loop (suc fuel) timeout s =
      let rest = main_loop fuel in
      if host.is_running s then after_wait rest timeout (host.wait s timeout) else ok s

  -- `Process::Main`, where `fuel` is more than its rounds
  unfoldable pub process_main : ℕ → S → Result S
  unfolding main_loop
  process_main fuel s = main_loop fuel 10 s

-- `O_NONBLOCK`, and the other flags of an open file
pub record Flags : Type 0 where
  pub nonblock : Bool
  pub others : ℕ

-- pipe(2), with the end to read and the end to write, and fcntl(2) of F_GETFL and F_SETFL; -1 is `none`
-- and false
pub record PipeCalls (sys : Sys) : Type 0 where
  pub pipe : sys.Kernel → Option (ℕ × ℕ) × sys.Kernel
  pub get_flags : sys.Kernel → ℕ → Option Flags × sys.Kernel
  pub set_flags : sys.Kernel → ℕ → Flags → Bool × sys.Kernel

module _ (sys : Sys) (calls : PipeCalls sys) where
  abbrev pub Conveyers : Type 0
  Conveyers = ℕ × ℕ × sys.Kernel

  after_set_flags : ℕ → ℕ → Bool × sys.Kernel → Result Conveyers
  after_set_flags reader writer (true, k) = ok (reader, writer, k)
  after_set_flags reader writer (false, k) = fault exception

  after_get_flags : ℕ → ℕ → Option Flags × sys.Kernel → Result Conveyers
  unfolding after_set_flags
  after_get_flags reader writer (some val, k) =
      after_set_flags reader writer (calls.set_flags k reader (record val { nonblock = true }))
  after_get_flags reader writer (none, k) = fault exception

  after_pipe : Option (ℕ × ℕ) × sys.Kernel → Result Conveyers
  unfolding after_get_flags
  after_pipe (some (reader, writer), k) = after_get_flags reader writer (calls.get_flags k reader)
  after_pipe (none, k) = fault exception

  -- `ProcessService::CreateMsgConveyers`
  pub create_msg_conveyers : sys.Kernel → Result Conveyers
  unfolding after_pipe
  create_msg_conveyers k = after_pipe (calls.pipe k)

  -- `ProcessMsgListener(name, c, fd)`; the result of `SetEvents` is not looked at
  unfoldable pub new_msg_listener : ℕ → Env sys → Result (EpollListener × Env sys)
  unfolding new_listener
  new_msg_listener fd env = do
    (l, env') ← add sys (new_listener (some fd)) env
    r ← set_events sys l in_err_hup env'
    ok (l, r.1)

  -- `ProcessService`: its listener, the end of its pipe that is written to, and `listeners_`
  pub record ProcessService : Type 0 where
    pub rdlistener : Option EpollListener
    pub msg_writer : Option ℕ
    pub listeners : List EpollListener

  -- `Service::AddListener`
  unfoldable pub add_listener : EpollListener → ProcessService → ProcessService
  add_listener l svc = record svc { listeners = svc.listeners ++ (l ∷ []) }

  is_set : Option EpollListener → Bool
  is_set none = false
  is_set (some l) = true

  -- `ProcessService::OnInit`
  unfoldable pub on_init : ProcessService → Env sys → Result (ProcessService × Env sys)
  unfolding create_msg_conveyers new_msg_listener is_set add_listener
  on_init svc env = do
    guard (not (sys.asserts && is_set svc.rdlistener)) assertion
    (reader, writer, k) ← create_msg_conveyers env.kernel
    (l, env') ← new_msg_listener reader (record env { kernel = k })
    ok (add_listener l (record svc { rdlistener = some l; msg_writer = some writer }), env')
