-- ===== src/Threads.antt =====
-- src/xma_thread.cpp and src/xma_application.cpp: the life of a thread and what `ThreadMgr::Run`,
-- `Application::Run` and `Application::Exit` do to the threads. Each thread is where its `DoRun` stands;
-- the threads and the shell's thread take steps in any order. `Main` is a step of its thread: it returns,
-- and what it does to other state is not part of this module.
pub mod Stopping
use cpp_readline.Common.{ℕ, zero, suc, Bool, true, false, List, [], ◌∷◌}

-- Thread::State
pub data State : Type 0 where
  stopped running sleeping : State

-- Where `DoRun` of a thread stands: not called, called by a `std::thread` that `Run` made, in its loop, or
-- returned.
pub data Stand : Type 0 where
  unborn called looping returned : Stand

pub record Thread : Type 0 where
  pub stand : Stand
  pub state : State
  pub is_running : Bool

-- `Thread(name, lcore)`; the registration is `register` of Message
abbrev pub new_thread : Thread
new_thread = record { stand = unborn; state = stopped; is_running = true }

-- `Thread::Run`
unfoldable pub run_thread : Thread → Thread
run_thread t = record t { stand = called }

-- `Thread::Stop`
unfoldable pub stop_thread : Thread → Thread
stop_thread t = record t { is_running = false }

-- `ThreadMgr::Run`, after `OnCreate` of each thread, which is virtual
unfoldable pub run_all : List Thread → List Thread
unfolding run_thread
run_all [] = []
run_all (t ∷ ts) = run_thread t ∷ run_all ts

-- `ThreadMgr::Exit`, which is `Application::Exit`
unfoldable pub stop_all : List Thread → List Thread
unfolding stop_thread
stop_all [] = []
stop_all (t ∷ ts) = stop_thread t ∷ stop_all ts

-- `DoRun` up to its loop
unfoldable pub enter_loop : Thread → Thread
enter_loop t = record t { stand = looping; state = running }

-- `DoRun` after its loop
unfoldable pub leave_loop : Thread → Thread
leave_loop t = record t { stand = returned; state = stopped }

-- A step of a thread's own `DoRun`.
pub data Step : Thread → Thread → Type 0 where
  enters :
      (t : Thread) → Step (record t { stand = called }) (enter_loop (record t { stand = called }))
  rounds :
      (t : Thread)
      → Step
          (record t { stand = looping; is_running = true })
          (record t { stand = looping; is_running = true })
  leaves :
      (t : Thread)
      → Step
          (record t { stand = looping; is_running = false })
          (leave_loop (record t { stand = looping; is_running = false }))

-- A step of one thread of a list.
pub data Moves : List Thread → List Thread → Type 0 where
  moves-here : {t u : Thread} {ts : List Thread} → Step t u → Moves (t ∷ ts) (u ∷ ts)
  moves-later : {t : Thread} {ts us : List Thread} → Moves ts us → Moves (t ∷ ts) (t ∷ us)

-- Steps of the threads, counted.
pub data Steps : ℕ → List Thread → List Thread → Type 0 where
  no_step : {ts : List Thread} → Steps zero ts ts
  a_step : {n : ℕ} {ts us vs : List Thread} → Moves ts us → Steps n us vs → Steps (suc n) ts vs

-- `Application::Run`: the threads are run, take steps while the shell reads its commands, and are told
-- to stop. The shell is `run` of Shell; no command changes where a thread stands.
pub data ApplicationRun (ts : List Thread) : List Thread → Type 0 where
  application_run :
      {n : ℕ} {us : List Thread} → Steps n (run_all ts) us → ApplicationRun ts (stop_all us)
