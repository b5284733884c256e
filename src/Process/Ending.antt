-- ===== src/Process/Ending.antt =====
-- src/xma_process.cpp: the end of a process, `~Process` and `~ProcessService`, with
-- `Service::RemoveListener` of src/xma_service.cpp. An exception in a destructor ends the program; it is a
-- fault here as any other.
use cpp_readline.Common.{
  List, ℕ, Bool, true, false, if◌then◌else◌, ◌==◌, Option, none, some, ◌≡◌, refl, Result, ok, fault,
  exception, ◌>>=◌,
}
use cpp_readline.Sys.{Sys, Fd}
use cpp_readline.Epoll.{EpollListener, Env}
use cpp_readline.Epoll.Life.{delete_listener}
use cpp_readline.Process.{PipeCalls, ProcessService, on_init}
use cpp_readline.Process.Wiring.{PipeLaws, Wired, wired, threw, unwatched, on_init_lem}

module _ (sys : Sys) (calls : PipeCalls sys) where
  -- `Service::RemoveListener`
  pub remove_listener : EpollListener → ProcessService sys calls → Result (ProcessService sys calls)
  remove_listener l svc = fault exception

  -- `msg_writer` as a condition
  not_zero : Fd → Bool
  not_zero (some fd) = if fd == 0 then false else true
  not_zero none = true

  -- `msg_writer`, where memory held `garbage` when nothing had stored it yet
  pub writer_of : Fd → Option ℕ → Fd
  writer_of garbage none = garbage
  writer_of garbage (some fd) = some fd

  -- the first `if` of `~ProcessService`
  pub close_writer : Fd → Env sys → Env sys
  unfolding not_zero
  close_writer fd env = if not_zero fd then record env { kernel = sys.close env.kernel fd } else env

  -- the second `if` of `~ProcessService`
  delete_reader : Option EpollListener → ProcessService sys calls → Env sys → Result (Env sys)
  unfolding remove_listener
  delete_reader none svc env = ok env
  delete_reader (some l) svc env = remove_listener l svc >>= λ svc'. delete_listener sys l env

  -- `~ProcessService`
  pub delete_process_service : Fd → ProcessService sys calls → Env sys → Result (Env sys)
  unfolding close_writer writer_of delete_reader
  delete_process_service garbage svc env =
      delete_reader svc.rdlistener svc (close_writer (writer_of garbage svc.msg_writer) env)

  -- `~Process`, on its `proc_svc_`
  pub delete_process : Fd → Option (ProcessService sys calls) → Env sys → Result (Env sys)
  unfolding delete_process_service
  delete_process garbage none env = ok env
  delete_process garbage (some svc) env = delete_process_service garbage svc env

  module _ (laws : PipeLaws sys calls) where
    thrown :
        {old : List EpollListener} {env : Env sys} {m : Result (ProcessService sys calls × Env sys)}
        (garbage : Fd)
        → Wired sys calls laws old env m
        → (m >>= λ r. delete_process garbage (some r.0) r.1) ≡ fault exception
    unfolding delete_process delete_process_service delete_reader remove_listener
    thrown garbage (wired svc env' reader writer has listeners kept r w count) = rw has refl
    thrown garbage (threw c) = refl
    thrown garbage (unwatched c) = refl

    -- A process that has started its own service, which had no listener, cannot be deleted: `OnInit` of the
    -- service and then `~Process` always throw, whatever memory held and whether or not a call failed.
    pub delete_process-on_init :
        (garbage : Fd) (svc : ProcessService sys calls) (env : Env sys)
        → svc.rdlistener ≡ none
        → (on_init sys calls svc env >>= λ r. delete_process garbage (some r.0) r.1)
          ≡ fault exception
    unfolding delete_process delete_process_service
    delete_process-on_init garbage svc env unset =
        thrown garbage (on_init_lem sys calls laws svc env unset)
