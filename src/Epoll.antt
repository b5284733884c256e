-- ===== src/Epoll.antt =====
-- src/xma_epoll.cpp: `EpollListener` and `Epoll`. One `Epoll` object serves a thread; its counter
-- stands beside the kernel in `Env`. A listener's `epoll_` is null or that object.
pub mod Laws
pub mod Life
use cpp_readline.Common.{
  ℕ, Option, none, some, Bool, true, false, if◌then◌else◌, ◌&&◌, not, ℤ, inc, dec, pos, Result, ok,
  fault, assertion, exception, ◌>>=◌,
}
use cpp_readline.Sys.{Sys, Fd, Events, CtlOp, ctl_add, ctl_mod, ctl_del}

pub record EpollListener : Type 0 where
  pub fd : Fd
  pub attached : Bool

pub record Env (sys : Sys) : Type 0 where
  pub kernel : sys.Kernel
  pub fds : ℤ

abbrev pub is_open : Fd → Bool
is_open none = false
is_open (some n) = true

-- `EpollListener(name, c, fd)` and `EpollListener(name, c)`
unfoldable pub new_listener : Fd → EpollListener
new_listener fd = record { fd = fd; attached = false }

module _ (sys : Sys) where
  -- `Epoll::Ctl`: true where it returns 0
  unfoldable pub ctl : Env sys → CtlOp → Fd → Option Events → Bool × Env sys
  ctl env op fd events = (reply.0, record env { kernel = reply.1 })
    where
      reply : Bool × sys.Kernel
      reply = sys.epoll_ctl env.kernel op fd events

  -- `Epoll::Add`. The line that clears `ee.events` is commented out in the source.
  unfoldable pub added : EpollListener → Bool × Env sys → Result (EpollListener × Env sys)
  added l (true, env) = ok (record l { attached = true }, record env { fds = inc env.fds })
  added l (false, env) = fault exception

  unfoldable pub add : EpollListener → Env sys → Result (EpollListener × Env sys)
  unfolding added ctl
  add l env = added l (ctl env ctl_add l.fd (some sys.garbage))

  -- `Epoll::Remove`
  unfoldable pub removed : Bool × Env sys → Result (Env sys)
  removed (true, env) = ok (record env { fds = dec env.fds })
  removed (false, env) = fault exception

  unfoldable pub remove : EpollListener → Env sys → Result (Env sys)
  unfolding removed ctl
  remove l env = removed (ctl env ctl_del l.fd none)

  -- `EpollListener::Close`, which leaves `epoll_` as it is
  unfoldable pub close : EpollListener → Env sys → Result (EpollListener × Env sys)
  close l env =
      if is_open l.fd && l.attached
      then (remove l env >>= λ env'.
          ok (record l { fd = none }, record env' { kernel = sys.close env'.kernel l.fd }))
      else ok (l, env)

  -- `EpollListener::Start`
  unfoldable pub start : EpollListener → ℕ → Env sys → Result (Bool × EpollListener × Env sys)
  start l fd env =
      if is_open l.fd
      then ok (false, l, env)
      else (add (record l { fd = some fd }) env >>= λ r. ok (true, r.0, r.1))

  -- `EpollListener::SetEvents`
  unfoldable pub set_events : EpollListener → Events → Env sys → Result (Bool × Env sys)
  unfolding ctl
  set_events l events env =
      if not (is_open l.fd)
      then ok (false, env)
      else if sys.asserts && not l.attached
      then fault assertion
      else if l.attached
      then ok (ctl env ctl_mod l.fd (some events))
      else ok (false, env)
