-- ===== src/Epoll/Life.antt =====
-- src/xma_epoll.cpp: the constructor and the destructor of `Epoll`, and the destructor of
-- `EpollListener`. Unregistering a listener in `~Listener` is `remove` of Listener.
use cpp_readline.Common.{ℕ, Option, none, some, pos, Result, ok, fault, exception, ◌>>=◌}
use cpp_readline.Sys.{Sys}
use cpp_readline.Epoll.{EpollListener, Env, close}

module _ (sys : Sys) where
  -- epoll_create1(2) with EPOLL_CLOEXEC: the new descriptor, or -1
  abbrev pub EpollCreate : Type 0
  EpollCreate = sys.Kernel → Option ℕ × sys.Kernel

  unfoldable pub after_create : Option ℕ × sys.Kernel → Result (ℕ × Env sys)
  after_create (some fd, k) = ok (fd, record { kernel = k; fds = pos 0 })
  after_create (none, k) = fault exception

  -- `Epoll()`, with its `epoll_fd_`
  unfoldable pub new_epoll : EpollCreate → sys.Kernel → Result (ℕ × Env sys)
  unfolding after_create
  new_epoll create k = after_create (create k)

  -- `~Epoll`: the kernel that is left
  unfoldable pub delete_epoll : ℕ → Env sys → sys.Kernel
  delete_epoll epoll_fd env = sys.close env.kernel (some epoll_fd)

  -- `~EpollListener`
  unfoldable pub delete_listener : EpollListener → Env sys → Result (Env sys)
  delete_listener l env = close sys l env >>= λ r. ok r.1
