-- ===== src/Process/Uses.antt =====
-- src/xma_epoll.cpp and src/xma_process.cpp: an `Epoll` object and the listeners of its thread, as a
-- system that takes the steps of `EpollListener` and of `ProcessMsgListener` in any order, with other
-- system calls between them.
use cpp_readline.Common.{ℕ, none, List, ◌∷◌, ◌++◌, Result, ok, ◌>>=◌}
use cpp_readline.Sys.{Sys, Events}
use cpp_readline.Epoll.{EpollListener, Env, new_listener, close, start, set_events}
use cpp_readline.Epoll.Life.{delete_listener}
use cpp_readline.Process.{PipeCalls, new_msg_listener}

module _ (sys : Sys) (calls : PipeCalls sys) where
  -- the listeners that are alive, and the epoll object with the kernel
  abbrev pub World : Type 0
  World = List EpollListener × Env sys

  -- One call. A listener in the middle of the list is the one that it is called on.
  pub data Step : World → Result World → Type 0 where
    -- `EpollListener(name, c)`
    made :
        (ls : List EpollListener) (env : Env sys)
        → Step (ls, env) (ok (new_listener none ∷ ls, env))
    -- `ProcessMsgListener(name, c, fd)`
    made_msg :
        (ls : List EpollListener) (env : Env sys) (fd : ℕ)
        → Step (ls, env) (new_msg_listener sys calls fd env >>= λ r. ok (r.0 ∷ ls, r.1))
    started :
        (front back : List EpollListener) (l : EpollListener) (env : Env sys) (fd : ℕ)
        → Step
            (front ++ (l ∷ back), env)
            (start sys l fd env >>= λ r. ok (front ++ (r.1 ∷ back), r.2))
    events_set :
        (front back : List EpollListener) (l : EpollListener) (env : Env sys) (events : Events)
        → Step
            (front ++ (l ∷ back), env)
            (set_events sys l events env >>= λ r. ok (front ++ (l ∷ back), r.1))
    closed :
        (front back : List EpollListener) (l : EpollListener) (env : Env sys)
        → Step (front ++ (l ∷ back), env) (close sys l env >>= λ r. ok (front ++ (r.0 ∷ back), r.1))
    deleted :
        (front back : List EpollListener) (l : EpollListener) (env : Env sys)
        → Step
            (front ++ (l ∷ back), env)
            (delete_listener sys l env >>= λ env'. ok (front ++ back, env'))
    -- anything else that the process asks of the kernel
    other :
        (ls : List EpollListener) (env : Env sys) (k : sys.Kernel)
        → Step (ls, env) (ok (ls, record env { kernel = k }))

  -- What steps from a state lead to.
  pub data Uses (w : World) : Result World → Type 0 where
    unused : Uses w (ok w)
    used : {w' : World} {r : Result World} → Uses w (ok w') → Step w' r → Uses w r
