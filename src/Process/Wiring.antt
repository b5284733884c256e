-- ===== src/Process/Wiring.antt =====
-- src/xma_process.cpp: what `ProcessService::OnInit` sets up.
use cpp_readline.Common.{
  List, [], ◌∷◌, ◌++◌, ℕ, ◌≡◌, refl, ap, ◌∙◌, Bool, true, false, ◌==◌, Option, none, some, Result,
  ok, fault, assertion, exception, ◌>>=◌, inc, assert_passes, Bool-cases, inl, inr, and_false,
}
use cpp_readline.Sys.{Sys, CtlOp, Fd, Events, ctl_add, ctl_mod}
use cpp_readline.Epoll.{EpollListener, Env, new_listener, add, added, ctl, set_events}
use cpp_readline.Epoll.Laws.{CtlFails, not_added}
use cpp_readline.Process.{
  add_listener, Flags, PipeCalls, Conveyers, after_set_flags, after_get_flags, after_pipe,
  create_msg_conveyers, new_msg_listener, ProcessService, is_set, on_init,
}

-- What the calls on pipes are documented to do with the flags of open files.
pub record PipeLaws (sys : Sys) (calls : PipeCalls sys) : Type 0 where
  pub flags : sys.Kernel → ℕ → Flags
  pub new_pipe :
      (k : sys.Kernel) (r w : ℕ)
      → (calls.pipe k).0 ≡ some (r, w)
      → ((r == w) ≡ false) × ((flags (calls.pipe k).1 w).nonblock ≡ false)
  pub getfl : (k : sys.Kernel) (fd g : ℕ) → flags (calls.get_flags k fd).1 g ≡ flags k g
  pub setfl :
      (k : sys.Kernel) (fd : ℕ) (f : Flags)
      → (calls.set_flags k fd f).0 ≡ true
      → flags (calls.set_flags k fd f).1 fd ≡ f
  pub setfl-other :
      (k : sys.Kernel) (fd g : ℕ) (f : Flags)
      → (fd == g) ≡ false
      → flags (calls.set_flags k fd f).1 g ≡ flags k g
  pub flags-ctl :
      (k : sys.Kernel) (op : CtlOp) (fd : Fd) (ev : Option Events) (g : ℕ)
      → flags (sys.epoll_ctl k op fd ev).1 g ≡ flags k g

module _ (sys : Sys) (calls : PipeCalls sys) (laws : PipeLaws sys calls) where
  open laws use {flags, new_pipe, getfl, setfl, setfl-other, flags-ctl}

  -- A pipe whose end to read does not block, and whose end to write does.
  record IsPipe (reader writer : ℕ) (k : sys.Kernel) : Type 0 where
    reads : (flags k reader).nonblock ≡ true
    writes : (flags k writer).nonblock ≡ false

  -- the call that failed while a pipe was set up
  pub data PipeFails : Type 0 where
    no_pipe : (k : sys.Kernel) → (calls.pipe k).0 ≡ none → PipeFails
    no_flags : (k : sys.Kernel) (fd : ℕ) → (calls.get_flags k fd).0 ≡ none → PipeFails
    not_set : (k : sys.Kernel) (fd : ℕ) (f : Flags) → (calls.set_flags k fd f).0 ≡ false → PipeFails

  data Made : Result (Conveyers sys calls) → Type 0 where
    made :
        (reader writer : ℕ) (k : sys.Kernel)
        → IsPipe reader writer k
        → Made (ok (reader, writer, k))
    threw : PipeFails → Made (fault exception)

  after_set_flags-Made :
      (reader writer : ℕ) (r : Bool × sys.Kernel)
      → (r.0 ≡ true → (flags r.1 reader).nonblock ≡ true)
      → (r.0 ≡ false → PipeFails)
      → (flags r.1 writer).nonblock ≡ false
      → Made (after_set_flags sys calls reader writer r)
  unfolding after_set_flags
  after_set_flags-Made reader writer (true, k) set why blocks =
      made reader writer k (record { reads = set refl; writes = blocks })
  after_set_flags-Made reader writer (false, k) set why blocks = threw (why refl)

  after_get_flags-Made :
      (reader writer : ℕ) (r : Option Flags × sys.Kernel)
      → (r.0 ≡ none → PipeFails)
      → (reader == writer) ≡ false
      → (flags r.1 writer).nonblock ≡ false
      → Made (after_get_flags sys calls reader writer r)
  unfolding after_get_flags
  after_get_flags-Made reader writer (none, k) why distinct blocks = threw (why refl)
  after_get_flags-Made reader writer (some val, k) why distinct blocks =
      after_set_flags-Made reader writer (calls.set_flags k reader wanted)
        (λ e. ap (λ f. f.nonblock) (setfl k reader wanted e)) (not_set k reader wanted)
        (ap (λ f. f.nonblock) (setfl-other k reader writer wanted distinct) ∙ blocks)
    where
      wanted : Flags
      wanted = record val { nonblock = true }

  after_pipe-Made :
      (r : Option (ℕ × ℕ) × sys.Kernel)
      → (r.0 ≡ none → PipeFails)
      → ((x y : ℕ) → r.0 ≡ some (x, y) → ((x == y) ≡ false) × ((flags r.1 y).nonblock ≡ false))
      → Made (after_pipe sys calls r)
  unfolding after_pipe
  after_pipe-Made (none, k) why new = threw (why refl)
  after_pipe-Made (some (reader, writer), k) why new =
      after_get_flags-Made reader writer (calls.get_flags k reader) (no_flags k reader)
        (new reader writer refl).0
        (ap (λ f. f.nonblock) (getfl k reader writer) ∙ (new reader writer refl).1)

  create_msg_conveyers-Made : (k : sys.Kernel) → Made (create_msg_conveyers sys calls k)
  unfolding create_msg_conveyers
  create_msg_conveyers-Made k = after_pipe-Made (calls.pipe k) (no_pipe k) (new_pipe k)

  -- How the start of the process's service ends: its listener has an end of a pipe to read from that does
  -- not block, and is registered; the end to write to blocks. Or a system call fails.
  pub data Wired (old : List EpollListener) (env : Env sys)
      : Result (ProcessService sys calls × Env sys) → Type 0 where
    wired :
        (svc : ProcessService sys calls) (env' : Env sys) (reader writer : ℕ)
        → svc.rdlistener ≡ some (record { fd = some reader; attached = true })
        → svc.listeners ≡ old ++ (record { fd = some reader; attached = true } ∷ [])
        → svc.msg_writer ≡ some writer
        → (flags env'.kernel reader).nonblock ≡ true
        → (flags env'.kernel writer).nonblock ≡ false
        → env'.fds ≡ inc env.fds
        → Wired old env (ok (svc, env'))
    threw : PipeFails → Wired old env (fault exception)
    unwatched : CtlFails sys → Wired old env (fault exception)

  listen-Wired :
      (svc : ProcessService sys calls) (reader writer : ℕ) (env env' : Env sys)
      → IsPipe reader writer env'.kernel
      → env'.fds ≡ env.fds
      → Wired svc.listeners env (
          new_msg_listener sys calls reader env' >>= λ r. ok (
            add_listener sys calls r.0
                (record svc { rdlistener = some r.0; msg_writer = some writer }),
            r.1,
          ))
  unfolding new_msg_listener new_listener add added ctl set_events add_listener
  listen-Wired svc reader writer env env' p count =
      elim (Bool-cases (sys.epoll_ctl env'.kernel ctl_add (some reader) (some sys.garbage)).0) [
        | inr bad ↦ rw bad (unwatched (not_added _ _ bad))
        | inl went ↦
            rw (went, and_false sys.asserts)
              (wired _ _ reader writer refl refl refl
                (ap (λ f. f.nonblock)
                    (flags-ctl _ ctl_mod _ _ reader ∙ flags-ctl _ ctl_add _ _ reader)
                  ∙ p.reads)
                (ap (λ f. f.nonblock)
                    (flags-ctl _ ctl_mod _ _ writer ∙ flags-ctl _ ctl_add _ _ writer)
                  ∙ p.writes)
                (ap inc count))
      ]

  Made-Wired :
      (svc : ProcessService sys calls) (env : Env sys) {m : Result (Conveyers sys calls)}
      → Made m
      → Wired svc.listeners env (
          m >>= λ c. new_msg_listener sys calls c.0 (record env { kernel = c.2 }) >>= λ r. ok (
            add_listener sys calls r.0
                (record svc { rdlistener = some r.0; msg_writer = some c.1 }),
            r.1,
          ))
  Made-Wired svc env (made reader writer k p) =
      listen-Wired svc reader writer env (record env { kernel = k }) p refl
  Made-Wired svc env (threw c) = threw c

  pub on_init_lem :
      (svc : ProcessService sys calls) (env : Env sys)
      → svc.rdlistener ≡ none
      → Wired svc.listeners env (on_init sys calls svc env)
  unfolding on_init is_set
  on_init_lem svc env unset =
      rw (assert_passes sys.asserts (is_set sys calls svc.rdlistener) assertion (rw unset refl))
        (Made-Wired svc env (create_msg_conveyers-Made env.kernel))
