-- ===== src/Tests/Wires.antt =====
-- A kernel that has the flags of open files and nothing else.
use cpp_readline.Common.{
  [], ==-refl, ==-sym, ℕ, Bool, true, false, if◌then◌else◌, ◌==◌, Option, none, some, ◌≡◌, refl,
  sym, ap, pos, ok, fault, exception, ◌>>=◌, ◌∷◌, inc, dec,
}
use cpp_readline.Sys.{Sys, in_err_hup, SendReply, RecvReply, ConnectReply, SoError}
use cpp_readline.Epoll.{
  EpollListener, Env, new_listener, set_events, add, added, remove, removed, ctl,
}
use cpp_readline.Epoll
use cpp_readline.Epoll.Life.{EpollCreate, new_epoll, after_create}
use cpp_readline.Process.Uses.{World, Uses, unused, used, made, made_msg, started, closed}
use cpp_readline.Process.Ending.{delete_process, delete_process-on_init}
use cpp_readline.Process.Size.{OrCtlFails, IsCounted, Uses-new_epoll}
use cpp_readline.Process.{Flags, PipeCalls, ProcessService, on_init, new_msg_listener}
use cpp_readline.Process.Wiring.{PipeLaws}

abbrev blocking : Flags
blocking = record { nonblock = false; others = 2 }

abbrev files : Sys
files = record {
  Kernel = ℕ → Flags;
  asserts = true;
  garbage = in_err_hup;
  send = λ k fd msg. (SendReply.retry, k);
  recv = λ k fd n. (RecvReply.retry, k);
  epoll_ctl = λ k op fd ev. (true, k);
  close = λ k fd. k;
  socket = λ k. (none, k);
  setsockopt = λ k fd opt. (pos 0, k);
  bind = λ k fd addr port. (false, k);
  listen = λ k fd. (false, k);
  accept = λ k fd. (none, k);
  connect = λ k fd addr port. (ConnectReply.failed, k);
  so_error = λ k fd. (SoError.clear, k);
  getsockname = λ k fd. none;
  getpeername = λ k fd. none;
}

abbrev calls : PipeCalls files
calls = record {
  pipe = λ k. (some (4, 5), λ fd. blocking);
  get_flags = λ k fd. (some (k fd), k);
  set_flags = λ k fd f. (true, λ g. if g == fd then f else k g);
}

differ : Option (ℕ × ℕ) → Bool
differ none = false
differ (some (r, w)) = r == w

abbrev ends : Option (ℕ × ℕ)
ends = some (4, 5)

ends_differ : (r w : ℕ) → ends ≡ some (r, w) → (r == w) ≡ false
unfolding differ
ends_differ r w e = sym (ap differ e)

abbrev flag_laws : PipeLaws files calls
flag_laws = record {
  flags = λ k fd. k fd;
  new_pipe = λ k r w e. (ends_differ r w e, refl);
  getfl = λ k fd g. refl;
  setfl = λ k fd f e. rw (==-refl fd) refl;
  setfl-other = λ k fd g f other. rw (==-sym fd g other) refl;
  flags-ctl = λ k op fd ev g. refl;
}

abbrev new_service : ProcessService files calls
new_service = record { rdlistener = none; msg_writer = none; listeners = [] }

abbrev start : Env files
start = record { kernel = λ fd. blocking; fds = pos 0 }

abbrev epoll_made : EpollCreate files
epoll_made k = (some 3, k)

abbrev started_listener : EpollListener
started_listener = record { fd = some 7; attached = true }

abbrev closed_listener : EpollListener
closed_listener = record { fd = none; attached = true }

-- two listeners, of which one is closed
abbrev used_world : World files calls
used_world =
    (record { fd = some 4; attached = true } ∷ closed_listener ∷ [], record start { fds = pos 1 })

abbrev one_started : Env files
one_started = record start { fds = pos 1 }

uses : Uses files calls ([], start) (ok used_world)
unfolding Epoll.start Epoll.close set_events add added remove removed ctl inc dec new_listener
    new_msg_listener
uses =
    used
      (used
        (used (used unused (made [] start))
          (started [] [] (record { fd = none; attached = false }) start 7))
        (made_msg (started_listener ∷ []) one_started 4))
      (closed (record { fd = some 4; attached = true } ∷ []) [] started_listener
        (record start { fds = pos 2 }))

Uses-new_epoll_example : OrCtlFails files calls (IsCounted files calls) (ok used_world)
unfolding new_epoll after_create
Uses-new_epoll_example =
    Uses-new_epoll files calls epoll_made start.kernel 3 start (ok used_world) refl uses

delete_process-on_init_example :
    (on_init files calls new_service start >>= λ r. delete_process files calls none (some r.0) r.1)
    ≡ fault exception
delete_process-on_init_example =
    delete_process-on_init files calls flag_laws none new_service start refl
