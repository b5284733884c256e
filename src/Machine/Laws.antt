-- ===== src/Machine/Laws.antt =====
-- `DoHandle` on streams: when it returns, when it calls the container, and when it aborts.
use cpp_readline.Common.{
  ◌≡◌, refl, inl, inr, none, Bool, true, false, Result, ok, fault, assertion, arith, Bool-cases,
  ok-injective, subst, ◌||◌, ap, ◌∙◌, ◌>>=◌, if◌then◌else◌,
}
use cpp_readline.Sys.{Sys, Events}
use cpp_readline.Epoll.{Env}
use cpp_readline.Socket.{
  Socket, State, created, listening, connecting, failed, full, connected, read_fail, write_fail,
  unknown_event, is_stream_ready,
}
use cpp_readline.Stream.Tx.{write, do_write}
use cpp_readline.Stream.Rx.{read, on_read, do_read}
use cpp_readline.Machine.{
  Handled, returned, reported, Virtuals, has_other, dispatch, check_other, after_write, then_write,
  after_read, do_read_write, do_handle,
}

module _ (sys : Sys) where
  -- How `DoReadWrite` can end on the event `ev`: with true where no bit but EPOLLIN and EPOLLOUT is
  -- set, or at the container with the error of the part that failed.
  data Ends (ev : Events) : Handled sys → Type 0 where
    all_done :
        (s : Socket) (env : Env sys) → has_other sys ev ≡ false → Ends ev (returned true s env)
    read_failed :
        (s : Socket) (env : Env sys)
        → ev.epollin ≡ true
        → s.last_err ≡ read_fail
        → Ends ev (reported s env)
    write_failed :
        (s : Socket) (env : Env sys)
        → ev.epollout ≡ true
        → s.last_err ≡ write_fail
        → Ends ev (reported s env)
    odd_event :
        (s : Socket) (env : Env sys)
        → has_other sys ev ≡ true
        → s.last_err ≡ unknown_event
        → Ends ev (reported s env)

  check_other-Ends : (ev : Events) (s : Socket) (env : Env sys) → Ends ev (check_other sys ev s env)
  unfolding check_other
  check_other-Ends ev s env = elim (Bool-cases (has_other sys ev)) [
    | inl odd ↦ rw odd (odd_event _ env odd refl)
    | inr plain ↦ rw plain (all_done s env plain)
  ]

  after_write-Ends :
      (ev : Events) (r : Bool × Socket × Env sys)
      → ev.epollout ≡ true
      → Ends ev (after_write sys ev r)
  unfolding after_write
  after_write-Ends ev (true, s, env) out = check_other-Ends ev s env
  after_write-Ends ev (false, s, env) out = write_failed _ env out refl

  written-Ends :
      (ev : Events) (m : Result (Bool × Socket × Env sys)) (h : Handled sys)
      → ev.epollout ≡ true
      → (m >>= λ r. ok (after_write sys ev r)) ≡ ok h
      → Ends ev h
  written-Ends ev (ok r) h out e = subst (Ends ev) (ok-injective e) (after_write-Ends ev r out)
  written-Ends ev (fault f) h out e = cc

  then_write-Ends :
      (ev : Events) (s : Socket) (env : Env sys) (h : Handled sys)
      → then_write sys ev s env ≡ ok h
      → Ends ev h
  unfolding then_write
  then_write-Ends ev s env h e = elim (Bool-cases ev.epollout) [
    | inl out ↦ written-Ends ev (write sys s env) h out (rw (out, if◌then◌else◌) at e)
    | inr no_out ↦
        subst (Ends ev) (ok-injective (rw (no_out, if◌then◌else◌) at e)) (check_other-Ends ev s env)
  ]

  read-Ends :
      (ev : Events) (m : Result (Bool × Socket × Env sys)) (h : Handled sys)
      → ev.epollin ≡ true
      → (m >>= after_read sys ev) ≡ ok h
      → Ends ev h
  unfolding after_read
  read-Ends ev (ok (true, s, env)) h into e = then_write-Ends ev s env h e
  read-Ends ev (ok (false, s, env)) h into e =
      subst (Ends ev) (ok-injective e) (read_failed _ env into refl)
  read-Ends ev (fault f) h into e = cc

  do_read_write-Ends :
      (v : Virtuals sys) (ev : Events) (s : Socket) (env : Env sys) (h : Handled sys)
      → do_read_write sys v ev s env ≡ ok h
      → Ends ev h
  unfolding do_read_write
  do_read_write-Ends v ev s env h e = elim (Bool-cases ev.epollin) [
    | inl into ↦ read-Ends ev (read sys v.receiver s env) h into (rw (into, if◌then◌else◌) at e)
    | inr no_in ↦ then_write-Ends ev s env h (rw (no_in, if◌then◌else◌) at e)
  ]

  dispatch-Ends :
      (v : Virtuals sys) (st : State) (ev : Events) (s : Socket) (env : Env sys) (h : Handled sys)
      → is_stream_ready st ≡ true
      → dispatch sys v st ev s env ≡ ok h
      → Ends ev h
  unfolding dispatch
  dispatch-Ends v connected ev s env h ready e = do_read_write-Ends v ev s env h e
  dispatch-Ends v full ev s env h ready e = do_read_write-Ends v ev s env h e
  dispatch-Ends v created ev s env h ready e = cc
  dispatch-Ends v listening ev s env h ready e = cc
  dispatch-Ends v connecting ev s env h ready e = cc
  dispatch-Ends v failed ev s env h ready e = cc

  -- An event on a connected or full stream that `DoHandle` survives ends in one of four ways: it
  -- returns true, and then no bit but EPOLLIN and EPOLLOUT was set; or the container is called, with
  -- READ_FAIL after a readable event, with WRITE_FAIL after a writable one, or with UNKNOWN_EVENT
  -- after one with another bit.
  do_handle-Ends :
      (v : Virtuals sys) (ev : Events) (s : Socket) (env : Env sys) (h : Handled sys)
      → is_stream_ready s.state ≡ true
      → do_handle sys v ev s env ≡ ok h
      → Ends ev h
  unfolding do_handle
  do_handle-Ends v ev s env h ready e = dispatch-Ends v s.state ev s env h ready e

  -- with asserts compiled in, `DoWrite` and `DoRead` abort on a full stream
  do_write_full :
      (s : Socket) (env : Env sys)
      → sys.asserts ≡ true
      → s.state ≡ full
      → do_write sys s env ≡ fault assertion
  unfolding do_write
  do_write_full s env asserts st = rw (asserts, st)

  on_read_full :
      (s : Socket) (env : Env sys)
      → sys.asserts ≡ true
      → s.state ≡ full
      → on_read sys s env ≡ fault assertion
  unfolding on_read do_read
  on_read_full s env asserts st = rw (asserts, st)

  write_full :
      (s : Socket) (env : Env sys)
      → sys.asserts ≡ true
      → s.state ≡ full
      → write sys s env ≡ fault assertion
  unfolding write
  write_full s env asserts st = rw (do_write_full s env asserts st) (ground arith)

  -- With asserts compiled in, a full stream with no receiver cannot take a readable or writable
  -- event: the assertion of `DoRead` or `DoWrite` aborts the process.
  pub full_aborts :
      (v : Virtuals sys) (ev : Events) (s : Socket) (env : Env sys)
      → sys.asserts ≡ true
      → s.state ≡ full
      → v.receiver ≡ none
      → (ev.epollin || ev.epollout) ≡ true
      → do_handle sys v ev s env ≡ fault assertion
  unfolding do_handle dispatch do_read_write then_write read
  full_aborts v ev s env asserts st no_receiver ready =
      ap (λ x. dispatch sys v x ev s env) st ∙ elim (Bool-cases ev.epollin) [
        | inl into ↦ simp (into, no_receiver, on_read_full s env asserts st)
        | inr no_in ↦
            simp (
              no_in,
              subst (λ b. (b || ev.epollout) ≡ true) no_in ready,
              write_full s env asserts st,
            )
      ]
