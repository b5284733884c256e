-- ===== src/Machine/Reports.antt =====
-- src/xma_socket.cpp: the events of a stream after which `DoHandle` calls `OnSocketErr`.
use cpp_readline.Common.{
  ◌≡◌, ◌⊎◌, inl, inr, sym, subst, Bool, true, false, Result, ok, fault, Bool-cases, OrFault, fine,
  faulty, OrFault-bind,
}
use cpp_readline.Sys.{Sys, Events}
use cpp_readline.Epoll.{Env}
use cpp_readline.Socket.{Socket, connected, full}
use cpp_readline.Stream.Tx.{write}
use cpp_readline.Stream.Rx.{read}
use cpp_readline.Machine.{
  Virtuals, Handled, reported, do_handle, dispatch, do_read_write, after_read, then_write,
  after_write, check_other, has_other,
}

module _ (sys : Sys) where
  -- `OnSocketErr` was called
  pub data Reports : Handled sys → Type 0 where
    reports : (s : Socket) (env : Env sys) → Reports (reported s env)

  anything : {A : Type 0} (m : Result A) → OrFault (λ _. Unit {0}) m
  anything (ok a) = fine tt
  anything (fault f) = faulty

  module _ (ev : Events) (other : has_other sys ev ≡ true) where
    check_other-Reports : (s : Socket) (env : Env sys) → Reports (check_other sys ev s env)
    unfolding check_other
    check_other-Reports s env = rw other (reports _ env)

    after_write-Reports : (r : Bool × Socket × Env sys) → Reports (after_write sys ev r)
    unfolding after_write
    after_write-Reports (true, s, env) = check_other-Reports s env
    after_write-Reports (false, s, env) = reports _ env

    then_write-Reports : (s : Socket) (env : Env sys) → OrFault Reports (then_write sys ev s env)
    unfolding then_write
    then_write-Reports s env = elim (Bool-cases ev.epollout) [
      | inl out ↦
          rw out (OrFault-bind _ (anything (write sys s env)) λ r _. fine (after_write-Reports r))
      | inr no_out ↦ rw no_out (fine (check_other-Reports s env))
    ]

    after_read-Reports : (r : Bool × Socket × Env sys) → OrFault Reports (after_read sys ev r)
    unfolding after_read
    after_read-Reports (true, s, env) = then_write-Reports s env
    after_read-Reports (false, s, env) = fine (reports _ env)

    do_read_write-Reports :
        (v : Virtuals sys) (s : Socket) (env : Env sys)
        → OrFault Reports (do_read_write sys v ev s env)
    unfolding do_read_write
    do_read_write-Reports v s env = elim (Bool-cases ev.epollin) [
      | inl into ↦
          rw into
            (OrFault-bind _ (anything (read sys v.receiver s env)) λ r _. after_read-Reports r)
      | inr no_in ↦ rw no_in (then_write-Reports s env)
    ]

    -- With any bit but EPOLLIN and EPOLLOUT set, `DoHandle` of a stream calls `OnSocketErr`.
    pub do_handle-Reports :
        (v : Virtuals sys) (s : Socket) (env : Env sys)
        → (s.state ≡ connected) ⊎ (s.state ≡ full)
        → OrFault Reports (do_handle sys v ev s env)
    unfolding do_handle dispatch
    do_handle-Reports v s env (inl e) =
        subst (λ q. OrFault Reports (dispatch sys v q ev s env)) (sym e)
          (do_read_write-Reports v s env)
    do_handle-Reports v s env (inr e) =
        subst (λ q. OrFault Reports (dispatch sys v q ev s env)) (sym e)
          (do_read_write-Reports v s env)
