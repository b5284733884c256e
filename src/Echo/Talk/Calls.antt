-- ===== src/Echo/Talk/Calls.antt =====
-- src/xma_socket.cpp and example/server_service.hpp: the calls that `Socket::DoReadWrite` makes on an echo
-- connection, whose receiver is `TcpEchoListener`.
use cpp_readline.Common.{
  ◌≡◌, refl, ℕ, some, true, false, Bool, Result, ok, fault, ◌>>=◌, Bool-cases, inl, inr,
  ok-injective, subst, if◌then◌else◌,
}
use cpp_readline.Sys.{Sys, Events}
use cpp_readline.Epoll.{Env}
use cpp_readline.Socket.{
  Socket, State, created, listening, connecting, connected, full, failed, is_stream_ready, set_err,
  read_fail, write_fail, unknown_event,
}
use cpp_readline.Stream.Tx.{write}
use cpp_readline.Stream.Rx.{Receiver, read}
use cpp_readline.Machine.{
  Virtuals, Handled, returned, reported, has_other, check_other, dispatch, after_write, then_write,
  after_read, do_read_write, do_handle,
}
use cpp_readline.Echo.{EchoListener, Echoed, echo}

module _ (sys : Sys) where
  -- the echo listener as the receiver of a stream, in any state of its counters
  abbrev pub echo_receiver : (now later : ℕ) → EchoListener → Receiver sys
  echo_receiver now later e s env = echo sys now later e s env >>= λ r. ok (r.0, r.2, r.3)

  module _ (ev : Events) where
    -- The part of an event for the writing side: `Write` was called and went well, or there was no EPOLLOUT.
    pub data Wrote (s : Socket) (env : Env sys) : Socket → Env sys → Type 0 where
      wrote :
          {t : Socket} {env' : Env sys}
          → ev.epollout ≡ true
          → write sys s env ≡ ok (true, t, env')
          → Wrote s env t env'
      not_asked : ev.epollout ≡ false → Wrote s env s env

    module _ (now later : ℕ) (e : EchoListener) (s : Socket) (env : Env sys) where
      -- The part of an event for the reading side: the listener was called and kept the connection, or there
      -- was no EPOLLIN.
      pub data Heard : Socket → Env sys → Type 0 where
        heard :
            {e' : EchoListener} {t : Socket} {env' : Env sys}
            → ev.epollin ≡ true
            → echo sys now later e s env ≡ ok (true, e', t, env')
            → Heard t env'
        not_told : ev.epollin ≡ false → Heard s env

      -- How an event ends, with the calls that were made: first the listener, where EPOLLIN is set; then
      -- `Write`, where EPOLLOUT is; then the look at the other bits. The first that fails is reported.
      pub data Finished : Handled sys → Type 0 where
        unread :
            {e' : EchoListener} {t : Socket} {env' : Env sys}
            → ev.epollin ≡ true
            → echo sys now later e s env ≡ ok (false, e', t, env')
            → Finished (reported (set_err t read_fail) env')
        unwritten :
            {t u : Socket} {env₁ env' : Env sys}
            → Heard t env₁
            → ev.epollout ≡ true
            → write sys t env₁ ≡ ok (false, u, env')
            → Finished (reported (set_err u write_fail) env')
        odd :
            {t u : Socket} {env₁ env' : Env sys}
            → Heard t env₁
            → Wrote t env₁ u env'
            → has_other sys ev ≡ true
            → Finished (reported (set_err u unknown_event) env')
        served :
            {t u : Socket} {env₁ env' : Env sys}
            → Heard t env₁
            → Wrote t env₁ u env'
            → has_other sys ev ≡ false
            → Finished (returned true u env')

      check_other-Finished :
          {t u : Socket} {env₁ env' : Env sys}
          → Heard t env₁
          → Wrote t env₁ u env'
          → Finished (check_other sys ev u env')
      unfolding check_other
      check_other-Finished k w = elim (Bool-cases (has_other sys ev)) [
        | inl more ↦ rw more (odd k w more)
        | inr plain ↦ rw plain (served k w plain)
      ]

      written-Finished :
          {t : Socket} {env₁ : Env sys} (m : Result (Bool × Socket × Env sys)) (h : Handled sys)
          → Heard t env₁
          → ev.epollout ≡ true
          → write sys t env₁ ≡ m
          → (m >>= λ r. ok (after_write sys ev r)) ≡ ok h
          → Finished h
      unfolding after_write
      written-Finished (ok (true, u, env')) h k out went is =
          subst Finished (ok-injective is) (check_other-Finished k (wrote out went))
      written-Finished (ok (false, u, env')) h k out went is =
          subst Finished (ok-injective is) (unwritten k out went)
      written-Finished (fault f) h k out went is = cc

      then_write-Finished :
          {t : Socket} {env₁ : Env sys} (h : Handled sys)
          → Heard t env₁
          → then_write sys ev t env₁ ≡ ok h
          → Finished h
      unfolding then_write
      then_write-Finished {t} {env₁} h k is = elim (Bool-cases ev.epollout) [
        | inl out ↦ written-Finished (write sys t env₁) h k out refl (rw (out, if◌then◌else◌) at is)
        | inr no_out ↦
            subst Finished (ok-injective (rw (no_out, if◌then◌else◌) at is))
              (check_other-Finished k (not_asked no_out))
      ]

      read-Finished :
          (m : Result (Echoed sys)) (h : Handled sys)
          → ev.epollin ≡ true
          → echo sys now later e s env ≡ m
          → ((m >>= λ q. ok (q.0, q.2, q.3)) >>= after_read sys ev) ≡ ok h
          → Finished h
      unfolding after_read
      read-Finished (ok (true, e', t, env')) h into went is =
          then_write-Finished h (heard into went) is
      read-Finished (ok (false, e', t, env')) h into went is =
          subst Finished (ok-injective is) (unread into went)
      read-Finished (fault f) h into went is = cc

      do_read_write-Finished :
          (v : Virtuals sys) (h : Handled sys)
          → v.receiver ≡ some (echo_receiver now later e)
          → do_read_write sys v ev s env ≡ ok h
          → Finished h
      unfolding do_read_write read
      do_read_write-Finished v h has is = elim (Bool-cases ev.epollin) [
        | inl into ↦
            read-Finished (echo sys now later e s env) h into refl
              (rw (into, if◌then◌else◌, has) at is)
        | inr no_in ↦ then_write-Finished h (not_told no_in) (rw (no_in, if◌then◌else◌) at is)
      ]

      dispatch-Finished :
          (v : Virtuals sys) (st : State) (h : Handled sys)
          → is_stream_ready st ≡ true
          → (do_read_write sys v ev s env ≡ ok h → Finished h)
          → dispatch sys v st ev s env ≡ ok h
          → Finished h
      unfolding dispatch
      dispatch-Finished v connected h ready k is = k is
      dispatch-Finished v full h ready k is = k is
      dispatch-Finished v created h ready k is = cc
      dispatch-Finished v listening h ready k is = cc
      dispatch-Finished v connecting h ready k is = cc
      dispatch-Finished v failed h ready k is = cc

      -- What `DoHandle` returned on an event of an echo connection that is connected or full is what its
      -- calls gave.
      pub do_handle-Finished :
          (v : Virtuals sys) (h : Handled sys)
          → v.receiver ≡ some (echo_receiver now later e)
          → is_stream_ready s.state ≡ true
          → do_handle sys v ev s env ≡ ok h
          → Finished h
      unfolding do_handle
      do_handle-Finished v h has ready =
          dispatch-Finished v s.state h ready (do_read_write-Finished v h has)
