-- ===== src/Echo/Talk/Handle.antt =====
-- src/xma_socket.cpp and example/server_service.hpp: `Socket::DoHandle` on an echo connection, whose receiver
-- is `TcpEchoListener`.
use cpp_readline.Common.{
  ◌≡◌, refl, ℕ, some, true, Result, ok, fault, exception, assertion, out_of_bounds, int_overflow,
  out_of_fuel, ◌>>=◌, Bool-cases, inl, inr, List,
}
use cpp_readline.Sys.{Sys, SysLaws, Events}
use cpp_readline.Epoll.{Env}
use cpp_readline.Epoll.Laws.{CtlFails}
use cpp_readline.Socket.{
  Socket, State, created, listening, connecting, connected, full, failed, is_stream_ready,
}
use cpp_readline.Stream.Tx.{write}
use cpp_readline.Stream.Tx.Direct.{IsOpen}
use cpp_readline.Stream.Rx.{read}
use cpp_readline.Machine.{
  Virtuals, Handled, dispatch, after_write, then_write, after_read, do_read_write, do_handle,
}
use cpp_readline.Echo.Talk.Calls.{echo_receiver, Finished, do_handle-Finished}
use cpp_readline.Echo.{EchoListener, Echoed}
use cpp_readline.Echo.Talk.{
  readable, writable, turn, ServeEnd, serving, unwritten, gone, thrown, aborted, Turn,
}
use cpp_readline.Echo.Talk.Turns.{turn_lem}

module _ (sys : Sys) (laws : SysLaws sys) where
  -- The code returns, or throws where a call of epoll_ctl(2) fails, or breaks an assertion that is compiled in.
  data Survives {A : Type 0} : Result A → Type 0 where
    returned : {a : A} → Survives (ok a)
    threw : CtlFails sys → Survives (fault exception)
    broke : sys.asserts ≡ true → Survives (fault assertion)

  Survives-map :
      {A B C : Type 0} (m : Result A) (f : A → B) (g : A → C)
      → Survives (m >>= λ a. ok (f a))
      → Survives (m >>= λ a. ok (g a))
  Survives-map (ok a) f g h = returned
  Survives-map (fault exception) f g (threw c) = threw c
  Survives-map (fault assertion) f g (broke on) = broke on
  Survives-map (fault out_of_bounds) f g h = elim h [ ]
  Survives-map (fault int_overflow) f g h = elim h [ ]
  Survives-map (fault out_of_fuel) f g h = elim h [ ]

  ServeEnd-Survives :
      {s : Socket} {env : Env sys} {ws : List Turn} {r : Result (Echoed sys)}
      → ServeEnd sys laws s env ws r
      → Survives r
  ServeEnd-Survives (serving c) = returned
  ServeEnd-Survives (unwritten front back eq c went d) = returned
  ServeEnd-Survives (gone t₁ t₂ front back eq c why shut) = returned
  ServeEnd-Survives (thrown c) = threw c
  ServeEnd-Survives (aborted on) = broke on

  module _ (ev : Events) (now later : ℕ) (e : EchoListener) where
    then_write-Survives :
        (s : Socket) (env : Env sys)
        → IsOpen s
        → is_stream_ready s.state ≡ true
        → Survives (then_write sys ev s env)
    unfolding then_write turn
    then_write-Survives s env open₀ ready = elim (Bool-cases ev.epollout) [
      | inl out ↦ rw out (
          Survives-map (write sys s env) (λ r. (r.0, e, r.1, r.2)) (after_write sys ev)
            (ServeEnd-Survives (turn_lem sys laws s env writable e open₀ ready)))
      | inr no_out ↦ rw no_out returned
    ]

    read-Survives :
        (s : Socket) (env : Env sys) (ws : List Turn) {r : Result (Echoed sys)}
        → is_stream_ready s.state ≡ true
        → ServeEnd sys laws s env ws r
        → Survives (r >>= (λ q. ok (q.0, q.2, q.3)) >>= after_read sys ev)
    unfolding after_read
    read-Survives s env ws ready (serving {t = t} {env' = env'} c) =
        then_write-Survives t env' c.stays.is_open (c.stays.ready ready)
    read-Survives s env ws ready (unwritten front back eq c went d) = returned
    read-Survives s env ws ready (gone t₁ t₂ front back eq c why shut) = returned
    read-Survives s env ws ready (thrown c) = threw c
    read-Survives s env ws ready (aborted on) = broke on

    do_read_write-Survives :
        (v : Virtuals sys) (s : Socket) (env : Env sys)
        → v.receiver ≡ some (echo_receiver sys now later e)
        → IsOpen s
        → is_stream_ready s.state ≡ true
        → Survives (do_read_write sys v ev s env)
    unfolding do_read_write read turn
    do_read_write-Survives v s env has open₀ ready = elim (Bool-cases ev.epollin) [
      | inl into ↦
          rw (into, has)
            (read-Survives s env _ ready
              (turn_lem sys laws s env (readable now later) e open₀ ready))
      | inr no_in ↦ rw no_in (then_write-Survives s env open₀ ready)
    ]

    dispatch-Survives :
        (v : Virtuals sys) (st : State) (s : Socket) (env : Env sys)
        → is_stream_ready st ≡ true
        → Survives (do_read_write sys v ev s env)
        → Survives (dispatch sys v st ev s env)
    unfolding dispatch
    dispatch-Survives v connected s env ready h = h
    dispatch-Survives v full s env ready h = h
    dispatch-Survives v created s env ready h = cc
    dispatch-Survives v listening s env ready h = cc
    dispatch-Survives v connecting s env ready h = cc
    dispatch-Survives v failed s env ready h = cc

  -- How `DoHandle` ends on an event. `answered`: it returns what its calls gave.
  pub data Answered (ev : Events) (now later : ℕ) (e : EchoListener) (s : Socket) (env : Env sys)
      : Result (Handled sys) → Type 0 where
    answered :
        {h : Handled sys}
        → Finished sys ev now later e s env h
        → Answered ev now later e s env (ok h)
    threw : CtlFails sys → Answered ev now later e s env (fault exception)
    broke : sys.asserts ≡ true → Answered ev now later e s env (fault assertion)

  Survives-Answered :
      (ev : Events) (now later : ℕ) (e : EchoListener) (s : Socket) (env : Env sys)
      {m : Result (Handled sys)}
      → Survives m
      → ((h : Handled sys) → m ≡ ok h → Finished sys ev now later e s env h)
      → Answered ev now later e s env m
  Survives-Answered ev now later e s env (returned {a = h}) ends = answered (ends h refl)
  Survives-Answered ev now later e s env (Survives.threw c) ends = Answered.threw c
  Survives-Answered ev now later e s env (Survives.broke on) ends = Answered.broke on

  -- `DoHandle` on any event of an echo connection, whose stream is open and connected or full and whose receiver
  -- is `TcpEchoListener` in any state, ends in one of three ways. It returns: where EPOLLIN is set it called the
  -- listener, and then, where EPOLLOUT is set, `Write`; it returns true where both went well and no other bit was
  -- set, and otherwise it is at the container with READ_FAIL where the listener failed, before `Write` was called,
  -- with WRITE_FAIL where `Write` failed, or with UNKNOWN_EVENT after both for another bit. It throws, and some
  -- call of epoll_ctl(2) fails. Or it breaks an assertion, and assertions are compiled in.
  pub do_handle-echo :
      (v : Virtuals sys) (ev : Events) (now later : ℕ) (e : EchoListener) (s : Socket)
      (env : Env sys)
      → v.receiver ≡ some (echo_receiver sys now later e)
      → IsOpen s
      → is_stream_ready s.state ≡ true
      → Answered ev now later e s env (do_handle sys v ev s env)
  unfolding do_handle
  do_handle-echo v ev now later e s env has open₀ ready =
      Survives-Answered ev now later e s env
        (dispatch-Survives ev now later e v s.state s env ready
          (do_read_write-Survives ev now later e v s env has open₀ ready))
        λ h went. do_handle-Finished sys ev now later e s env v h has ready went
