-- ===== src/Echo/Errors.antt =====
-- example/server_service.hpp and src/xma_listener.h: `TcpEchoService::OnSocketErr` inside the `Handle` of
-- the socket that it deletes. `Objects` are the listeners that exist, at their addresses; an access to an
-- address without one is a fault.
use cpp_readline.Common.{
  ℕ, Bool, true, if◌then◌else◌, ◌==◌, Option, none, some, Result, ok, fault, out_of_bounds, ◌>>=◌,
}
use cpp_readline.Sys.{Sys, Events}
use cpp_readline.Epoll.{Env}
use cpp_readline.Socket.{Socket}
use cpp_readline.Machine.{Virtuals, Handled, returned, reported, do_handle}
use cpp_readline.Listener.{Listener, inc_recv, after_handle}
use cpp_readline.Tcp.Release.{delete_stream}

abbrev pub Objects : Type 0
Objects = ℕ → Option (Listener Socket)

unfoldable pub store : ℕ → Option (Listener Socket) → Objects → Objects
store a x objects b = if b == a then x else objects b

-- an access through a pointer
unfoldable pub fetch : Option (Listener Socket) → Result (Listener Socket)
fetch none = fault out_of_bounds
fetch (some l) = ok l

module _ (sys : Sys) where
  abbrev pub World : Type 0
  World = Objects × Env sys

  -- `OnSocketErr` of the echo service: `delete s`
  unfoldable pub on_socket_err : ℕ → Socket → World → Result (Bool × World)
  unfolding store
  on_socket_err a s (objects, env) =
      delete_stream sys s env >>= λ env'. ok (true, (store a none objects, env'))

  -- the rest of `DoHandle`, on the object at `a`
  unfoldable pub after_do_handle :
      ℕ → Listener Socket → Objects → Handled sys → Result (Bool × World)
  unfolding on_socket_err store
  after_do_handle a l objects (returned b s env) =
      ok (b, (store a (some (record l { object = s })) objects, env))
  after_do_handle a l objects (reported s env) =
      on_socket_err a s (store a (some (record l { object = s })) objects, env)

  -- `IncSucc` or `IncFail`, through the pointer `a`
  unfoldable pub count_result : ℕ → Bool × World → Result (Bool × World)
  unfolding fetch store
  count_result a (b, (objects, env)) = fetch (objects a) >>= λ l.
      ok (b, (store a (some (after_handle Socket l.stats (b, l.object)).1) objects, env))

  -- `Handle` of the connection at `a`, for an event
  unfoldable pub handle_at : Virtuals sys → ℕ → Events → World → Result (Bool × World)
  unfolding after_do_handle count_result fetch store
  handle_at v a ev (objects, env) = do
    l ← fetch (objects a)
    h ← do_handle sys v ev l.object env
    r ← after_do_handle a (record l { stats = inc_recv l.stats }) objects h
    count_result a r
