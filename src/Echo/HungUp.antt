-- ===== src/Echo/HungUp.antt =====
-- example/server_service.hpp: what an error or a hang-up of a connection does to the echo server.
use cpp_readline.Common.{
  ==-refl, ℕ, ◌≡◌, ◌⊎◌, Bool, true, none, some, Result, ok, fault, Fault, out_of_bounds, ◌>>=◌,
  bind_assoc, OrFault, fine, faulty,
}
use cpp_readline.Sys.{Sys, Events}
use cpp_readline.Epoll.{Env}
use cpp_readline.Socket.{Socket, connected, full}
use cpp_readline.Machine.{Virtuals, Handled, do_handle, has_other}
use cpp_readline.Machine.Reports.{Reports, reports, do_handle-Reports}
use cpp_readline.Listener.{Listener, inc_recv}
use cpp_readline.Tcp.Release.{delete_stream}
use cpp_readline.Echo.Errors.{
  Objects, store, fetch, on_socket_err, after_do_handle, count_result, handle_at,
}

-- The code ends with a fault.
pub data Breaks {A : Type 0} : Result A → Type 0 where
  breaks : (f : Fault) → Breaks (fault f)

Breaks-bind :
    {A B : Type 0} (m : Result A) (k : A → Result B) → ((a : A) → Breaks (k a)) → Breaks (m >>= k)
Breaks-bind (ok a) k all = all a
Breaks-bind (fault f) k all = breaks f

module _ (sys : Sys) where
  -- the counter of an object that is gone
  count_gone :
      (a : ℕ) (b : Bool) (objects : Objects) (env : Env sys)
      → Breaks (count_result sys a (b, (store a none objects, env)))
  unfolding count_result store fetch
  count_gone a b objects env = rw (==-refl a) (breaks out_of_bounds)

  reported-Breaks :
      (a : ℕ) (l : Listener Socket) (objects : Objects) (h : Handled sys)
      → Reports sys h
      → Breaks (after_do_handle sys a l objects h >>= count_result sys a)
  unfolding after_do_handle on_socket_err
  reported-Breaks a l objects h (reports s env) = rw (bind_assoc (delete_stream sys s env)) (
      Breaks-bind (delete_stream sys s env) _
        λ env'. count_gone a true (store a (some (record l { object = s })) objects) env')

  OrFault-Breaks :
      {B : Type 0} (m : Result (Handled sys)) (k : Handled sys → Result B)
      → OrFault (Reports sys) m
      → ((h : Handled sys) → Reports sys h → Breaks (k h))
      → Breaks (m >>= k)
  OrFault-Breaks m k (fine p) all = all _ p
  OrFault-Breaks m k (faulty {f = f}) all = breaks f

  -- An event with EPOLLERR or EPOLLHUP, or with any other bit but EPOLLIN and EPOLLOUT, on a connected or full
  -- connection of the echo service always ends with a fault: `Handle` counts on the object that `OnSocketErr`
  -- has deleted, if nothing else fails before.
  pub handle_at-Breaks :
      (v : Virtuals sys) (a : ℕ) (ev : Events) (l : Listener Socket) (objects : Objects)
      (env : Env sys)
      → has_other sys ev ≡ true
      → objects a ≡ some l
      → (l.object.state ≡ connected) ⊎ (l.object.state ≡ full)
      → Breaks (handle_at sys v a ev (objects, env))
  unfolding handle_at fetch
  handle_at-Breaks v a ev l objects env other here state = rw here (
      OrFault-Breaks (do_handle sys v ev l.object env) _
        (do_handle-Reports sys ev other v l.object env state)
        λ h r. reported-Breaks a (record l { stats = inc_recv l.stats }) objects h r)
