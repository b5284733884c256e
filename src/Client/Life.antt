-- ===== src/Client/Life.antt =====
-- client/client_service.cpp: how `StartClient`, `StopClient` and `OnSocketErr` leave the service, the
-- descriptors and the timers of the process.
use Prim.Native.String.{String}
use cpp_readline.Common.{
  ==-refl, Returns-bind, returns, ℕ, suc, ◌≤◌, ◌≡◌, refl, Option, none, some, Bool, false, List, ℤ,
  inc, Result, ok, fault, exception, ◌>>=◌, Returns, Returns-elim, arith,
}
use cpp_readline.Sys.{Sys, FdLaws}
use cpp_readline.Epoll.{Env}
use cpp_readline.Epoll.Laws.{CtlFails}
use cpp_readline.Socket.{Socket}
use cpp_readline.Timer.{Timers, Node, new_timer, destroy}
use cpp_readline.Tcp.{Opened}
use cpp_readline.Tcp.Fresh.{IsFresh, new_stream_lem}
use cpp_readline.Tcp.Opening.{Opening, opened, declined}
use cpp_readline.Tcp.Client.{Connects, ClientFails, open_client_lem}
use cpp_readline.Tcp.Release.{delete_stream, delete_shut, Holds, holds}
use cpp_readline.Client.{Client, World, new_client, delete_client, after_open, start_client}

module _ (sys : Sys) (laws : FdLaws sys) where
  open laws use {held}

  -- the timer of a client has not been set
  abbrev pub IsIdle : Timers → ℕ → Type 0
  IsIdle st t = (st.objects t).active ≡ false

  -- How `StartClient` ends when the process holds `n` descriptors, `z` of them registered, and `ns` are
  -- its timers that are set: with a client that is connecting and one descriptor more, as before
  -- without a client, or with the exception of epoll_ctl(2).
  pub data Starts (n : ℕ) (z : ℤ) (ns : List Node) (addr : String) (port : ℕ)
      : Result (Option Client × World sys) → Type 0 where
    running :
        (c : Client) (env : Env sys) (st : Timers)
        → Connects sys addr port c.socket
        → Holds c.socket
        → IsIdle st c.timer
        → held env.kernel ≡ suc n
        → env.fds ≡ inc z
        → st.nodes ≡ ns
        → Starts n z ns addr port (ok (some c, (env, st)))
    not_running :
        ClientFails sys addr port
        → (env : Env sys) (st : Timers) → held env.kernel ≡ n
        → env.fds ≡ z
        → st.nodes ≡ ns
        → Starts n z ns addr port (ok (none, (env, st)))
    threw : CtlFails sys → Starts n z ns addr port (fault exception)

  -- The client is gone, the process holds `n` descriptors, `z` of them registered, and `ns` are its timers
  -- that are set; or the code throws, and `Why`.
  pub data Gone (Why : Type 0) (n : ℕ) (z : ℤ) (ns : List Node)
      : Result (Option Client × World sys) → Type 0 where
    gone :
        (env : Env sys) (st : Timers)
        → held env.kernel ≡ n
        → env.fds ≡ z
        → st.nodes ≡ ns
        → Gone Why n z ns (ok (none, (env, st)))
    threw : Why → Gone Why n z ns (fault exception)

  destroy_idle : (t : ℕ) (st : Timers) → IsIdle st t → destroy sys.asserts t st ≡ ok st
  unfolding destroy
  destroy_idle t st idle = rw idle refl

  delete_idle :
      (c : Client) (env : Env sys) (st : Timers)
      → IsIdle st c.timer
      → delete_client sys c (env, st) ≡ (delete_stream sys c.socket env >>= λ env'. ok (env', st))
  unfolding delete_client
  delete_idle c env st idle = rw (destroy_idle c.timer st idle) refl

  new_timer-IsIdle : (t expire : ℕ) (st : Timers) → IsIdle (new_timer t expire st) t
  unfolding new_timer
  new_timer-IsIdle t expire st = rw (==-refl t) refl

  new_timer-nodes : (t expire : ℕ) (st : Timers) → (new_timer t expire st).nodes ≡ st.nodes
  unfolding new_timer
  new_timer-nodes t expire st = refl

  record IsNew (st : Timers) (r : Client × Timers) : Type 0 where
    fresh : IsFresh r.0.socket
    idle : IsIdle r.1 r.0.timer
    same_timers : r.1.nodes ≡ st.nodes

  new_client_lem :
      (tx_rate : ℕ → ℕ) (now garbage t : ℕ) (st : Timers)
      → ((n : ℕ) → tx_rate n ≤ n)
      → Returns (IsNew st) (new_client sys tx_rate now garbage t st)
  unfolding new_client
  new_client_lem tx_rate now garbage t st rate_small =
      Returns-bind _ (new_stream_lem tx_rate now garbage garbage 8196 rate_small (omega arith))
        λ s fresh. returns (record {
          fresh = fresh;
          idle = new_timer-IsIdle t 3000 st;
          same_timers = new_timer-nodes t 3000 st;
        })

  after_open-Starts :
      (n : ℕ) (z : ℤ) (ns : List Node) (addr : String) (port : ℕ) (c : Client) (st : Timers)
      {m : Result (Opened sys)}
      → IsIdle st c.timer
      → st.nodes ≡ ns
      → Opening sys laws n z (ClientFails sys addr port) (Connects sys addr port) m
      → Starts n z ns addr port (m >>= after_open sys c st)
  unfolding after_open
  after_open-Starts n z ns addr port c st idle same_timers (opened s env good fd e more count) =
      running (record c { socket = s }) env st good (holds fd e) idle more count same_timers
  after_open-Starts n z ns addr port c st idle same_timers
        (declined why s env ready err shut same count) =
      rw (delete_idle (record c { socket = s }) env st idle, delete_shut sys laws s env shut)
        (not_running why env st same count same_timers)
  after_open-Starts n z ns addr port c st idle same_timers (Opening.threw e) = threw e

  -- `StartClient` on a service without a client never breaks an assertion. Either the service has
  -- a client that is CONNECTING to the address and port given, exactly one descriptor more is
  -- held and registered, and the client's timer is not set; or it has no client, and nothing is
  -- held or registered that was not before; or it throws and some call of epoll_ctl(2) fails. The list of
  -- timers is as before. Here `tx_rate` never gives more than it is given.
  pub start_client_lem :
      (tx_rate : ℕ → ℕ) (now garbage t : ℕ) (addr : String) (port : ℕ) (env : Env sys) (st : Timers)
      → ((n : ℕ) → tx_rate n ≤ n)
      → Starts
          (held env.kernel)
          env.fds
          st.nodes
          addr
          port
          (start_client sys tx_rate now garbage t addr port none (env, st))
  unfolding start_client
  start_client_lem tx_rate now garbage t addr port env st rate_small =
      Returns-elim (Starts (held env.kernel) env.fds st.nodes addr port) _
        (new_client_lem tx_rate now garbage t st rate_small)
        λ r new.
          after_open-Starts (held env.kernel) env.fds st.nodes addr port r.0 r.1 new.idle
            new.same_timers
            (open_client_lem sys laws r.0.socket addr port env new.fresh.ready new.fresh.shut)

  -- The end of `OnSocketErr`, as far as it is seen in the state.
  abbrev pub state_of : Bool × Option Client × World sys → Result (Option Client × World sys)
  state_of r = ok (r.1, r.2)
