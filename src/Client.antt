-- ===== src/Client.antt =====
-- client/client_service.cpp: the example client. This file has the client's socket with its timer and the
-- service, `TcpClient`, `TcpClientTimer` and `TcpClientService`. `Clock::now()` is a parameter at each of
-- its calls; a call that may change both the kernel and the timers has both as its state.
pub mod Sending
pub mod Ticking
pub mod Life
pub mod Running
pub mod Process
use Prim.Native.String.{String}
use cpp_readline.Common.{
  ℕ, ◌+◌, Option, none, some, Bool, true, false, not, ◌&&◌, leb, List, [], ◌∷◌, ◌++◌, length,
  Result, ok, assertion, out_of_bounds, guard, ◌>>=◌, ◌>>◌,
}
use cpp_readline.Memory.{Cell}
use cpp_readline.Sys.{Sys}
use cpp_readline.Epoll.{Env, close}
use cpp_readline.Shell.{Str}
use cpp_readline.Socket.{Socket}
use cpp_readline.Timer.{Timers, new_timer, set, destroy}
use cpp_readline.Timer.Text.{Tm, time_to_str}
use cpp_readline.Stream.Tx.{write_msg}
use cpp_readline.Tcp.{set_listener, open_client, Opened}
use cpp_readline.Tcp.Accept.{new_stream}
use cpp_readline.Tcp.Release.{delete_stream}

-- A client: its socket, the address of its member `timer_`, and whether `client_` of the timer points to
-- the client or is null.
pub record Client : Type 0 where
  pub socket : Socket
  pub timer : ℕ
  pub linked : Bool

-- the bytes of "I'm from client @ "
abbrev pub greeting : Str
greeting =
    73 ∷ 39 ∷ 109 ∷ 32 ∷ 102 ∷ 114 ∷ 111 ∷ 109 ∷ 32 ∷ 99 ∷ 108 ∷ 105 ∷ 101 ∷ 110 ∷ 116 ∷ 32 ∷ 64
    ∷ 32 ∷ []

pub cells : Str → List Cell
cells [] = []
cells (c ∷ cs) = some c ∷ cells cs

-- what `sprintf` writes before its NUL
pub message : Str → Str
message stamp = greeting ++ (stamp ++ (10 ∷ []))

-- `TcpClient::StartTimer`, at the time `now`
unfoldable pub start_timer : Bool → ℕ → Client → Timers → Result (Client × Timers)
start_timer asserts now c st =
    set asserts now c.timer st >>= λ r. ok (record c { linked = true }, r.1)

-- `TcpClient::OnConnected`
unfoldable pub on_connected : Bool → ℕ → Client → Timers → Result (Bool × Client × Timers)
unfolding start_timer
on_connected asserts now c st = start_timer asserts now c st >>= λ r. ok (true, r.0, r.1)

module _ (sys : Sys) where
  -- `TcpClientTimer::SendData`, with the array `buff` of 512 characters
  unfoldable pub send_data : Tm → ℕ → Client → Env sys → Result (Client × Env sys)
  unfolding message cells
  send_data tm now c env = do
    stamp ← time_to_str tm now
    guard (leb (length (message stamp) + 1) 512) out_of_bounds
    w ← write_msg sys c.socket (some (cells (message stamp))) env
    ok (record c { socket = w.1 }, w.2)

  -- `TcpClientTimer::Timeout`; it reads the clock for the text and again in `Set`
  unfoldable pub timeout :
      Tm → (now later : ℕ) → Client → Env sys → Timers → Result (Client × Env sys × Timers)
  unfolding send_data
  timeout tm now later c env st = do
    guard (not (sys.asserts && not c.linked)) assertion
    guard c.linked out_of_bounds
    r ← send_data tm now c env
    q ← set sys.asserts later r.0.timer st
    ok (r.0, r.1, q.1)

  abbrev pub World : Type 0
  World = Env sys × Timers

  -- `TcpClient(c)`, with the timer at the address `t`; the first two parameters are those of the
  -- constructor of a stream
  unfoldable pub new_client : (ℕ → ℕ) → (now garbage t : ℕ) → Timers → Result (Client × Timers)
  new_client tx_rate now garbage t st = do
    s ← new_stream tx_rate now garbage garbage 8196
    ok (record { socket = s; timer = t; linked = false }, new_timer t 3000 st)

  -- `delete client_`: the timer, then the stream
  unfoldable pub delete_client : Client → World → Result World
  delete_client c (env, st) = do
    st' ← destroy sys.asserts c.timer st
    env' ← delete_stream sys c.socket env
    ok (env', st')

  -- A service has no state but `client_`. This is `StartClient` after `OpenClient`.
  unfoldable pub after_open : Client → Timers → Opened sys → Result (Option Client × World)
  unfolding delete_client
  after_open c st (true, s, env) = ok (some (record c { socket = s }), (env, st))
  after_open c st (false, s, env) =
      delete_client (record c { socket = s }) (env, st) >>= λ w. ok (none, w)

  -- `TcpClientService::StartClient`
  unfoldable pub start_client :
      (ℕ → ℕ)
      → (now garbage t : ℕ) → String
      → ℕ
      → Option Client
      → World
      → Result (Option Client × World)
  unfolding new_client after_open
  start_client tx_rate now garbage t addr port (some c) w = ok (some c, w)
  start_client tx_rate now garbage t addr port none (env, st) = do
    (c, st') ← new_client tx_rate now garbage t st
    r ← open_client sys c.socket addr port env
    after_open c st' r

  -- `TcpClientService::StopClient`
  unfoldable pub stop_client : Option Client → World → Result (Option Client × World)
  unfolding delete_client
  stop_client none w = ok (none, w)
  stop_client (some c) (env, st) = do
    (l, env') ← close sys c.socket.listener env
    w ← delete_client (record c { socket = set_listener c.socket l }) (env', st)
    ok (none, w)

  -- `TcpClientService::OnSocketErr(s)`, where `own` is whether `s` is `client_`
  unfoldable pub on_socket_err :
      Bool → Option Client → World → Result (Bool × Option Client × World)
  unfolding delete_client
  on_socket_err true (some c) w = delete_client c w >>= λ w'. ok (true, none, w')
  on_socket_err own client w = ok (false, client, w)

  -- `~TcpClientService`
  unfoldable pub destroy_service : Option Client → World → Result World
  unfolding delete_client
  destroy_service none w = ok w
  destroy_service (some c) w = delete_client c w
