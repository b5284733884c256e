-- ===== src/Echo/Talk.antt =====
-- example/server_service.hpp: an echo connection over a whole sequence of events, as `Socket::DoReadWrite`
-- serves them: a readable one calls the listener, a writable one `StreamSocket::Write`.
pub mod Turns
pub mod Whole
pub mod Calls
pub mod Handle
use cpp_readline.Common.{
  ℕ, ◌≡◌, refl, sym, ap, ap₂, ◌∙◌, subst, List, [], ◌∷◌, ◌++◌, append_assoc, append-nil, take,
  take_all, length, ◌≤◌, true, false, Bool, Bool-cases, none, ℤ, is_neg, not, Result, ok, fault,
  exception, assertion, ◌>>=◌, guard-cases, assert_breaks, Returns-elim, Returns-OrFault, Returns,
  returns, inl, inr, arith,
}
use cpp_readline.Memory.{Cell}
use cpp_readline.Sys.{Sys, SysLaws}
use cpp_readline.SocketBuff.{contents}
use cpp_readline.Epoll.{Env}
use cpp_readline.Epoll.Laws.{CtlFails}
use cpp_readline.Socket.{Socket, is_stream_ready}
use cpp_readline.Stream.Tx.{write, do_write, assert_state}
use cpp_readline.Stream.Tx.Flow.{flow, Flushed, do_write_lem}
use cpp_readline.Stream.Tx.Direct.{IsOpen, Keeps-IsOpen}
use cpp_readline.Stream.Tx.Taken.{do_write-taken}
use cpp_readline.Stream.Rx.{Read}
use cpp_readline.Stream.Rx.Whole.{OrAborts, reads, aborts, read_msg_any}
use cpp_readline.Echo.{EchoListener, Echoed, echo, after_echo_read}
use cpp_readline.Echo.Laws.{
  Stays, Moved, EchoEnd, idle, echoed, dropped, cut_off, shut, threw, ready_after, ReadDone-End,
  Writes, Idles, ReadFails,
}

-- What woke the connection; `now` and `later` are two calls of `GetTime`.
pub data Turn : Type 0 where
  readable : (now later : ℕ) → Turn
  writable : Turn

-- A message that was read, of which the first `kept` bytes are sent or wait to be sent.
pub record Piece : Type 0 where
  pub msg : List Cell
  pub kept : ℕ
  pub size : length msg ≡ 30
  pub within : kept ≤ 30

pub joined : List Piece → List Cell
joined [] = []
joined (p ∷ ps) = p.msg ++ joined ps

pub passed : List Piece → List Cell
passed [] = []
passed (p ∷ ps) = take p.kept p.msg ++ passed ps

module _ (sys : Sys) where
  pub turn : Turn → EchoListener → Socket → Env sys → Result (Echoed sys)
  turn (readable now later) e s env = echo sys now later e s env
  turn writable e s env = write sys s env >>= λ r. ok (r.0, e, r.1, r.2)

  next_turn :
      (EchoListener → Socket → Env sys → Result (Echoed sys)) → Echoed sys → Result (Echoed sys)
  next_turn rest (true, e, s, env) = rest e s env
  next_turn rest (false, e, s, env) = ok (false, e, s, env)

  -- the events in turn, until one ends the connection
  unfoldable pub serve : List Turn → EchoListener → Socket → Env sys → Result (Echoed sys)
  unfolding turn next_turn
  serve [] e s env = ok (true, e, s, env)
  serve (w ∷ ws) e s env = turn w e s env >>= next_turn (serve ws)

-- The calls on the stream in a run of events, and the messages that they took: each readable event calls
-- `ReadMsg`, which gives nothing, or a message with which `WriteMsg` is called; a writable one calls `Write`.
pub data Trace (sys : Sys) (laws : SysLaws sys)
    : Socket → Env sys → List Turn → List Piece → Socket → Env sys → Type 0 where
  ends : {s : Socket} {env : Env sys} → Trace sys laws s env [] [] s env
  waits :
      {s t u : Socket} {env env₁ env' : Env sys} {ws : List Turn} {ps : List Piece} (now later : ℕ)
      → Idles sys laws s env t env₁
      → Trace sys laws t env₁ ws ps u env'
      → Trace sys laws s env (readable now later ∷ ws) ps u env'
  tells :
      {s t u : Socket} {env env₁ env' : Env sys} {ws : List Turn} {ps : List Piece} (now later : ℕ)
      (p : Piece)
      → Writes sys laws s env p.msg t env₁
      → Trace sys laws t env₁ ws ps u env'
      → Trace sys laws s env (readable now later ∷ ws) (p ∷ ps) u env'
  flushes :
      {s t u : Socket} {env env₁ env' : Env sys} {ws : List Turn} {ps : List Piece} (b : Bool)
      → write sys s env ≡ ok (b, t, env₁)
      → Trace sys laws t env₁ ws ps u env'
      → Trace sys laws s env (writable ∷ ws) ps u env'

pub Trace-append :
    {sys : Sys} {laws : SysLaws sys} {s t u : Socket} {env env₁ env' : Env sys} {ws vs : List Turn}
    {ps qs : List Piece}
    → Trace sys laws s env ws ps t env₁
    → Trace sys laws t env₁ vs qs u env'
    → Trace sys laws s env (ws ++ vs) (ps ++ qs) u env'
Trace-append ends k = k
Trace-append (waits now later i h) k = waits now later i (Trace-append h k)
Trace-append (tells now later p w h) k = tells now later p w (Trace-append h k)
Trace-append (flushes b w h) k = flushes b w (Trace-append h k)

module _ (sys : Sys) (laws : SysLaws sys) (s : Socket) (env : Env sys) where
  open laws use {taken}

  -- Between the state `s`, `env` and the state `t`, `env'`: the bytes `new` came from the kernel, the
  -- messages of `pieces` were taken from the front of what was cached and `new`, the rest is cached in
  -- order, and of each message the bytes kept were put in order behind what was sent or waits to be sent. `trace` has the
  -- calls that did this, event by event.
  pub record Carried (ws : List Turn) (t : Socket) (env' : Env sys) : Type 0 where
    pub stays : Stays sys laws s env t
    pub new : List Cell
    pub pieces : List Piece
    pub trace : Trace sys laws s env ws pieces t env'
    pub fetched : taken env'.kernel s.listener.fd ≡ taken env.kernel s.listener.fd ++ new
    pub split : joined pieces ++ contents t.rx_buff ≡ contents s.rx_buff ++ new
    pub grown : flow sys laws t env' ≡ flow sys laws s env ++ passed pieces

  -- How the events end. `serving`: the connection stands. `unwritten`: a write failed, and the event is
  -- reported. `gone`: a read failed and the descriptor is closed. `thrown`: closing it threw. `aborted`:
  -- the assertion of `DoRead` or `DoWrite` on a full stream broke; it is compiled in.
  pub data ServeEnd (ws : List Turn) : Result (Echoed sys) → Type 0 where
    serving :
        {e : EchoListener} {t : Socket} {env' : Env sys}
        → Carried ws t env'
        → ServeEnd ws (ok (true, e, t, env'))
    unwritten :
        {e : EchoListener} {t u : Socket} {env₁ env' : Env sys} (front back : List Turn)
        → ws ≡ front ++ (writable ∷ back)
        → Carried front t env₁
        → write sys t env₁ ≡ ok (false, u, env')
        → Carried (front ++ (writable ∷ [])) u env'
        → ServeEnd ws (ok (false, e, u, env'))
    gone :
        {e : EchoListener} {t u : Socket} {env₁ env' : Env sys} (now later : ℕ)
        (front back : List Turn)
        → ws ≡ front ++ (readable now later ∷ back)
        → Carried front t env₁
        → ReadFails sys laws t env₁
        → u.listener.fd ≡ none
        → ServeEnd ws (ok (false, e, u, env'))
    thrown : CtlFails sys → ServeEnd ws (fault exception)
    aborted : sys.asserts ≡ true → ServeEnd ws (fault assertion)
