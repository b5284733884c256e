-- ===== src/Echo/Laws.antt =====
-- example/server_service.hpp: what an echo connection does to the bytes of its peer.
use cpp_readline.Stream.Tx.Cache.{minus_one}
use cpp_readline.Common.{
  subst, ℕ, ◌≡◌, sym, ap, ap₂, ◌∙◌, List, ◌++◌, take-append_left, take_all, take, drop, length,
  true, false, none, ℤ, Result, ok, fault, exception, ◌>>=◌, Returns-elim, Returns-OrFault, arith,
  append-nil, inl, inr, [], ◌-◌, ◌<◌, pos, some, Returns-eq,
}
use cpp_readline.Memory.{Cell}
use cpp_readline.Sys.{Sys, SysLaws}
use cpp_readline.SocketBuff.{contents}
use cpp_readline.SocketBuff.Inv.{Inv}
use cpp_readline.Epoll.{Env, EpollListener}
use cpp_readline.Epoll.Laws.{CtlFails, Closes, closed, close_lem}
use cpp_readline.Socket.{Socket, is_stream_ready}
use cpp_readline.Stream.Tx.Flow.{flow}
use cpp_readline.Stream.Tx.Flow as Tx
use cpp_readline.Stream.Tx.Direct.{IsOpen, Outcome, accepted, refused, torn, Keeps-IsOpen}
use cpp_readline.Stream.Tx.Taken.{write_msg-taken}
use cpp_readline.Stream.Tx.{write_msg}
use cpp_readline.Stream.Tx.Write.{write_msg_lem}
use cpp_readline.Stream.Rx.{Read, read_msg}
use cpp_readline.Stream.Rx.Flow
use cpp_readline.Stream.Rx.Flow.{delivered, waiting, broken}
use cpp_readline.Stream.Rx.Whole.{ReadDone}
use cpp_readline.Echo.{EchoListener, Echoed, after_echo_read, echo_back, fill, count_read, report}

pub ready_after :
    {t u : Socket} → Tx.Keeps t u → is_stream_ready t.state ≡ true → is_stream_ready u.state ≡ true
ready_after k r = elim k.ready [
  | inl e ↦ ap is_stream_ready e ∙ r
  | inr (inl e) ↦ ap is_stream_ready e
  | inr (inr e) ↦ ap is_stream_ready e
]

module _ (sys : Sys) (laws : SysLaws sys) (s : Socket) (env : Env sys) where
  open laws use {wire, taken}

  -- The bytes `new` came from the kernel since the state `env`.
  abbrev pub Fetches : List Cell → Env sys → Type 0
  Fetches new env' = taken env'.kernel s.listener.fd ≡ taken env.kernel s.listener.fd ++ new

  -- What an event keeps of a connection.
  pub record Stays (t : Socket) : Type 0 where
    pub is_open : IsOpen t
    pub same_fd : t.listener.fd ≡ s.listener.fd
    pub ready : is_stream_ready s.state ≡ true → is_stream_ready t.state ≡ true

  -- The message `msg`, or nothing, was taken from the front of what waits to be read, with what came from the
  -- kernel behind it, and `part` was put behind what was sent or waits to be sent.
  pub record Moved (msg part : List Cell) (t : Socket) (env' : Env sys) : Type 0 where
    pub stays : Stays t
    pub new : List Cell
    pub fetched : Fetches new env'
    pub split : msg ++ contents t.rx_buff ≡ contents s.rx_buff ++ new
    pub grown : flow sys laws t env' ≡ flow sys laws s env ++ part

  -- `ReadMsg` gave the message, and `WriteMsg` was called with it right after that.
  pub record Writes (msg : List Cell) (t : Socket) (env' : Env sys) : Type 0 where
    pub reader : Socket
    pub read_env : Env sys
    pub status : ℤ
    pub reads : read_msg sys false s 30 env ≡ ok ((pos 30, some msg), reader, read_env)
    pub writes : write_msg sys reader (some msg) read_env ≡ ok (status, t, env')

  -- `ReadMsg` gave nothing yet.
  abbrev pub Idles : Socket → Env sys → Type 0
  Idles t env' = read_msg sys false s 30 env ≡ ok ((pos 0, none), t, env')

  -- `ReadMsg` failed.
  pub record ReadFails : Type 0 where
    pub reader : Socket
    pub read_env : Env sys
    pub fails : read_msg sys false s 30 env ≡ ok ((minus_one, none), reader, read_env)

  -- How one event ends. `idle`: no message is complete. `echoed`: a message of 30 bytes was taken and all of
  -- it is sent or waits to be sent. `dropped`, `cut_off`: `WriteMsg` took nothing of it, or a proper prefix.
  -- `shut`: the read failed and the descriptor is closed. `threw`: closing it threw.
  pub data EchoEnd : Result (Echoed sys) → Type 0 where
    idle :
        {e : EchoListener} {t : Socket} {env' : Env sys}
        → Idles t env'
        → Moved [] [] t env'
        → EchoEnd (ok (true, e, t, env'))
    echoed :
        {e : EchoListener} {t : Socket} {env' : Env sys} (msg : List Cell)
        → length msg ≡ 30
        → Writes msg t env'
        → Moved msg msg t env'
        → EchoEnd (ok (true, e, t, env'))
    dropped :
        {e : EchoListener} {t : Socket} {env' : Env sys} (msg : List Cell)
        → length msg ≡ 30
        → Writes msg t env'
        → Moved msg [] t env'
        → EchoEnd (ok (true, e, t, env'))
    cut_off :
        {e : EchoListener} {t : Socket} {env' : Env sys} (msg : List Cell) (n : ℕ)
        → length msg ≡ 30
        → 0 < n
        → n < 30
        → t.tx_buff.max_buf_len < 30 - n
        → Writes msg t env'
        → Moved msg (take n msg) t env'
        → EchoEnd (ok (true, e, t, env'))
    shut :
        ReadFails
        → (e : EchoListener) (t : Socket) (env' : Env sys) → t.listener.fd ≡ none
        → EchoEnd (ok (false, e, t, env'))
    threw : CtlFails sys → EchoEnd (fault exception)

  after_close-End :
      ReadFails
      → (e : EchoListener) (t : Socket) {m : Result (EpollListener × Env sys)} → Closes sys laws m
      → EchoEnd (m >>= λ r. ok (false, e, record t { listener = r.0 }, r.1))
  after_close-End why e t (closed l env' gone) = shut why e _ env' gone
  after_close-End why e t (Closes.threw c) = threw c

  module _ (t : Socket) (env₁ : Env sys) (new : List Cell) (stays : Stays t)
      (fetched : Fetches new env₁) (same_flow : flow sys laws t env₁ ≡ flow sys laws s env) where
    -- after `WriteMsg`
    written :
        (msg part : List Cell) (u : Socket) (env₂ : Env sys)
        → msg ++ contents t.rx_buff ≡ contents s.rx_buff ++ new
        → Tx.Keeps t u
        → taken env₂.kernel s.listener.fd ≡ taken env₁.kernel s.listener.fd
        → flow sys laws u env₂ ≡ flow sys laws t env₁ ++ part
        → Moved msg part u env₂
    written msg part u env₂ split k same after = record {
      stays = record {
        is_open = Keeps-IsOpen stays.is_open k;
        same_fd = ap (λ l. l.fd) k.listener ∙ stays.same_fd;
        ready = λ r. ready_after k (stays.ready r);
      };
      new = new;
      fetched = same ∙ fetched;
      split = ap (λ b. msg ++ contents b) k.rx ∙ split;
      grown = after ∙ ap (λ f. f ++ part) same_flow;
    }

    written-End :
        (e : EchoListener) (msg : List Cell) (w : ℤ) (u : Socket) (env₂ : Env sys)
        → length msg ≡ 30
        → Writes msg u env₂
        → msg ++ contents t.rx_buff ≡ contents s.rx_buff ++ new
        → Tx.Keeps t u
        → taken env₂.kernel s.listener.fd ≡ taken env₁.kernel s.listener.fd
        → Outcome msg (flow sys laws t env₁) w u (flow sys laws u env₂)
        → EchoEnd (ok (true, e, u, env₂))
    written-End e msg w u env₂ size ws split k same (accepted after) =
        echoed msg size ws (written msg msg u env₂ split k same after)
    written-End e msg w u env₂ size ws split k same (refused after) =
        dropped msg size ws (written msg [] u env₂ split k same (after ∙ sym (append-nil _)))
    written-End e msg w u env₂ size ws split k same (torn n some_sent some_left after err over) =
        cut_off msg n size some_sent (omega (arith, some_left, size)) (omega (arith, over, size)) ws
          (written msg (take n msg) u env₂ split k same after)

    echo_back-End :
        (e : EchoListener) (msg : List Cell)
        → length msg ≡ 30
        → take 30 e.buff ≡ msg
        → read_msg sys false s 30 env ≡ ok ((pos 30, some msg), t, env₁)
        → msg ++ contents t.rx_buff ≡ contents s.rx_buff ++ new
        → EchoEnd (echo_back sys e 30 t env₁)
    unfolding echo_back
    echo_back-End e msg size filled went split = rw filled (
        Returns-elim EchoEnd _
          (Returns-OrFault
            (Returns-eq (write_msg_lem sys laws t msg env₁ stays.is_open (omega arith)))
            (write_msg-taken sys laws s.listener.fd t msg env₁))
          λ w h.
            written-End e msg w.0 w.1 w.2 size
              (record { reader = t; read_env = env₁; status = w.0; reads = went; writes = h.0.1 })
              split h.0.0.keeps h.1 h.0.0.outcome)

    read-End :
        (now later : ℕ) (e : EchoListener) (r : Read)
        → read_msg sys false s 30 env ≡ ok (r, t, env₁)
        → cpp_readline.Stream.Rx.Flow.Outcome 30 (contents s.rx_buff ++ new) r (contents t.rx_buff)
        → EchoEnd (after_echo_read sys now later e (r, t, env₁))
    unfolding after_echo_read fill count_read report echo_back
    read-End now later e r went (delivered msg size split) =
        echo_back-End _ msg size
          (take-append_left 30 msg (drop (length msg) e.buff) (omega arith)
            ∙ take_all 30 msg (omega arith))
          went split
    read-End now later e r went (waiting all few) = idle went (record {
      stays = stays;
      new = new;
      fetched = fetched;
      split = all;
      grown = same_flow ∙ sym (append-nil _);
    })
    read-End now later e r went (broken all) =
        after_close-End (record { reader = t; read_env = env₁; fails = went }) e t
          (close_lem sys laws t.listener env₁ stays.is_open.attached)

  -- an event after its read
  pub ReadDone-End :
      (now later : ℕ) (e : EchoListener) (q : Read × Socket × Env sys)
      → read_msg sys false s 30 env ≡ ok q
      → IsOpen s
      → ReadDone sys laws s 30 env q
      → EchoEnd (after_echo_read sys now later e q)
  ReadDone-End now later e q went open₀ d =
      read-End q.1 q.2 d.new
        (record {
          is_open = record {
            tx = subst Inv (sym d.keeps.tx) open₀.tx;
            rx = d.keeps.rx;
            attached = ap (λ l. l.attached) d.keeps.listener ∙ open₀.attached;
          };
          same_fd = ap (λ l. l.fd) d.keeps.listener;
          ready = λ r. ap is_stream_ready d.keeps.state ∙ r;
        })
        d.fetched
        (ap₂ ◌++◌ (ap (λ l. laws.wire q.2.kernel l.fd) d.keeps.listener ∙ d.same_wire s.listener.fd)
          (ap contents d.keeps.tx))
        now later e q.0 went d.outcome
