-- ===== src/Stream/Sizes.antt =====
-- src/xma_socket.cpp: `SetRxSize` and `SetTxSize` of `StreamSocket`. A size of 2^31 or more is negative as
-- the `int` that `setNewSize` takes, and refused.
use cpp_readline.Common.{
  bind_assoc, Bool, ℕ, ◌<◌, ◌^◌, ◌≡◌, refl, ap, if◌then◌else◌, leb, int_limit, gt→leb, ◌++◌, Result,
  ok, ◌>>=◌, Returns, returns, Returns-bind, arith,
}
use cpp_readline.Sys.{Sys, SysLaws}
use cpp_readline.Epoll.{Env}
use cpp_readline.SocketBuff.{SocketBuff, contents, set_new_size}
use cpp_readline.SocketBuff.Inv.{Inv, Resized, resized_to, kept, Resized-Inv, set_new_size_lem}
use cpp_readline.Socket.{Socket}
use cpp_readline.Stream.Tx.Flow.{flow}

-- `setNewSize` of a `uint32_t`, with its result left out
set_size : SocketBuff → ℕ → Result SocketBuff
set_size b size = if leb int_limit size then ok b else (set_new_size b size >>= λ r. ok r.0)

pub set_rx_size : ℕ → Socket → Result Socket
unfolding set_size
set_rx_size size s = set_size s.rx_buff size >>= λ b. ok (record s { rx_buff = b })

pub set_tx_size : ℕ → Socket → Result Socket
unfolding set_size
set_tx_size size s = set_size s.tx_buff size >>= λ b. ok (record s { tx_buff = b })

Resized-contents :
    {b : SocketBuff} {len : ℕ} {c : SocketBuff × Bool} → Resized b len c → contents c.0 ≡ contents b
Resized-contents (resized_to g) = g.same
Resized-contents (kept tight) = refl

set_size_lem :
    (b : SocketBuff) (size : ℕ)
    → Inv b
    → size < 2 ^ 29
    → Returns (λ b'. Inv b' × (contents b' ≡ contents b)) (set_size b size)
unfolding set_size
set_size_lem b size v small = rw (gt→leb int_limit size (omega (arith, small))) (
    Returns-bind _ (set_new_size_lem size v small)
      λ c p. returns (Resized-Inv v p, Resized-contents p))

-- `SetRxSize` and then `SetTxSize` of a stream with valid buffers, with sizes below 2^29, return, and
-- neither loses a byte: the bytes that wait to be read and the stream of bytes that are written stay.
pub set_tx_size-set_rx_size :
    (sys : Sys) (laws : SysLaws sys) (rx tx : ℕ) (s : Socket) (env : Env sys)
    → Inv s.rx_buff
    → Inv s.tx_buff
    → rx < 2 ^ 29
    → tx < 2 ^ 29
    → Returns
        (λ t.
          (contents t.rx_buff ≡ contents s.rx_buff) × (flow sys laws t env ≡ flow sys laws s env))
        (set_rx_size rx s >>= set_tx_size tx)
unfolding set_rx_size set_tx_size
set_tx_size-set_rx_size sys laws rx tx s env v w small small' =
    rw (bind_assoc (set_size s.rx_buff rx)) (
      Returns-bind _ (set_size_lem s.rx_buff rx v small) λ b p.
        Returns-bind _ (set_size_lem s.tx_buff tx w small')
          λ b' q. returns (p.1, ap (λ x. laws.wire env.kernel s.listener.fd ++ x) q.1))
