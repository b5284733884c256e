-- ===== src/Tcp/Fresh.antt =====
-- src/xma_socket.cpp: the stream that the constructor of `StreamSocket` makes.
use cpp_readline.Common.{
  ℕ, ◌≤◌, ◌<◌, ◌^◌, ◌≡◌, refl, none, true, [], Returns, returns, Returns-bind, arith,
}
use cpp_readline.SocketBuff.{SocketBuff, contents, set_index}
use cpp_readline.SocketBuff.Inv.{Inv}
use cpp_readline.SocketBuff.Laws.{init_lem, reindexed-Inv}
use cpp_readline.Socket.{Socket, max_buf_len_of}
use cpp_readline.Tcp.{can_open}
use cpp_readline.Tcp.Accept.{new_stream}

-- A stream that can be opened: no descriptor, and two valid buffers without contents.
pub record IsFresh (s : Socket) : Type 0 where
  pub ready : can_open s.state ≡ true
  pub shut : s.listener.fd ≡ none
  pub rx : Inv s.rx_buff
  pub tx : Inv s.tx_buff
  pub rx_empty : contents s.rx_buff ≡ []
  pub tx_empty : contents s.tx_buff ≡ []

emptied-Inv : {b : SocketBuff} → Inv b → Inv (set_index b 0)
emptied-Inv v = reindexed-Inv 0 v (omega arith)

-- The constructor of a stream returns one that can be opened: it has no descriptor and two valid, empty
-- buffers, where the maximal size that it computes from its argument is below 2^29.
pub new_stream_lem :
    (tx_rate : ℕ → ℕ) (now port peer_port len : ℕ)
    → ((n : ℕ) → tx_rate n ≤ n)
    → max_buf_len_of len < 2 ^ 29
    → Returns IsFresh (new_stream tx_rate now port peer_port len)
unfolding new_stream
new_stream_lem tx_rate now port peer_port len rate_small small =
    Returns-bind _ (init_lem (λ n. n) (max_buf_len_of len) (λ n. omega arith) small) λ rx f.
      Returns-bind _ (init_lem tx_rate (max_buf_len_of len) rate_small small) λ tx g.
        returns (record {
          ready = refl;
          shut = refl;
          rx = emptied-Inv f.inv;
          tx = emptied-Inv g.inv;
          rx_empty = refl;
          tx_empty = refl;
        })
