-- ===== src/Stream/Rx/Flow.antt =====
-- What `ReadMsg` does to the stream of bytes from the kernel: every byte taken from it is delivered
-- once, in order, or still in `rx_buff`.
use cpp_readline.Common.{
  ℕ, ◌+◌, ◌-◌, ◌≤◌, ◌<◌, ◌≡◌, refl, sym, ap₂, ◌∙◌, ◌⊎◌, inl, inr, List, [], ◌∷◌, ◌++◌, arith, ok,
  ◌>>=◌, ltb, leb, Bool-cases, append-nil, take-append-drop, take_all, take-take, take, length,
  length-take, length-replicate, ℤ, pos, Returns, returns, Returns-bind, tests, leb→le, leb→gt,
  some, none,
}
use cpp_readline.Memory.{Cell, new_char, mem_copy_lem, overwrite, length-overwrite, take-overwrite}
use cpp_readline.Sys.{RecvReply, received, received_bytes}
use cpp_readline.SocketBuff.{SocketBuff, contents, set_index, add_index}
use cpp_readline.SocketBuff.Inv.{Inv}
use cpp_readline.SocketBuff.Append.{length-contents}
use cpp_readline.SocketBuff.Laws.{Shrunk, moved, moved-Shrunk, emptied-Shrunk, add_index_lem}
use cpp_readline.Socket.{Socket}
use cpp_readline.Stream.Tx.Cache.{minus_one}
use cpp_readline.Stream.Rx.{Read, rx_cache, store, after_recv, take_in, move_down, deliver}

move_down_lem :
    {rx : SocketBuff} (len : ℕ)
    → Inv rx
    → len ≤ rx.index
    → Returns
        (λ b. Shrunk rx len (set_index b (rx.index - len)))
        (move_down rx len (rx.index - len))
unfolding move_down moved
move_down_lem {rx} len v h = elim (Bool-cases (ltb 0 (rx.index - len))) [
  | inl some_left ↦
      rw
        (
          some_left,
          mem_copy_lem rx.buf 0 rx.buf len (rx.index - len) (omega (arith, v.allocated, v.within))
              (omega (arith, v.allocated, v.within)),
        )
        (returns (moved-Shrunk len v h))
  | inr none_left ↦ rw none_left (returns (emptied-Shrunk len v h (omega tests)))
]

-- `memcpy` of the first `len` bytes to an array of that length gives those bytes.
copied_out :
    (b : SocketBuff) (len : ℕ)
    → len ≤ length b.buf
    → overwrite (new_char len) 0 (take len b.buf) ≡ take len b.buf
copied_out b len h =
    let held : length (take len b.buf) ≡ len = omega (arith, length-take len b.buf) in
    let fits : 0 + length (take len b.buf) ≤ length (new_char len) =
      omega (arith, length-replicate {0} {A = Cell} len none) in
    sym (
      take_all (0 + length (take len b.buf)) _ (
        omega (
          arith,
          length-overwrite (new_char len) 0 (take len b.buf) fits,
          length-replicate {0} {A = Cell} len none,
        )))
    ∙ take-overwrite (new_char len) 0 (take len b.buf) fits

-- What the reading side keeps of a socket.
pub record Keeps (s s' : Socket) : Type 0 where
  pub rx : Inv s'.rx_buff
  pub listener : s'.listener ≡ s.listener
  pub tx : s'.tx_buff ≡ s.tx_buff
  pub state : s'.state ≡ s.state

-- How `ReadMsg` ends, where `inbound` are the cached bytes with those that `recv` added.
pub data Outcome (len : ℕ) (inbound : List Cell) : Read → List Cell → Type 0 where
  delivered :
      {left : List Cell} (msg : List Cell)
      → length msg ≡ len
      → msg ++ left ≡ inbound
      → Outcome len inbound (pos len, some msg) left
  waiting :
      {left : List Cell}
      → left ≡ inbound
      → length left < len
      → Outcome len inbound (pos 0, none) left
  broken : {left : List Cell} → left ≡ inbound → Outcome len inbound (minus_one, none) left

pub record Delivered (s : Socket) (len : ℕ) (r : Read × Socket) : Type 0 where
  pub keeps : Keeps s r.1
  pub outcome : Outcome len (contents s.rx_buff) r.0 (contents r.1.rx_buff)

pub deliver_lem : (s : Socket) (len : ℕ) → Inv s.rx_buff → Returns (Delivered s len) (deliver s len)
unfolding deliver
deliver_lem s len v = elim (Bool-cases (leb len s.rx_buff.index)) [
  | inr short ↦ rw short (
      returns (record {
        keeps = record { rx = v; listener = refl; tx = refl; state = refl };
        outcome = waiting refl (omega (tests, length-contents v, leb→gt len s.rx_buff.index short));
      }))
  | inl enough ↦
      let h : len ≤ s.rx_buff.index = leb→le len s.rx_buff.index enough in
      rw
        (
          enough,
          mem_copy_lem (new_char len) 0 s.rx_buff.buf 0 len (omega (arith, v.allocated, v.within))
              (omega (arith, length-replicate {0} {A = Cell} len none)),
          copied_out s.rx_buff len (omega (arith, v.allocated, v.within)),
        )
        (Returns-bind _ (move_down_lem len v h) λ rx k. returns (record {
          keeps = record { rx = k.inv; listener = refl; tx = refl; state = refl };
          outcome =
              delivered (take len s.rx_buff.buf)
                (omega (arith, length-take len s.rx_buff.buf, v.allocated, v.within))
                (ap₂ ◌++◌ (sym (take-take len s.rx_buff.index s.rx_buff.buf h)) k.rest
                  ∙ take-append-drop len (contents s.rx_buff));
        }))
]

-- After `recv` gave `bytes`: they are behind the cached bytes.
pub record Received (s : Socket) (bytes : List Cell) (r : ℤ × Socket) : Type 0 where
  pub keeps : Keeps s r.1
  pub more : contents r.1.rx_buff ≡ contents s.rx_buff ++ bytes
  pub result : (r.0 ≡ minus_one) ⊎ ((n : ℕ) × (r.0 ≡ pos n))

stored-Inv :
    (b : SocketBuff) (bytes : List Cell)
    → Inv b
    → b.index + length bytes ≤ length b.buf
    → Inv (record b { buf = overwrite b.buf b.index bytes })
stored-Inv b bytes v fits = record {
  allocated = length-overwrite b.buf b.index bytes fits ∙ v.allocated;
  within = v.within;
  positive = v.positive;
  small = v.small;
  max_small = v.max_small;
  threshold = v.threshold;
  rate_small = v.rate_small;
}

take_in_lem :
    (s : Socket) (bytes : List Cell)
    → Inv s.rx_buff
    → s.rx_buff.index + length bytes ≤ s.rx_buff.len
    → Returns (Received s bytes) (
        store rx_cache s.rx_buff bytes >>= λ stored. add_index stored (length bytes) >>= λ rx.
        ok (pos (length bytes), take_in s (length bytes) rx))
unfolding store take_in
take_in_lem s bytes v room =
    let fits : s.rx_buff.index + length bytes ≤ length s.rx_buff.buf = omega (arith, v.allocated) in
    rw
      (
        mem_copy_lem s.rx_buff.buf s.rx_buff.index bytes 0 (length bytes) (omega arith) fits,
        take_all (length bytes) bytes (omega arith),
      )
      (Returns-bind _ (add_index_lem (length bytes) (stored-Inv s.rx_buff bytes v fits) room)
        λ rx (i, same, _). returns (record {
          keeps = record { rx = i; listener = refl; tx = refl; state = refl };
          more = same ∙ take-overwrite s.rx_buff.buf s.rx_buff.index bytes fits;
          result = inr (length bytes, refl);
        }))

pub after_recv_lem :
    (s : Socket) (reply : RecvReply)
    → Inv s.rx_buff
    → s.rx_buff.index + length (received_bytes reply) ≤ s.rx_buff.len
    → Returns (Received s (received_bytes reply)) (after_recv rx_cache s reply)
unfolding after_recv
after_recv_lem s RecvReply.retry v room = returns (record {
  keeps = record { rx = v; listener = refl; tx = refl; state = refl };
  more = sym (append-nil _);
  result = inr (0, refl);
})
after_recv_lem s RecvReply.failed v room = returns (record {
  keeps = record { rx = v; listener = refl; tx = refl; state = refl };
  more = sym (append-nil _);
  result = inl refl;
})
after_recv_lem s (received []) v room = returns (record {
  keeps = record { rx = v; listener = refl; tx = refl; state = refl };
  more = sym (append-nil _);
  result = inl refl;
})
after_recv_lem s (received (c ∷ bytes)) v room = take_in_lem s (c ∷ bytes) v room
