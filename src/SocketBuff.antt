-- ===== src/SocketBuff.antt =====
-- src/xma_socket_cache.h: `CPngConnBuf`, the byte buffer behind each direction of a stream socket.
-- An `int` that the code keeps at 0 or more is a natural number; an `int` sum or product that can
-- pass the largest `int`, and a subtraction that would leave the index negative, is a fault. The
-- rate, a `double`, is kept as the function that takes a length n to `(int) (n * m_canRate)`.
pub mod Inv
pub mod Room
pub mod Append
pub mod Laws
pub mod Queue
use cpp_readline.Common.{
  ℕ, zero, suc, ◌+◌, ◌-◌, ◌*◌, List, [], Bool, true, false, ltb, leb, ◌==◌, if◌then◌else◌, length,
  take, int_limit, Result, ok, fault, out_of_fuel, int_overflow, out_of_bounds, ◌>>=◌, ◌>>◌, guard,
}
use cpp_readline.Memory.{Cell, new_char, mem_copy}

pub record SocketBuff : Type 0 where
  pub buf : List Cell
  pub len : ℕ
  pub can_rate : ℕ → ℕ
  pub can_len : ℕ
  pub index : ℕ
  pub max_buf_len : ℕ

-- CONNECTION_LEN
abbrev pub connection_len : ℕ
connection_len = 4096

-- The bytes held: the first `index` cells.
abbrev pub contents : SocketBuff → List Cell
contents b = take b.index b.buf

-- What `recomputeCanLen` stores in `m_canLen`.
abbrev pub recompute_can_len : (ℕ → ℕ) → ℕ → ℕ
recompute_can_len rate len = if ltb 16 (rate len) then rate len - 16 else rate len

-- `new` throws when memory runs out, so it never returns null.
pub realloc_buf : SocketBuff → ℕ → Result (SocketBuff × Bool)
realloc_buf b len = do
  newbuf ← mem_copy (new_char (len + 8)) 0 b.buf 0 b.index
  ok (record b { buf = newbuf; len = len; can_len = recompute_can_len b.can_rate len }, true)

unfoldable pub set_new_size : SocketBuff → ℕ → Result (SocketBuff × Bool)
unfolding realloc_buf
set_new_size b len =
    if ltb b.len len
    then realloc_buf b len
    else if len == b.len
    then ok (b, true)
    else if leb len b.index
    then ok (b, false)
    else realloc_buf b len

-- What the constructor's initialiser list and `recomputeCanLen` leave: no array yet.
abbrev unallocated : (ℕ → ℕ) → ℕ → SocketBuff
unallocated rate max_buf_len = record {
  buf = [];
  len = 0;
  can_rate = rate;
  can_len = recompute_can_len rate 0;
  index = 0;
  max_buf_len = max_buf_len;
}

unfoldable pub init : (ℕ → ℕ) → ℕ → Result SocketBuff
init rate max_buf_len = do (b, done) ← set_new_size (unallocated rate max_buf_len) 512; ok b

-- `while (1)` of `expand`, on fuel: the next `newLen` of each round.
pub expand_loop : ℕ → SocketBuff → ℕ → ℕ → Result ℕ
expand_loop zero b expand_len new_len = fault out_of_fuel
expand_loop (suc fuel) b expand_len new_len =
    let rest = expand_loop fuel b expand_len (new_len * 2) in
    if leb int_limit (new_len * 2)
    then fault int_overflow
    else if ltb b.max_buf_len (new_len * 2)
    then ok b.max_buf_len
    else if leb int_limit (b.len + expand_len)
    then fault int_overflow
    else if leb (b.len + expand_len) (new_len * 2)
    then ok (new_len * 2)
    else rest

-- Doubling a positive `int` 31 times leaves its range.
abbrev pub expand_fuel : ℕ
expand_fuel = 31

unfoldable pub expand : SocketBuff → ℕ → Result SocketBuff
expand b expand_len = if expand_len == 0 then ok b else do
  new_len ← expand_loop expand_fuel b expand_len b.len
  if ltb b.len new_len then (set_new_size b new_len >>= λ r. ok r.0) else ok b

-- `left` is set to 0 where it would be negative.
abbrev pub get_free_len : SocketBuff → ℕ
get_free_len b = b.len - b.index

-- `memcpy` to the end of the contents, and the new index.
append : SocketBuff → List Cell → Result (SocketBuff × Bool)
append b msg = do
  buf ← mem_copy b.buf b.index msg 0 (length msg)
  guard (ltb (b.index + length msg) int_limit) int_overflow
  ok (record b { buf = buf; index = b.index + length msg }, true)

-- `len` is the length of the array `buf`. From 2^31 on it is negative as an `int`, and `memcpy`
-- would take it as a length past every array.
unfoldable pub copy_buf : SocketBuff → List Cell → Result (SocketBuff × Bool)
unfolding append
copy_buf b msg =
    if leb int_limit (length msg)
    then fault out_of_bounds
    else if ltb (get_free_len b) (length msg)
    then (expand b (length msg) >>= λ b'.
        if ltb (get_free_len b') (length msg) then ok (b', false) else append b' msg)
    else append b msg

abbrev pub set_index : SocketBuff → ℕ → SocketBuff
set_index b index = record b { index = index }

unfoldable pub add_index : SocketBuff → ℕ → Result SocketBuff
add_index b n =
    if leb int_limit (b.index + n)
    then fault int_overflow
    else let b' = record b { index = b.index + n } in
      if ltb (get_free_len b') connection_len then expand b' connection_len else ok b'

-- A length past the index would leave the index negative.
unfoldable pub shrink_from_front : SocketBuff → ℕ → Result SocketBuff
shrink_from_front b n =
    if ltb b.index n
    then fault out_of_bounds
    else if ltb 0 (b.index - n)
    then (mem_copy b.buf 0 b.buf n (b.index - n) >>= λ buf.
        ok (record b { buf = buf; index = b.index - n }))
    else ok (record b { index = b.index - n })

-- The argument of `expand` is positive in its branch.
unfoldable pub check_can_op : SocketBuff → ℕ → Result (SocketBuff × Bool)
check_can_op b n =
    if ltb b.can_len (b.index + n)
    then (expand b (b.index + n - b.can_len + connection_len) >>= λ b'.
        ok (b', leb (b'.index + n) b'.can_len))
    else ok (b, true)
