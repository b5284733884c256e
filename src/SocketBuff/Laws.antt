-- ===== src/SocketBuff/Laws.antt =====
-- The other operations of the buffer, seen as a queue of bytes; on a valid buffer none of them faults.
use cpp_readline.Common.{
  ℕ, ◌+◌, ◌-◌, ◌^◌, ◌≤◌, ◌<◌, ◌≡◌, refl, sym, ap, ◌∙◌, Bool, [], arith, ltb, leb, Bool-cases,
  gt→leb, le→leb, int_limit, ltb→ge, ge→ltb, tests, Returns, returns, inl, inr, take, drop, length,
  length-take, length-drop, drop-take,
}
use cpp_readline.Memory.{mem_copy_lem, overwrite, length-overwrite, take-overwrite}
use cpp_readline.SocketBuff.{
  SocketBuff, contents, connection_len, unallocated, init, set_new_size, add_index, set_index,
  shrink_from_front, check_can_op, get_free_len,
}
use cpp_readline.SocketBuff.Inv.{Inv, realloc_buf_lem}
use cpp_readline.SocketBuff.Room.{expand_lem}

shrunk_contents :
    (b : SocketBuff) (n : ℕ) → n ≤ b.index → take (b.index - n) (drop n b.buf) ≡ drop n (contents b)
shrunk_contents b n h =
    sym (drop-take n (b.index - n) b.buf) ∙ ap (λ k. drop n (take k b.buf)) (omega arith)

-- What removing the first `n` bytes leaves.
pub record Shrunk (b : SocketBuff) (n : ℕ) (b' : SocketBuff) : Type 0 where
  pub inv : Inv b'
  pub rest : contents b' ≡ drop n (contents b)
  pub fewer : b'.index ≡ b.index - n
  pub same_max : b'.max_buf_len ≡ b.max_buf_len

unfoldable pub moved : SocketBuff → ℕ → SocketBuff
moved b n = record b {
  buf = overwrite b.buf 0 (take (b.index - n) (drop n b.buf));
  index = b.index - n;
}

pub moved-Shrunk : {b : SocketBuff} (n : ℕ) → Inv b → n ≤ b.index → Shrunk b n (moved b n)
unfolding moved
moved-Shrunk {b} n v h =
    let held : length (take (b.index - n) (drop n b.buf)) ≡ b.index - n = omega (
      arith,
      length-take (b.index - n) (drop n b.buf),
      length-drop n b.buf,
      v.allocated,
      v.within,
    ) in
    let fits : 0 + length (take (b.index - n) (drop n b.buf)) ≤ length b.buf =
      omega (arith, v.allocated, v.within) in
    record {
      inv = record {
        allocated = length-overwrite b.buf 0 _ fits ∙ v.allocated;
        within = omega (arith, v.within);
        positive = v.positive;
        small = v.small;
        max_small = v.max_small;
        threshold = v.threshold;
        rate_small = v.rate_small;
      };
      rest =
          ap (λ k. take k (moved b n).buf) (omega (arith, held))
          ∙ take-overwrite b.buf 0 _ fits
          ∙ shrunk_contents b n h;
      fewer = refl;
      same_max = refl;
    }

pub reindexed-Inv : {b : SocketBuff} (index : ℕ) → Inv b → index ≤ b.len → Inv (set_index b index)
reindexed-Inv index v h = record {
  allocated = v.allocated;
  within = h;
  positive = v.positive;
  small = v.small;
  max_small = v.max_small;
  threshold = v.threshold;
  rate_small = v.rate_small;
}

-- With every byte taken there is nothing to move.
pub emptied-Shrunk :
    {b : SocketBuff} (n : ℕ)
    → Inv b
    → n ≤ b.index
    → b.index - n ≡ 0
    → Shrunk b n (set_index b (b.index - n))
emptied-Shrunk {b} n v h e = record {
  inv = reindexed-Inv (b.index - n) v (omega (arith, v.within));
  rest = ap (λ k. take k b.buf) e ∙ ap (λ k. take k (drop n b.buf)) (sym e) ∙ shrunk_contents b n h;
  fewer = refl;
  same_max = refl;
}

-- `shrinkFromFront` drops exactly the first `n` bytes.
pub shrink_from_front_lem :
    {b : SocketBuff} (n : ℕ) → Inv b → n ≤ b.index → Returns (Shrunk b n) (shrink_from_front b n)
unfolding shrink_from_front moved
shrink_from_front_lem {b} n v h = rw (ge→ltb b.index n h) (elim (Bool-cases (ltb 0 (b.index - n))) [
  | inl some_left ↦
      rw
        (
          some_left,
          mem_copy_lem b.buf 0 b.buf n (b.index - n) (omega (arith, v.allocated, v.within))
              (omega (arith, v.allocated, v.within)),
        )
        (returns (moved-Shrunk n v h))
  | inr none_left ↦ rw none_left (returns (emptied-Shrunk n v h (omega tests)))
])

-- A buffer as the constructor makes it.
pub record Fresh (rate : ℕ → ℕ) (max_buf_len : ℕ) (b : SocketBuff) : Type 0 where
  pub inv : Inv b
  pub empty : contents b ≡ []
  pub no_bytes : b.index ≡ 0
  pub first_len : b.len ≡ 512
  pub same_max : b.max_buf_len ≡ max_buf_len

-- The constructor makes an empty buffer of 512 bytes.
pub init_lem :
    (rate : ℕ → ℕ) (max_buf_len : ℕ)
    → ((n : ℕ) → rate n ≤ n)
    → max_buf_len < 2 ^ 29
    → Returns (Fresh rate max_buf_len) (init rate max_buf_len)
unfolding init set_new_size
init_lem rate max_buf_len rate_small small =
    let (b, e, g) = realloc_buf_lem (unallocated rate max_buf_len) 512 (record {
      source = omega arith;
      room = omega arith;
      positive = omega arith;
      small = omega arith;
      max_small = small;
      rate_small = rate_small;
    }) in
    rw e (
      returns (record {
        inv = g.inv;
        empty = g.same;
        no_bytes = g.same_index;
        first_len = g.new_len;
        same_max = g.same_max;
      }))

-- `addIndex` takes in the `n` bytes that were stored past the contents.
pub add_index_lem :
    {b : SocketBuff} (n : ℕ)
    → Inv b
    → b.index + n ≤ b.len
    → Returns
        (λ b'. Inv b' × (contents b' ≡ take (b.index + n) b.buf) × (b'.index ≡ b.index + n))
        (add_index b n)
unfolding add_index
add_index_lem {b} n v h =
    rw (gt→leb int_limit (b.index + n) (omega (arith, v.small)))
      (elim (Bool-cases (ltb (get_free_len b') connection_len)) [
        | inl short ↦
            let (b'', e, x) =
              expand_lem connection_len (reindexed-Inv (b.index + n) v h)
                (omega (arith, v.small)) in
            rw (short, e) (returns (x.inv, x.same, x.same_index))
        | inr roomy ↦ rw roomy (returns (reindexed-Inv (b.index + n) v h, refl, refl))
      ])
  where
    b' : SocketBuff
    b' = set_index b (b.index + n)

-- What `checkCanOp` leaves, and its answer: whether `n` more bytes stay under the threshold.
pub record Checked (b : SocketBuff) (n : ℕ) (r : SocketBuff × Bool) : Type 0 where
  pub inv : Inv r.0
  pub same : contents r.0 ≡ contents b
  pub same_index : r.0.index ≡ b.index
  pub same_max : r.0.max_buf_len ≡ b.max_buf_len
  pub answer : r.1 ≡ leb (r.0.index + n) r.0.can_len

-- `checkCanOp` returns and keeps the contents.
pub check_can_op_lem :
    {b : SocketBuff} (n : ℕ) → Inv b → n < 2 ^ 29 → Returns (Checked b n) (check_can_op b n)
unfolding check_can_op
check_can_op_lem {b} n v small = elim (Bool-cases (ltb b.can_len (b.index + n))) [
  | inl over ↦
      let (b', e, x) =
        expand_lem (b.index + n - b.can_len + connection_len) v
          (omega (arith, v.small, v.within)) in
      rw (over, e)
        (returns (record {
          inv = x.inv;
          same = x.same;
          same_index = x.same_index;
          same_max = x.same_max;
          answer = refl;
        }))
  | inr under ↦ rw under (
      returns (record {
        inv = v;
        same = refl;
        same_index = refl;
        same_max = refl;
        answer = sym (le→leb _ _ (ltb→ge b.can_len (b.index + n) under));
      }))
]
