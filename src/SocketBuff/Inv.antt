-- ===== src/SocketBuff/Inv.antt =====
-- The invariant of a buffer, and that reallocation keeps it with its contents.
use cpp_readline.Common.{
  ℕ, ◌+◌, ◌≤◌, ◌<◌, ◌≡◌, refl, true, length, take, arith, tests, ok, ltb, leb, ◌==◌, ==→≡, ltb→lt,
  leb→le, leb→gt, Bool, false, Bool-cases, inl, inr, Returns, returns, length-take,
  length-replicate, ◌∙◌, ap, ◌^◌, none, sym, lt→ltb,
}
use cpp_readline.Memory.{new_char, mem_copy_lem, overwrite, length-overwrite, take-overwrite}
use cpp_readline.SocketBuff.{SocketBuff, contents, recompute_can_len, realloc_buf, set_new_size}

-- The array has the 8 bytes past `m_len`; the index stays inside; lengths can be doubled once.
pub record Inv (b : SocketBuff) : Type 0 where
  pub allocated : length b.buf ≡ b.len + 8
  pub within : b.index ≤ b.len
  pub positive : 0 < b.len
  pub small : b.len < 2 ^ 29
  pub max_small : b.max_buf_len < 2 ^ 29
  pub threshold : b.can_len ≤ b.len
  pub rate_small : (n : ℕ) → b.can_rate n ≤ n

pub recompute_can_len-le : (rate : ℕ → ℕ) (n : ℕ) → rate n ≤ n → recompute_can_len rate n ≤ n
recompute_can_len-le rate n h = ground arith

-- What a reallocation keeps, beside the invariant.
pub record Grown (b : SocketBuff) (len : ℕ) (b' : SocketBuff) : Type 0 where
  pub inv : Inv b'
  pub same : contents b' ≡ contents b
  pub same_index : b'.index ≡ b.index
  pub same_max : b'.max_buf_len ≡ b.max_buf_len
  pub new_len : b'.len ≡ len

resized : SocketBuff → ℕ → SocketBuff
resized b len = record b {
  buf = overwrite (new_char (len + 8)) 0 (take b.index b.buf);
  len = len;
  can_len = recompute_can_len b.can_rate len;
}

-- What a reallocation needs: the array holds the contents, and the new length has room for them.
pub record Resizable (b : SocketBuff) (len : ℕ) : Type 0 where
  pub source : b.index ≤ length b.buf
  pub room : b.index ≤ len
  pub positive : 0 < len
  pub small : len < 2 ^ 29
  pub max_small : b.max_buf_len < 2 ^ 29
  pub rate_small : (n : ℕ) → b.can_rate n ≤ n

module _ (b : SocketBuff) (len : ℕ) (h : Resizable b len) where
  length-kept : length (take b.index b.buf) ≡ b.index
  length-kept = omega (arith, length-take b.index b.buf, h.source)

  length-new : length (new_char (len + 8)) ≡ len + 8
  length-new = length-replicate (len + 8) none

  length-resized : length (resized b len).buf ≡ len + 8
  unfolding resized
  length-resized =
      length-overwrite _ 0 (take b.index b.buf) (omega (arith, length-kept, length-new, h.room))
      ∙ length-new

  contents-resized : contents (resized b len) ≡ contents b
  unfolding resized
  contents-resized =
      ap (λ k. take k (resized b len).buf) (sym (omega (arith, length-kept)))
      ∙ take-overwrite (new_char (len + 8)) 0 (take b.index b.buf)
          (omega (arith, length-kept, length-new, h.room))

  resized-Grown : Grown b len (resized b len)
  unfolding resized
  resized-Grown = record {
    inv = record {
      allocated = length-resized;
      within = h.room;
      positive = h.positive;
      small = h.small;
      max_small = h.max_small;
      threshold = recompute_can_len-le b.can_rate len (h.rate_small len);
      rate_small = h.rate_small;
    };
    same = contents-resized;
    same_index = refl;
    same_max = refl;
    new_len = refl;
  }

  pub realloc_buf_lem : (b' : SocketBuff) × (realloc_buf b len ≡ ok (b', true)) × Grown b len b'
  unfolding realloc_buf resized
  realloc_buf_lem = (
    resized b len,
    rw (
        mem_copy_lem (new_char (len + 8)) 0 b.buf 0 b.index (omega (arith, h.source))
          (omega (arith, length-new, h.room))),
    resized-Grown,
  )

-- A buffer in use can be given any length that holds its contents.
pub Inv-Resizable :
    {b : SocketBuff} {len : ℕ} → Inv b → b.index ≤ len → 0 < len → len < 2 ^ 29 → Resizable b len
Inv-Resizable v room positive small = record {
  source = omega (arith, v.allocated, v.within);
  room = room;
  positive = positive;
  small = small;
  max_small = v.max_small;
  rate_small = v.rate_small;
}

-- `setNewSize` to a larger length succeeds.
pub set_new_size_grow :
    {b : SocketBuff} {len : ℕ}
    → Inv b
    → b.len < len
    → len < 2 ^ 29
    → (b' : SocketBuff) × (set_new_size b len ≡ ok (b', true)) × Grown b len b'
unfolding set_new_size
set_new_size_grow {b} {len} v h small =
    let (b', e, g) =
      realloc_buf_lem b len (Inv-Resizable v (omega (arith, v.within)) (omega arith) small) in
    (b', rw (lt→ltb b.len len h) e, g)

-- How `setNewSize` ends: with the length asked for and the same contents, or refused, with nothing changed,
-- which it may be only for a length that would not hold the contents or just holds them.
pub data Resized (b : SocketBuff) (len : ℕ) : SocketBuff × Bool → Type 0 where
  resized_to : {b' : SocketBuff} → Grown b len b' → Resized b len (b', true)
  kept : len ≤ b.index → Resized b len (b, false)

same-Grown : {b : SocketBuff} {len : ℕ} → Inv b → b.len ≡ len → Grown b len b
same-Grown v e = record { inv = v; same = refl; same_index = refl; same_max = refl; new_len = e }

realloc-Resized :
    {b : SocketBuff} {len : ℕ}
    → Inv b
    → b.index ≤ len
    → 0 < len
    → len < 2 ^ 29
    → Returns (Resized b len) (realloc_buf b len)
realloc-Resized {b} {len} v room positive small =
    let (b', e, g) = realloc_buf_lem b len (Inv-Resizable v room positive small) in
    rw e (returns (resized_to g))

pub set_new_size_lem :
    {b : SocketBuff} (len : ℕ) → Inv b → len < 2 ^ 29 → Returns (Resized b len) (set_new_size b len)
unfolding set_new_size
set_new_size_lem {b} len v small = elim (Bool-cases (ltb b.len len)) [
  | inl more ↦ rw more (
      realloc-Resized v (omega (tests, v.within, ltb→lt b.len len more))
        (omega (tests, ltb→lt b.len len more)) small)
  | inr no_more ↦ rw no_more (elim (Bool-cases (len == b.len)) [
    | inl same ↦ rw same (returns (resized_to (same-Grown v (sym (==→≡ len b.len same)))))
    | inr other ↦ rw other (elim (Bool-cases (leb len b.index)) [
      | inl tight ↦ rw tight (returns (kept (leb→le len b.index tight)))
      | inr loose ↦ rw loose (
          realloc-Resized v (omega (tests, leb→gt len b.index loose))
            (omega (tests, leb→gt len b.index loose)) small)
    ])
  ])
]

pub Resized-Inv :
    {b : SocketBuff} {len : ℕ} {c : SocketBuff × Bool} → Inv b → Resized b len c → Inv c.0
Resized-Inv v (resized_to g) = g.inv
Resized-Inv v (kept tight) = v
