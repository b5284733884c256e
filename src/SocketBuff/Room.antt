-- ===== src/SocketBuff/Room.antt =====
-- `expand`: its loop ends within the fuel and overflows no `int`, and how long the buffer becomes.
use cpp_readline.Common.{
  ℕ, zero, suc, ◌+◌, ◌*◌, ◌^◌, ◌≤◌, ◌<◌, ◌≡◌, refl, ◌⊎◌, inl, inr, arith, ok, ltb, leb, Bool-cases,
  int_limit, ltb→lt, ltb→ge, tests, ◌==◌, max, ◌∙◌,
}
use cpp_readline.SocketBuff.{SocketBuff, contents, expand_loop, expand_fuel, expand}
use cpp_readline.SocketBuff.Inv.{Inv, Grown, set_new_size_grow}

-- `n` after `suc k` doublings
abbrev doubled : ℕ → ℕ → ℕ
doubled zero n = n * 2
doubled (suc k) n = doubled k (n * 2)

doubled_mono : (k : ℕ) {m n : ℕ} → m ≤ n → doubled k m ≤ doubled k n
doubled_mono zero h = omega arith
doubled_mono (suc k) h = doubled_mono k (omega arith)

-- Where the loop stops: at the largest length, or at one with the room asked for.
abbrev Enough : SocketBuff → ℕ → ℕ → Type 0
Enough b want n = (n ≡ b.max_buf_len) ⊎ ((b.len + want ≤ n) × (n ≤ b.max_buf_len))

module _ (b : SocketBuff) (want : ℕ) (room : b.len + want < int_limit)
    (small : b.max_buf_len < 2 ^ 29) where
  -- A round that neither stops nor overflows goes on with the doubled length.
  expand_loop-suc :
      (fuel n : ℕ)
      → n < 2 ^ 29
      → n * 2 ≤ b.max_buf_len
      → n * 2 < b.len + want
      → expand_loop (suc fuel) b want n ≡ expand_loop fuel b want (n * 2)
  unfolding expand_loop
  expand_loop-suc fuel n h below short = ground arith

  expand_loop_lem :
      (k n : ℕ)
      → n < 2 ^ 29
      → b.max_buf_len < doubled k n
      → (m : ℕ) × (expand_loop (suc k) b want n ≡ ok m) × Enough b want m
  unfolding expand_loop
  expand_loop_lem zero n h over = (b.max_buf_len, ground arith, inl refl)
  expand_loop_lem (suc k) n h over = elim (Bool-cases (ltb b.max_buf_len (n * 2))) [
    | inl past ↦ (b.max_buf_len, ground arith, inl refl)
    | inr below ↦ elim (Bool-cases (leb (b.len + want) (n * 2))) [
      | inl fits ↦ (n * 2, ground arith, inr (omega tests, omega tests))
      | inr short ↦
          let (m, e, p) = expand_loop_lem k (n * 2) (omega tests) over in
          (m, expand_loop-suc (suc k) n h (omega tests) (omega tests) ∙ e, p)
    ]
  ]

  expand_loop-Enough :
      0 < b.len
      → b.len < 2 ^ 29
      → (m : ℕ) × (expand_loop expand_fuel b want b.len ≡ ok m) × Enough b want m
  expand_loop-Enough pos h =
      expand_loop_lem 30 b.len h (omega (arith, doubled_mono 30 {m = 1} {n = b.len} (omega arith)))

-- What `expand` promises: the contents stay, and either the room asked for is there or the buffer
-- has its largest length.
pub record Expanded (b : SocketBuff) (want : ℕ) (b' : SocketBuff) : Type 0 where
  pub inv : Inv b'
  pub same : contents b' ≡ contents b
  pub same_index : b'.index ≡ b.index
  pub same_max : b'.max_buf_len ≡ b.max_buf_len
  pub longer : b.len ≤ b'.len
  pub capped : b'.len ≤ max b.len b.max_buf_len
  pub enough : (b'.len ≡ max b.len b.max_buf_len) ⊎ (b.len + want ≤ b'.len)

Expanded-self :
    {b : SocketBuff} (want : ℕ) → Inv b → (want ≡ 0) ⊎ (b.max_buf_len ≤ b.len) → Expanded b want b
Expanded-self {b} want v done = record {
  inv = v;
  same = refl;
  same_index = refl;
  same_max = refl;
  longer = omega arith;
  capped = omega arith;
  enough = elim done [ inl none_asked ↦ inr (omega arith) | inr at_most ↦ inl (omega arith) ];
}

Grown-Expanded :
    {b b' : SocketBuff} {n : ℕ} (want : ℕ)
    → Grown b n b'
    → b.len < n
    → Enough b want n
    → Expanded b want b'
Grown-Expanded {b} {b'} {n} want g h e = record {
  inv = g.inv;
  same = g.same;
  same_index = g.same_index;
  same_max = g.same_max;
  longer = omega (arith, g.new_len);
  capped = elim e [ inl top ↦ omega (arith, g.new_len) | inr fits ↦ omega (arith, g.new_len) ];
  enough = elim e [
    | inl top ↦ inl (omega (arith, g.new_len))
    | inr fits ↦ inr (omega (arith, g.new_len))
  ];
}

settled :
    (b : SocketBuff) (want : ℕ) {n : ℕ}
    → Enough b want n
    → n ≤ b.len
    → (want ≡ 0) ⊎ (b.max_buf_len ≤ b.len)
settled b want (inl top) h = inr (omega arith)
settled b want (inr fits) h = inl (omega arith)

-- `expand` on a valid buffer returns, where the buffer's length and the request together are below 2^31, so
-- that the sum of an `int` holds them.
pub expand_lem :
    {b : SocketBuff} (want : ℕ)
    → Inv b
    → b.len + want < int_limit
    → (b' : SocketBuff) × (expand b want ≡ ok b') × Expanded b want b'
unfolding expand
expand_lem {b} want v room = elim (Bool-cases (want == 0)) [
  | inl zero_asked ↦ (b, rw zero_asked refl, Expanded-self want v (inl (ground arith)))
  | inr asked ↦
      let (n, e, enough) = expand_loop-Enough b want room v.max_small v.positive v.small in
      elim (Bool-cases (ltb b.len n)) [
        | inl more ↦
            let (b', e', g) =
              set_new_size_grow v (ltb→lt b.len n more) (omega (arith, v.max_small)) in
            (b', rw (asked, e, more, e') refl, Grown-Expanded want g (ltb→lt b.len n more) enough)
        | inr no_more ↦ (
          b,
          rw (asked, e, no_more) refl,
          Expanded-self want v (settled b want enough (ltb→ge b.len n no_more)),
        )
      ]
]
