-- ===== src/Stream/Tx/Direct.antt =====
-- `WriteMsg` from its `::send` on: how the stream changes with what the kernel and the buffer take.
use cpp_readline.Common.{
  ℕ, zero, suc, ◌-◌, ◌^◌, ◌≤◌, ◌<◌, ◌≡◌, sym, ap, ap₂, ◌∙◌, inl, inr, true, List, [], ◌++◌, arith,
  ltb, Bool-cases, append_assoc, append-nil, take-append-drop, take_all, drop, take, length,
  length-drop, ℤ, pos, negsuc, Returns, returns, Returns-bind, Returns-mono, tests, ltb→ge,
}
use cpp_readline.Memory.{Cell}
use cpp_readline.Sys.{SendReply, sent, sent_count}
use cpp_readline.SocketBuff.{SocketBuff, contents}
use cpp_readline.SocketBuff.Inv.{Inv}
use cpp_readline.Socket.{Socket, SocketStats, sys_err, no_space}
use cpp_readline.Stream.Tx.Cache.{minus_one, after_partial, after_direct}
use cpp_readline.Stream.Tx.Flow.{Keeps, Keeps-stats, Keeps-set_err, Cached, cache_msg_lem}

-- A stream in use: valid buffers, and an epoll object.
pub record IsOpen (s : Socket) : Type 0 where
  pub tx : Inv s.tx_buff
  pub rx : Inv s.rx_buff
  pub attached : s.listener.attached ≡ true

pub Keeps-IsOpen : {s s' : Socket} → IsOpen s → Keeps s s' → IsOpen s'
Keeps-IsOpen {s} {s'} o k = record {
  tx = k.tx;
  rx = rw k.rx o.rx;
  attached = ap (λ l. l.attached) k.listener ∙ o.attached;
}

pub Keeps-trans : {s t u : Socket} → Keeps s t → Keeps t u → Keeps s u
Keeps-trans k l = record {
  tx = l.tx;
  same_max = l.same_max ∙ k.same_max;
  listener = l.listener ∙ k.listener;
  rx = l.rx ∙ k.rx;
  ready = elim l.ready [
    | inl e ↦ elim k.ready [
      | inl e' ↦ inl (e ∙ e')
      | inr (inl e') ↦ inr (inl (e ∙ e'))
      | inr (inr e') ↦ inr (inr (e ∙ e'))
    ]
    | inr e ↦ inr e
  ];
}

-- How the stream can change from `before` while `msg` is written.
-- `torn n`: the kernel took the first `n` bytes and the buffer had no room for the rest.
pub data Outcome (msg before : List Cell) : ℤ → Socket → List Cell → Type 0 where
  accepted :
      {s : Socket} {after : List Cell}
      → after ≡ before ++ msg
      → Outcome msg before (pos (length msg)) s after
  refused : {s : Socket} {after : List Cell} → after ≡ before → Outcome msg before minus_one s after
  torn :
      {s : Socket} {after : List Cell} (n : ℕ)
      → 0 < n
      → n < length msg
      → after ≡ before ++ take n msg
      → s.last_err ≡ no_space
      → s.tx_buff.max_buf_len < length msg - n
      → Outcome msg before minus_one s after

-- After `::send` of the message itself, with the kernel's bytes `w'`.
pub record Direct (s : Socket) (msg w w' : List Cell) (r : ℤ × Socket) : Type 0 where
  pub keeps : Keeps s r.1
  pub outcome : Outcome msg w r.0 r.1 (w' ++ contents r.1.tx_buff)

Outcome-stats :
    {msg before after : List Cell} {r : ℤ} {s : Socket} (stats : SocketStats)
    → Outcome msg before r s after
    → Outcome msg before r (record s { stats = stats }) after
Outcome-stats stats (accepted e) = accepted e
Outcome-stats stats (refused e) = refused e
Outcome-stats stats (torn n some_sent some_left e err over) = torn n some_sent some_left e err over

after_partial-Keeps :
    (s : Socket) (len : ℕ) (r : ℤ × Socket) → Keeps s r.1 → Keeps s (after_partial len r).1
unfolding after_partial
after_partial-Keeps s len (pos ret, t) k = elim (Bool-cases (ltb 0 ret)) [
  | inl some_left ↦ rw some_left (Keeps-trans k (Keeps-stats t _ k.tx))
  | inr none_left ↦ rw none_left k
]
after_partial-Keeps s len (negsuc n, t) k = k

-- Counting changes neither the result nor the bytes.
after_partial-Outcome :
    (len : ℕ) (msg w w' : List Cell) (r : ℤ × Socket)
    → Outcome msg w r.0 r.1 (w' ++ contents r.1.tx_buff)
    → Outcome msg w
        (after_partial len r).0
        (after_partial len r).1
        (w' ++ contents (after_partial len r).1.tx_buff)
unfolding after_partial
after_partial-Outcome len msg w w' (pos ret, t) o = elim (Bool-cases (ltb 0 ret)) [
  | inl some_left ↦ rw some_left (Outcome-stats _ o)
  | inr none_left ↦ rw none_left o
]
after_partial-Outcome len msg w w' (negsuc n, t) o = o

pub empty-contents : (b : SocketBuff) → b.index ≡ 0 → contents b ≡ []
empty-contents b e = ap (λ k. take k b.buf) e

-- The kernel took `ret` bytes, and the rest was not queued.
uncached-Outcome :
    (t : Socket) (msg w after : List Cell) (ret : ℕ)
    → after ≡ w ++ take ret msg
    → t.last_err ≡ no_space
    → t.tx_buff.max_buf_len < length (drop ret msg)
    → Outcome msg w minus_one t after
uncached-Outcome t msg w after zero e err over = refused (e ∙ append-nil w)
uncached-Outcome t msg w after (suc n) e err over =
    torn (suc n) (omega arith) (omega (arith, length-drop (suc n) msg)) e err
      (omega (arith, length-drop (suc n) msg))

resumed-Outcome :
    (s : Socket) (msg w w' : List Cell) (ret : ℕ) (r : ℤ × Socket)
    → Inv s.tx_buff
    → s.tx_buff.index ≡ 0
    → w' ≡ w ++ take ret msg
    → Cached s (drop ret msg) (length msg) r
    → Outcome msg w r.0 r.1 (w' ++ contents r.1.tx_buff)
resumed-Outcome s msg w w' ret (r, t) v empty e c = elim c.outcome [
  | inl (whole, queued) ↦ rw whole (
      accepted (
        ap₂ ◌++◌ e (queued ∙ ap (λ x. x ++ drop ret msg) (empty-contents s.tx_buff empty))
        ∙ append_assoc w (take ret msg) (drop ret msg)
        ∙ ap (◌++◌ w) (take-append-drop ret msg)))
  | inr (minus, same, err, over) ↦ rw minus (
      uncached-Outcome t msg w _ ret
        (ap₂ ◌++◌ e (same ∙ empty-contents s.tx_buff empty) ∙ append-nil _) err
        (omega (arith, c.keeps.same_max)))
]

pub after_direct_lem :
    (s : Socket) (msg w w' : List Cell) (reply : SendReply)
    → Inv s.tx_buff
    → s.tx_buff.index ≡ 0
    → length msg < 2 ^ 29
    → sent_count reply ≤ length msg
    → w' ≡ w ++ take (sent_count reply) msg
    → Returns (Direct s msg w w') (after_direct s msg reply)
unfolding after_direct
after_direct_lem s msg w w' SendReply.retry v empty small le e =
    Returns-mono (cache_msg_lem s msg (length msg) v small)
      λ r c. record { keeps = c.keeps; outcome = resumed-Outcome s msg w w' 0 r v empty e c }
after_direct_lem s msg w w' SendReply.failed v empty small le e = returns (record {
  keeps = Keeps-set_err sys_err (Keeps-stats s _ v);
  outcome = refused (ap₂ ◌++◌ e (empty-contents s.tx_buff empty) ∙ append-nil _ ∙ append-nil w);
})
after_direct_lem s msg w w' (sent ret) v empty small le e =
    elim (Bool-cases (ltb ret (length msg))) [
      | inl part ↦ rw part (
          Returns-bind _
            (cache_msg_lem s (drop ret msg) (length msg) v (omega (arith, length-drop ret msg)))
            λ r c. returns (record {
              keeps = after_partial-Keeps s (length msg) r c.keeps;
              outcome =
                  after_partial-Outcome (length msg) msg w w' r
                    (resumed-Outcome s msg w w' ret r v empty e c);
            }))
      | inr whole ↦
          let all : ret ≡ length msg = omega (tests, ltb→ge ret (length msg) whole) in
          rw (whole, all)
            (returns (record {
              keeps = Keeps-stats s _ v;
              outcome = accepted (
                  ap₂ ◌++◌ (e ∙ ap (◌++◌ w) (take_all ret msg (omega arith)))
                    (empty-contents s.tx_buff empty)
                  ∙ append-nil _);
            }))
    ]

-- The stream may be written another way.
pub Outcome-move :
    {msg b b' a a' : List Cell} {r : ℤ} {s : Socket}
    → b ≡ b'
    → a' ≡ a
    → Outcome msg b r s a
    → Outcome msg b' r s a'
Outcome-move {msg} p q (accepted e) = accepted (q ∙ e ∙ ap (λ x. x ++ msg) p)
Outcome-move {msg} p q (refused e) = refused (q ∙ e ∙ p)
Outcome-move {msg} p q (torn n some_sent some_left e err over) =
    torn n some_sent some_left (q ∙ e ∙ ap (λ x. x ++ take n msg) p) err over

-- A message put behind cached bytes: whole or not at all.
pub Cached-Outcome :
    (s : Socket) (msg w : List Cell) (r : ℤ × Socket)
    → Cached s msg (length msg) r
    → Outcome msg (w ++ contents s.tx_buff) r.0 r.1 (w ++ contents r.1.tx_buff)
Cached-Outcome s msg w (r, t) c = elim c.outcome [
  | inl (whole, queued) ↦
      rw whole (accepted (ap (◌++◌ w) queued ∙ sym (append_assoc w (contents s.tx_buff) msg)))
  | inr (minus, same, _, _) ↦ rw minus (refused (ap (◌++◌ w) same))
]
