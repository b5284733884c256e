-- ===== src/Stream/Tx/Flow.antt =====
-- The stream of bytes that a socket writes: what the kernel took for sending, followed by what the
-- socket still holds. Every operation of the writing side extends it or leaves it alone.
use cpp_readline.Common.{
  ℕ, ◌+◌, ◌^◌, ◌≤◌, ◌<◌, ◌≡◌, refl, ap, ap₂, ◌∙◌, ◌⊎◌, inl, inr, Bool, true, false, if◌then◌else◌,
  List, ◌++◌, arith, ok, ltb, Bool-cases, append_assoc, append-nil, take-append-drop, take_all,
  drop, take, length, ℤ, pos, Returns, returns, Returns-bind, tests, ltb→ge, le→leb,
}
use cpp_readline.Memory.{Cell}
use cpp_readline.Sys.{Sys, SysLaws, SendReply, sent, sent_count, in_err_hup}
use cpp_readline.SocketBuff.{SocketBuff, contents}
use cpp_readline.SocketBuff.Inv.{Inv}
use cpp_readline.SocketBuff.Append.{Copied, copy_buf_lem, length-contents}
use cpp_readline.SocketBuff.Laws.{Shrunk, shrink_from_front_lem, check_can_op_lem, reindexed-Inv}
use cpp_readline.Epoll.{Env}
use cpp_readline.Epoll.Laws.{set_events_lem}
use cpp_readline.Socket.{
  Socket, SocketStats, Error, set_err, sys_err, connected, full, no_space, is_full,
}
use cpp_readline.Stream.Tx.Cache.{minus_one, cache_msg, after_copy, note_cached}
use cpp_readline.Stream.Tx.{
  after_flush, flush, do_write, assert_state, leave_full_partly, partly_sent, all_sent,
  after_set_events,
}

-- What the writing side keeps of a socket: valid buffers, and the same descriptor, epoll object and
-- reading side.
pub record Keeps (s s' : Socket) : Type 0 where
  pub tx : Inv s'.tx_buff
  pub same_max : s'.tx_buff.max_buf_len ≡ s.tx_buff.max_buf_len
  pub listener : s'.listener ≡ s.listener
  pub rx : s'.rx_buff ≡ s.rx_buff
  pub ready : (s'.state ≡ s.state) ⊎ ((s'.state ≡ connected) ⊎ (s'.state ≡ full))

-- How DO_CACHE_MSG ends.
pub record Cached (s : Socket) (msg : List Cell) (len : ℕ) (r : ℤ × Socket) : Type 0 where
  pub keeps : Keeps s r.1
  pub outcome :
      ((r.0 ≡ pos len) × (contents r.1.tx_buff ≡ contents s.tx_buff ++ msg))
      ⊎ ((r.0 ≡ minus_one)
          × (contents r.1.tx_buff ≡ contents s.tx_buff)
          × (r.1.last_err ≡ no_space)
          × (s.tx_buff.max_buf_len < s.tx_buff.index + length msg))

note_cached-Keeps :
    (s : Socket) (msg : List Cell) (len : ℕ) (tx : SocketBuff) (below : Bool)
    → Inv tx
    → tx.max_buf_len ≡ s.tx_buff.max_buf_len
    → Keeps s (note_cached s msg len (tx, below)).1
unfolding note_cached
note_cached-Keeps s msg len tx true v e = record {
  tx = v;
  same_max = e;
  listener = refl;
  rx = refl;
  ready = inl refl;
}
note_cached-Keeps s msg len tx false v e = record {
  tx = v;
  same_max = e;
  listener = refl;
  rx = refl;
  ready = inr (inr refl);
}

after_copy_lem :
    (s : Socket) (msg : List Cell) (len : ℕ) (r : SocketBuff × Bool)
    → Copied s.tx_buff msg r
    → Returns (Cached s msg len) (after_copy s msg len r)
unfolding after_copy
after_copy_lem s msg len (tx, true) c =
    Returns-bind _ (check_can_op_lem 0 c.inv (omega arith)) λ (tx', below) k. returns (record {
      keeps = note_cached-Keeps s msg len tx' below k.inv (k.same_max ∙ c.same_max);
      outcome = elim c.outcome [
        | inl (_, queued, _) ↦ inl (refl, k.same ∙ queued)
        | inr (e, _, _) ↦ cc
      ];
    })
after_copy_lem s msg len (tx, false) c = elim c.outcome [
  | inl (e, _, _) ↦ cc
  | inr (_, same, over) ↦ returns (record {
    keeps = record {
      tx = c.inv;
      same_max = c.same_max;
      listener = refl;
      rx = refl;
      ready = inl refl;
    };
    outcome = inr (refl, same, refl, omega arith);
  })
]

pub cache_msg_lem :
    (s : Socket) (msg : List Cell) (len : ℕ)
    → Inv s.tx_buff
    → length msg < 2 ^ 29
    → Returns (Cached s msg len) (cache_msg s msg len)
unfolding cache_msg
cache_msg_lem s msg len v small =
    Returns-bind _ (copy_buf_lem msg v small) (after_copy_lem s msg len)

Keeps-leave_full :
    {s t : Socket} (tx : SocketBuff) (below : Bool)
    → Keeps s t
    → Inv tx
    → tx.max_buf_len ≡ t.tx_buff.max_buf_len
    → is_full t.state ≡ true
    → Keeps s (record t { tx_buff = tx; state = if below then connected else t.state })
Keeps-leave_full tx true k v e full_now = record {
  tx = v;
  same_max = e ∙ k.same_max;
  listener = k.listener;
  rx = k.rx;
  ready = inr (inl refl);
}
Keeps-leave_full tx false k v e full_now = record {
  tx = v;
  same_max = e ∙ k.same_max;
  listener = k.listener;
  rx = k.rx;
  ready = k.ready;
}

-- Whether or not it leaves `FULL`, the cached bytes stay.
leave_full_partly_lem :
    (s t : Socket)
    → Keeps s t
    → Returns (λ u. Keeps s u × (contents u.tx_buff ≡ contents t.tx_buff)) (leave_full_partly t)
unfolding leave_full_partly
leave_full_partly_lem s t k = elim (Bool-cases (is_full t.state)) [
  | inr ready ↦ rw ready (returns (k, refl))
  | inl stuck ↦ rw stuck (
      Returns-bind _ (check_can_op_lem 0 k.tx (omega arith))
        λ (tx, below) c. returns (Keeps-leave_full tx below k c.inv c.same_max stuck, c.same))
]

partly_sent-Keeps :
    (s : Socket) (ret : ℕ) (tx : SocketBuff)
    → Shrunk s.tx_buff ret tx
    → Keeps s (partly_sent s ret tx)
unfolding partly_sent
partly_sent-Keeps s ret tx k = record {
  tx = k.inv;
  same_max = k.same_max;
  listener = refl;
  rx = refl;
  ready = inl refl;
}

all_sent-Keeps : (s : Socket) (ret : ℕ) → Inv s.tx_buff → Keeps s (all_sent s ret)
unfolding all_sent
all_sent-Keeps s ret v = record {
  tx = reindexed-Inv 0 v (omega arith);
  same_max = refl;
  listener = refl;
  rx = refl;
  ready = ground arith;
}

pub Keeps-stats :
    (s : Socket) (stats : SocketStats) → Inv s.tx_buff → Keeps s (record s { stats = stats })
Keeps-stats s stats v = record {
  tx = v;
  same_max = refl;
  listener = refl;
  rx = refl;
  ready = inl refl;
}

pub Keeps-set_err : {s t : Socket} (err : Error) → Keeps s t → Keeps s (set_err t err)
Keeps-set_err err k = record {
  tx = k.tx;
  same_max = k.same_max;
  listener = k.listener;
  rx = k.rx;
  ready = k.ready;
}

module _ (sys : Sys) (laws : SysLaws sys) where
  open laws use {wire, wire-send, send-le}

  -- What the peer will have read once everything is sent.
  abbrev pub flow : Socket → Env sys → List Cell
  flow s env = wire env.kernel s.listener.fd ++ contents s.tx_buff

  -- `r` keeps the stream of `s`, to which `::send` may already have moved bytes.
  pub record Flushed (s : Socket) (before : List Cell) (r : ℤ × Socket × Env sys) : Type 0 where
    pub keeps : Keeps s r.1
    pub same_flow : flow r.1 r.2 ≡ before

  -- The bytes that `::send` took, then those it left.
  resumed : (w c : List Cell) (n : ℕ) → w ++ take n c ++ drop n c ≡ w ++ c
  resumed w c n = append_assoc w (take n c) (drop n c) ∙ ap (◌++◌ w) (take-append-drop n c)

  after_set_events_lem :
      (s t : Socket) (before : List Cell) (ret : ℕ) (r : Bool × Env sys)
      → Keeps s t
      → flow t r.1 ≡ before
      → Flushed s before (after_set_events sys t ret r)
  unfolding after_set_events
  after_set_events_lem s t before ret (true, env) k e = record { keeps = k; same_flow = e }
  after_set_events_lem s t before ret (false, env) k e = record {
    keeps = Keeps-set_err sys_err k;
    same_flow = e;
  }

  after_flush_lem :
      (s : Socket) (w : List Cell) (reply : SendReply) (env : Env sys)
      → Inv s.tx_buff
      → s.listener.attached ≡ true
      → sent_count reply ≤ s.tx_buff.index
      → wire env.kernel s.listener.fd ≡ w ++ take (sent_count reply) (contents s.tx_buff)
      → Returns (Flushed s (w ++ contents s.tx_buff)) (after_flush sys s reply env)
  unfolding after_flush
  after_flush_lem s w SendReply.retry env v att le e = returns (record {
    keeps = Keeps-stats s _ v;
    same_flow = ap (λ x. x ++ contents s.tx_buff) (e ∙ append-nil w);
  })
  after_flush_lem s w SendReply.failed env v att le e = returns (record {
    keeps = Keeps-stats s _ v;
    same_flow = ap (λ x. x ++ contents s.tx_buff) (e ∙ append-nil w);
  })
  after_flush_lem s w (sent ret) env v att le e = elim (Bool-cases (ltb ret s.tx_buff.index)) [
    | inl part ↦ rw part (
        Returns-bind _ (shrink_from_front_lem ret v le) λ tx k.
          Returns-bind _ (leave_full_partly_lem s _ (partly_sent-Keeps s ret tx k)) λ t h.
            returns (record {
              keeps = h.0;
              same_flow =
                  ap (λ l. wire env.kernel l.fd ++ contents t.tx_buff) h.0.listener
                  ∙ ap₂ ◌++◌ e (h.1 ∙ k.rest)
                  ∙ resumed w (contents s.tx_buff) ret;
            }))
    | inr all ↦ rw all (
        Returns-bind _ (set_events_lem sys laws s.listener in_err_hup env att) λ r h. returns (
          after_set_events_lem s _ _ ret r (all_sent-Keeps s ret v) (
            append-nil _
            ∙ h s.listener.fd
            ∙ e
            ∙ ap (◌++◌ w) (
                take_all ret (contents s.tx_buff)
                  (omega (tests, length-contents v, ltb→ge ret s.tx_buff.index all))))))
  ]

  flush_lem :
      (s : Socket) (env : Env sys)
      → Inv s.tx_buff
      → s.listener.attached ≡ true
      → Returns (Flushed s (flow s env)) (flush sys s env)
  unfolding flush
  flush_lem s env v att =
      after_flush_lem s (wire env.kernel s.listener.fd)
        (sys.send env.kernel s.listener.fd (contents s.tx_buff)).0 _ v att
        (omega (arith, send-le env.kernel s.listener.fd (contents s.tx_buff), length-contents v))
        (wire-send env.kernel s.listener.fd (contents s.tx_buff))

  -- `DoWrite`, where its assertion passes, returns and keeps the stream, whether it sends all of
  -- the cached bytes, some, none, or fails.
  pub do_write_lem :
      (s : Socket) (env : Env sys)
      → Inv s.tx_buff
      → s.listener.attached ≡ true
      → assert_state sys s ≡ ok tt
      → Returns (Flushed s (flow s env)) (do_write sys s env)
  unfolding do_write
  do_write_lem s env v att passes = rw passes (elim (Bool-cases (ltb 0 s.tx_buff.index)) [
    | inl cached ↦
        rw
          (
            cached,
            le→leb s.tx_buff.index (length s.tx_buff.buf) (omega (arith, v.allocated, v.within)),
          )
          (flush_lem s env v att)
    | inr nothing ↦
        rw nothing (returns (record { keeps = Keeps-stats s s.stats v; same_flow = refl }))
  ])
