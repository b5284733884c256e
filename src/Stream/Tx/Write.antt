-- ===== src/Stream/Tx/Write.antt =====
-- `WriteMsg`: a message is accepted whole, refused whole, or torn.
use cpp_readline.Common.{
  ℕ, ◌^◌, ◌<◌, ◌≡◌, refl, sym, ap, ◌∙◌, inl, inr, true, List, [], ◌∷◌, ◌++◌, ok, ltb, Bool-cases,
  append-nil, length, ℤ, pos, negsuc, Returns, returns, Returns-bind, Returns-mono, tests, ltb→ge,
  some, and_false,
}
use cpp_readline.Memory.{Cell}
use cpp_readline.Sys.{Sys, SysLaws}
use cpp_readline.SocketBuff.{contents}
use cpp_readline.SocketBuff.Inv.{Inv}
use cpp_readline.Epoll.{Env}
use cpp_readline.Socket.{Socket, param_err, not_ready, is_connected}
use cpp_readline.Stream.Tx.{
  send_direct, queue_or_send, after_do_write, write_nonempty, write_msg, assert_state,
  count_refused, refuse_param,
}
use cpp_readline.Stream.Tx.Flow.{
  Keeps, Keeps-stats, Keeps-set_err, cache_msg_lem, flow, Flushed, do_write_lem,
}
use cpp_readline.Stream.Tx.Direct.{
  IsOpen, Keeps-trans, Outcome, Outcome-move, Cached-Outcome, empty-contents, refused,
  after_direct_lem,
}

module _ (sys : Sys) (laws : SysLaws sys) where
  open laws use {wire, wire-send, send-le}

  pub record Written (s : Socket) (msg before : List Cell) (r : ℤ × Socket × Env sys) : Type 0 where
    pub keeps : Keeps s r.1
    pub outcome : Outcome msg before r.0 r.1 (flow sys laws r.1 r.2)

  send_direct_lem :
      (s : Socket) (msg : List Cell) (env : Env sys)
      → Inv s.tx_buff
      → s.tx_buff.index ≡ 0
      → length msg < 2 ^ 29
      → Returns (Written s msg (flow sys laws s env)) (send_direct sys s msg env)
  unfolding send_direct
  send_direct_lem s msg env v empty small =
      Returns-bind _
        (after_direct_lem s msg (wire env.kernel s.listener.fd) _
          (sys.send env.kernel s.listener.fd msg).0 v empty small
          (send-le env.kernel s.listener.fd msg) (wire-send env.kernel s.listener.fd msg))
        λ r d. returns (record {
          keeps = d.keeps;
          outcome =
              Outcome-move
                (sym (append-nil _)
                  ∙ ap (◌++◌ (wire env.kernel s.listener.fd))
                      (sym (empty-contents s.tx_buff empty)))
                (ap
                  (λ l. wire (sys.send env.kernel s.listener.fd msg).1 l.fd ++ contents r.1.tx_buff)
                  d.keeps.listener)
                d.outcome;
        })

  queue_or_send_lem :
      (s : Socket) (msg : List Cell) (env : Env sys)
      → Inv s.tx_buff
      → length msg < 2 ^ 29
      → Returns (Written s msg (flow sys laws s env)) (queue_or_send sys s msg env)
  unfolding queue_or_send
  queue_or_send_lem s msg env v small = elim (Bool-cases (ltb 0 s.tx_buff.index)) [
    | inl cached ↦ rw cached (
        Returns-bind _ (cache_msg_lem s msg (length msg) v small) λ r c. returns (record {
          keeps = c.keeps;
          outcome =
              Outcome-move refl
                (ap (λ l. wire env.kernel l.fd ++ contents r.1.tx_buff) c.keeps.listener)
                (Cached-Outcome s msg _ r c);
        }))
    | inr nothing ↦
        rw nothing
          (send_direct_lem s msg env v (omega (tests, ltb→ge 0 s.tx_buff.index nothing)) small)
  ]

  count_refused-Keeps : (s t : Socket) (len : ℕ) → Keeps s t → Keeps s (count_refused t len)
  unfolding count_refused
  count_refused-Keeps s t len k = Keeps-trans k (Keeps-stats t _ k.tx)

  after_do_write_lem :
      (s : Socket) (msg before : List Cell) (r : ℤ × Socket × Env sys)
      → length msg < 2 ^ 29
      → Flushed sys laws s before r
      → Returns (Written s msg before) (after_do_write sys msg r)
  unfolding after_do_write count_refused
  after_do_write_lem s msg before (pos ret, t, env) small f =
      Returns-mono (queue_or_send_lem t msg env f.keeps.tx small) λ r w. record {
        keeps = Keeps-trans f.keeps w.keeps;
        outcome = Outcome-move f.same_flow refl w.outcome;
      }
  after_do_write_lem s msg before (negsuc n, t, env) small f = returns (record {
    keeps = count_refused-Keeps s t (length msg) f.keeps;
    outcome = refused f.same_flow;
  })

  connected_passes : (s : Socket) → is_connected s.state ≡ true → assert_state sys s ≡ ok tt
  connected_passes s e = rw (e, and_false)

  write_nonempty_lem :
      (s : Socket) (msg : List Cell) (env : Env sys)
      → IsOpen s
      → length msg < 2 ^ 29
      → Returns (Written s msg (flow sys laws s env)) (write_nonempty sys s msg env)
  unfolding write_nonempty count_refused
  write_nonempty_lem s msg env o small = elim (Bool-cases (is_connected s.state)) [
    | inr unready ↦ rw unready (
        returns (record {
          keeps = Keeps-set_err not_ready (Keeps-stats s _ o.tx);
          outcome = refused refl;
        }))
    | inl ready ↦ rw ready (elim (Bool-cases (ltb 0 s.tx_buff.index)) [
      | inl cached ↦ rw cached (
          Returns-bind _ (do_write_lem sys laws s env o.tx o.attached (connected_passes s ready))
            λ r f. after_do_write_lem s msg _ r small f)
      | inr nothing ↦ rw nothing (queue_or_send_lem s msg env o.tx small)
    ])
  ]

  -- `WriteMsg` on an open stream returns, and changes the stream in one of three ways. It returns
  -- `len` and the whole message is behind the bytes of before, sent or cached. Or it returns -1 and
  -- the stream is as before. Or it returns -1 with NO_SPACE where the kernel took a proper prefix
  -- of the message and the rest is longer than the largest buffer: that prefix stays in the stream.
  pub write_msg_lem :
      (s : Socket) (msg : List Cell) (env : Env sys)
      → IsOpen s
      → length msg < 2 ^ 29
      → Returns (Written s msg (flow sys laws s env)) (write_msg sys s (some msg) env)
  unfolding write_msg refuse_param
  write_msg_lem s [] env o small =
      returns
        (record { keeps = Keeps-set_err param_err (Keeps-stats s _ o.tx); outcome = refused refl })
  write_msg_lem s (c ∷ msg) env o small = write_nonempty_lem s (c ∷ msg) env o small
