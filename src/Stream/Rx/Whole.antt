-- ===== src/Stream/Rx/Whole.antt =====
-- `ReadMsg` as a whole: no byte from the kernel is lost, repeated or reordered.
use cpp_readline.Common.{
  ℕ, ◌≤◌, ◌<◌, ◌≡◌, sym, ◌∙◌, ◌⊎◌, inl, inr, true, false, List, [], ◌++◌, arith, ok, ltb, ◌==◌,
  Bool-cases, ◌||◌, refl, append-nil, ℤ, pos, negsuc, Returns, returns, Returns-bind, Returns-mono,
  ◌>>=◌, Result, fault, assertion, guard-cases, assert_breaks, guard, not, ◌&&◌, Bool,
}
use cpp_readline.Memory.{Cell}
use cpp_readline.Sys.{Sys, SysLaws, Fd, received_bytes}
use cpp_readline.SocketBuff.{contents, get_free_len}
use cpp_readline.SocketBuff.Inv.{Inv}
use cpp_readline.Epoll.{Env}
use cpp_readline.Socket.{
  Socket, SocketStats, is_stream_ready, State, created, listening, connecting, connected, full,
  failed, is_connected, is_full,
}
use cpp_readline.Stream.Tx.Cache.{minus_one}
use cpp_readline.Stream.Tx.{assert_state}
use cpp_readline.Stream.Rx.{
  Read, rx_cache, after_do_read, deliver, count_rx_err, count_rx_cache, do_recv, do_read,
  read_ready, read_msg, max_stream_read,
}
use cpp_readline.Stream.Rx.Flow.{Keeps, Outcome, broken, deliver_lem, Received, after_recv_lem}

Keeps-trans : {s t u : Socket} → Keeps s t → Keeps t u → Keeps s u
Keeps-trans k l = record {
  rx = l.rx;
  listener = l.listener ∙ k.listener;
  tx = l.tx ∙ k.tx;
  state = l.state ∙ k.state;
}

counted-Keeps :
    {s t : Socket} (stats : SocketStats) → Keeps s t → Keeps s (record t { stats = stats })
counted-Keeps stats k = record { rx = k.rx; listener = k.listener; tx = k.tx; state = k.state }

-- `s` was read into from a socket whose cached bytes, with the new ones, are `inbound`.
after_do_read_lem :
    (s : Socket) (inbound : List Cell) (len : ℕ) (r : ℤ × Socket)
    → Keeps s r.1
    → contents r.1.rx_buff ≡ inbound
    → (r.0 ≡ minus_one) ⊎ ((n : ℕ) × (r.0 ≡ pos n))
    → Returns
        (λ q. Keeps s q.1 × Outcome len inbound q.0 (contents q.1.rx_buff))
        (after_do_read len r)
unfolding after_do_read count_rx_err
after_do_read_lem s inbound len (negsuc n, t) k e why = elim why [
  | inl minus ↦ rw minus (returns (counted-Keeps _ k, broken e))
  | inr (m, odd) ↦ cc
]
after_do_read_lem s inbound len (pos n, t) k e why = rw (sym e) (elim (Bool-cases (ltb 0 n)) [
  | inl some_new ↦ rw some_new (
      Returns-mono (deliver_lem (count_rx_cache t n) len k.rx)
        λ q d. (Keeps-trans (counted-Keeps _ k) d.keeps, d.outcome))
  | inr none_new ↦
      rw none_new (Returns-mono (deliver_lem t len k.rx) λ q d. (Keeps-trans k d.keeps, d.outcome))
])

-- the assertion of `DoRead` and `DoWrite` breaks in the state FULL only
full_only :
    (asserts : Bool) (st : State)
    → guard (not (asserts && not (is_connected st || not (is_full st)))) assertion ≡ fault assertion
    → st ≡ full
full_only asserts full e = refl
full_only true created e = cc
full_only false created e = cc
full_only true listening e = cc
full_only false listening e = cc
full_only true connecting e = cc
full_only false connecting e = cc
full_only true connected e = cc
full_only false connected e = cc
full_only true failed e = cc
full_only false failed e = cc

module _ (sys : Sys) (laws : SysLaws sys) where
  open laws use {wire, wire-recv, taken, recv-le, taken-recv}

  -- A read of `len` bytes: the bytes `new` came from the kernel, and the cached bytes of before with
  -- them are what was delivered and what is cached now.
  pub record ReadDone (s : Socket) (len : ℕ) (env : Env sys) (r : Read × Socket × Env sys)
      : Type 0 where
    pub keeps : Keeps s r.1
    pub new : List Cell
    pub fetched : taken r.2.kernel s.listener.fd ≡ taken env.kernel s.listener.fd ++ new
    pub same_wire : (g : Fd) → wire r.2.kernel g ≡ wire env.kernel g
    pub outcome : Outcome len (contents s.rx_buff ++ new) r.0 (contents r.1.rx_buff)

  -- What `recv` gives a read of `n` bytes.
  abbrev fetched_bytes : Socket → Env sys → List Cell
  fetched_bytes s env =
      received_bytes (sys.recv env.kernel s.listener.fd (get_free_len s.rx_buff)).0

  record Fetched (s : Socket) (env : Env sys) (r : ℤ × Socket × Env sys) : Type 0 where
    received : Received s (fetched_bytes s env) (r.0, r.1)
    taken_more :
        taken r.2.kernel s.listener.fd ≡ taken env.kernel s.listener.fd ++ fetched_bytes s env
    wire_kept : (g : Fd) → wire r.2.kernel g ≡ wire env.kernel g

  do_recv_lem :
      (s : Socket) (env : Env sys)
      → Inv s.rx_buff
      → Returns (Fetched s env) (do_recv sys rx_cache s (get_free_len s.rx_buff) env)
  unfolding do_recv
  do_recv_lem s env v =
      let room = recv-le env.kernel s.listener.fd (get_free_len s.rx_buff) in
      Returns-bind _ (after_recv_lem s _ v (omega (arith, room, v.within))) λ r d. returns (record {
        received = d;
        taken_more = taken-recv env.kernel s.listener.fd (get_free_len s.rx_buff);
        wire_kept = λ g. wire-recv env.kernel s.listener.fd g (get_free_len s.rx_buff);
      })

  fetch_lem :
      (s : Socket) (len : ℕ) (env : Env sys)
      → Inv s.rx_buff
      → Returns (ReadDone s len env) (
          do_recv sys rx_cache s (get_free_len s.rx_buff) env >>= λ r.
          after_do_read len (r.0, r.1) >>= λ q. ok (q.0, q.1, r.2))
  fetch_lem s len env v = Returns-bind _ (do_recv_lem s env v) λ r f.
      Returns-bind _
        (after_do_read_lem s _ len (r.0, r.1) f.received.keeps f.received.more f.received.result)
        λ q h. returns (record {
          keeps = h.0;
          new = fetched_bytes s env;
          fetched = f.taken_more;
          same_wire = f.wire_kept;
          outcome = h.1;
        })

  -- without room for more, the cached bytes alone
  cached_lem :
      (s : Socket) (len : ℕ) (env : Env sys)
      → Inv s.rx_buff
      → Returns (ReadDone s len env) (deliver s len >>= λ q. ok (q.0, q.1, env))
  cached_lem s len env v = Returns-bind _ (deliver_lem s len v) λ q d. returns (record {
    keeps = d.keeps;
    new = [];
    fetched = sym (append-nil _);
    same_wire = λ g. refl;
    outcome = rw append-nil d.outcome;
  })

  read_ready_lem :
      (s : Socket) (len : ℕ) (env : Env sys)
      → Inv s.rx_buff
      → assert_state sys s ≡ ok tt
      → Returns (ReadDone s len env) (read_ready sys s len env)
  unfolding read_ready do_read
  read_ready_lem s len env v passes = elim (Bool-cases (ltb 0 (get_free_len s.rx_buff))) [
    | inl room ↦ rw (room, passes) (fetch_lem s len env v)
    | inr no_room ↦ rw no_room (cached_lem s len env v)
  ]

  -- A read that returns, or breaks the assertion on the state where assertions are compiled in.
  pub data OrAborts (s : Socket) (len : ℕ) (env : Env sys)
      : Result (Read × Socket × Env sys) → Type 0 where
    reads : {r : Read × Socket × Env sys} → ReadDone s len env r → OrAborts s len env (ok r)
    aborts : sys.asserts ≡ true → s.state ≡ full → OrAborts s len env (fault assertion)

  Returns-OrAborts :
      {s : Socket} {len : ℕ} {env : Env sys} {m : Result (Read × Socket × Env sys)}
      → Returns (ReadDone s len env) m
      → OrAborts s len env m
  Returns-OrAborts (returns d) = reads d

  read_ready_any :
      (s : Socket) (len : ℕ) (env : Env sys)
      → Inv s.rx_buff
      → OrAborts s len env (read_ready sys s len env)
  unfolding read_ready do_read
  read_ready_any s len env v = elim (Bool-cases (ltb 0 (get_free_len s.rx_buff))) [
    | inl room ↦ elim (guard-cases _ assertion) [
      | inl passes ↦ Returns-OrAborts (read_ready_lem s len env v passes)
      | inr fails ↦
          rw (room, fails)
            (aborts (assert_breaks sys.asserts _ assertion fails)
              (full_only sys.asserts s.state fails))
    ]
    | inr no_room ↦ rw no_room (Returns-OrAborts (cached_lem s len env v))
  ]

  -- `ReadMsg` of an acceptable length, not 0, on a stream that is connected or full and whose read buffer is
  -- valid. It returns `len` and the next `len` bytes of the stream, or 0 while fewer than `len` bytes are
  -- cached, or -1 where `recv` failed or the peer closed; in each case the bytes not delivered, with those that
  -- came from the kernel behind them, stay cached in order. Or the stream is full, assertions are compiled in,
  -- and the assertion of `DoRead` breaks.
  pub read_msg_any :
      (s : Socket) (len : ℕ) (env : Env sys)
      → Inv s.rx_buff
      → is_stream_ready s.state ≡ true
      → 0 < len
      → len ≤ max_stream_read
      → OrAborts s len env (read_msg sys false s len env)
  unfolding read_msg
  read_msg_any s len env v ready pos_len max_len =
      let acceptable : (len == 0 || ltb max_stream_read len) ≡ false = ground arith in
      rw (acceptable, ready) (read_ready_any s len env v)
