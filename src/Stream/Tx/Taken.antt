-- ===== src/Stream/Tx/Taken.antt =====
-- The writing side takes no byte from the kernel.
use cpp_readline.Common.{
  ◌>>=◌, guard, leb, length, out_of_bounds, ℕ, ◌≡◌, refl, ◌∙◌, inl, inr, Bool, true, false, List,
  [], ◌∷◌, Bool-cases, ltb, not, ◌&&◌, ℤ, pos, negsuc, some, OrFault, fine, faulty, OrFault-bind,
  OrFault-mono, OrFault-after, ok,
}
use cpp_readline.SocketBuff.{contents, shrink_from_front}
use cpp_readline.Memory.{Cell}
use cpp_readline.Sys.{Sys, SysLaws, Fd, Events, SendReply, sent, ctl_mod, in_err_hup}
use cpp_readline.Epoll.{Env, EpollListener, set_events, ctl, is_open}
use cpp_readline.Socket.{Socket, is_connected}
use cpp_readline.Stream.Tx.Cache.{cache_msg, after_direct}
use cpp_readline.Stream.Tx.{
  after_set_events, after_flush, flush, do_write, assert_state, send_direct, queue_or_send,
  after_do_write, write_nonempty, write_msg, leave_full_partly, partly_sent,
}

module _ (sys : Sys) (laws : SysLaws sys) (g : Fd) where
  open laws use {taken, taken-send, taken-ctl}

  abbrev pub Same : sys.Kernel → ℤ × Socket × Env sys → Type 0
  Same k r = taken r.2.kernel g ≡ taken k g

  set_events-taken :
      (l : EpollListener) (ev : Events) (env : Env sys)
      → OrFault (λ r. taken r.1.kernel g ≡ taken env.kernel g) (set_events sys l ev env)
  unfolding set_events ctl
  set_events-taken l ev env = elim (Bool-cases (not (is_open l.fd))) [
    | inl shut ↦ rw shut (fine refl)
    | inr ready ↦ rw ready (elim (Bool-cases (sys.asserts && not l.attached)) [
      | inl aborts ↦ rw aborts faulty
      | inr passes ↦ rw passes (elim (Bool-cases l.attached) [
        | inl here ↦ rw here (fine (taken-ctl env.kernel ctl_mod l.fd g (some ev)))
        | inr null ↦ rw null (fine refl)
      ])
    ])
  ]

  after_set_events-taken :
      (s : Socket) (ret : ℕ) (r : Bool × Env sys)
      → taken (after_set_events sys s ret r).2.kernel g ≡ taken r.1.kernel g
  unfolding after_set_events
  after_set_events-taken s ret (true, env) = refl
  after_set_events-taken s ret (false, env) = refl

  part-taken :
      (s : Socket) (ret : ℕ) (env : Env sys)
      → OrFault (Same env.kernel) (do
        tx ← shrink_from_front s.tx_buff ret
        t ← leave_full_partly (partly_sent s ret tx)
        ok (pos ret, t, env))
  part-taken s ret env =
      OrFault-after (shrink_from_front s.tx_buff ret) _
        λ tx. OrFault-after (leave_full_partly (partly_sent s ret tx)) _ λ t. fine refl

  after_flush-taken :
      (s : Socket) (reply : SendReply) (env : Env sys)
      → OrFault (Same env.kernel) (after_flush sys s reply env)
  unfolding after_flush
  after_flush-taken s SendReply.retry env = fine refl
  after_flush-taken s SendReply.failed env = fine refl
  after_flush-taken s (sent ret) env = elim (Bool-cases (ltb ret s.tx_buff.index)) [
    | inl part ↦ rw part (part-taken s ret env)
    | inr all ↦ rw all (
        OrFault-bind _ (set_events-taken s.listener in_err_hup env)
          λ r same. fine (after_set_events-taken _ ret r ∙ same))
  ]

  flush-taken : (s : Socket) (env : Env sys) → OrFault (Same env.kernel) (flush sys s env)
  unfolding flush
  flush-taken s env =
      OrFault-mono
        (after_flush-taken s (sys.send env.kernel s.listener.fd (contents s.tx_buff)).0 _)
        λ r e. e ∙ taken-send env.kernel s.listener.fd g (contents s.tx_buff)

  pub do_write-taken : (s : Socket) (env : Env sys) → OrFault (Same env.kernel) (do_write sys s env)
  unfolding do_write
  do_write-taken s env = OrFault-after (assert_state sys s) _ λ _.
      elim (Bool-cases (ltb 0 s.tx_buff.index)) [
        | inl cached ↦ rw cached (
            OrFault-after (guard (leb s.tx_buff.index (length s.tx_buff.buf)) out_of_bounds) _
              λ _. flush-taken s env)
        | inr nothing ↦ rw nothing (fine refl)
      ]

  cached-taken :
      (s : Socket) (msg : List Cell) (env : Env sys)
      → OrFault (Same env.kernel) (cache_msg s msg (length msg) >>= λ r. ok (r.0, r.1, env))
  cached-taken s msg env = OrFault-after (cache_msg s msg (length msg)) _ λ r. fine refl

  send_direct-taken :
      (s : Socket) (msg : List Cell) (env : Env sys)
      → OrFault (Same env.kernel) (send_direct sys s msg env)
  unfolding send_direct
  send_direct-taken s msg env =
      OrFault-after (after_direct s msg (sys.send env.kernel s.listener.fd msg).0) _
        λ r. fine (taken-send env.kernel s.listener.fd g msg)

  queue_or_send-taken :
      (s : Socket) (msg : List Cell) (env : Env sys)
      → OrFault (Same env.kernel) (queue_or_send sys s msg env)
  unfolding queue_or_send
  queue_or_send-taken s msg env = elim (Bool-cases (ltb 0 s.tx_buff.index)) [
    | inl cached ↦ rw cached (cached-taken s msg env)
    | inr nothing ↦ rw nothing (send_direct-taken s msg env)
  ]

  after_do_write-taken :
      (msg : List Cell) (before : sys.Kernel) (r : ℤ × Socket × Env sys)
      → Same before r
      → OrFault (Same before) (after_do_write sys msg r)
  unfolding after_do_write
  after_do_write-taken msg before (pos ret, s, env) e =
      OrFault-mono (queue_or_send-taken s msg env) (λ q e'. e' ∙ e)
  after_do_write-taken msg before (negsuc n, s, env) e = fine e

  -- `WriteMsg` takes no byte from the kernel.
  pub write_msg-taken :
      (s : Socket) (msg : List Cell) (env : Env sys)
      → OrFault (Same env.kernel) (write_msg sys s (some msg) env)
  unfolding write_msg write_nonempty
  write_msg-taken s [] env = fine refl
  write_msg-taken s (c ∷ msg) env = elim (Bool-cases (not (is_connected s.state))) [
    | inl unready ↦ rw unready (fine refl)
    | inr ready ↦ rw ready (elim (Bool-cases (ltb 0 s.tx_buff.index)) [
      | inl cached ↦ rw cached (
          OrFault-bind _ (do_write-taken s env)
            λ r e. after_do_write-taken (c ∷ msg) env.kernel r e)
      | inr nothing ↦ rw nothing (queue_or_send-taken s (c ∷ msg) env)
    ])
  ]
