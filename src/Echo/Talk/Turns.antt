-- ===== src/Echo/Talk/Turns.antt =====
-- example/server_service.hpp: how one event of an echo connection ends, readable or writable.
use cpp_readline.Common.{
  ℕ, ◌≡◌, sym, ap, ◌∙◌, subst, List, [], ◌∷◌, ◌++◌, append-nil, take, take_all, length, ◌≤◌, true,
  false, Bool, ℤ, is_neg, not, Result, ok, assertion, ◌>>=◌, guard-cases, assert_breaks, Returns,
  returns, refl, Returns-eq, Returns-OrFault, inl, inr, arith,
}
use cpp_readline.Memory.{Cell}
use cpp_readline.Sys.{Sys, SysLaws}
use cpp_readline.SocketBuff.{contents}
use cpp_readline.Epoll.{Env}
use cpp_readline.Socket.{Socket, is_stream_ready}
use cpp_readline.Stream.Tx.{write, do_write}
use cpp_readline.Stream.Tx.Flow.{flow, Flushed, do_write_lem}
use cpp_readline.Stream.Tx.Direct.{IsOpen, Keeps-IsOpen}
use cpp_readline.Stream.Tx.Taken.{do_write-taken}
use cpp_readline.Stream.Rx.{Read, read_msg}
use cpp_readline.Stream.Rx.Whole.{OrAborts, reads, aborts, read_msg_any}
use cpp_readline.Echo.{EchoListener, Echoed, echo, after_echo_read}
use cpp_readline.Echo.Laws.{
  Moved, Writes, EchoEnd, idle, echoed, dropped, cut_off, shut, threw, ready_after, ReadDone-End,
}
use cpp_readline.Echo.Talk.{
  Turn, readable, writable, joined, passed, turn, Trace, ends, waits, tells, flushes, Carried,
  ServeEnd, serving, unwritten, gone, thrown, aborted,
}

module _ (sys : Sys) (laws : SysLaws sys) (s : Socket) (env : Env sys) where
  open laws use {taken}

  abbrev Carry : List Turn → Socket → Env sys → Type 0
  Carry = Carried sys laws s env

  abbrev End : List Turn → Result (Echoed sys) → Type 0
  End = ServeEnd sys laws s env

  one :
      (now later : ℕ) {msg : List Cell} {t : Socket} {env' : Env sys} (kept : ℕ)
      → length msg ≡ 30
      → kept ≤ 30
      → Writes sys laws s env msg t env'
      → Moved sys laws s env msg (take kept msg) t env'
      → Carry (readable now later ∷ []) t env'
  unfolding joined passed
  one now later {msg} {t} kept size within ws m = record {
    stays = m.stays;
    new = m.new;
    pieces = (record { msg = msg; kept = kept; size = size; within = within }) ∷ [];
    trace =
        tells now later (record { msg = msg; kept = kept; size = size; within = within }) ws ends;
    fetched = m.fetched;
    split = ap (λ x. x ++ contents t.rx_buff) (append-nil msg) ∙ m.split;
    grown = m.grown ∙ ap (◌++◌ (flow sys laws s env)) (sym (append-nil (take kept msg)));
  }

  nothing :
      {w : Turn} {t : Socket} {env' : Env sys}
      → Trace sys laws s env (w ∷ []) [] t env'
      → Moved sys laws s env [] [] t env'
      → Carry (w ∷ []) t env'
  unfolding joined passed
  nothing h m = record {
    stays = m.stays;
    new = m.new;
    pieces = [];
    trace = h;
    fetched = m.fetched;
    split = m.split;
    grown = m.grown;
  }

  pub start : IsOpen s → Carry [] s env
  unfolding joined passed
  start open₀ = record {
    stays = record { is_open = open₀; same_fd = refl; ready = λ r. r };
    new = [];
    pieces = [];
    trace = ends;
    fetched = sym (append-nil _);
    split = sym (append-nil _);
    grown = sym (append-nil _);
  }

  EchoEnd-ServeEnd :
      (now later : ℕ)
      → IsOpen s
      → {r : Result (Echoed sys)} → EchoEnd sys laws s env r
      → End (readable now later ∷ []) r
  EchoEnd-ServeEnd now later open₀ (idle i m) = serving (nothing (waits now later i ends) m)
  EchoEnd-ServeEnd now later open₀ (echoed {e} {t} {env'} msg size ws m) = serving (
      one now later 30 size (omega arith) ws (
        subst (λ x. Moved sys laws s env msg x t env') (sym (take_all 30 msg (omega (arith, size))))
          m))
  EchoEnd-ServeEnd now later open₀ (dropped msg size ws m) =
      serving (one now later 0 size (omega arith) ws m)
  EchoEnd-ServeEnd now later open₀ (cut_off msg n size some_sent some_left over ws m) =
      serving (one now later n size (omega (arith, some_left)) ws m)
  EchoEnd-ServeEnd now later open₀ (shut why e t env' none_left) =
      gone now later [] [] refl (start open₀) why none_left
  EchoEnd-ServeEnd now later open₀ (threw c) = thrown c

  OrAborts-ServeEnd :
      (now later : ℕ) (e : EchoListener) {r : Result (Read × Socket × Env sys)}
      → read_msg sys false s 30 env ≡ r
      → IsOpen s
      → OrAborts sys laws s 30 env r
      → End (readable now later ∷ []) (r >>= after_echo_read sys now later e)
  OrAborts-ServeEnd now later e went open₀ (reads d) =
      EchoEnd-ServeEnd now later open₀ (ReadDone-End sys laws s env now later e _ went open₀ d)
  OrAborts-ServeEnd now later e went open₀ (aborts on st) = aborted on

  wrote-Moved :
      (q : ℤ × Socket × Env sys)
      → IsOpen s
      → Flushed sys laws s (flow sys laws s env) q
      → taken q.2.kernel s.listener.fd ≡ taken env.kernel s.listener.fd
      → Moved sys laws s env [] [] q.1 q.2
  wrote-Moved q open₀ f same = record {
    stays = record {
      is_open = Keeps-IsOpen open₀ f.keeps;
      same_fd = ap (λ l. l.fd) f.keeps.listener;
      ready = ready_after f.keeps;
    };
    new = [];
    fetched = same ∙ sym (append-nil _);
    split = ap contents f.keeps.rx ∙ sym (append-nil _);
    grown = f.same_flow ∙ sym (append-nil _);
  }

  told :
      (b : Bool) (e : EchoListener) (t : Socket) (env' : Env sys)
      → IsOpen s
      → write sys s env ≡ ok (b, t, env')
      → Carry (writable ∷ []) t env'
      → End (writable ∷ []) (ok (b, e, t, env'))
  told true e t env' open₀ went c = serving c
  told false e t env' open₀ went c = unwritten [] [] refl (start open₀) went c

  Flushed-ServeEnd :
      (e : EchoListener) (q : ℤ × Socket × Env sys)
      → IsOpen s
      → Flushed sys laws s (flow sys laws s env) q
      → taken q.2.kernel s.listener.fd ≡ taken env.kernel s.listener.fd
      → write sys s env ≡ ok (not (is_neg q.0), q.1, q.2)
      → End (writable ∷ []) (ok (not (is_neg q.0), e, q.1, q.2))
  Flushed-ServeEnd e q open₀ f same went =
      told (not (is_neg q.0)) e q.1 q.2 open₀ went
        (nothing (flushes (not (is_neg q.0)) went ends) (wrote-Moved q open₀ f same))

  write-ok :
      (q : ℤ × Socket × Env sys)
      → is_stream_ready s.state ≡ true
      → do_write sys s env ≡ ok q
      → write sys s env ≡ ok (not (is_neg q.0), q.1, q.2)
  unfolding write
  write-ok q ready went = rw (ready, went) refl

  write-ServeEnd :
      (e : EchoListener)
      → IsOpen s
      → is_stream_ready s.state ≡ true
      → End (writable ∷ []) (write sys s env >>= λ r. ok (r.0, e, r.1, r.2))
  unfolding write do_write
  write-ServeEnd e open₀ ready = elim (guard-cases _ assertion) [
    | inl passes ↦ wrote open₀ ready refl (
        Returns-OrFault (Returns-eq (do_write_lem sys laws s env open₀.tx open₀.attached passes))
          (do_write-taken sys laws s.listener.fd s env))
    | inr fails ↦ rw (ready, fails) (aborted (assert_breaks sys.asserts _ assertion fails))
  ]
    where
      wrote :
          IsOpen s
          → is_stream_ready s.state ≡ true
          → {m : Result (ℤ × Socket × Env sys)} → do_write sys s env ≡ m
          → Returns
              (λ q.
                (Flushed sys laws s (flow sys laws s env) q × (do_write sys s env ≡ ok q))
                × (taken q.2.kernel s.listener.fd ≡ taken env.kernel s.listener.fd))
              m
          → End (writable ∷ []) (write sys s env >>= λ r. ok (r.0, e, r.1, r.2))
      wrote open₀ ready went (returns {a = q} h) =
          subst (λ w. End (writable ∷ []) (w >>= λ r. ok (r.0, e, r.1, r.2)))
            (sym (write-ok q ready h.0.1))
            (Flushed-ServeEnd e q open₀ h.0.0 h.1 (write-ok q ready h.0.1))

  pub turn_lem :
      (w : Turn) (e : EchoListener)
      → IsOpen s
      → is_stream_ready s.state ≡ true
      → End (w ∷ []) (turn sys w e s env)
  unfolding turn echo
  turn_lem (readable now later) e open₀ ready =
      OrAborts-ServeEnd now later e refl open₀
        (read_msg_any sys laws s 30 env open₀.rx ready (omega arith) (omega arith))
  turn_lem writable e open₀ ready = write-ServeEnd e open₀ ready
