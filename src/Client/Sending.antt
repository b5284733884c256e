-- ===== src/Client/Sending.antt =====
-- client/client_service.cpp: what the client's timer sends, and that it keeps sending.
use cpp_readline.Common.{
  ℕ, suc, ◌+◌, ◌<◌, ◌^◌, ◌≡◌, refl, ap, ◌∙◌, true, false, ◌==◌, not, le→leb, List, [], ◌∷◌, length,
  length-append, ℤ, Returns, returns, Returns-eq, ok, some, Returns-bind, assertion, guard_passes,
  assert_passes, out_of_bounds, ◌≤◌, arith,
}
use cpp_readline.Memory.{Cell}
use cpp_readline.Sys.{Sys, SysLaws}
use cpp_readline.Epoll.{Env}
use cpp_readline.Shell.{Str}
use cpp_readline.Machine.Live.{IsLive}
use cpp_readline.Stream.Tx.{write_msg}
use cpp_readline.Stream.Tx.Flow.{flow}
use cpp_readline.Stream.Tx.Direct.{Outcome}
use cpp_readline.Stream.Tx.Write.{write_msg_lem}
use cpp_readline.Timer.{Timers, set}
use cpp_readline.Timer.Text.{Tm, time_to_str, time_to_str_lem}
use cpp_readline.Timer.Arm.{IsArmed, set_lem}
use cpp_readline.Client.{Client, cells, message, send_data, timeout}

length-cells : (s : Str) → length (cells s) ≡ length s
unfolding cells
length-cells [] = refl
length-cells (c ∷ cs) = ap suc (length-cells cs)

length-message : (s : Str) → length s ≡ 12 → length (message s) ≡ 31
unfolding message
length-message s size = omega (arith, length-append s (10 ∷ []))

fits : (n : ℕ) (s : Str) → length s ≡ 12 → 32 ≤ n → length (message s) + 1 ≤ n
fits n s size e = omega (arith, length-message s size)

small : (s : Str) → length s ≡ 12 → length (cells (message s)) < 2 ^ 29
small s size = omega (arith, length-cells (message s), length-message s size)

module _ (sys : Sys) (laws : SysLaws sys) where
  -- `WriteMsg` was called on the client's stream with the text of the time, 31 bytes, and accepted, refused
  -- or tore it; nothing else changed the stream.
  pub record Offers (tm : Tm) (now : ℕ) (c : Client) (env : Env sys) (r : Client × Env sys)
      : Type 0 where
    pub stamp : Str
    pub is_time : time_to_str tm now ≡ ok stamp
    pub msg : List Cell
    pub is_text : msg ≡ cells (message stamp)
    pub status : ℤ
    pub size : length msg ≡ 31
    pub wrote : write_msg sys c.socket (some msg) env ≡ ok (status, r.0.socket, r.1)
    pub outcome :
        Outcome msg (flow sys laws c.socket env) status r.0.socket (flow sys laws r.0.socket r.1)
    pub same_timer : r.0.timer ≡ c.timer

  pub send_data_lem :
      (tm : Tm) (now : ℕ) (c : Client) (env : Env sys)
      → IsLive c.socket
      → Returns (Offers tm now c env) (send_data sys tm now c env)
  unfolding send_data
  send_data_lem tm now c env live =
      Returns-bind _ (Returns-eq (time_to_str_lem tm now)) λ stamp timed.
        let is = timed.0 in
        rw
          (guard_passes _ out_of_bounds
            (le→leb (length (message stamp) + 1) 512 (fits 512 stamp is.size (omega arith))))
          (Returns-bind _
            (Returns-eq (
              write_msg_lem sys laws c.socket (cells (message stamp)) env live.is_open
                (small stamp is.size)))
            λ w h. returns (record {
              stamp = stamp;
              is_time = timed.1;
              msg = cells (message stamp);
              is_text = refl;
              wrote = h.1;
              status = w.0;
              size = length-cells (message stamp) ∙ length-message stamp is.size;
              outcome = h.0.outcome;
              same_timer = refl;
            }))

  set_same :
      (now t u : ℕ) (st : Timers)
      → u ≡ t
      → (st.objects t).active ≡ false
      → ((st.objects t).id == 0) ≡ false
      → Returns
          (λ q. (q.0 ≡ true) × IsArmed now (st.objects t).expire t q.1)
          (set sys.asserts now u st)
  set_same now t u st e idle numbered = rw e (set_lem sys.asserts now t st idle numbered)

  -- `Timeout` of a client whose stream is live and whose timer points to it, has an id and, since
  -- it has fired, is not active, returns. It called `WriteMsg` with the text of the time, 31 bytes, which
  -- took it whole, refused it or tore it; and the timer is armed again, for its period after the
  -- time that `Set` read.
  pub timeout_lem :
      (tm : Tm) (now later : ℕ) (c : Client) (env : Env sys) (st : Timers)
      → IsLive c.socket
      → c.linked ≡ true
      → (st.objects c.timer).active ≡ false
      → ((st.objects c.timer).id == 0) ≡ false
      → Returns
          (λ r.
            Offers tm now c env (r.0, r.1) × IsArmed later (st.objects c.timer).expire c.timer r.2)
          (timeout sys tm now later c env st)
  unfolding timeout
  timeout_lem tm now later c env st live linked idle numbered =
      rw
        (
          assert_passes sys.asserts (not c.linked) assertion (rw linked refl),
          guard_passes c.linked out_of_bounds linked,
        )
        (Returns-bind _ (send_data_lem tm now c env live) λ r o.
          Returns-bind _ (set_same later c.timer r.0.timer st o.same_timer idle numbered)
            λ q a. returns (o, a.1))
