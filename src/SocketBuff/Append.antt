-- ===== src/SocketBuff/Append.antt =====
-- `copyBuf`: what it queues, when it refuses, and that it never faults on a valid buffer.
use cpp_readline.Common.{
  ℕ, ◌+◌, ◌^◌, ◌≤◌, ◌<◌, ◌≡◌, refl, ap, ◌∙◌, Bool, true, false, List, ◌++◌, arith, ok, ltb,
  Bool-cases, gt→leb, int_limit, ltb→lt, lt→ltb, tests, Returns, returns, inl, inr, ◌⊎◌, max,
  length, length-take, take_all,
}
use cpp_readline.Memory.{Cell, mem_copy_lem, overwrite, length-overwrite, take-overwrite}
use cpp_readline.SocketBuff.{SocketBuff, contents, append, copy_buf, get_free_len}
use cpp_readline.SocketBuff.Inv.{Inv}
use cpp_readline.SocketBuff.Room.{Expanded, expand_lem}

pub length-contents : {b : SocketBuff} → Inv b → length (contents b) ≡ b.index
length-contents {b} v = omega (arith, length-take b.index b.buf, v.allocated, v.within)

appended : SocketBuff → List Cell → SocketBuff
appended b msg = record b { buf = overwrite b.buf b.index msg; index = b.index + length msg }

-- What a buffer is after `msg` is put at its end.
pub record Appended (b : SocketBuff) (msg : List Cell) (b' : SocketBuff) : Type 0 where
  pub inv : Inv b'
  pub queued : contents b' ≡ contents b ++ msg
  pub more : b'.index ≡ b.index + length msg
  pub same_max : b'.max_buf_len ≡ b.max_buf_len

append_lem :
    {b : SocketBuff} (msg : List Cell)
    → Inv b
    → b.index + length msg ≤ b.len
    → (b' : SocketBuff) × (append b msg ≡ ok (b', true)) × Appended b msg b'
unfolding append appended
append_lem {b} msg v room =
    let fits : b.index + length msg ≤ length b.buf = omega (arith, v.allocated) in
    let small : b.index + length msg < int_limit = omega (arith, v.small) in
    (
      appended b msg,
      rw
          (
            mem_copy_lem b.buf b.index msg 0 (length msg) (omega arith) fits,
            lt→ltb _ _ small,
            take_all (length msg) msg (omega arith),
          )
          refl,
      record {
        inv = record {
          allocated = length-overwrite b.buf b.index msg fits ∙ v.allocated;
          within = room;
          positive = v.positive;
          small = v.small;
          max_small = v.max_small;
          threshold = v.threshold;
          rate_small = v.rate_small;
        };
        queued = take-overwrite b.buf b.index msg fits;
        more = refl;
        same_max = refl;
      },
    )

Expanded-full :
    (b : SocketBuff) (n : ℕ) {b' : SocketBuff}
    → Expanded b n b'
    → b.index ≤ b.len
    → get_free_len b' < n
    → max b.len b.max_buf_len < b.index + n
Expanded-full b n {b'} x within h = elim x.enough [
  | inl top ↦ omega (arith, x.same_index, x.inv.within)
  | inr room ↦ absurd (omega (arith, x.same_index, x.inv.within, x.longer))
]

-- How `copyBuf` ends: all of `msg` is queued, or none of it and there is no room at any length.
pub record Copied (b : SocketBuff) (msg : List Cell) (r : SocketBuff × Bool) : Type 0 where
  pub inv : Inv r.0
  pub same_max : r.0.max_buf_len ≡ b.max_buf_len
  pub outcome :
      ((r.1 ≡ true)
        × (contents r.0 ≡ contents b ++ msg)
        × (b.index + length msg ≤ max b.len b.max_buf_len))
      ⊎ ((r.1 ≡ false)
          × (contents r.0 ≡ contents b)
          × (max b.len b.max_buf_len < b.index + length msg))

-- `copyBuf` of a message below 2^29 bytes on a valid buffer returns, and queues the message exactly when
-- the buffer at its largest has room for it; otherwise it refuses it and keeps the contents.
pub copy_buf_lem :
    {b : SocketBuff} (msg : List Cell)
    → Inv b
    → length msg < 2 ^ 29
    → Returns (Copied b msg) (copy_buf b msg)
unfolding copy_buf
copy_buf_lem {b} msg v small =
    rw (gt→leb int_limit (length msg) (omega arith))
      (elim (Bool-cases (ltb (get_free_len b) (length msg))) [
        | inl short ↦
            let (b', e, x) = expand_lem (length msg) v (omega (arith, v.small)) in
            elim (Bool-cases (ltb (get_free_len b') (length msg))) [
              | inl still ↦
                  rw (short, e, still)
                    (returns (record {
                      inv = x.inv;
                      same_max = x.same_max;
                      outcome = inr (
                        refl,
                        x.same,
                        Expanded-full b (length msg) x v.within
                            (ltb→lt (get_free_len b') (length msg) still),
                      );
                    }))
              | inr fits ↦
                  let (b'', e', a) = append_lem msg x.inv (omega tests) in
                  rw (short, e, fits, e')
                    (returns (record {
                      inv = a.inv;
                      same_max = a.same_max ∙ x.same_max;
                      outcome = inl (
                        refl,
                        a.queued ∙ ap (λ c. c ++ msg) x.same,
                        omega (tests, x.same_index, x.capped, a.inv.within, x.inv.within),
                      );
                    }))
            ]
        | inr fits ↦
            let (b', e, a) = append_lem msg v (omega tests) in
            rw (fits, e)
              (returns (record {
                inv = a.inv;
                same_max = a.same_max;
                outcome = inl (refl, a.queued, omega (tests, v.within));
              }))
      ])
