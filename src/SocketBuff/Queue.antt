-- ===== src/SocketBuff/Queue.antt =====
-- src/xma_socket_cache.h: a buffer implements a queue of bytes of bounded length, for any sequence of
-- `copyBuf`, `shrinkFromFront`, `setNewSize` and `checkCanOp`.
use cpp_readline.Common.{
  ℕ, ◌+◌, ◌≤◌, ◌<◌, ◌^◌, min, ◌≡◌, sym, ap, ◌∙◌, inl, inr, Bool, true, false, List, [], ◌∷◌, ◌++◌,
  length, drop, Result, ok, ◌>>=◌, Returns, returns, Returns-bind, subst, arith,
}
use cpp_readline.Memory.{Cell}
use cpp_readline.SocketBuff.{
  SocketBuff, contents, copy_buf, shrink_from_front, set_new_size, check_can_op,
}
use cpp_readline.SocketBuff.Inv.{Inv, Resized, resized_to, kept, Resized-Inv, set_new_size_lem}
use cpp_readline.SocketBuff.Append.{Copied, copy_buf_lem, length-contents}
use cpp_readline.SocketBuff.Laws.{shrink_from_front_lem, check_can_op_lem}

-- What a stream does with its buffers: put a message behind the contents, take so many bytes from
-- their front, as many as there are, ask for another size, or check how full the buffer is.
pub data Op : Type 0 where
  put : List Cell → Op
  remove : ℕ → Op
  resize : ℕ → Op
  check : ℕ → Op

-- no message and no size of 2^29 bytes or more
pub data AllSmall : List Op → Type 0 where
  small-nil : AllSmall []
  small-put :
      {msg : List Cell} {ops : List Op}
      → length msg < 2 ^ 29
      → AllSmall ops
      → AllSmall (put msg ∷ ops)
  small-remove : {n : ℕ} {ops : List Op} → AllSmall ops → AllSmall (remove n ∷ ops)
  small-resize : {n : ℕ} {ops : List Op} → n < 2 ^ 29 → AllSmall ops → AllSmall (resize n ∷ ops)
  small-check : {n : ℕ} {ops : List Op} → n < 2 ^ 29 → AllSmall ops → AllSmall (check n ∷ ops)

-- The queue: from `q`, the operations answer with the Boolean results and lead to `q'`. A message may be
-- refused only where the queue would be longer than `top` with it, and a size only where it is not more than
-- the length of the queue.
pub data Queue (top : ℕ) : List Cell → List Op → List Bool → List Cell → Type 0 where
  queue-nil : {q : List Cell} → Queue top q [] [] q
  queue-put :
      {q q' msg : List Cell} {ops : List Op} {rs : List Bool}
      → Queue top (q ++ msg) ops rs q'
      → Queue top q (put msg ∷ ops) (true ∷ rs) q'
  queue-refuse :
      {q q' msg : List Cell} {ops : List Op} {rs : List Bool}
      → top < length q + length msg
      → Queue top q ops rs q'
      → Queue top q (put msg ∷ ops) (false ∷ rs) q'
  queue-remove :
      {q q' : List Cell} {n : ℕ} {ops : List Op} {rs : List Bool}
      → Queue top (drop (min n (length q)) q) ops rs q'
      → Queue top q (remove n ∷ ops) (true ∷ rs) q'
  queue-resize :
      {q q' : List Cell} {n : ℕ} {ops : List Op} {rs : List Bool}
      → Queue top q ops rs q'
      → Queue top q (resize n ∷ ops) (true ∷ rs) q'
  queue-tight :
      {q q' : List Cell} {n : ℕ} {ops : List Op} {rs : List Bool}
      → n ≤ length q
      → Queue top q ops rs q'
      → Queue top q (resize n ∷ ops) (false ∷ rs) q'
  queue-check :
      {q q' : List Cell} {n : ℕ} {ops : List Op} {r : Bool} {rs : List Bool}
      → Queue top q ops rs q'
      → Queue top q (check n ∷ ops) (r ∷ rs) q'

-- the operations on a buffer, with their results
pub run_ops : List Op → SocketBuff → Result (List Bool × SocketBuff)
run_ops [] b = ok ([], b)
run_ops (put msg ∷ ops) b =
    let rest = run_ops ops in
    do (b', took) ← copy_buf b msg; (rs, b'') ← rest b'; ok (took ∷ rs, b'')
run_ops (remove n ∷ ops) b =
    let rest = run_ops ops in
    do b' ← shrink_from_front b (min n b.index); (rs, b'') ← rest b'; ok (true ∷ rs, b'')
run_ops (resize n ∷ ops) b =
    let rest = run_ops ops in
    do (b', done) ← set_new_size b n; (rs, b'') ← rest b'; ok (done ∷ rs, b'')
run_ops (check n ∷ ops) b =
    let rest = run_ops ops in
    do (b', below) ← check_can_op b n; (rs, b'') ← rest b'; ok (below ∷ rs, b'')

-- The buffer is valid, and its contents are the queue.
pub record Refines (top : ℕ) (q : List Cell) (ops : List Op) (r : List Bool × SocketBuff)
    : Type 0 where
  pub inv : Inv r.1
  pub queue : Queue top q ops r.0 (contents r.1)

Queue-move :
    {top top' : ℕ} {q q' z : List Cell} {ops : List Op} {rs : List Bool}
    → top ≡ top'
    → q ≡ q'
    → Queue top q ops rs z
    → Queue top' q' ops rs z
Queue-move {top = top} {q' = q'} {z} {ops} {rs} e f w =
    subst (λ t. Queue t q' ops rs z) e (subst (λ p. Queue top p ops rs z) f w)

after_put :
    (b : SocketBuff) (msg : List Cell) (ops : List Op) (c : SocketBuff × Bool)
    (r : List Bool × SocketBuff)
    → Inv b
    → Copied b msg c
    → Refines c.0.max_buf_len (contents c.0) ops r
    → Refines b.max_buf_len (contents b) (put msg ∷ ops) (c.1 ∷ r.0, r.1)
after_put b msg ops c r v p rest = elim p.outcome [
  | inl (took, grew, room) ↦ record {
    inv = rest.inv;
    queue = rw took (queue-put (Queue-move p.same_max grew rest.queue));
  }
  | inr (refused, same, full) ↦ record {
    inv = rest.inv;
    queue = rw refused (
        queue-refuse (omega (arith, length-contents v, full))
          (Queue-move p.same_max same rest.queue));
  }
]

after_resize :
    (b : SocketBuff) (n : ℕ) (ops : List Op) (c : SocketBuff × Bool) (r : List Bool × SocketBuff)
    → Inv b
    → Resized b n c
    → Refines c.0.max_buf_len (contents c.0) ops r
    → Refines b.max_buf_len (contents b) (resize n ∷ ops) (c.1 ∷ r.0, r.1)
after_resize b n ops (b', true) r v (resized_to g) rest = record {
  inv = rest.inv;
  queue = queue-resize (Queue-move g.same_max g.same rest.queue);
}
after_resize b n ops (b', false) r v (kept tight) rest = record {
  inv = rest.inv;
  queue = queue-tight (omega (arith, length-contents v, tight)) rest.queue;
}

-- Any sequence of operations on a valid buffer, with messages and sizes below 2^29 bytes, returns, and
-- answers as a queue of bytes that starts with the buffer's contents: the contents afterwards are
-- what is in the queue. A message is refused only where it would make the contents longer than
-- the buffer's maximum, and a size only where it is not more than the length of the contents.
pub run_ops_lem :
    (ops : List Op) (b : SocketBuff)
    → Inv b
    → AllSmall ops
    → Returns (Refines b.max_buf_len (contents b) ops) (run_ops ops b)
unfolding run_ops
run_ops_lem [] b v small-nil = returns (record { inv = v; queue = queue-nil })
run_ops_lem (put msg ∷ ops) b v (small-put s ss) = Returns-bind _ (copy_buf_lem msg v s) λ c p.
    Returns-bind _ (run_ops_lem ops c.0 p.inv ss)
      λ r rest. returns (after_put b msg ops c r v p rest)
run_ops_lem (remove n ∷ ops) b v (small-remove ss) =
    Returns-bind _ (shrink_from_front_lem (min n b.index) v (omega arith)) λ b' p.
      Returns-bind _ (run_ops_lem ops b' p.inv ss) λ r rest. returns (record {
        inv = rest.inv;
        queue = queue-remove (
            Queue-move p.same_max
              (p.rest ∙ ap (λ m. drop (min n m) (contents b)) (sym (length-contents v)))
              rest.queue);
      })
run_ops_lem (resize n ∷ ops) b v (small-resize s ss) =
    Returns-bind _ (set_new_size_lem n v s) λ c p.
      Returns-bind _ (run_ops_lem ops c.0 (Resized-Inv v p) ss)
        λ r rest. returns (after_resize b n ops c r v p rest)
run_ops_lem (check n ∷ ops) b v (small-check s ss) = Returns-bind _ (check_can_op_lem n v s) λ c p.
    Returns-bind _ (run_ops_lem ops c.0 p.inv ss) λ r rest.
      returns
        (record { inv = rest.inv; queue = queue-check (Queue-move p.same_max p.same rest.queue) })
