-- ===== src/Listener/Count.antt =====
-- src/xma_listener.h: the counters of a listener, and the registry over the life of an object.
use cpp_readline.Common.{
  ==-refl, ℕ, ◌≡◌, refl, ap, Bool, true, false, ◌==◌, List, [], ◌∷◌, Result, Returns, returns,
  Returns-bind, add_u64, arith,
}
use cpp_readline.Listener.{
  ListenerStats, Listener, inc_recv, inc_succ, inc_fail, after_handle, handle, register, unregister,
}

-- Every event that was taken in is counted as a success or as a failure.
unfoldable pub IsBalanced : ListenerStats → Type 0
IsBalanced stats = stats.recv ≡ add_u64 stats.succ stats.fail

module _ (S : Type 0) where
  after_handle-IsBalanced :
      (P : Bool → S → Type 0) (stats : ListenerStats) (r : Bool × S)
      → IsBalanced stats
      → P r.0 r.1
      → P (after_handle S (inc_recv stats) r).0 (after_handle S (inc_recv stats) r).1.object
        × IsBalanced (after_handle S (inc_recv stats) r).1.stats
  unfolding IsBalanced after_handle inc_recv inc_succ inc_fail
  after_handle-IsBalanced P stats (true, object) e p = (p, omega arith)
  after_handle-IsBalanced P stats (false, object) e p = (p, omega arith)

  -- `Handle` returns where `DoHandle` does, with its result, and afterwards the events that the listener
  -- received are again, modulo 2^64, those that succeeded and those that failed.
  pub handle_lem :
      (P : Bool → S → Type 0) (do_handle : S → Result (Bool × S)) (l : Listener S)
      → IsBalanced l.stats
      → Returns (λ r. P r.0 r.1) (do_handle l.object)
      → Returns (λ r. P r.0 r.1.object × IsBalanced r.1.stats) (handle S do_handle l)
  unfolding handle
  handle_lem P do_handle l e run =
      Returns-bind _ run λ r p. returns (after_handle-IsBalanced P l.stats r e p)

-- no occurrence of `a`
data Absent (a : ℕ) : List ℕ → Type 0 where
  absent-nil : Absent a []
  absent-cons : {b : ℕ} {bs : List ℕ} → (b == a) ≡ false → Absent a bs → Absent a (b ∷ bs)

-- An object that is registered and then unregistered leaves the registry as it was, where the registry
-- did not hold it before.
unregister-register :
    (a : ℕ) (registry : List ℕ) → Absent a registry → unregister a (register a registry) ≡ registry
unfolding unregister register
unregister-register a [] absent-nil = rw (==-refl a) refl
unregister-register a (b ∷ bs) (absent-cons other others) =
    rw other (ap (◌∷◌ b) (unregister-register a bs others))
