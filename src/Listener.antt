-- ===== src/Listener.antt =====
-- src/xma_listener.h and src/xma_service.h: `Listener::Handle` with its counters, and the registries,
-- which are lists of addresses.
pub mod Count
use cpp_readline.Common.{
  ℕ, ◌+◌, ◌%◌, ◌^◌, Bool, true, false, if◌then◌else◌, ◌==◌, List, [], ◌∷◌, ◌++◌, Result, ok, ◌>>=◌,
  add_u64,
}

pub record ListenerStats : Type 0 where
  pub recv : ℕ
  pub succ : ℕ
  pub fail : ℕ

-- `memset` in the constructor
abbrev pub no_events : ListenerStats
no_events = record { recv = 0; succ = 0; fail = 0 }

-- A listener: its counters, and the state `S` that its `DoHandle` works on.
pub record Listener (S : Type 0) : Type 0 where
  pub stats : ListenerStats
  pub object : S

pub inc_recv : ListenerStats → ListenerStats
inc_recv stats = record stats { recv = add_u64 stats.recv 1 }

inc_succ : ListenerStats → ListenerStats
inc_succ stats = record stats { succ = add_u64 stats.succ 1 }

inc_fail : ListenerStats → ListenerStats
inc_fail stats = record stats { fail = add_u64 stats.fail 1 }

module _ (S : Type 0) where
  pub after_handle : ListenerStats → Bool × S → Bool × Listener S
  unfolding inc_succ inc_fail
  after_handle stats (true, object) = (true, record { stats = inc_succ stats; object = object })
  after_handle stats (false, object) = (false, record { stats = inc_fail stats; object = object })

  -- `Listener::Handle`, where `do_handle` is the virtual `DoHandle` on the data of the event
  unfoldable pub handle : (S → Result (Bool × S)) → Listener S → Result (Bool × Listener S)
  unfolding inc_recv after_handle
  handle do_handle l = do_handle l.object >>= λ r. ok (after_handle (inc_recv l.stats) r)

-- `Register` and `UnRegister` of listeners and of services; `remove` takes out every occurrence
unfoldable pub register : ℕ → List ℕ → List ℕ
register a registry = registry ++ (a ∷ [])

unfoldable pub unregister : ℕ → List ℕ → List ℕ
unregister a [] = []
unregister a (b ∷ bs) = let rest = unregister a bs in if b == a then rest else b ∷ rest
