-- ===== src/Process/Start.antt =====
-- src/xma_process.cpp and src/xma_service.h: `Process::Init` and `Service::Init`, with the virtual
-- functions that they call as parameters. A service is the address of its object.
use cpp_readline.Common.{
  ℕ, zero, suc, Bool, true, if◌then◌else◌, ◌==◌, List, [], ◌∷◌, ◌++◌, Option, none, some, Result,
  ok, fault, out_of_fuel, ◌>>=◌,
}

-- `Process`, with the services whose `context_` is this process; `rest` is all other state.
pub record Process (S : Type 0) : Type 0 where
  pub proc_svc : Option ℕ
  pub svcs : List ℕ
  pub has_context : ℕ → Bool
  pub rest : S

-- `OnInit` of the process and of a service, and `OnShell` of the process
pub record ProcessVirtuals (S : Type 0) : Type 0 where
  pub process_on_init : Process S → Result (Process S)
  pub service_on_init : ℕ → Process S → Result (Process S)
  pub on_shell : Process S → Result (Process S)

-- what an iterator at position `i` of a list points to; `none` is `end()`
unfoldable pub element_at : List ℕ → ℕ → Option ℕ
element_at [] i = none
element_at (s ∷ ss) zero = some s
element_at (s ∷ ss) (suc i) = element_at ss i

module _ {S : Type 0} where
  -- `Process::AddService`
  unfoldable pub add_service : ℕ → Process S → Process S
  add_service s p = record p { svcs = p.svcs ++ (s ∷ []) }

  -- `Service::SaveContext`
  unfoldable pub save_context : ℕ → Process S → Process S
  save_context s p = record p { has_context = λ r. if r == s then true else p.has_context r }

  -- `new ProcessService(...)`, which has the address `own`, and `AddService`
  unfoldable pub add_own_service : ℕ → Process S → Process S
  unfolding add_service
  add_own_service own p = add_service own (record p { proc_svc = some own })

  module _ (v : ProcessVirtuals S) where
    -- `Service::Init`
    unfoldable pub service_init : ℕ → Process S → Result (Process S)
    unfolding save_context
    service_init s p = v.service_on_init s (save_context s p)

    -- the loop of `Process::Init`, at what its iterator points to
    unfoldable pub visit :
        (Process S → Result (Process S)) → Option ℕ → Process S → Result (Process S)
    unfolding service_init
    visit rest none p = ok p
    visit rest (some s) p = service_init s p >>= rest

    -- the loop of `Process::Init` from position `i` on; an `OnInit` may add services to the list
    unfoldable pub init_services : ℕ → ℕ → Process S → Result (Process S)
    unfolding visit element_at
    init_services zero i p = fault out_of_fuel
    init_services (suc fuel) i p =
        let rest = init_services fuel (suc i) in visit rest (element_at p.svcs i) p

    -- `Process::Init`, where `fuel` is more than the services
    unfoldable pub process_init : ℕ → ℕ → Process S → Result (Process S)
    unfolding init_services add_own_service
    process_init fuel own p = do
      p1 ← v.process_on_init (add_own_service own p)
      p2 ← init_services fuel 0 p1
      v.on_shell p2
