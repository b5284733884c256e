-- ===== src/Tests/Starts.antt =====
-- A process that adds two services, each of which notes its start.
use cpp_readline.Common.{
  ℕ, false, List, [], ◌∷◌, ◌++◌, none, ok, ok-injective, ◌>>=◌, ◌≡◌, sym, ap, arith,
}
use cpp_readline.Process.Start.{
  Process, ProcessVirtuals, add_service, add_own_service, service_init, process_init,
}
use cpp_readline.Process.Order.{init_each, process_init_lem}

abbrev empty_process : Process (List ℕ)
empty_process = record { proc_svc = none; svcs = []; has_context = λ s. false; rest = [] }

abbrev notes : ProcessVirtuals (List ℕ)
notes = record {
  process_on_init = λ p. ok (add_service 8 (add_service 7 p));
  service_on_init = λ s p. ok (record p { rest = p.rest ++ (s ∷ []) });
  on_shell = λ p. ok p;
}

two_added :
    (p1 : Process (List ℕ))
    → notes.process_on_init (add_own_service 5 empty_process) ≡ ok p1
    → p1.svcs ≡ 5 ∷ 7 ∷ 8 ∷ []
unfolding add_service add_own_service
two_added p1 e = sym (ap (λ p. p.svcs) (ok-injective e))

process_init_lem_example : process_init notes 4 5 empty_process ≡ (
    notes.process_on_init (add_own_service 5 empty_process) >>= λ p1.
    service_init notes 5 p1 >>= λ p2. init_each notes (7 ∷ 8 ∷ []) p2 >>= notes.on_shell)
process_init_lem_example =
    process_init_lem notes (λ s p p' e. sym (ap (λ q. q.svcs) (ok-injective e))) 5 4 (7 ∷ 8 ∷ [])
      empty_process two_added (omega arith)
