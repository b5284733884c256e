-- ===== src/Process/Order.antt =====
-- src/xma_process.cpp: the order in which `Process::Init` starts the services of a process.
use cpp_readline.Common.{
  ℕ, zero, suc, ◌<◌, ◌≡◌, refl, ap, ◌∙◌, sym, List, [], ◌∷◌, ◌++◌, append-nil, append_assoc, length,
  length-append, none, some, Result, ok, ◌>>=◌, bind-cong, bind_assoc, arith,
}
use cpp_readline.Process.Start.{
  Process, ProcessVirtuals, element_at, save_context, add_own_service, service_init, visit,
  init_services, process_init,
}

element_at-end : (front : List ℕ) → element_at front (length front) ≡ none
unfolding element_at
element_at-end [] = refl
element_at-end (a ∷ front) = element_at-end front

element_at-next :
    (front : List ℕ) (s : ℕ) (ss : List ℕ) → element_at (front ++ (s ∷ ss)) (length front) ≡ some s
unfolding element_at
element_at-next [] s ss = refl
element_at-next (a ∷ front) s ss = element_at-next front s ss

module _ {S : Type 0} (v : ProcessVirtuals S) where
  -- `Init` of each service of a list, in order
  pub init_each : List ℕ → Process S → Result (Process S)
  init_each [] p = ok p
  init_each (s ∷ ss) p = let rest = init_each ss in service_init v s p >>= rest

  module _
      (keeps : (s : ℕ) (p p' : Process S) → v.service_on_init s p ≡ ok p' → p'.svcs ≡ p.svcs) where
    service_init-svcs : (s : ℕ) (p p' : Process S) → service_init v s p ≡ ok p' → p'.svcs ≡ p.svcs
    unfolding service_init save_context
    service_init-svcs s p p' e = keeps s (save_context s p) p' e

    init_services-init_each :
        (ss front : List ℕ) (fuel : ℕ) (p : Process S)
        → length ss < fuel
        → p.svcs ≡ front ++ ss
        → init_services v fuel (length front) p ≡ init_each ss p
    unfolding init_services init_each visit
    init_services-init_each ss front zero p enough e = ground arith
    init_services-init_each [] front (suc fuel) p enough e =
        rw (e, append-nil front, element_at-end front) refl
    init_services-init_each (s ∷ ss) front (suc fuel) p enough e =
        ap (λ o. visit v (init_services v fuel (suc (length front))) o p)
          (ap (λ l. element_at l (length front)) e ∙ element_at-next front s ss)
        ∙ bind-cong (service_init v s p) _ _ λ p' went.
          ap (λ i. init_services v fuel i p') (omega (arith, length-append front (s ∷ [])))
          ∙ init_services-init_each ss (front ++ (s ∷ [])) fuel p' (omega (arith, enough))
              (service_init-svcs s p p' went ∙ e ∙ sym (append_assoc front (s ∷ []) ss))

    -- `Process::Init` of a process without services, where `OnInit` of the process adds `others` and
    -- `OnInit` of a service adds none: the process's own service is initialised first, then each of the
    -- others once, in the order in which they were added, and then `OnShell` is called. More fuel than
    -- services is enough.
    pub process_init_lem :
        (own fuel : ℕ) (others : List ℕ) (p : Process S)
        → ((p1 : Process S)
            → v.process_on_init (add_own_service own p) ≡ ok p1
            → p1.svcs ≡ own ∷ others)
        → suc (length others) < fuel
        → process_init v fuel own p ≡ (
            v.process_on_init (add_own_service own p) >>= λ p1.
            service_init v own p1 >>= λ p2. init_each others p2 >>= v.on_shell)
    unfolding process_init init_each
    process_init_lem own fuel others p adds enough =
        bind-cong (v.process_on_init (add_own_service own p)) _ _ λ p1 went.
          ap (λ m. m >>= v.on_shell)
            (init_services-init_each (own ∷ others) [] fuel p1 enough (adds p1 went))
          ∙ bind_assoc (service_init v own p1) (init_each others) v.on_shell
