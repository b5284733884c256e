-- ===== src/Timer/Check.antt =====
-- What the loop of `CheckTimers` does, against a description without iterators.
use cpp_readline.Common.{
  ==→≡, ==-refl, Option, ℕ, ◌≤◌, ◌<◌, ◌≡◌, refl, ap, sym, ◌∙◌, if◌then◌else◌, leb, ◌==◌, List, [],
  ◌∷◌, ◌++◌, Returns, returns, Bool-cases, inl, inr, arith, suc, zero, length, Result, ok, leb→gt,
  leb→le,
}
use cpp_readline.Timer.{
  Timer, Timers, Node, deactivate, due_of, check_loop, check_timers, fire, do_handle, erase, deref,
  first_node,
}
use cpp_readline.Timer.Order.{Ascending, asc-cons}

-- the timers in front that are due at `now`, and the timers from the first that is not
unfoldable pub due_part : (ℕ → ℕ) → ℕ → List Node → List Node
due_part due now [] = []
due_part due now (n ∷ ns) =
    let rest = due_part due now ns in if leb (due n.timer) now then n ∷ rest else []

unfoldable pub later_part : (ℕ → ℕ) → ℕ → List Node → List Node
later_part due now [] = []
later_part due now (n ∷ ns) =
    let rest = later_part due now ns in if leb (due n.timer) now then rest else n ∷ ns

-- the objects after these timers have fired
unfoldable pub retire : (ℕ → Timer) → List Node → ℕ → Timer
retire objects [] = objects
retire objects (n ∷ ns) = retire (deactivate objects n.timer) ns

-- a `Timeout` that leaves the timers alone
abbrev pub Quiet : {W : Type 0} → (ℕ → W → Timers → Result (W × Timers)) → Type 0
Quiet {W = W} timeout = (t : ℕ) (w : W) (st : Timers) → timeout t w st ≡ ok (w, st)

due_of-deactivate :
    (objects : ℕ → Timer) (t u : ℕ) → due_of (deactivate objects t) u ≡ due_of objects u
due_of-deactivate objects t u = elim (Bool-cases (u == t)) [
  | inl same ↦ rw (same, due_of) (ap (due_of objects) (sym (==→≡ u t same)))
  | inr other ↦ rw (other, due_of) refl
]

same_due : (objects : ℕ → Timer) (t : ℕ) → due_of (deactivate objects t) ≡ due_of objects
same_due objects t = λ i u. due_of-deactivate objects t u i

module _ {W : Type 0} (timeout : ℕ → W → Timers → Result (W × Timers)) (quiet : Quiet timeout) where
  fire_quiet :
      (rest : Option ℕ → W → Timers → Result (W × Timers)) (w : W) (st : Timers) (n : Node)
      (ns : List Node)
      → fire timeout rest n.at n.timer w (record st { nodes = n ∷ ns })
        ≡ rest (first_node ns) w (record st { nodes = ns; objects = deactivate st.objects n.timer })
  unfolding fire do_handle erase
  fire_quiet rest w st n ns = rw (==-refl n.timer, quiet n.timer w, ==-refl n.at) refl

  check_loop-later :
      (now fuel : ℕ) (nodes : List Node) (w : W) (st : Timers)
      → length nodes ≤ fuel
      → check_loop timeout fuel now (first_node nodes) w (record st { nodes = nodes })
        ≡ ok (
          w,
          record st {
            nodes = later_part (due_of st.objects) now nodes;
            objects = retire st.objects (due_part (due_of st.objects) now nodes);
          },
        )
  unfolding check_loop deref first_node later_part due_part retire
  check_loop-later now fuel [] w st h = refl
  check_loop-later now zero (n ∷ ns) w st h = absurd (omega arith)
  check_loop-later now (suc fuel) (n ∷ ns) w st h =
      elim (Bool-cases (leb (due_of st.objects n.timer) now)) [
        | inl ready ↦
            rw (==-refl n.at, ready)
              (fire_quiet (check_loop timeout fuel now) w st n ns
                ∙ check_loop-later now fuel ns w
                    (record st { objects = deactivate st.objects n.timer }) (omega arith)
                ∙ ap
                    (λ d. ok (
                      w,
                      record st {
                        nodes = later_part d now ns;
                        objects = retire (deactivate st.objects n.timer) (due_part d now ns);
                      },
                    ))
                    (same_due st.objects n.timer))
        | inr early ↦ rw (==-refl n.at, early) refl
      ]

-- every node of the list has `P`
pub data AllOf (P : Node → Type 0) : List Node → Type 0 where
  all-nil : AllOf P []
  all-cons : {n : Node} {ns : List Node} → P n → AllOf P ns → AllOf P (n ∷ ns)

-- What `CheckTimers` did at `now`, of which the result is `st'`: the timers of `fired` stood in front,
-- were due and are inactive now, and the list holds those that are due later.
pub record Checked (now : ℕ) (st st' : Timers) : Type 0 where
  pub fired : List Node
  pub split : fired ++ st'.nodes ≡ st.nodes
  pub ready : AllOf (λ n. due_of st.objects n.timer ≤ now) fired
  pub later : AllOf (λ n. now < due_of st.objects n.timer) st'.nodes
  pub objects : st'.objects ≡ retire st.objects fired

due-append-later :
    (due : ℕ → ℕ) (now : ℕ) (ns : List Node) → due_part due now ns ++ later_part due now ns ≡ ns
unfolding due_part later_part
due-append-later due now [] = refl
due-append-later due now (n ∷ ns) = elim (Bool-cases (leb (due n.timer) now)) [
  | inl ready ↦ rw ready (ap (◌∷◌ n) (due-append-later due now ns))
  | inr early ↦ rw early refl
]

due_part-ready :
    (due : ℕ → ℕ) (now : ℕ) (ns : List Node) → AllOf (λ n. due n.timer ≤ now) (due_part due now ns)
unfolding due_part
due_part-ready due now [] = all-nil
due_part-ready due now (n ∷ ns) = elim (Bool-cases (leb (due n.timer) now)) [
  | inl ready ↦ rw ready (all-cons (leb→le (due n.timer) now ready) (due_part-ready due now ns))
  | inr early ↦ rw early all-nil
]

pub Ascending-later :
    (due : ℕ → ℕ) (now lo : ℕ) (ns : List Node)
    → now < lo
    → Ascending due lo ns
    → AllOf (λ n. now < due n.timer) ns
Ascending-later due now lo [] h a = all-nil
Ascending-later due now lo (n ∷ ns) h (asc-cons g a) =
    all-cons (omega arith) (Ascending-later due now (due n.timer) ns (omega arith) a)

later_part-later :
    (due : ℕ → ℕ) (now lo : ℕ) (ns : List Node)
    → Ascending due lo ns
    → AllOf (λ n. now < due n.timer) (later_part due now ns)
unfolding later_part
later_part-later due now lo [] a = all-nil
later_part-later due now lo (n ∷ ns) (asc-cons g a) = elim (Bool-cases (leb (due n.timer) now)) [
  | inl ready ↦ rw ready (later_part-later due now (due n.timer) ns a)
  | inr early ↦
      let behind : now < due n.timer = leb→gt (due n.timer) now early in
      rw early (all-cons behind (Ascending-later due now (due n.timer) ns behind a))
]

-- With a list in order and no `Timeout` that changes timers, the loop of `CheckTimers` ends after at
-- most one round for each timer of the list. It fires exactly the timers that are due, from the front,
-- and leaves exactly those that are due later.
pub check_timers_lem :
    {W : Type 0} (timeout : ℕ → W → Timers → Result (W × Timers)) (fuel now lo : ℕ) (w : W)
    (st : Timers)
    → Quiet timeout
    → Ascending (due_of st.objects) lo st.nodes
    → length st.nodes ≤ fuel
    → Returns (λ r. Checked now st r.2) (check_timers timeout fuel now w st)
unfolding check_timers
check_timers_lem timeout fuel now lo w st quiet a enough =
    rw (check_loop-later timeout quiet now fuel st.nodes w st enough) (
      returns (record {
        fired = due_part (due_of st.objects) now st.nodes;
        split = due-append-later (due_of st.objects) now st.nodes;
        ready = due_part-ready (due_of st.objects) now st.nodes;
        later = later_part-later (due_of st.objects) now lo st.nodes a;
        objects = refl;
      }))
