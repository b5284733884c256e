-- ===== src/Shell/Unique.antt =====
-- src/xma_shell.cpp: the command table as the map from names to commands that it is: it has one order only.
use cpp_readline.Common.{
  Bool, true, false, if◌then◌else◌, List, [], ◌∷◌, Option, none, some, ◌≡◌, refl, sym, ap, ap₂, ◌∙◌,
  subst, Bool-cases, inl, inr, ◌⊎◌,
}
use cpp_readline.Shell.{
  Str, str_eq, str_lt, ShellCommand, Shell, ShellFunc, insert, register_command, find,
}
use cpp_readline.Shell.Order.{str_eq_refl, str_lt-apart}
use cpp_readline.Shell.Table.{str_eq→≡, find-insert}
use cpp_readline.Shell.Sorted.{Above, above-nil, above-cons, IsSorted, sorted-cons, insert-IsSorted}

module _ (W : Type 0) where
  find-Above : (n : Str) (cs : List (ShellCommand W)) → Above W n cs → find W cs n ≡ none
  unfolding find
  find-Above n [] above-nil = refl
  find-Above n (c ∷ cs) (above-cons l a) = rw (str_lt-apart n c.name l).0 (find-Above n cs a)

  if_some :
      (b : Bool) (d c : ShellCommand W) (o : Option (ShellCommand W))
      → (if b then some d else o) ≡ some c
      → (d ≡ c) ⊎ (o ≡ some c)
  if_some true d c o e = inl cc
  if_some false d c o e = inr e

  found-Above :
      (n key : Str) (c : ShellCommand W) (cs : List (ShellCommand W))
      → find W cs key ≡ some c
      → Above W n cs
      → str_lt n c.name ≡ true
  unfolding find
  found-Above n key c [] e a = cc
  found-Above n key c (d ∷ ds) e (above-cons l a) =
      elim (if_some (str_eq d.name key) d c (find W ds key) e) [
        | inl here ↦ subst (λ x. str_lt n x.name ≡ true) here l
        | inr later ↦ found-Above n key c ds later a
      ]

  -- what the first command of a table has to be, where another table finds it
  first_found :
      (c d : ShellCommand W) (ds : List (ShellCommand W))
      → find W (d ∷ ds) c.name ≡ some c
      → Above W d.name ds
      → (d ≡ c) ⊎ (str_lt d.name c.name ≡ true)
  unfolding find
  first_found c d ds e a = elim (if_some (str_eq d.name c.name) d c (find W ds c.name) e) [
    | inl here ↦ inl here
    | inr later ↦ inr (found-Above d.name c.name c ds later a)
  ]

  find_first : (c : ShellCommand W) (cs : List (ShellCommand W)) → find W (c ∷ cs) c.name ≡ some c
  unfolding find
  find_first c cs = rw (str_eq_refl c.name) refl

  find_skip :
      (c : ShellCommand W) (cs : List (ShellCommand W)) (key : Str)
      → str_eq c.name key ≡ false
      → find W (c ∷ cs) key ≡ find W cs key
  unfolding find
  find_skip c cs key e = rw e refl

  none-some : {c : ShellCommand W} → Option.none ≡ some c → ⊥
  none-some e = cc

  true-false : {b : Bool} → b ≡ true → b ≡ false → ⊥
  true-false e e' = cc

  abbrev Agree : List (ShellCommand W) → List (ShellCommand W) → Type 0
  Agree cs ds = (key : Str) → find W cs key ≡ find W ds key

  Agree-rest :
      (c : ShellCommand W) (cs ds : List (ShellCommand W))
      → Above W c.name cs
      → Above W c.name ds
      → Agree (c ∷ cs) (c ∷ ds)
      → Agree cs ds
  unfolding find
  Agree-rest c cs ds a b agree key = elim (Bool-cases (str_eq c.name key)) [
    | inl e ↦
        let name : c.name ≡ key = str_eq→≡ c.name key e in
        subst (λ k. find W cs k ≡ find W ds k) name
          (find-Above c.name cs a ∙ sym (find-Above c.name ds b))
    | inr e ↦ sym (find_skip c cs key e) ∙ agree key ∙ find_skip c ds key e
  ]

  first_same :
      (c d : ShellCommand W) (cs ds : List (ShellCommand W))
      → Above W c.name cs
      → Above W d.name ds
      → Agree (c ∷ cs) (d ∷ ds)
      → d ≡ c
  first_same c d cs ds a b agree =
      elim (first_found c d ds (sym (agree c.name) ∙ find_first c cs) b) [
        | inl here ↦ here
        | inr below ↦ elim (first_found d c cs (agree d.name ∙ find_first d ds) a) [
          | inl here ↦ sym here
          | inr above ↦ absurd (true-false above (str_lt-apart d.name c.name below).1)
        ]
      ]

  -- Two tables in order that give the same command for every name are the same.
  pub find-injective :
      (cs ds : List (ShellCommand W)) → IsSorted W cs → IsSorted W ds → Agree cs ds → cs ≡ ds
  unfolding find
  find-injective [] [] s t agree = refl
  find-injective [] (d ∷ ds) s t agree = absurd (none-some (agree d.name ∙ find_first d ds))
  find-injective (c ∷ cs) [] s t agree = absurd (none-some (sym (agree c.name) ∙ find_first c cs))
  find-injective (c ∷ cs) (d ∷ ds) (sorted-cons a s) (sorted-cons b t) agree =
      let here : d ≡ c = first_same c d cs ds a b agree in
      ap₂ ◌∷◌ (sym here) (
        find-injective cs ds s t (
          Agree-rest c cs ds a (subst (λ x. Above W x.name ds) here b)
            (λ key. agree key ∙ ap (λ x. find W (x ∷ ds) key) here)))

  if_comm :
      (p q : Bool) (a b o : Option (ShellCommand W))
      → (p ≡ true → q ≡ true → ⊥)
      → (if p then a else if q then b else o) ≡ (if q then b else if p then a else o)
  if_comm true true a b o apart = absurd (apart refl refl)
  if_comm true false a b o apart = refl
  if_comm false q a b o apart = refl

  not_both :
      (c d : ShellCommand W) (key : Str)
      → str_eq c.name d.name ≡ false
      → c.name ≡ key
      → d.name ≡ key
      → ⊥
  not_both c d key other e e' =
      true-false (subst (λ x. str_eq c.name x ≡ true) (e ∙ sym e') (str_eq_refl c.name)) other

  -- what two registrations of different names give, in either order
  swapped :
      (c d : ShellCommand W) (cs : List (ShellCommand W))
      → str_eq c.name d.name ≡ false
      → Agree (insert W c (insert W d cs)) (insert W d (insert W c cs))
  swapped c d cs other key =
      find-insert W c (insert W d cs) key
      ∙ ap (λ o. if str_eq c.name key then some c else o) (find-insert W d cs key)
      ∙ if_comm (str_eq c.name key) (str_eq d.name key) (some c) (some d) (find W cs key)
          (λ p q. not_both c d key other (str_eq→≡ c.name key p) (str_eq→≡ d.name key q))
      ∙ ap (λ o. if str_eq d.name key then some d else o) (sym (find-insert W c cs key))
      ∙ sym (find-insert W d (insert W c cs) key)

  -- The order in which two commands of different names are registered does not matter, where the
  -- table is in the order of the names, each of them once.
  register_command_comm :
      (n m h k : Str) (f g : ShellFunc W) (sh : Shell W)
      → IsSorted W sh.commands
      → str_eq n m ≡ false
      → register_command W n h f (register_command W m k g sh)
        ≡ register_command W m k g (register_command W n h f sh)
  unfolding register_command
  register_command_comm n m h k f g sh s other =
      ap (λ cs. record sh { commands = cs })
        (find-injective _ _ (insert-IsSorted W _ _ (insert-IsSorted W _ sh.commands s))
          (insert-IsSorted W _ _ (insert-IsSorted W _ sh.commands s))
          (swapped _ _ sh.commands other))
