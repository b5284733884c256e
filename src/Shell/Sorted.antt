-- ===== src/Shell/Sorted.antt =====
-- src/xma_shell.cpp: the command table stays in the order of the names, each of them once.
use cpp_readline.Common.{true, false, List, [], ◌∷◌, ◌≡◌, sym, subst, Bool-cases, inl, inr}
use cpp_readline.Shell.{
  Str, str_eq, str_lt, ShellCommand, Shell, ShellFunc, insert, register_command, new_shell,
}
use cpp_readline.Shell.Order.{
  str_eq_refl, before, same, after, compared, str_lt_trans, str_lt_irrefl,
}

module _ (W : Type 0) where
  -- every name of the list comes after `n`
  pub data Above (n : Str) : List (ShellCommand W) → Type 0 where
    above-nil : Above n []
    above-cons :
        {c : ShellCommand W} {cs : List (ShellCommand W)}
        → str_lt n c.name ≡ true
        → Above n cs
        → Above n (c ∷ cs)

  -- in the order of the names, each of them once
  pub data IsSorted : List (ShellCommand W) → Type 0 where
    sorted-nil : IsSorted []
    sorted-cons :
        {c : ShellCommand W} {cs : List (ShellCommand W)}
        → Above c.name cs
        → IsSorted cs
        → IsSorted (c ∷ cs)

  Above-trans :
      (m n : Str) {cs : List (ShellCommand W)} → str_lt m n ≡ true → Above n cs → Above m cs
  Above-trans m n h above-nil = above-nil
  Above-trans m n h (above-cons {c = c} l a) =
      above-cons (str_lt_trans m n c.name h l) (Above-trans m n h a)

  insert-Above :
      (n : Str) (c : ShellCommand W) (cs : List (ShellCommand W))
      → str_lt n c.name ≡ true
      → Above n cs
      → Above n (insert W c cs)
  unfolding insert
  insert-Above n c [] h a = above-cons h above-nil
  insert-Above n c (d ∷ ds) h (above-cons l a) = elim (Bool-cases (str_lt c.name d.name)) [
    | inl first ↦ rw first (above-cons h (above-cons l a))
    | inr later ↦ rw later (elim (Bool-cases (str_eq c.name d.name)) [
      | inl e ↦ rw e (above-cons h a)
      | inr e ↦ rw e (above-cons l (insert-Above n c ds h a))
    ])
  ]

  pub insert-IsSorted :
      (c : ShellCommand W) (cs : List (ShellCommand W)) → IsSorted cs → IsSorted (insert W c cs)
  unfolding insert
  insert-IsSorted c [] s = sorted-cons above-nil sorted-nil
  insert-IsSorted c (d ∷ ds) (sorted-cons a s) =
      let rest = insert-IsSorted c ds s in
      elim (compared c.name d.name) [
        | before l g e e' ↦
            rw l (sorted-cons (above-cons l (Above-trans c.name d.name l a)) (sorted-cons a s))
        | same e ↦
            rw
              (
                subst (λ x. str_lt c.name x ≡ false) e (str_lt_irrefl c.name),
                subst (λ x. str_eq c.name x ≡ true) e (str_eq_refl c.name),
              )
              (sorted-cons (subst (λ n. Above n ds) (sym e) a) s)
        | after l g e e' ↦ rw (g, e) (sorted-cons (insert-Above d.name c ds l a) rest)
      ]

  -- `RegisterCommand` keeps the table in the order of the names, each of them once.
  pub register_command-IsSorted :
      (name help : Str) (func : ShellFunc W) (sh : Shell W)
      → IsSorted sh.commands
      → IsSorted (register_command W name help func sh).commands
  unfolding register_command
  register_command-IsSorted name help func sh s = insert-IsSorted _ sh.commands s

  -- The table of a new shell is in order.
  pub new_shell-IsSorted : (prompt : Str) → IsSorted (new_shell W prompt).commands
  unfolding new_shell register_command
  new_shell-IsSorted prompt = insert-IsSorted _ _ (insert-IsSorted _ [] sorted-nil)
