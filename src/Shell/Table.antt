-- ===== src/Shell/Table.antt =====
-- The command table: what `find` gives after `RegisterCommand`.
use cpp_readline.Common.{
  ==→≡, Bool, true, false, if◌then◌else◌, ◌&&◌, ◌==◌, List, [], ◌∷◌, ◌≡◌, refl, ap₂, some,
  Bool-cases, inl, inr, subst,
}
use cpp_readline.Shell.{
  Str, str_eq, str_lt, ShellCommand, Shell, ShellFunc, insert, register_command, find,
}

pub and-true : (a b : Bool) → (a && b) ≡ true → (a ≡ true) × (b ≡ true)
and-true true b h = (refl, h)
and-true false b h = cc

pub str_eq→≡ : (a b : Str) → str_eq a b ≡ true → a ≡ b
unfolding str_eq
str_eq→≡ [] [] h = refl
str_eq→≡ [] (d ∷ ds) h = cc
str_eq→≡ (c ∷ cs) [] h = cc
str_eq→≡ (c ∷ cs) (d ∷ ds) h =
    ap₂ ◌∷◌ (==→≡ c d (and-true (c == d) (str_eq cs ds) h).0)
      (str_eq→≡ cs ds (and-true (c == d) (str_eq cs ds) h).1)

module _ (W : Type 0) where
  pub find-insert :
      (c : ShellCommand W) (cs : List (ShellCommand W)) (key : Str)
      → find W (insert W c cs) key ≡ (if str_eq c.name key then some c else find W cs key)
  unfolding find insert
  find-insert c [] key = refl
  find-insert c (d ∷ ds) key = elim (Bool-cases (str_lt c.name d.name)) [
    | inl before ↦ rw before refl
    | inr after ↦ rw after (elim (Bool-cases (str_eq c.name d.name)) [
      | inl same ↦ rw same (elim (Bool-cases (str_eq c.name key)) [
        | inl hit ↦ rw hit refl
        | inr miss ↦
            rw (miss, subst (λ n. str_eq n key ≡ false) (str_eq→≡ c.name d.name same) miss) refl
      ])
      | inr other ↦ rw other (
          rw (find-insert c ds key) (elim (Bool-cases (str_eq d.name key)) [
            | inl hit ↦
                rw (hit, subst (λ k. str_eq c.name k ≡ false) (str_eq→≡ d.name key hit) other) refl
            | inr miss ↦ rw miss refl
          ]))
    ])
  ]

  -- After `RegisterCommand`, the name gives the new command, also where it had another before, and
  -- every other name gives what it gave.
  pub find-register_command :
      (name help : Str) (func : ShellFunc W) (sh : Shell W) (key : Str)
      → find W (register_command W name help func sh).commands key ≡ (
          if str_eq name key
          then some (record { name = name; help = help; func = func })
          else find W sh.commands key)
  unfolding register_command
  find-register_command name help func sh key = find-insert _ sh.commands key
