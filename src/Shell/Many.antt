-- ===== src/Shell/Many.antt =====
-- The command table after several commands are registered, one after the other.
use cpp_readline.Common.{List, [], ◌∷◌, Option, some, if◌then◌else◌, ◌≡◌, refl, ap, ◌∙◌}
use cpp_readline.Shell.{Str, str_eq, ShellCommand, Shell, register_command, find}
use cpp_readline.Shell.Table.{find-register_command}

module _ (W : Type 0) where
  -- `RegisterCommand` of each command of a list
  unfoldable pub register_all : List (ShellCommand W) → Shell W → Shell W
  register_all [] sh = sh
  register_all (c ∷ cs) sh = register_all cs (register_command W c.name c.help c.func sh)

  -- the last command of the list with this name, where there is one
  unfoldable pub latest :
      List (ShellCommand W) → Str → Option (ShellCommand W) → Option (ShellCommand W)
  latest [] key before = before
  latest (c ∷ cs) key before = latest cs key (if str_eq c.name key then some c else before)

  -- After the commands of a list are registered in turn, a name gives the last of them that has it, and
  -- where none has, what it gave before.
  pub find-register_all :
      (cs : List (ShellCommand W)) (sh : Shell W) (key : Str)
      → find W (register_all cs sh).commands key ≡ latest cs key (find W sh.commands key)
  unfolding register_all latest
  find-register_all [] sh key = refl
  find-register_all (c ∷ cs) sh key =
      find-register_all cs (register_command W c.name c.help c.func sh) key
      ∙ ap (latest cs key) (find-register_command W c.name c.help c.func sh key)
