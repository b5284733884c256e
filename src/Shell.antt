-- ===== src/Shell.antt =====
-- src/xma_shell.cpp: the command table, `ExecCommand`, `ExecFile` and `Run`. A string is the list of
-- its bytes; what is printed and the readline history are left out. What the registered functions
-- work on is a parameter `W`.
pub mod Words
pub mod Typed
pub mod Completion
pub mod Order
pub mod Sorted
pub mod Unique
pub mod Script
pub mod Table
pub mod Many
use cpp_readline.Common.{
  ℕ, Bool, true, false, if◌then◌else◌, ◌&&◌, ◌||◌, not, ◌==◌, ltb, leb, List, [], ◌∷◌, ◌++◌, Option,
  none, some, ℤ, pos, negsuc,
}

abbrev pub Str : Type 0
Str = List ℕ

-- `isspace`: 9 to 13 and 32
abbrev pub is_space : ℕ → Bool
is_space c = c == 32 || (leb 9 c && leb c 13)

abbrev pub is_empty : Str → Bool
is_empty [] = true
is_empty (c ∷ cs) = false

-- a word that is read to its end, where there is one
pub flush_word : Str → List Str → List Str
flush_word [] ws = ws
flush_word (c ∷ cs) ws = (c ∷ cs) ∷ ws

-- What `istream_iterator<std::string>` reads, with the part of a word that is already read.
pub words_from : Str → Str → List Str
unfolding flush_word
words_from word [] = flush_word word []
words_from word (c ∷ cs) =
    let after = words_from [] cs in
    let more = words_from (word ++ (c ∷ [])) cs in
    if is_space c then flush_word word after else more

unfoldable pub words : Str → List Str
unfolding words_from
words s = words_from [] s

-- `a == b` and `a < b` of strings
unfoldable pub str_eq : Str → Str → Bool
str_eq [] [] = true
str_eq [] (d ∷ ds) = false
str_eq (c ∷ cs) [] = false
str_eq (c ∷ cs) (d ∷ ds) = c == d && str_eq cs ds

pub str_lt : Str → Str → Bool
str_lt [] [] = false
str_lt [] (d ∷ ds) = true
str_lt (c ∷ cs) [] = false
str_lt (c ∷ cs) (d ∷ ds) = ltb c d || (c == d && str_lt cs ds)

-- XmaStatus, an `int` that a registered function may return with any value
abbrev pub xs_success : ℤ
xs_success = pos 0

abbrev pub xs_intrnl_err : ℤ
xs_intrnl_err = pos 1

abbrev pub xs_quit : ℤ
xs_quit = pos 100

abbrev pub is_status : ℕ → ℤ → Bool
is_status n (pos m) = m == n
is_status n (negsuc m) = false

-- the bytes of "help", "show this help", "quit", "quit the process", "$" and "!#"
abbrev pub help_name : Str
help_name = 104 ∷ 101 ∷ 108 ∷ 112 ∷ []

abbrev pub help_text : Str
help_text = 115 ∷ 104 ∷ 111 ∷ 119 ∷ 32 ∷ 116 ∷ 104 ∷ 105 ∷ 115 ∷ 32 ∷ help_name

abbrev pub quit_name : Str
quit_name = 113 ∷ 117 ∷ 105 ∷ 116 ∷ []

abbrev pub quit_text : Str
quit_text = quit_name ++ (32 ∷ 116 ∷ 104 ∷ 101 ∷ 32 ∷ 112 ∷ 114 ∷ 111 ∷ 99 ∷ 101 ∷ 115 ∷ 115 ∷ [])

abbrev pub ok_prompt : Str
ok_prompt = 36 ∷ []

abbrev pub error_prompt : Str
error_prompt = 33 ∷ 35 ∷ []

module _ (W : Type 0) where
  abbrev pub ShellFunc : Type 0
  ShellFunc = List Str → W → ℤ × W

  pub record ShellCommand : Type 0 where
    pub name : Str
    pub help : Str
    pub func : ShellFunc

  pub record Shell : Type 0 where
    pub prompt : Str
    -- the map, in the order of its keys, which are the commands' names
    pub commands : List ShellCommand

  pub insert : ShellCommand → List ShellCommand → List ShellCommand
  insert c [] = c ∷ []
  insert c (d ∷ ds) =
      let after = insert c ds in
      if str_lt c.name d.name
      then c ∷ d ∷ ds
      else if str_eq c.name d.name
      then c ∷ ds
      else d ∷ after

  -- `RegisterCommand`
  unfoldable pub register_command : Str → Str → ShellFunc → Shell → Shell
  unfolding insert
  register_command name help func sh = record sh {
    commands = insert (record { name = name; help = help; func = func }) sh.commands;
  }

  -- `Shell(prompt)`
  unfoldable pub new_shell : Str → Shell
  unfolding register_command
  new_shell prompt =
      register_command quit_name quit_text (λ args w. (xs_quit, w))
        (register_command help_name help_text (λ args w. (xs_success, w))
          (record { prompt = prompt; commands = [] }))

  -- `_commands.find`
  unfoldable pub find : List ShellCommand → Str → Option ShellCommand
  find [] name = none
  find (c ∷ cs) name = let after = find cs name in if str_eq c.name name then some c else after

  pub call : Option ShellCommand → List Str → W → ℤ × W
  call none inputs w = (xs_intrnl_err, w)
  call (some c) inputs w = c.func inputs w

  pub exec_words : List ShellCommand → List Str → W → ℤ × W
  unfolding call find
  exec_words cs [] w = (xs_success, w)
  exec_words cs (name ∷ args) w = call (find cs name) (name ∷ args) w

  -- `ExecCommand`
  unfoldable pub exec_command : List ShellCommand → Str → W → ℤ × W
  unfolding exec_words words
  exec_command cs command w = exec_words cs (words command) w

  -- `command[0] == '#' || command[0] == '/'`; that of an empty string is 0
  pub is_comment : Str → Bool
  is_comment [] = false
  is_comment (c ∷ cs) = c == 35 || c == 47

  go_on : (W → ℤ × W) → ℤ × W → ℤ × W
  go_on rest (status, w) = if is_status 0 status then rest w else (status, w)

  -- the loop of `ExecFile` over the lines that are left
  unfoldable pub exec_lines : List ShellCommand → List Str → W → ℤ × W
  unfolding exec_command is_comment go_on
  exec_lines cs [] w = (xs_success, w)
  exec_lines cs (line ∷ lines) w =
      let rest = exec_lines cs lines in
      if is_comment line then rest w else go_on rest (exec_command cs line w)

  -- `ExecFile`, with the lines of the file where it can be opened
  unfoldable pub exec_file : List ShellCommand → Option (List Str) → W → ℤ × W
  unfolding exec_lines
  exec_file cs none w = (xs_intrnl_err, w)
  exec_file cs (some lines) w = exec_lines cs lines w

  -- the `switch` of `Run`, but for `XS_QUIT`
  unfoldable pub next_prompt : Str → ℤ → Str
  next_prompt prompt status =
      if is_status 0 status then ok_prompt else if is_status 1 status then error_prompt else prompt

  after_command : (Shell → W → Shell × W) → Shell → ℤ × W → Shell × W
  unfolding next_prompt
  after_command rest sh (status, w) =
      if is_status 100 status
      then (sh, w)
      else rest (record sh { prompt = next_prompt sh.prompt status }) w

  -- `Run`, on the lines that readline gives before the end of its input, where it gives a null
  -- pointer and `Readline` returns `XS_QUIT`
  unfoldable pub run : List Str → Shell → W → Shell × W
  unfolding exec_command after_command
  run [] sh w = (sh, w)
  run (line ∷ lines) sh w =
      let rest = run lines in after_command rest sh (exec_command sh.commands line w)
