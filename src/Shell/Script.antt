-- ===== src/Shell/Script.antt =====
-- How `ExecFile` goes through a script.
use cpp_readline.Common.{
  Bool, true, false, if◌then◌else◌, List, [], ◌∷◌, ◌++◌, ◌≡◌, refl, ℤ, Bool-cases, inl, inr,
}
use cpp_readline.Shell.{Str, ShellCommand, exec_lines, exec_command, is_comment, go_on, is_status}

module _ (W : Type 0) where
  -- `first`, and on success `second` in the world that it left
  unfoldable pub and_then : (W → ℤ × W) → (W → ℤ × W) → W → ℤ × W
  unfolding go_on
  and_then first second w = go_on W second (first w)

  module _ (h f g : W → ℤ × W) (same : (w : W) → h w ≡ and_then f g w) where
    go_on_assoc : (r : ℤ × W) → go_on W h r ≡ go_on W g (go_on W f r)
    unfolding go_on and_then
    go_on_assoc (status, w) = elim (Bool-cases (is_status 0 status)) [
      | inl went ↦ rw went (same w)
      | inr stopped ↦ rw stopped (rw stopped refl)
    ]

    line-and_then :
        (skip : Bool) (w : W) (r : ℤ × W)
        → (if skip then h w else go_on W h r) ≡ go_on W g (if skip then f w else go_on W f r)
    unfolding and_then
    line-and_then true w r = same w
    line-and_then false w r = go_on_assoc r

  -- A script of two parts runs as the first part and then, if every line of it succeeded, the second:
  -- the first line that fails ends the script with its status, and comments do nothing.
  pub exec_lines-append :
      (cs : List (ShellCommand W)) (first second : List Str) (w : W)
      → exec_lines W cs (first ++ second) w
        ≡ and_then (exec_lines W cs first) (exec_lines W cs second) w
  unfolding exec_lines and_then go_on
  exec_lines-append cs [] second w = refl
  exec_lines-append cs (line ∷ lines) second w =
      line-and_then (exec_lines W cs (lines ++ second)) (exec_lines W cs lines)
        (exec_lines W cs second) (exec_lines-append cs lines second) (is_comment W line) w
        (exec_command W cs line w)
