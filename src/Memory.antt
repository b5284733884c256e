-- ===== src/Memory.antt =====
-- Byte arrays as C++ sees them. A cell that nothing has written is indeterminate (`none`), and a
-- copy that leaves either array is undefined behaviour, a fault. `memcpy` and `memmove` are C
-- library functions: `mem_copy` states what both are documented to do.
use cpp_readline.Common.{
  ℕ, ◌+◌, ◌≤◌, ◌≡◌, ap, ◌∙◌, Option, none, List, ◌++◌, leb, ◌&&◌, if◌then◌else◌, length, take, drop,
  replicate, length-append, length-take, length-drop, take-append_left, take-append_right, take_all,
  arith, Result, ok, fault, out_of_bounds,
}

abbrev pub Cell : Type 0
Cell = Option ℕ

-- `new char[n]`
abbrev pub new_char : ℕ → List Cell
new_char n = replicate n none

-- The array `dst` with `ys` written from index `i` on.
pub overwrite : List Cell → ℕ → List Cell → List Cell
overwrite dst i ys = take i dst ++ (ys ++ drop (i + length ys) dst)

-- `memcpy(dst + i, src + j, n)`
unfoldable pub mem_copy : List Cell → ℕ → List Cell → ℕ → ℕ → Result (List Cell)
unfolding overwrite
mem_copy dst i src j n =
    if leb (j + n) (length src) && leb (i + n) (length dst)
    then ok (overwrite dst i (take n (drop j src)))
    else fault out_of_bounds

pub length-overwrite :
    (dst : List Cell) (i : ℕ) (ys : List Cell)
    → i + length ys ≤ length dst
    → length (overwrite dst i ys) ≡ length dst
unfolding overwrite
length-overwrite dst i ys h = omega (
  arith,
  length-append (take i dst) (ys ++ drop (i + length ys) dst),
  length-append ys (drop (i + length ys) dst),
  length-take i dst,
  length-drop (i + length ys) dst,
)

-- Reading back up to the end of what was written.
pub take-overwrite :
    (dst : List Cell) (i : ℕ) (ys : List Cell)
    → i + length ys ≤ length dst
    → take (i + length ys) (overwrite dst i ys) ≡ take i dst ++ ys
unfolding overwrite
take-overwrite dst i ys h =
    let e : i ≡ length (take i dst) = omega (arith, length-take i dst) in
    ap (λ k. take (k + length ys) (overwrite dst i ys)) e
    ∙ take-append_right (length ys) (take i dst) (ys ++ drop (i + length ys) dst)
    ∙ ap (◌++◌ (take i dst))
        (take-append_left (length ys) ys _ (omega arith) ∙ take_all _ ys (omega arith))

-- A copy inside both arrays succeeds.
pub mem_copy_lem :
    (dst : List Cell) (i : ℕ) (src : List Cell) (j n : ℕ)
    → j + n ≤ length src
    → i + n ≤ length dst
    → mem_copy dst i src j n ≡ ok (overwrite dst i (take n (drop j src)))
unfolding mem_copy
mem_copy_lem dst i src j n h k = ground arith
