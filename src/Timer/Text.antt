-- ===== src/Timer/Text.antt =====
-- src/xma_timer.cpp: `TimeUtil::TimeToStr`. The broken-down time of localtime_r(3) is a parameter; a
-- string is the list of its bytes.
use Prim.Native.Nat.{◌/◌}
use cpp_readline.Common.{
  ℕ, zero, suc, ◌+◌, ◌-◌, ◌*◌, ◌%◌, ◌^◌, ◌<◌, ◌≡◌, refl, if◌then◌else◌, ltb, leb, [], ◌∷◌, ◌++◌,
  length, drop, Result, ok, out_of_bounds, guard, ◌>>◌, Returns, returns, arith, ◌∙◌, lt→ltb,
}
use cpp_readline.Shell.{Str}

-- `tm_hour`, `tm_min` and `tm_sec`
pub record Tm : Type 0 where
  pub hour : ℕ
  pub min : ℕ
  pub sec : ℕ

-- the last `k` decimal digits of a number
pub digits : ℕ → ℕ → Str
digits zero n = []
digits (suc k) n = digits k (n / 10) ++ ((48 + n % 10) ∷ [])

-- strftime(3) of "%H:%M:%S"
pub clock : Tm → Str
unfolding digits
clock t = digits 2 t.hour ++ (58 ∷ (digits 2 t.min ++ (58 ∷ digits 2 t.sec)))

-- how many digits "%03ld" prints, where `k` are too few or enough
width : ℕ → ℕ → ℕ → ℕ
width zero k n = k
width (suc fuel) k n = let more = width fuel (suc k) n in if ltb n (10 ^ k) then k else more

-- "%03ld" of a `long` that is not negative: at most 19 digits
padded : ℕ → Str
unfolding width digits
padded n = digits (width 16 3 n) n

-- The milliseconds of `t` less the milliseconds of its seconds; `t` counts nanoseconds.
milliseconds : ℕ → ℕ
milliseconds t = t / 10 ^ 6 - t / 10 ^ 9 * 1000

-- `TimeToStr(t)`, with the array `tstr` of 13 characters
unfoldable pub time_to_str : Tm → ℕ → Result Str
unfolding clock padded milliseconds
time_to_str tm t = do
  let text = 46 ∷ padded (milliseconds t)
  guard (leb (8 + (length text + 1)) 13) out_of_bounds
  ok (clock tm ++ text)

-- the number that decimal digits stand for
pub value : ℕ → Str → ℕ
value acc [] = acc
value acc (c ∷ cs) = value (acc * 10 + (c - 48)) cs

milliseconds_lem : (t : ℕ) → milliseconds t ≡ t / 10 ^ 6 % 1000
unfolding milliseconds
milliseconds_lem t = omega arith

value-digits : (n : ℕ) → n < 1000 → value 0 (digits 3 n) ≡ n
unfolding value digits
value-digits n small = omega arith

padded_lem : (n : ℕ) → n < 1000 → padded n ≡ digits 3 n
unfolding padded width
padded_lem n small = rw (lt→ltb n 1000 small) refl

small : (t : ℕ) → milliseconds t < 1000
unfolding milliseconds
small t = omega arith

-- A text of twelve characters that ends in the milliseconds of `t`.
pub record IsStamp (t : ℕ) (s : Str) : Type 0 where
  pub size : length s ≡ 12
  pub millis : value 0 (drop 9 s) ≡ t / 10 ^ 6 % 1000

-- `TimeToStr` stays in its array of 13 characters. Its text has 12 characters, and the number that is
-- read back from the last three is the time in milliseconds, modulo 1000.
pub time_to_str_lem : (tm : Tm) (t : ℕ) → Returns (IsStamp t) (time_to_str tm t)
unfolding time_to_str clock digits value
time_to_str_lem tm t = rw (padded_lem (milliseconds t) (small t)) (
    returns (record {
      size = refl;
      millis = value-digits (milliseconds t) (small t) ∙ milliseconds_lem t;
    }))
