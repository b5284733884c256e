-- ===== src/Shell/Order.antt =====
-- src/xma_shell.cpp: the order of `std::string` by which the command table is kept.
use cpp_readline.Common.{
  ℕ, ◌<◌, Bool, true, false, ltb, ◌==◌, ◌&&◌, ◌||◌, [], ◌∷◌, ◌≡◌, refl, sym, subst, arith, ==→≡,
  ==-refl, ltb→lt, lt→ltb, Bool-cases, inl, inr, ◌⊎◌,
}
use cpp_readline.Shell.{Str, str_eq, str_lt}

pub str_eq_refl : (a : Str) → str_eq a a ≡ true
unfolding str_eq
str_eq_refl [] = refl
str_eq_refl (c ∷ cs) = rw (==-refl c) (str_eq_refl cs)

-- How two strings compare, with the tests that the code may ask.
pub data Compared (a b : Str) : Type 0 where
  before :
      str_lt a b ≡ true
      → str_lt b a ≡ false
      → str_eq a b ≡ false
      → str_eq b a ≡ false
      → Compared a b
  same : a ≡ b → Compared a b
  after :
      str_lt b a ≡ true
      → str_lt a b ≡ false
      → str_eq a b ≡ false
      → str_eq b a ≡ false
      → Compared a b

-- the same for two characters
data Heads (c d : ℕ) : Type 0 where
  below : ltb c d ≡ true → (c == d) ≡ false → ltb d c ≡ false → (d == c) ≡ false → Heads c d
  level : c ≡ d → Heads c d
  above : ltb c d ≡ false → (c == d) ≡ false → ltb d c ≡ true → (d == c) ≡ false → Heads c d

heads : (c d : ℕ) → Heads c d
heads c d = elim (Bool-cases (ltb c d)) [
  | inl l ↦ below l (ground arith) (ground arith) (ground arith)
  | inr g ↦ elim (Bool-cases (c == d)) [
    | inl e ↦ level (==→≡ c d e)
    | inr n ↦ above g n (ground arith) (ground arith)
  ]
]

ltb_irrefl : (c : ℕ) → ltb c c ≡ false
ltb_irrefl c = ground arith

level_Compared : (c : ℕ) (cs ds : Str) → Compared cs ds → Compared (c ∷ cs) (c ∷ ds)
unfolding str_lt str_eq
level_Compared c cs ds (before l g e e') =
    before (rw (ltb_irrefl c, ==-refl c) l) (rw (ltb_irrefl c, ==-refl c) g) (rw (==-refl c) e)
      (rw (==-refl c) e')
level_Compared c cs ds (same e) = same (rw e refl)
level_Compared c cs ds (after l g e e') =
    after (rw (ltb_irrefl c, ==-refl c) l) (rw (ltb_irrefl c, ==-refl c) g) (rw (==-refl c) e)
      (rw (==-refl c) e')

pub compared : (a b : Str) → Compared a b
unfolding str_lt str_eq
compared [] [] = same refl
compared [] (d ∷ ds) = before refl refl refl refl
compared (c ∷ cs) [] = after refl refl refl refl
compared (c ∷ cs) (d ∷ ds) =
    let rest = compared cs ds in
    elim (heads c d) [
      | below l e g e' ↦ before (rw l refl) (rw (g, e') refl) (rw e refl) (rw e' refl)
      | level same_head ↦
          subst (λ x. Compared (c ∷ cs) (x ∷ ds)) same_head (level_Compared c cs ds rest)
      | above l e g e' ↦ after (rw g refl) (rw (l, e) refl) (rw e refl) (rw e' refl)
    ]

or_split : (p e q : Bool) → (p || (e && q)) ≡ true → (p ≡ true) ⊎ ((e ≡ true) × (q ≡ true))
or_split true e q h = inl refl
or_split false true q h = inr (refl, h)
or_split false false q h = cc

lt_step :
    (c d : ℕ) (cs ds : Str)
    → str_lt (c ∷ cs) (d ∷ ds) ≡ true
    → (c < d) ⊎ ((c ≡ d) × (str_lt cs ds ≡ true))
unfolding str_lt
lt_step c d cs ds h = elim (or_split (ltb c d) (c == d) (str_lt cs ds) h) [
  | inl l ↦ inl (ltb→lt c d l)
  | inr (e, q) ↦ inr (==→≡ c d e, q)
]

lt_here : (c d : ℕ) (cs ds : Str) → c < d → str_lt (c ∷ cs) (d ∷ ds) ≡ true
unfolding str_lt
lt_here c d cs ds h = rw (lt→ltb c d h) refl

lt_later : (c d : ℕ) (cs ds : Str) → c ≡ d → str_lt cs ds ≡ true → str_lt (c ∷ cs) (d ∷ ds) ≡ true
unfolding str_lt
lt_later c d cs ds e h = rw (e, ltb_irrefl d, ==-refl d) h

pub str_lt_trans : (a b c : Str) → str_lt a b ≡ true → str_lt b c ≡ true → str_lt a c ≡ true
unfolding str_lt
str_lt_trans [] [] c h h' = cc
str_lt_trans [] (y ∷ ys) [] h h' = cc
str_lt_trans [] (y ∷ ys) (z ∷ zs) h h' = refl
str_lt_trans (x ∷ xs) [] c h h' = cc
str_lt_trans (x ∷ xs) (y ∷ ys) [] h h' = cc
str_lt_trans (x ∷ xs) (y ∷ ys) (z ∷ zs) h h' =
    let rest = str_lt_trans xs ys zs in
    elim (lt_step x y xs ys h) [
      | inl l ↦ lt_here x z xs zs (elim (lt_step y z ys zs h') [
        | inl l' ↦ omega (arith, l, l')
        | inr (e', q') ↦ omega (arith, l, e')
      ])
      | inr (e, q) ↦ elim (lt_step y z ys zs h') [
        | inl l' ↦ lt_here x z xs zs (omega (arith, e, l'))
        | inr (e', q') ↦ lt_later x z xs zs (omega (arith, e, e')) (rest q q')
      ]
    ]

pub str_lt_irrefl : (a : Str) → str_lt a a ≡ false
unfolding str_lt
str_lt_irrefl [] = refl
str_lt_irrefl (c ∷ cs) = rw (ltb_irrefl c, ==-refl c) (str_lt_irrefl cs)

-- what a string before another is not
pub str_lt-apart : (a b : Str) → str_lt a b ≡ true → (str_eq b a ≡ false) × (str_lt b a ≡ false)
str_lt-apart a b h = elim (compared a b) [
  | before l g e e' ↦ (e', g)
  | same e ↦ absurd (clash (str_lt_irrefl a) (subst (λ x. str_lt a x ≡ true) (sym e) h))
  | after l g e e' ↦ absurd (clash g h)
]
  where
    clash : {b : Bool} → b ≡ false → b ≡ true → ⊥
    clash e e' = cc
