-- ===== src/Process/Tally.antt =====
-- src/xma_epoll.cpp: how many listeners have a descriptor, or one that no epoll object watches.
use cpp_readline.Common.{
  ℕ, suc, ◌≡◌, refl, ap, ◌∙◌, Bool, true, false, ◌&&◌, not, List, [], ◌∷◌, ◌++◌, arith,
}
use cpp_readline.Epoll.{EpollListener, is_open}

abbrev pub counted : Bool → ℕ → ℕ
counted true n = suc n
counted false n = n

counted_swap : (a b : Bool) (n : ℕ) → counted a (counted b n) ≡ counted b (counted a n)
counted_swap true true n = refl
counted_swap true false n = refl
counted_swap false b n = refl

pub counted_none : (b : Bool) (n : ℕ) → counted b n ≡ 0 → (b ≡ false) × (n ≡ 0)
counted_none true n e = absurd (omega arith)
counted_none false n e = (refl, e)

-- how many listeners of a list pass a test
abbrev pub count : (EpollListener → Bool) → List EpollListener → ℕ
count test [] = 0
count test (l ∷ ls) = counted (test l) (count test ls)

pub count-append :
    (test : EpollListener → Bool) (front back : List EpollListener) (l : EpollListener)
    → count test (front ++ (l ∷ back)) ≡ counted (test l) (count test (front ++ back))
count-append test [] back l = refl
count-append test (x ∷ front) back l =
    ap (counted (test x)) (count-append test front back l)
    ∙ counted_swap (test x) (test l) (count test (front ++ back))

-- has a descriptor
abbrev pub has_fd : EpollListener → Bool
has_fd l = is_open l.fd

-- has a descriptor, and no epoll object
abbrev pub is_stray : EpollListener → Bool
is_stray l = is_open l.fd && not l.attached
