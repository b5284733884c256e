-- ===== src/Shell/Words.antt =====
-- How `ExecCommand` splits a line: the words of a line, and a line made of words.
use cpp_readline.Common.{
  ℕ, true, false, List, [], ◌∷◌, ◌++◌, ◌≡◌, refl, ap, ◌∙◌, sym, append-nil, append_assoc,
}
use cpp_readline.Shell.{Str, is_space, words, words_from, flush_word, is_empty}

-- no byte of it is white space
pub data IsPlain : Str → Type 0 where
  plain-nil : IsPlain []
  plain-cons : {c : ℕ} {cs : Str} → is_space c ≡ false → IsPlain cs → IsPlain (c ∷ cs)

-- a word: not empty, and without white space
pub record IsWord (w : Str) : Type 0 where
  pub plain : IsPlain w
  pub nonempty : is_empty w ≡ false

pub data AllWords : List Str → Type 0 where
  words-nil : AllWords []
  words-cons : {w : Str} {ws : List Str} → IsWord w → AllWords ws → AllWords (w ∷ ws)

-- each word with one byte of white space behind it
unfoldable pub line_of : ℕ → List Str → Str
line_of gap [] = []
line_of gap (w ∷ ws) = w ++ (gap ∷ line_of gap ws)

flush_word-nonempty : (w : Str) (ws : List Str) → is_empty w ≡ false → flush_word w ws ≡ w ∷ ws
unfolding flush_word
flush_word-nonempty [] ws h = cc
flush_word-nonempty (c ∷ cs) ws h = refl

words_from-append :
    (word w rest : Str) → IsPlain w → words_from word (w ++ rest) ≡ words_from (word ++ w) rest
unfolding words_from
words_from-append word [] rest p = ap (λ x. words_from x rest) (sym (append-nil word))
words_from-append word (c ∷ cs) rest (plain-cons h p) = rw h (
    words_from-append (word ++ (c ∷ [])) cs rest p
    ∙ ap (λ x. words_from x rest) (append_assoc word (c ∷ []) cs))

words_from-line_of :
    (gap : ℕ) (ws : List Str)
    → is_space gap ≡ true
    → AllWords ws
    → words_from [] (line_of gap ws) ≡ ws
unfolding words_from line_of flush_word
words_from-line_of gap [] space all = refl
words_from-line_of gap (w ∷ ws) space (words-cons p all) =
    words_from-append [] w (gap ∷ line_of gap ws) p.plain
    ∙ rw space
        (flush_word-nonempty w _ p.nonempty ∙ ap (◌∷◌ w) (words_from-line_of gap ws space all))

-- `ExecCommand` reads back the words of a line: words without white space, each followed by one
-- byte of white space, are the vector of arguments.
pub words-line_of :
    (gap : ℕ) (ws : List Str) → is_space gap ≡ true → AllWords ws → words (line_of gap ws) ≡ ws
unfolding words
words-line_of gap ws space all = words_from-line_of gap ws space all
