-- ===== src/Prelude/Text/Words.antt =====
-- `split` without a separator, on two words.
use mathlib.Core.List.{append_assoc, append-nil}
use ax_server.Prelude.{◌≡◌, false, [], ◌∷◌, ◌++◌, All, ◌∙◌, ap}
use ax_server.Prelude.Text.{Str, is_empty, is_space, split_words_from, split_words}

word_end :
    (cur word : Str)
    → All (λ c. is_space c ≡ false) word
    → is_empty (cur ++ word) ≡ false
    → split_words_from cur word ≡ (cur ++ word) ∷ []
unfolding split_words_from
word_end cur [] h ne = rw append-nil (rw (rw append-nil at ne))
word_end cur (c ∷ word) h ne = rw h.0 (
    word_end (cur ++ c ∷ []) word h.1 (rw append_assoc ne)
    ∙ ap (λ w. w ∷ []) (append_assoc cur (c ∷ []) word))

word_then :
    (cur word rest : Str)
    → All (λ c. is_space c ≡ false) word
    → is_empty (cur ++ word) ≡ false
    → split_words_from cur (word ++ 32 ∷ rest) ≡ (cur ++ word) ∷ split_words_from [] rest
unfolding split_words_from is_space
word_then cur [] rest h ne = rw append-nil (rw (rw append-nil at ne))
word_then cur (c ∷ word) rest h ne = rw h.0 (
    word_then (cur ++ c ∷ []) word rest h.1 (rw append_assoc ne)
    ∙ ap (λ w. w ∷ split_words_from [] rest) (append_assoc cur (c ∷ []) word))

pub split_words-pair :
    (a b : Str)
    → All (λ c. is_space c ≡ false) a
    → All (λ c. is_space c ≡ false) b
    → is_empty a ≡ false
    → is_empty b ≡ false
    → split_words (a ++ 32 ∷ b) ≡ a ∷ b ∷ []
unfolding split_words
split_words-pair a b ha hb na nb = word_then [] a b ha na ∙ ap (λ w. a ∷ w) (word_end [] b hb nb)
