-- ===== src/Sequencer/Words.antt =====
-- Bytes as 32-bit words, lower bytes first.
use boki.Base.{ℕ, ◌+◌, ◌*◌, ◌^◌, List, [], ◌∷◌, Result, ok, panic, ◌>>=◌}

-- `memcpy` of a payload into a vector of `size / 4` words. A payload that is not whole words is
-- written past the vector's end, which panics.
unfoldable pub words_of_bytes : List ℕ → Result (List ℕ)
words_of_bytes [] = ok []
words_of_bytes (a ∷ b ∷ c ∷ d ∷ rest) = do
  words ← words_of_bytes rest
  ok ((a + b * 2 ^ 8 + c * 2 ^ 16 + d * 2 ^ 24) ∷ words)
words_of_bytes (a ∷ []) = panic
words_of_bytes (a ∷ b ∷ []) = panic
words_of_bytes (a ∷ b ∷ c ∷ []) = panic
