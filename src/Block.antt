-- ===== src/Block.antt =====
-- A 512-byte block as the bytes at its offsets, and the little-endian 32-bit words in it
-- (UNIXV6PP/FileSystem.cc, UNIXV6PP/Inode.cc and mkfs.c read and write blocks as `s32` arrays).
use secondfs_module.Prelude.{
  ℕ, ◌+◌, ◌-◌, ◌*◌, ◌/◌, ◌%◌, ◌^◌, ◌≤◌, ◌<◌, ◌≡◌, ◌≢◌, ◌&&◌, arith, leb, ltb, ◌==◌, if◌then◌else◌,
  ◌⊎◌, inl, inr,
}

abbrev pub Block : Type 0
Block = ℕ → ℕ

abbrev pub block_size : ℕ
block_size = 512

-- `ADDRESS_PER_INDEX_BLOCK`
abbrev pub address_per_index_block : ℕ
address_per_index_block = 128

unfoldable pub zero_block : Block
zero_block j = 0

-- Byte `k` of a word.
unfoldable pub byte_of : ℕ → ℕ → ℕ
byte_of v k =
    if k == 0
    then v % 256
    else if k == 1
    then v / 256 % 256
    else if k == 2
    then v / 65536 % 256
    else v / 16777216 % 256

-- `((s32 *) b)[i]`
unfoldable pub word : Block → ℕ → ℕ
word b i = b (4 * i + 0) + 256 * b (4 * i + 1) + 65536 * b (4 * i + 2) + 16777216 * b (4 * i + 3)

-- `memcpy((s32 *) b + off, w, n * 4)`
unfoldable pub put_words : Block → ℕ → ℕ → (ℕ → ℕ) → Block
unfolding byte_of
put_words b off n w j =
    if leb off (j / 4) && ltb (j / 4) (off + n) then byte_of (w (j / 4 - off)) (j % 4) else b j

-- `((s32 *) b)[i] = v`
unfoldable pub put_word : Block → ℕ → ℕ → Block
unfolding byte_of
put_word b i v j = if j / 4 == i then byte_of v (j % 4) else b j

pub word-zero_block : (i : ℕ) → word zero_block i ≡ 0
unfolding word zero_block
word-zero_block i = omega arith

pub byte_of_sum :
    (v : ℕ)
    → v < 2 ^ 32
    → byte_of v 0 + 256 * byte_of v 1 + 65536 * byte_of v 2 + 16777216 * byte_of v 3 ≡ v
unfolding byte_of
byte_of_sum v h = omega arith

module _ (b : Block) (i v : ℕ) where
  put_word_byte : (k : ℕ) → k < 4 → put_word b i v (4 * i + k) ≡ byte_of v k
  unfolding put_word
  put_word_byte k h =
      let q : (4 * i + k) / 4 ≡ i = omega arith in
      let r : (4 * i + k) % 4 ≡ k = omega arith in rw (q, r) (ground arith)

  put_word_else : (j k : ℕ) → j ≢ i → k < 4 → put_word b i v (4 * j + k) ≡ b (4 * j + k)
  unfolding put_word
  put_word_else j k ne h = let q : (4 * j + k) / 4 ≡ j = omega arith in rw q (ground arith)

  pub word-put_word_same : v < 2 ^ 32 → word (put_word b i v) i ≡ v
  unfolding word
  word-put_word_same h = omega (
    arith,
    byte_of_sum v h,
    put_word_byte 0 (omega arith),
    put_word_byte 1 (omega arith),
    put_word_byte 2 (omega arith),
    put_word_byte 3 (omega arith),
  )

  pub word-put_word_other : (j : ℕ) → j ≢ i → word (put_word b i v) j ≡ word b j
  unfolding word
  word-put_word_other j ne = omega (
    arith,
    put_word_else j 0 ne (omega arith),
    put_word_else j 1 ne (omega arith),
    put_word_else j 2 ne (omega arith),
    put_word_else j 3 ne (omega arith),
  )

module _ (b : Block) (off n : ℕ) (w : ℕ → ℕ) where
  put_words_byte :
      (i k : ℕ) → i < n → k < 4 → put_words b off n w (4 * (off + i) + k) ≡ byte_of (w i) k
  unfolding put_words
  put_words_byte i k h hk =
      let q : (4 * (off + i) + k) / 4 ≡ off + i = omega arith in
      let r : (4 * (off + i) + k) % 4 ≡ k = omega arith in
      let s : off + i - off ≡ i = omega arith in rw (q, r, s) (ground arith)

  put_words_else :
      (i k : ℕ)
      → (i < off) ⊎ (off + n ≤ i)
      → k < 4
      → put_words b off n w (4 * i + k) ≡ b (4 * i + k)
  unfolding put_words
  put_words_else i k (inl h) hk = let q : (4 * i + k) / 4 ≡ i = omega arith in rw q (ground arith)
  put_words_else i k (inr h) hk = let q : (4 * i + k) / 4 ≡ i = omega arith in rw q (ground arith)

  pub word-put_words : (i : ℕ) → i < n → w i < 2 ^ 32 → word (put_words b off n w) (off + i) ≡ w i
  unfolding word
  word-put_words i h hw = omega (
    arith,
    byte_of_sum (w i) hw,
    put_words_byte i 0 h (omega arith),
    put_words_byte i 1 h (omega arith),
    put_words_byte i 2 h (omega arith),
    put_words_byte i 3 h (omega arith),
  )

  pub word-put_words_outside :
      (i : ℕ) → (i < off) ⊎ (off + n ≤ i) → word (put_words b off n w) i ≡ word b i
  unfolding word
  word-put_words_outside i h = omega (
    arith,
    put_words_else i 0 h (omega arith),
    put_words_else i 1 h (omega arith),
    put_words_else i 2 h (omega arith),
    put_words_else i 3 h (omega arith),
  )
