-- ===== src/Tools/Volume/Image.antt =====
-- What the blocks of the device hold after a write of mkfs.c.
use secondfs_module.Prelude.{
  ℕ, ◌+◌, ◌-◌, ◌*◌, ◌≤◌, ◌<◌, ◌^◌, ◌≡◌, ◌⊎◌, inl, inr, fun_ext, ◌∙◌, ap, refl, arith, dec_lt,
}
use secondfs_module.Block.{word, put_words, zero_block, word-put_words}
use secondfs_module.Tools.Device.{overlay, block_at}

module _ (bytes : ℕ → ℕ) (b len : ℕ) (buf : ℕ → ℕ) where
  -- A write of `len` bytes at block `b` is not seen in the blocks below and behind it.
  pub block_at-outside :
      (a : ℕ)
      → (a < b) ⊎ (b * 512 + len ≤ a * 512)
      → block_at (overlay bytes (b * 512) len buf) a ≡ block_at bytes a
  unfolding block_at overlay
  block_at-outside a out = fun_ext λ j. elim (dec_lt j 512) [
    | yes h ↦ elim out [ inl below ↦ ground arith | inr behind ↦ ground arith ]
    | no h ↦ ground arith
  ]

  -- Byte `j` of block `b + i`, inside of what is written.
  pub block_at-inside :
      (i j : ℕ)
      → j < 512
      → 512 * i + j < len
      → block_at (overlay bytes (b * 512) len buf) (b + i) j ≡ buf (512 * i + j)
  unfolding block_at overlay
  block_at-inside i j h inside =
      let e : 512 * (b + i) + j - b * 512 ≡ 512 * i + j = omega arith in
      let far : 512 * (b + i) + j < b * 512 + len = omega arith in
      let near : b * 512 ≤ 512 * (b + i) + j = omega arith in ground arith

  -- Byte `j` of block `b`, behind what is written.
  pub block_at-behind :
      (j : ℕ) → len ≤ j → block_at (overlay bytes (b * 512) len buf) b j ≡ block_at bytes b j
  unfolding block_at overlay
  block_at-behind j behind = ground arith

  pub word-block_at :
      (i k : ℕ)
      → k < 128
      → 512 * i + 4 * k + 3 < len
      → word (block_at (overlay bytes (b * 512) len buf) (b + i)) k ≡ word buf (128 * i + k)
  unfolding word
  word-block_at i k h inside =
      let e : 4 * (128 * i + k) ≡ 512 * i + 4 * k = omega arith in
      let shift : (m : ℕ)
          → m < 4
          → block_at (overlay bytes (b * 512) len buf) (b + i) (4 * k + m)
            ≡ buf (4 * (128 * i + k) + m) =
        λ m l. block_at-inside i (4 * k + m) (omega arith) (omega arith) ∙ ap buf (omega arith) in
      rw
        (shift 0 (omega arith), shift 1 (omega arith), shift 2 (omega arith), shift 3 (omega arith))
        refl

-- The words of a structure that is written at block `b`, in the blocks from `b` on.
pub word-written :
    (bytes : ℕ → ℕ) (b n : ℕ) (w : ℕ → ℕ) (i k : ℕ)
    → k < 128
    → 128 * i + k < n
    → w (128 * i + k) < 2 ^ 32
    → word (block_at (overlay bytes (b * 512) (4 * n) (put_words zero_block 0 n w)) (b + i)) k
      ≡ w (128 * i + k)
word-written bytes b n w i k h inside bound =
    let e : 0 + (128 * i + k) ≡ 128 * i + k = omega arith in
    let at_word = word-put_words zero_block 0 n w (128 * i + k) inside bound in
    word-block_at bytes b (4 * n) (put_words zero_block 0 n w) i k h (omega arith)
    ∙ (rw e at at_word)
