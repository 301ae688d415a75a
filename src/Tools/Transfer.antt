-- ===== src/Tools/Transfer.antt =====
-- write_block, read_block and the transfer of a fast stack, the same in mkfs.c and fsck.c. A return
-- value is the bit pattern of the `int`.
pub mod Laws
use secondfs_module.Prelude.{
  ℕ, zero, suc, ◌+◌, ◌-◌, ◌*◌, ◌%◌, Result, value, error, Run, done, out_of_fuel, ◌>>=◌, ltb, ◌==◌,
  if◌then◌else◌, minus_one, word_mod, update, out_of_bounds,
}
use secondfs_module.Block.{block_size, put_words, word, zero_block}
use secondfs_module.Tools.Device.{Device, overlay}

-- `fast_stack`
pub record FastStack : Type 0 where
  pub count : ℕ
  pub stack : ℕ → ℕ

-- `sizeof(fast_stack)`
abbrev pub fast_stack_size : ℕ
fast_stack_size = 404

-- The words of a fast stack.
unfoldable pub stack_word : FastStack → ℕ → ℕ
stack_word st i = if i == 0 then st.count else st.stack (i - 1)

-- `block_no * SECONDFS_BLOCK_SIZE` as an `int`
abbrev pub block_offset : ℕ → ℕ
block_offset block_no = block_no * block_size % word_mod

module _ (dev : Device) where
  open dev use {State, lseek, write, read}

  -- What a transfer returns, with the state.
  abbrev pub Status : Type 0
  Status = ℕ × State

  -- The loop of write_block, from `p` on with `curr_len` bytes to go.
  unfoldable pub write_loop : ℕ → (ℕ → ℕ) → ℕ → State → Run Status
  write_loop zero p curr_len s = out_of_fuel
  write_loop (suc n) p curr_len s =
      let (ret, t) = write p curr_len s in
      elim ret [
        | error e ↦ done (minus_one, t)
        | value r ↦
            let rest = write_loop n (λ j. p (r + j)) (curr_len - r) t in
            if curr_len - r == 0 then done (0, t) else rest
      ]

  unfoldable pub write_block : ℕ → (ℕ → ℕ) → ℕ → State → Run Status
  unfolding write_loop
  write_block block_no buf len s =
      let (ret, t) = lseek (block_offset block_no) s in
      elim ret [ error e ↦ done (minus_one, t) | value o ↦ write_loop (suc len) buf len t ]

  unfoldable pub write_stack_in_block : ℕ → FastStack → State → Run Status
  unfolding write_block stack_word
  write_stack_in_block block_no buf s =
      write_block block_no (put_words zero_block 0 101 (stack_word buf)) fast_stack_size s

  -- The loop of read_block, with `buf` from its byte `at_byte` on still to be filled.
  unfoldable pub read_loop : ℕ → (ℕ → ℕ) → ℕ → ℕ → State → Run (ℕ × (ℕ → ℕ) × State)
  read_loop zero buf at_byte curr_len s = out_of_fuel
  read_loop (suc n) buf at_byte curr_len s =
      let (ret, t) = read curr_len s in
      elim ret [
        | error e ↦ done (minus_one, buf, t)
        | value (r, p) ↦
            let filled = overlay buf at_byte r p in
            let rest = read_loop n filled (at_byte + r) (curr_len - r) t in
            if curr_len - r == 0 then done (0, filled, t) else rest
      ]

  -- The return value, the bytes of `buf` afterwards, and the state.
  unfoldable pub read_block : ℕ → ℕ → (ℕ → ℕ) → ℕ → State → Run (ℕ × (ℕ → ℕ) × State)
  unfolding read_loop
  read_block rounds block_no buf len s =
      let (ret, t) = lseek (block_offset block_no) s in
      elim ret [ error e ↦ done (minus_one, buf, t) | value o ↦ read_loop rounds buf 0 len t ]

  unfoldable pub read_stack_from_block : ℕ → ℕ → (ℕ → ℕ) → State → Run (ℕ × (ℕ → ℕ) × State)
  unfolding read_block
  read_stack_from_block rounds block_no buf s = read_block rounds block_no buf fast_stack_size s
