-- ===== src/Inode/Trunc.antt =====
-- Inode::ITrunc of UNIXV6PP/Inode.cc: all blocks of a file are given back.
use Prim.Native.Nat.{bit_and}
use secondfs_module.Prelude.{
  ℕ, zero, suc, Option, none, some, Result, value, error, Run, done, ◌>>=◌, leb, ◌==◌,
  if◌then◌else◌,
}
use secondfs_module.Block.{word, address_per_index_block}
use secondfs_module.BufferIo.{Buf, BufferIo}
use secondfs_module.FileSystem.Blocks.{free}
use secondfs_module.Inode.Node.{Inode, ifchr, ifblk}
use secondfs_module.Inode.Bmap.{Fs, set_addr, mark_updated, give_back}

module _ (io : BufferIo) where
  open io use {Pool, bread}

  -- What a loop of ITrunc leaves: the errno with which ITrunc returns at once, if any, and the state.
  abbrev pub Truncated : Type 0
  Truncated = Option ℕ × Fs io

  -- `for (k = n - 1; k >= 0; k--)`, left at the first errno.
  unfoldable pub for_down : ℕ → (ℕ → Fs io → Run Truncated) → Fs io → Run Truncated
  for_down zero body s = done (none, s)
  for_down (suc n) body s =
      body n s >>= λ (e, t). elim e [ none ↦ for_down n body t | some ret ↦ done (some ret, t) ]

  -- `filesys->Free(...)`, whose error is only logged
  unfoldable pub free_block : ℕ → Fs io → Run Truncated
  free_block blkno s = free io s.super blkno s.pool >>= λ (ret, sb, p).
      done (none, record s { super = sb; pool = p })

  -- The buffer of the table is given back after its loop.
  unfoldable pub with_table :
      (Buf → Fs io → Run Truncated) → Fs io → Result Buf × Pool → Run Truncated
  with_table loop s (error e, p) = done (some e, record s { pool = p })
  with_table loop s (value buf, p) =
      loop buf (record s { pool = p }) >>= λ (e, t). done (e, give_back io buf t)

  -- The body of the innermost loop, over `k`.
  unfoldable pub free_second : Buf → ℕ → Fs io → Run Truncated
  free_second buf k s =
      if word buf.b_addr k == 0 then done (none, s) else free_block (word buf.b_addr k) s

  -- A table of the second level, where entry `i` of `i_addr` has one.
  unfoldable pub free_under : ℕ → ℕ → Fs io → Run Truncated
  free_under i blkno s =
      if leb 8 i
      then with_table (λ buf. for_down address_per_index_block (free_second buf)) s
          (bread blkno s.pool)
      else done (none, s)

  -- The body of the loop over `j`.
  unfoldable pub free_first : ℕ → Buf → ℕ → Fs io → Run Truncated
  free_first i buf j s =
      if word buf.b_addr j == 0
      then done (none, s)
      else free_under i (word buf.b_addr j) s >>= λ (e, t). elim e [
        | none ↦ free_block (word buf.b_addr j) t
        | some ret ↦ done (some ret, t)
      ]

  unfoldable pub free_table : ℕ → ℕ → Fs io → Run Truncated
  free_table i blkno s =
      if leb 6 i
      then with_table (λ buf. for_down address_per_index_block (free_first i buf)) s
          (bread blkno s.pool)
      else done (none, s)

  unfoldable pub forget_addr : ℕ → Truncated → Truncated
  forget_addr i (e, s) = (e, record s { node = set_addr s.node i 0 })

  -- The body of the outermost loop, over `i_addr`.
  unfoldable pub free_addr : ℕ → Fs io → Run Truncated
  free_addr i s =
      if s.node.i_addr i == 0
      then done (none, s)
      else free_table i (s.node.i_addr i) s >>= λ (e, t). elim e [
        | none ↦ free_block (t.node.i_addr i) t >>= λ r. done (forget_addr i r)
        | some ret ↦ done (some ret, t)
      ]

  -- The mask that is taken out of `i_mode`, `ILARG & IRWXU & IRWXG & IRWXO`, is 0.
  unfoldable pub emptied : Inode → Inode
  emptied node = record (mark_updated node) { i_size = 0 }

  -- `Inode::ITrunc`: 0 or the errno, and the state.
  unfoldable pub itrunc : Fs io → Run (ℕ × Fs io)
  itrunc s =
      if bit_and s.node.i_mode (bit_and ifchr ifblk) == 0
      then (for_down 10 free_addr s >>= λ (e, t). elim e [
        | none ↦ done (0, record t { node = emptied t.node })
        | some ret ↦ done (ret, t)
      ])
      else done (0, s)
