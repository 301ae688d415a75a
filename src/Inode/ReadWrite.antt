-- ===== src/Inode/ReadWrite.antt =====
-- Inode::ReadI and Inode::WriteI of UNIXV6PP/Inode.cc. A loop runs on fuel, one unit for a round.
pub mod Small
use Prim.Native.Nat.{bit_and}
use secondfs_module.Prelude.{
  ℕ, zero, suc, ◌+◌, ◌-◌, ◌/◌, ◌%◌, Result, value, error, Run, done, out_of_bounds, out_of_fuel,
  ◌>>=◌, leb, ltb, ◌==◌, if◌then◌else◌, s32_neg, s32_le, ◌&&◌, ◌||◌, not, Bool,
}
use secondfs_module.Block.{Block, block_size}
use secondfs_module.BufferIo.{Buf, BufferIo}
use secondfs_module.Inode.Node.{Inode, set_flag, has_flag, iupd, iacc, ifmt, ifblk, ifchr}
use secondfs_module.Inode.Bmap.{Fs, bmap}

-- `IOParameter`, and the memory that `m_Base` points into. `err` is 0 or the errno.
pub record IoParameter : Type 0 where
  pub m_base : ℕ
  pub m_offset : ℕ
  pub m_count : ℕ
  pub is_user_p : ℕ
  pub err : ℕ
  pub memory : ℕ → ℕ

-- `ENOSPC`
abbrev pub enospc : ℕ
enospc = 28

abbrev pub min_of : ℕ → ℕ → ℕ
min_of a b = if ltb a b then a else b

-- The bytes of this block that the request still reaches.
unfoldable pub chunk : IoParameter → ℕ
chunk p = min_of (block_size - p.m_offset % block_size) p.m_count

-- `m_Base += n; m_Offset += n; m_Count -= n`
unfoldable pub advance : ℕ → IoParameter → IoParameter
advance n p = record p { m_base = p.m_base + n; m_offset = p.m_offset + n; m_count = p.m_count - n }

-- `memcpy` and `copy_to_user`, which here copies all bytes.
unfoldable pub copy_out : ℕ → Block → IoParameter → IoParameter
copy_out n b p = record p {
  memory = λ a.
      if leb p.m_base a && ltb a (p.m_base + n)
      then b (p.m_offset % block_size + (a - p.m_base))
      else p.memory a;
}

-- `memcpy` and `copy_from_user`, which here copies all bytes.
unfoldable pub copy_in : ℕ → IoParameter → Block → Block
copy_in n p b j =
    if leb (p.m_offset % block_size) j && ltb j (p.m_offset % block_size + n)
    then p.memory (p.m_base + (j - p.m_offset % block_size))
    else b j

abbrev pub or_flag : Inode → ℕ → Inode
or_flag node f = record node { i_flag = set_flag node.i_flag f }

abbrev pub is_block_device : Inode → Bool
is_block_device node = bit_and node.i_mode ifmt == ifblk

abbrev pub is_char_device : Inode → Bool
is_char_device node = bit_and node.i_mode ifmt == ifchr

module _ (io : BufferIo) where
  open io use {Pool, bread, get_blk, brelse, bwrite, bdwrite}

  abbrev pub Io : Type 0
  Io = Fs io × IoParameter

  -- The bytes are copied out of the buffer and the buffer is given back. A failed read has an error
  -- pointer given to Brelse, which follows it.
  unfoldable pub read_buf : ℕ → Io → Result Buf × Pool → Run Io
  unfolding copy_out advance
  read_buf n (s, p) (error e, q) = out_of_bounds
  read_buf n (s, p) (value buf, q) = done (
    record s { node = record (s.node) { i_lastr = p.m_offset / block_size }; pool = brelse buf q },
    advance n (copy_out n buf.b_addr p),
  )

  -- What follows Bmap in a round: its failure, or the copy and the next round.
  unfoldable pub read_block : (Io → Run Io) → ℕ → IoParameter → ℕ × Fs io → Run Io
  unfolding read_buf
  read_block next n p (bn, s) =
      if bn == 0
      then done (s, record p { err = enospc })
      else read_buf n (s, p) (bread bn s.pool) >>= next

  -- The loop of ReadI; a negative offset or count reaches outside the buffer.
  unfoldable pub read_loop : ℕ → Io → Run Io
  unfolding chunk
  read_loop zero (s, p) = out_of_fuel
  read_loop (suc fuel) (s, p) =
      let next = read_loop fuel in
      if p.m_count == 0
      then done (s, p)
      else if is_block_device s.node || s32_le s.node.i_size p.m_offset
      then done (s, p)
      else if s32_neg p.m_offset || s32_neg p.m_count
      then out_of_bounds
      else let n = min_of (chunk p) (s.node.i_size - p.m_offset) in
        bmap io (p.m_offset / block_size) s >>= read_block next n p

  -- `Inode::ReadI`
  unfoldable pub read_i : Io → Run Io
  read_i (s, p) =
      if p.m_count == 0
      then done (s, p)
      else read_loop (p.m_count + 1) (record s { node = or_flag s.node iacc }, p)

  -- The buffer to write into: the whole block is overwritten, or the rest of it has been read.
  unfoldable pub write_target : ℕ → ℕ → Pool → Result Buf × Pool
  write_target n bn q =
      if n == block_size then (value (get_blk bn q).0, (get_blk bn q).1) else bread bn q

  -- `m_Offset` past a block's end: written at once, else later.
  unfoldable pub write_back : ℕ → Buf → Pool → Pool
  write_back offset buf q = if offset % block_size == 0 then (bwrite buf q).1 else bdwrite buf q

  -- "file size stretched"; the test on `i_mode` looks at `IFBLK & IFCHR`.
  unfoldable pub stretch : ℕ → Inode → Inode
  stretch offset node =
      if not (s32_le offset node.i_size) && not (has_flag node.i_mode (bit_and ifblk ifchr))
      then record node { i_size = offset }
      else node

  unfoldable pub write_buf : ℕ → Io → Result Buf × Pool → Run Io
  unfolding copy_in advance write_back stretch
  write_buf n (s, p) (error e, q) = out_of_bounds
  write_buf n (s, p) (value buf, q) = done (
    record s {
      node = or_flag (stretch (p.m_offset + n) s.node) iupd;
      pool = write_back (p.m_offset + n) (record buf { b_addr = copy_in n p buf.b_addr }) q;
    },
    advance n p,
  )

  unfoldable pub write_block : (Io → Run Io) → ℕ → IoParameter → ℕ × Fs io → Run Io
  unfolding write_buf write_target
  write_block next n p (bn, s) =
      if bn == 0
      then done (s, record p { err = enospc })
      else write_buf n (s, p) (write_target n bn s.pool) >>= next

  -- The loop of WriteI.
  unfoldable pub write_loop : ℕ → Io → Run Io
  unfolding chunk
  write_loop zero (s, p) = out_of_fuel
  write_loop (suc fuel) (s, p) =
      let next = write_loop fuel in
      if p.m_count == 0
      then done (s, p)
      else if is_block_device s.node
      then done (s, p)
      else if s32_neg p.m_offset || s32_neg p.m_count
      then out_of_bounds
      else bmap io (p.m_offset / block_size) s >>= write_block next (chunk p) p

  -- `Inode::WriteI`
  unfoldable pub write_i : Io → Run Io
  write_i (s, p) =
      let t : Fs io = record s { node = or_flag s.node (set_flag iacc iupd) } in
      if is_char_device s.node || (p.m_count == 0)
      then done (t, p)
      else write_loop (p.m_count + 1) (t, p)
