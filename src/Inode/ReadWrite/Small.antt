-- ===== src/Inode/ReadWrite/Small.antt =====
-- Inode::ReadI of UNIXV6PP/Inode.cc on a file whose blocks stand in i_addr itself.
use secondfs_module.Prelude.{
  ℕ, zero, suc, ◌+◌, ◌-◌, ◌/◌, ◌%◌, ◌≤◌, ◌<◌, ◌≡◌, ◌≢◌, ◌==◌, value, if◌then◌else◌,
}
use secondfs_module.Block.{Block}
use secondfs_module.BufferIo.{Buf, BufferIo}
use secondfs_module.FileSystem.SuperBlock.{SuperBlock}
use secondfs_module.Inode.Node.{Inode, iacc}
use secondfs_module.Inode.Bmap.{Fs}
use secondfs_module.Inode.ReadWrite.{IoParameter, Io, min_of, advance, copy_out, or_flag}

-- Byte `k` of the file with the blocks `blocks`.
abbrev pub file_byte : (ℕ → Block) → ℕ → ℕ
file_byte blocks k = blocks (k / 512) (k % 512)

-- `len` bytes of `file` from the offset on have come to the target, and nothing else has changed
-- there; base, offset and count have moved by `len`.
pub record Transferred (file : ℕ → ℕ) (len : ℕ) (p p' : IoParameter) : Type 0 where
  pub bytes : (k : ℕ) → k < len → p'.memory (p.m_base + k) ≡ file (p.m_offset + k)
  pub before : (a : ℕ) → a < p.m_base → p'.memory a ≡ p.memory a
  pub behind : (a : ℕ) → p.m_base + len ≤ a → p'.memory a ≡ p.memory a
  pub base : p'.m_base ≡ p.m_base + len
  pub offset : p'.m_offset ≡ p.m_offset + len
  pub count : p'.m_count ≡ p.m_count - len
  pub err : p'.err ≡ p.err

-- How many bytes a request for `p.m_count` bytes gets of a file of that size.
abbrev pub available_bytes : ℕ → IoParameter → ℕ
available_bytes size p = min_of p.m_count (size - p.m_offset)

-- In how many blocks `len` bytes from `offset` on lie.
unfoldable pub block_count : ℕ → ℕ → ℕ
block_count offset len = if len == 0 then 0 else (offset + len + 511) / 512 - offset / 512

-- A request for no byte leaves the i-node as it is.
abbrev pub accessed : IoParameter → Inode → Inode
accessed p node = if p.m_count == 0 then node else or_flag node iacc

-- `addr k` is the block of the disk that holds block `k` of the file.
module _ (io : BufferIo) (addr : ℕ → ℕ) (blocks : ℕ → Block) where
  open io use {Pool, bread, brelse, bflush}

  abbrev pub block_buf : ℕ → Buf
  block_buf lbn = record { b_blkno = addr lbn; b_addr = blocks lbn }

  -- The cache after block `lbn` has been read by a round: Bflush, Bread and Brelse of the buffer.
  abbrev pub after_block : ℕ → Pool → Pool
  after_block lbn q = brelse (block_buf lbn) (bread (addr lbn) (bflush q)).1

  -- The same after `n` blocks from `lbn` on.
  abbrev pub after_blocks : ℕ → ℕ → Pool → Pool
  after_blocks zero lbn q = q
  after_blocks (suc n) lbn q = after_blocks n (lbn + 1) (after_block lbn q)

  -- The `n` blocks from `lbn` on are in the index, and the reads of them in this sequence yield
  -- `blocks`.
  abbrev pub ServesFile : ℕ → ℕ → Pool → Type 0
  ServesFile zero lbn q = Unit
  ServesFile (suc n) lbn q =
      (addr lbn ≢ 0)
      × ((bread (addr lbn) (bflush q)).0 ≡ value (block_buf lbn))
      × ServesFile n (lbn + 1) (after_block lbn q)

module _ (io : BufferIo) (node : Inode) (blocks : ℕ → Block) where
  open io use {Pool, bread, brelse, bflush}

  abbrev on : ℕ → SuperBlock → Pool → ℕ → Fs io
  on l sb q ra = record { node = record node { i_lastr = l }; super = sb; pool = q; rablock = ra }

  -- The request `p` has been served, in `n` blocks from `lbn` on, with the cache `q` before.
  pub record Served (n lbn : ℕ) (sb : SuperBlock) (q : Pool) (p : IoParameter) (r : Io io)
      : Type 0 where
    pub moved : Transferred (file_byte blocks) (available_bytes node.i_size p) p r.1
    pub cache : r.0.pool ≡ after_blocks io node.i_addr blocks n lbn q
    pub inode : r.0.node ≡ record node { i_lastr = r.0.node.i_lastr }
    pub super : r.0.super ≡ sb

  -- The rest of the request after a round.
  abbrev rest_of : ℕ → ℕ → IoParameter → IoParameter
  rest_of n lbn p = advance n (copy_out n (blocks lbn) p)
