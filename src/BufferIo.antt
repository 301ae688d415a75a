-- ===== src/BufferIo.antt =====
-- What the file-system layer uses of the buffer cache (the calls of UNIXV6PP/BufferManager.hh), as
-- an interface: the calls on one device. Cache.Io has the ones of BufferManager.cc.
use secondfs_module.Prelude.{ℕ, Result}
use secondfs_module.Block.{Block}

-- A buffer that the caller holds: `b_blkno` and the bytes at `b_addr`.
pub record Buf : Type 0 where
  pub b_blkno : ℕ
  pub b_addr : Block

pub record BufferIo : Type 1 where
  pub Pool : Type 0
  pub bread : ℕ → Pool → Result Buf × Pool
  pub get_blk : ℕ → Pool → Buf × Pool
  pub brelse : Buf → Pool → Pool
  -- 0, or the errno
  pub bwrite : Buf → Pool → ℕ × Pool
  pub bdwrite : Buf → Pool → Pool
  pub bflush : Pool → Pool
