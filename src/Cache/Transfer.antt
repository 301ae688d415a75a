-- ===== src/Cache/Transfer.antt =====
-- Bread, Bdwrite, Bflush and ClrBuf of UNIXV6PP/BufferManager.cc.
pub mod Laws
pub mod Flush
use secondfs_module.Prelude.{
  ℕ, zero, suc, ◌+◌, Option, none, some, Run, done, out_of_fuel, Result, value, error, ◌>>=◌, ◌==◌,
  ◌&&◌, ◌||◌, if◌then◌else◌, update, set_flag, has_flag,
}
use secondfs_module.Block.{zero_block}
use secondfs_module.Cache.Pool.{Pool, BlockIo, nbuf, b_free_list, nodev, b_read, b_done, b_delwri}
use secondfs_module.Cache.Queue.{brelse, not_avail}
use secondfs_module.Cache.GetBlk.{io_done, bwrite, get_blk}

module _ (io : BlockIo) where
  open io use {Disk, submit_read}

  -- Bread from the request on.
  unfoldable pub read_in : ℕ → Pool Disk → Result ℕ × Pool Disk
  read_in bp s =
      let (ret, b, d) = submit_read (s.b_dev bp) (s.b_blkno bp) (s.b_addr bp) s.disk in
      let t = io_done io bp (record s {
        b_flags = update s.b_flags bp (set_flag (s.b_flags bp) b_read);
        b_addr = update s.b_addr bp b;
        disk = d;
      }) in
      if ret == 0 then (value bp, t) else (error ret, brelse bp t)

  -- `BufferManager::Bread`
  unfoldable pub bread : ℕ → ℕ → ℕ → Pool Disk → Run (Result ℕ × Pool Disk)
  bread rounds dev blkno s = get_blk io rounds dev blkno s >>= λ (bp, t).
      if has_flag (t.b_flags bp) b_done then done (value bp, t) else done (read_in bp t)

  -- `BufferManager::Bdwrite`
  unfoldable pub bdwrite : ℕ → Pool Disk → Pool Disk
  bdwrite bp s =
      brelse bp
        (record s { b_flags = update s.b_flags bp (set_flag (s.b_flags bp) (b_delwri + b_done)) })

  -- `BufferManager::ClrBuf`
  unfoldable pub clr_buf : ℕ → Pool Disk → Pool Disk
  clr_buf bp s = record s { b_addr = update s.b_addr bp zero_block }

  -- The first Buf along `av_forw` from `bp` that is to be written.
  unfoldable pub find_dirty : ℕ → ℕ → ℕ → Pool Disk → Run (Option ℕ)
  find_dirty zero dev bp s = out_of_fuel
  find_dirty (suc n) dev bp s =
      let rest = find_dirty n dev (s.av_forw bp) s in
      if bp == b_free_list
      then done none
      else if has_flag (s.b_flags bp) b_delwri && ((dev == nodev) || (dev == s.b_dev bp))
      then done (some bp)
      else rest

  -- `BufferManager::Bflush`; a round is one pass from `loop`.
  unfoldable pub bflush : ℕ → ℕ → Pool Disk → Run (Pool Disk)
  bflush zero dev s = out_of_fuel
  bflush (suc rounds) dev s = find_dirty (suc nbuf) dev (s.av_forw b_free_list) s >>= λ found.
      elim found [ none ↦ done s | some bp ↦ bflush rounds dev (bwrite io bp (not_avail bp s)).1 ]
