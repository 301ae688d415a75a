-- ===== src/Cache/GetBlk.antt =====
-- BufferManager::GetBlk of UNIXV6PP/BufferManager.cc, with Bwrite and IODone, which it calls.
pub mod Laws
pub mod Dirty
use secondfs_module.Prelude.{
  ℕ, zero, suc, ◌+◌, Option, none, some, Run, done, blocked, out_of_fuel, true, ◌>>=◌, ◌==◌, ◌&&◌,
  not, ◌||◌, if◌then◌else◌, update, set_flag, has_flag, clear_flag,
}
use secondfs_module.Cache.Pool.{
  Pool, BlockIo, nbuf, b_free_list, b_read, b_done, b_error, b_busy, b_async, b_delwri,
}
use secondfs_module.Cache.Queue.{brelse, not_avail, search}

module _ (io : BlockIo) where
  open io use {Disk, submit_write}

  -- `BufferManager::IODone`
  unfoldable pub io_done : ℕ → Pool Disk → Pool Disk
  io_done bp s =
      let t = record s { b_flags = update s.b_flags bp (set_flag (s.b_flags bp) b_done) } in
      if has_flag (t.b_flags bp) b_async then brelse bp t else t

  -- `BufferManager::Bwrite`: 0 or the errno, and the state.
  unfoldable pub bwrite : ℕ → Pool Disk → ℕ × Pool Disk
  bwrite bp s =
      let flags = s.b_flags bp in
      let (ret, d) = submit_write (s.b_dev bp) (s.b_blkno bp) (s.b_addr bp) s.disk in
      let t = io_done bp (record s {
        b_flags = update s.b_flags bp (clear_flag flags (b_read + b_done + b_error + b_delwri));
        disk = d;
      }) in
      (ret, if has_flag flags b_async then t else brelse bp t)

  -- The Buf leaves its device queue and comes to the front of the queue of `dev`.
  unfoldable pub adopt : ℕ → ℕ → ℕ → Pool Disk → Pool Disk
  adopt dev blkno bp s =
      let forw = update s.b_forw (s.b_back bp) (s.b_forw bp) in
      let back = update s.b_back (forw bp) (s.b_back bp) in
      let forw' = update forw bp (forw dev) in
      let back' = update back bp dev in
      record s {
        b_flags = update s.b_flags bp 0;
        b_back = update back' (forw' dev) bp;
        b_forw = update forw' dev bp;
        b_dev = update s.b_dev bp dev;
        b_blkno = update s.b_blkno bp blkno;
      }

  -- `mutex_lock(&bp->b_wait_free_lock)` and NotAvail, for a Buf that is found in its queue.
  unfoldable pub take_buf : ℕ → Pool Disk → Pool Disk
  take_buf bp s = not_avail bp (record s { b_wait_free_lock = update s.b_wait_free_lock bp true })

  -- `BufferManager::GetBlk`. The process is blocked where the Buf is held or no Buf is free. A round
  -- is one pass from `loop`.
  unfoldable pub get_blk : ℕ → ℕ → ℕ → Pool Disk → Run (ℕ × Pool Disk)
  get_blk zero dev blkno s = out_of_fuel
  get_blk (suc rounds) dev blkno s = search (suc nbuf) dev dev blkno (s.b_forw dev) s >>= λ found.
      elim found [
        | some bp ↦ if s.b_wait_free_lock bp then blocked else done (bp, take_buf bp s)
        | none ↦
            let bp = s.av_forw b_free_list in
            let t = not_avail bp s in
            let again = get_blk rounds dev blkno (brelse bp (bwrite bp t).1) in
            if bp == b_free_list
            then blocked
            else if has_flag (t.b_flags bp) b_delwri
            then again
            else done (bp, adopt dev blkno bp t)
      ]

  -- GetBlk from where a process that waited for `b_wait_free_lock` of `bp` goes on.
  unfoldable pub get_blk_woken : ℕ → ℕ → ℕ → ℕ → Pool Disk → Run (ℕ × Pool Disk)
  get_blk_woken rounds bp dev blkno s =
      if not (s.b_blkno bp == blkno) || not (s.b_dev bp == dev) || has_flag (s.b_flags bp) b_busy
      then get_blk rounds dev blkno s
      else done (bp, take_buf bp s)
