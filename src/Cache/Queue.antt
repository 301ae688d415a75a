-- ===== src/Cache/Queue.antt =====
-- The queues of BufferManager (UNIXV6PP/BufferManager.cc): Initialize, Brelse, NotAvail and InCore.
-- Each call is one step, as the spin lock `b_queue_lock` makes the updates of the links one.
pub mod Laws
use secondfs_module.Prelude.{
  ℕ, zero, suc, ◌+◌, ◌-◌, Option, none, some, Run, done, out_of_fuel, true, false, ◌==◌, ◌&&◌,
  if◌then◌else◌, update, clear_flag, minus_one,
}
use secondfs_module.Cache.Pool.{Pool, nbuf, b_free_list, nodev, b_busy, b_wanted, b_async}

module _ {Disk : Type 0} where
  -- `BufferManager::Brelse`
  unfoldable pub brelse : ℕ → Pool Disk → Pool Disk
  brelse bp s =
      let tail = s.av_back b_free_list in
      record s {
        b_flags = update s.b_flags bp (clear_flag (s.b_flags bp) (b_wanted + b_busy + b_async));
        av_forw = update (update s.av_forw tail bp) bp b_free_list;
        av_back = update (update s.av_back bp tail) b_free_list bp;
        b_wait_free_lock = update s.b_wait_free_lock bp false;
        b_free_sema = s.b_free_sema - 1 + 1;
      }

  -- `BufferManager::NotAvail`
  unfoldable pub not_avail : ℕ → Pool Disk → Pool Disk
  not_avail bp s =
      let forw = update s.av_forw (s.av_back bp) (s.av_forw bp) in
      record s { av_forw = forw; av_back = update s.av_back (forw bp) (s.av_back bp) }

  -- One round of the loop of Initialize.
  unfoldable pub init_buf : ℕ → Pool Disk → Pool Disk
  unfolding brelse
  init_buf i s =
      let first = s.b_forw b_free_list in
      brelse i (record s {
        b_index = update s.b_index i i;
        b_dev = update s.b_dev i nodev;
        b_back = update (update s.b_back i b_free_list) first i;
        b_forw = update (update s.b_forw i first) b_free_list i;
        b_flags = update s.b_flags i b_busy;
        b_wait_free_lock = update s.b_wait_free_lock i false;
      })

  -- The rounds 0 to `n - 1`.
  unfoldable pub init_bufs : ℕ → Pool Disk → Pool Disk
  unfolding init_buf
  init_bufs zero s = s
  init_bufs (suc n) s = init_buf n (init_bufs n s)

  -- The heads of both queues of `bFreeList`, empty.
  unfoldable pub init_heads : Pool Disk → Pool Disk
  init_heads s = record s {
    b_index = update s.b_index b_free_list minus_one;
    b_dev = update s.b_dev b_free_list nodev;
    b_blkno = update s.b_blkno b_free_list minus_one;
    b_forw = update s.b_forw b_free_list b_free_list;
    b_back = update s.b_back b_free_list b_free_list;
    av_forw = update s.av_forw b_free_list b_free_list;
    av_back = update s.av_back b_free_list b_free_list;
  }

  -- `BufferManager::Initialize`
  unfoldable pub initialize : Pool Disk → Pool Disk
  unfolding init_bufs init_heads
  initialize s = init_bufs nbuf (init_heads s)

  -- The walk along `b_forw` from `bp` to the head `dev`, for the Buf of a block.
  unfoldable pub search : ℕ → ℕ → ℕ → ℕ → ℕ → Pool Disk → Run (Option ℕ)
  search zero head dev blkno bp s = out_of_fuel
  search (suc n) head dev blkno bp s =
      let rest = search n head dev blkno (s.b_forw bp) s in
      if bp == head
      then done none
      else if (s.b_blkno bp == blkno) && (s.b_dev bp == dev)
      then done (some bp)
      else rest

  -- `BufferManager::InCore`
  unfoldable pub in_core : ℕ → ℕ → Pool Disk → Run (Option ℕ)
  unfolding search
  in_core dev blkno s =
      let head = if dev == nodev then b_free_list else dev in
      search (suc nbuf) head dev blkno (s.b_forw head) s
