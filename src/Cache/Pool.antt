-- ===== src/Cache/Pool.antt =====
-- The state of class BufferManager (UNIXV6PP/BufferManager.hh) and of class Devtab. A pointer to a
-- Buf or to a Devtab is a number: `m_Buf[i]` is i, `bFreeList` is 10, a Devtab is 12 or more; the
-- links of a Devtab stand among those of the Bufs, as its fields do.
use secondfs_module.Prelude.{ℕ, Bool, update}
use secondfs_module.Block.{Block}

-- `SECONDFS_NBUF`
abbrev pub nbuf : ℕ
nbuf = 10

-- `&bFreeList`
abbrev pub b_free_list : ℕ
b_free_list = 10

-- `NULL` as a device
abbrev pub nodev : ℕ
nodev = 11

-- `Buf::BufFlag`
abbrev pub b_read : ℕ
b_read = 0x2

abbrev pub b_done : ℕ
b_done = 0x4

abbrev pub b_error : ℕ
b_error = 0x8

abbrev pub b_busy : ℕ
b_busy = 0x10

abbrev pub b_wanted : ℕ
b_wanted = 0x20

abbrev pub b_async : ℕ
b_async = 0x40

abbrev pub b_delwri : ℕ
b_delwri = 0x80

-- The synchronous requests to a block device. A read yields 0 or an errno, and the bytes that stand
-- in the buffer afterwards.
pub record BlockIo : Type 1 where
  pub Disk : Type 0
  pub submit_read : ℕ → ℕ → Block → Disk → ℕ × Block × Disk
  pub submit_write : ℕ → ℕ → Block → Disk → ℕ × Disk

-- The fields of all Bufs by pointer; `b_addr` is the content of the buffer, `b_wait_free_lock`
-- whether that mutex is held, `b_free_sema` the semaphore `b_bFreeList_lock`.
pub record Pool (Disk : Type 0) : Type 0 where
  pub b_flags : ℕ → ℕ
  pub b_forw : ℕ → ℕ
  pub b_back : ℕ → ℕ
  pub av_forw : ℕ → ℕ
  pub av_back : ℕ → ℕ
  pub b_dev : ℕ → ℕ
  pub b_blkno : ℕ → ℕ
  pub b_index : ℕ → ℕ
  pub b_addr : ℕ → Block
  pub b_wait_free_lock : ℕ → Bool
  pub b_free_sema : ℕ
  pub disk : Disk

-- `Devtab::Devtab` at the pointer `dev`.
unfoldable pub devtab : {Disk : Type 0} → ℕ → Pool Disk → Pool Disk
devtab dev s = record s { b_forw = update s.b_forw dev dev; b_back = update s.b_back dev dev }
