-- ===== src/Cache/Io.antt =====
-- The buffer cache of UNIXV6PP/BufferManager.cc in the hands of the layers above: the calls of
-- BufferIo on one device, each the call of class BufferManager with the same name. A process that
-- waits for ever, or is stopped, makes no further call: from then on the state is that outcome, and
-- what the call yields means nothing.
use secondfs_module.Prelude.{
  ℕ, Option, none, some, Result, value, error, Run, done, out_of_bounds, blocked, bug, out_of_fuel,
  ◌>>=◌, update, suc,
}
use secondfs_module.Block.{zero_block}
use secondfs_module.BufferIo.{Buf, BufferIo}
use secondfs_module.Cache.Pool.{Pool, BlockIo, nbuf}
use secondfs_module.Cache.Queue.{brelse, search}
use secondfs_module.Cache.GetBlk.{get_blk, bwrite}
use secondfs_module.Cache.Transfer.{bread, bdwrite, bflush}

-- What a call leaves that has an outcome of its own: the outcome, `other` where there is none, and
-- the state.
unfoldable pub parted : {A S : Type 0} → A → Run (A × S) → A × Run S
parted other (done (a, s)) = (a, done s)
parted other out_of_bounds = (other, out_of_bounds)
parted other blocked = (other, blocked)
parted other bug = (other, bug)
parted other out_of_fuel = (other, out_of_fuel)

module _ (io : BlockIo) (rounds dev : ℕ) where
  open io use {Disk}

  -- The buffer at the pointer, as its holder sees it.
  abbrev pub buf_of : ℕ → Pool Disk → Buf
  buf_of bp s = record { b_blkno = s.b_blkno bp; b_addr = s.b_addr bp }

  unfoldable pub got : ℕ × Pool Disk → Buf × Pool Disk
  got (bp, s) = (buf_of bp s, s)

  unfoldable pub read_out : Result ℕ × Pool Disk → Result Buf × Pool Disk
  read_out (value bp, s) = (value (buf_of bp s), s)
  read_out (error e, s) = (error e, s)

  -- A pointer that is looked up: there must be one.
  unfoldable pub found_buf : {A : Type 0} → Option ℕ → (ℕ → A) → Run A
  found_buf none f = out_of_bounds
  found_buf (some bp) f = done (f bp)

  -- A call on a buffer that the caller holds: its Buf is the one of the block in the queue of the
  -- device, and what the caller has put into the buffer stands there.
  unfoldable pub on_buf : {A : Type 0} → Buf → (ℕ → Pool Disk → A) → Run (Pool Disk) → Run A
  unfolding found_buf
  on_buf buf f p = p >>= λ s. search (suc nbuf) dev dev buf.b_blkno (s.b_forw dev) s >>= λ at_block.
      found_buf at_block λ bp. f bp (record s { b_addr = update s.b_addr bp buf.b_addr })

  -- The calls of BufferManager on the device.
  abbrev pub cached : BufferIo
  cached = record {
    Pool = Run (Pool Disk);
    bread = λ n p. parted (error 0) (p >>= λ s. bread io rounds dev n s >>= λ r. done (read_out r));
    get_blk = λ n p.
        parted (record { b_blkno = n; b_addr = zero_block })
          (p >>= λ s. get_blk io rounds dev n s >>= λ r. done (got r));
    brelse = λ buf p. on_buf buf brelse p;
    bwrite = λ buf p. parted 0 (on_buf buf (bwrite io) p);
    bdwrite = λ buf p. on_buf buf (bdwrite io) p;
    bflush = λ p. p >>= λ s. bflush io rounds dev s;
  }
