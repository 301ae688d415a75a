-- ===== src/Cache/Transfer/Laws.antt =====
-- BufferManager::Bread of UNIXV6PP/BufferManager.cc: the content it delivers, and what it keeps.
use secondfs_module.Prelude.{
  ℕ, suc, ◌≡◌, ◌≢◌, refl, sym, ap, ◌∙◌, subst, false, true, List, ◌∷◌, arith, none, done,
  if◌then◌else◌, Result, value, error, Returns, Returns-bind, update, update_same, has_flag, ◌==◌,
}
use secondfs_module.Block.{Block}
use secondfs_module.Cache.Pool.{Pool, BlockIo, nbuf, b_delwri, b_done}
use secondfs_module.Cache.Queue.{brelse, not_avail, search}
use secondfs_module.Cache.Queue.Laws.{FreeRing}
use secondfs_module.Cache.GetBlk.{get_blk, io_done, take_buf}
use secondfs_module.Cache.GetBlk.Laws.{Finds, HandedOut, get_blk-miss, get_blk-eq-hit, search-first}
use secondfs_module.Cache.Transfer.{read_in, bread}

module _ (io : BlockIo) where
  open io use {Disk, submit_read}

  -- The Buf with the bytes of a read that has ended, flagged B_READ and B_DONE.
  read_into : ℕ → Block → Disk → Pool Disk → Pool Disk
  read_into bp b d t = record t {
    b_flags = update (update t.b_flags bp 2) bp 6;
    b_addr = update t.b_addr bp b;
    disk = d;
  }

  read_in-eq :
      (dev blkno bp : ℕ) (t : Pool Disk)
      → t.b_flags bp ≡ 0
      → t.b_dev bp ≡ dev
      → t.b_blkno bp ≡ blkno
      → let (ret, b, d) = submit_read dev blkno (t.b_addr bp) t.disk in
        read_in io bp t ≡ (
          if ret == 0
          then (value bp, read_into bp b d t)
          else (error ret, brelse bp (read_into bp b d t)))
  unfolding read_in io_done read_into
  read_in-eq dev blkno bp t flags is_dev is_blkno =
      rw
        (
          flags,
          is_dev,
          is_blkno,
          update_same t.b_flags bp 2,
          update_same (update t.b_flags bp 2) bp 6,
        )
        refl

  -- The request that Bread makes for a block: 0 or an errno, the bytes of the buffer, the disk.
  abbrev pub request : ℕ → ℕ → ℕ → Pool Disk → ℕ × Block × Disk
  request dev blkno bp s = submit_read dev blkno (s.b_addr bp) s.disk

  -- Bread of a block that the search does not find, while the first free Buf is not to be
  -- written and the read succeeds, returns that Buf with the bytes that the disk delivers; the
  -- disk is as the read leaves it, and the other free Bufs stay in their order.
  pub bread-miss :
      (rounds dev blkno bp : ℕ) (xs : List ℕ) (s : Pool Disk)
      → Finds io dev blkno none s
      → FreeRing s (bp ∷ xs)
      → has_flag (s.b_flags bp) b_delwri ≡ false
      → (request dev blkno bp s).0 ≡ 0
      → Returns
          (λ (r, u).
            (r ≡ value bp)
            × (u.b_addr bp ≡ (request dev blkno bp s).1)
            × (u.disk ≡ (request dev blkno bp s).2)
            × FreeRing u xs)
          (bread io (suc rounds) dev blkno s)
  unfolding bread read_into
  bread-miss rounds dev blkno bp xs s miss ring clean ok =
      Returns-bind {P = HandedOut io dev blkno bp xs s} _ (get_blk io (suc rounds) dev blkno s) _
        (get_blk-miss io rounds dev blkno bp xs s miss ring clean)
        λ (bp', t) (e, r, front, is_dev, is_blkno, flags, locks, bytes, disk).
          rw (e, flags, read_in-eq dev blkno bp t flags is_dev is_blkno, bytes, disk, ok)
            (refl, update_same s.b_addr bp _, refl, r)

  bread-eq-cached :
      (again dev blkno bp : ℕ) (u : Pool Disk)
      → bp ≢ dev
      → u.b_forw dev ≡ bp
      → u.b_dev bp ≡ dev
      → u.b_blkno bp ≡ blkno
      → u.b_wait_free_lock bp ≡ false
      → has_flag (u.b_flags bp) b_done ≡ true
      → bread io (suc again) dev blkno u ≡ done (value bp, take_buf io bp u)
  unfolding bread take_buf not_avail
  bread-eq-cached again dev blkno bp u ne front is_dev is_blkno free valid =
      rw
        (
          get_blk-eq-hit io again dev blkno bp u
              (ap (λ first. search (suc nbuf) dev dev blkno first u) front
                ∙ search-first io nbuf dev blkno bp u ne is_blkno is_dev)
              free,
          valid,
        )
        refl

  failed : ℕ → Block → Disk → Pool Disk → Pool Disk
  failed bp b d t = brelse bp (read_into bp b d t)

  bread-failed :
      (again dev blkno bp : ℕ) (b : Block) (d : Disk) (t : Pool Disk)
      → bp ≢ dev
      → t.b_forw dev ≡ bp
      → t.b_dev bp ≡ dev
      → t.b_blkno bp ≡ blkno
      → Returns
          (λ (r, v). (r ≡ value bp) × (v.disk ≡ d))
          (bread io (suc again) dev blkno (failed bp b d t))
  unfolding failed read_into brelse take_buf not_avail
  bread-failed again dev blkno bp b d t ne front is_dev is_blkno =
      let flags : update (update t.b_flags bp 2) bp 6 bp ≡ 6 =
        update_same (update t.b_flags bp 2) bp 6 in
      let cached =
        bread-eq-cached again dev blkno bp (failed bp b d t) ne front is_dev is_blkno
          (update_same t.b_wait_free_lock bp false)
          (rw (flags, update_same (update (update t.b_flags bp 2) bp 6) bp 6) refl) in
      rw cached (refl, refl)

  read_in-eq-failed :
      (dev blkno bp : ℕ) (s t : Pool Disk)
      → t.b_flags bp ≡ 0
      → t.b_dev bp ≡ dev
      → t.b_blkno bp ≡ blkno
      → t.b_addr ≡ s.b_addr
      → t.disk ≡ s.disk
      → (request dev blkno bp s).0 ≢ 0
      → let (ret, b, d) = request dev blkno bp s in read_in io bp t ≡ (error ret, failed bp b d t)
  unfolding failed
  read_in-eq-failed dev blkno bp s t flags is_dev is_blkno bytes disk bad =
      let test : ((request dev blkno bp s).0 == 0) ≡ false = ground arith in
      rw (read_in-eq dev blkno bp t flags is_dev is_blkno, bytes, disk, test) refl

  bread-Returns :
      (P : ℕ × Pool Disk → Type 0) (Q : Result ℕ × Pool Disk → Type 0) (rounds dev blkno : ℕ)
      (s : Pool Disk)
      → Returns P (get_blk io rounds dev blkno s)
      → ((bp : ℕ) (t : Pool Disk) → P (bp, t) → (t.b_flags bp ≡ 0) × Q (read_in io bp t))
      → Returns Q (bread io rounds dev blkno s)
  unfolding bread
  bread-Returns P Q rounds dev blkno s got after =
      Returns-bind Q (get_blk io rounds dev blkno s) _ got
        λ (bp, t) p. let (flags, q) = after bp t p in rw flags q

  -- The errno `ret`, and after it a Bread that yields the Buf with the disk not asked.
  abbrev pub FailsThenYields : ℕ → ℕ → ℕ → ℕ → ℕ → Result ℕ × Pool Disk → Type 0
  FailsThenYields again dev blkno bp ret (r, u) =
      (r ≡ error ret)
      × Returns (λ (r', v). (r' ≡ value bp) × (v.disk ≡ u.disk)) (bread io (suc again) dev blkno u)

  -- Bread of a block that the search does not find, while the first free Buf is not to be
  -- written and the read of the block fails, returns the errno; but the next Bread of the same
  -- block yields the Buf as if it had been read, and the disk is not asked. The Buf must not
  -- be the head of the device's queue.
  pub bread_failed-cached :
      (rounds again dev blkno bp : ℕ) (xs : List ℕ) (s : Pool Disk)
      → Finds io dev blkno none s
      → FreeRing s (bp ∷ xs)
      → has_flag (s.b_flags bp) b_delwri ≡ false
      → bp ≢ dev
      → (request dev blkno bp s).0 ≢ 0
      → Returns
          (FailsThenYields again dev blkno bp (request dev blkno bp s).0)
          (bread io (suc rounds) dev blkno s)
  unfolding failed brelse read_into
  bread_failed-cached rounds again dev blkno bp xs s miss ring clean ne bad =
      bread-Returns (HandedOut io dev blkno bp xs s)
        (FailsThenYields again dev blkno bp (request dev blkno bp s).0) (suc rounds) dev blkno s
        (get_blk-miss io rounds dev blkno bp xs s miss ring clean)
        λ bp' t (e, r, front, is_dev, is_blkno, flags, locks, bytes, disk).
          let bad_read = read_in-eq-failed dev blkno bp s t flags is_dev is_blkno bytes disk bad in
          rw e (
            flags,
            subst (FailsThenYields again dev blkno bp (request dev blkno bp s).0) (sym bad_read)
                (refl, bread-failed again dev blkno bp _ _ t ne front is_dev is_blkno),
          )
