-- ===== src/Cache/GetBlk/Laws.antt =====
-- BufferManager::GetBlk of UNIXV6PP/BufferManager.cc: which Buf is handed out, and what becomes of
-- the two queues.
use secondfs_module.Prelude.{
  ℕ, zero, suc, ◌≡◌, ◌≢◌, refl, ap, ◌∙◌, false, true, List, [], ◌∷◌, ◌++◌, arith, Option, none,
  some, done, blocked, Returns, Returns-mono, update, update_same, has_flag, ◌==◌,
}
use secondfs_module.Cache.Pool.{Pool, BlockIo, nbuf, b_free_list, b_delwri}
use secondfs_module.Cache.Ring.{forw-start}
use secondfs_module.Cache.Queue.{not_avail, search}
use secondfs_module.Cache.Queue.Laws.{
  Ring, FreeRing, Ring-remove, Ring-prepend, not_avail-FreeRing, has-middle,
}
use secondfs_module.Cache.GetBlk.{get_blk, adopt, take_buf}

module _ (io : BlockIo) where
  open io use {Disk, submit_write}

  -- What GetBlk's search in the queue of a device finds.
  abbrev pub Finds : ℕ → ℕ → Option ℕ → Pool Disk → Type 0
  Finds dev blkno found s = search (suc nbuf) dev dev blkno (s.b_forw dev) s ≡ done found

  -- The last steps of GetBlk take a Buf out of its place in the queue of a device and put it
  -- in front of the same queue, which stays a doubly linked ring with the others in their
  -- order.
  pub adopt-Ring :
      (dev blkno bp : ℕ) (xs ys : List ℕ) (s : Pool Disk)
      → Ring s.b_forw s.b_back dev (xs ++ bp ∷ ys)
      → let t = adopt io dev blkno bp s in Ring t.b_forw t.b_back dev (bp ∷ (xs ++ ys))
  unfolding adopt
  adopt-Ring dev blkno bp xs ys s ring =
      Ring-prepend dev bp (xs ++ ys) (Ring-remove dev bp xs ys ring)
        (has-middle dev bp xs ys ring.1)

  pub get_blk-eq-miss :
      (rounds dev blkno : ℕ) (s : Pool Disk)
      → Finds dev blkno none s
      → s.av_forw b_free_list ≢ b_free_list
      → has_flag (s.b_flags (s.av_forw b_free_list)) b_delwri ≡ false
      → get_blk io (suc rounds) dev blkno s
        ≡ done (
          s.av_forw b_free_list,
          adopt io dev blkno (s.av_forw b_free_list) (not_avail (s.av_forw b_free_list) s),
        )
  unfolding get_blk not_avail
  get_blk-eq-miss rounds dev blkno s miss some_free clean =
      let test : (s.av_forw b_free_list == b_free_list) ≡ false = ground arith in
      rw (miss, test, clean) refl

  pub get_blk-eq-hit :
      (rounds dev blkno bp : ℕ) (s : Pool Disk)
      → Finds dev blkno (some bp) s
      → s.b_wait_free_lock bp ≡ false
      → get_blk io (suc rounds) dev blkno s ≡ done (bp, take_buf io bp s)
  unfolding get_blk
  get_blk-eq-hit rounds dev blkno bp s hit free = rw (hit, free) refl

  get_blk-eq-held :
      (rounds dev blkno bp : ℕ) (s : Pool Disk)
      → Finds dev blkno (some bp) s
      → s.b_wait_free_lock bp ≡ true
      → get_blk io (suc rounds) dev blkno s ≡ blocked
  unfolding get_blk
  get_blk-eq-held rounds dev blkno bp s hit held = rw (hit, held) refl

  search-take_buf :
      (n head dev blkno bp taken : ℕ) (s : Pool Disk)
      → search n head dev blkno bp (take_buf io taken s) ≡ search n head dev blkno bp s
  unfolding search take_buf not_avail
  search-take_buf zero head dev blkno bp taken s = refl
  search-take_buf (suc n) head dev blkno bp taken s =
      rw (search-take_buf n head dev blkno (s.b_forw bp) taken s) refl

  not_avail-keeps :
      (bp : ℕ) (s : Pool Disk)
      → ((not_avail bp s).b_wait_free_lock ≡ s.b_wait_free_lock)
        × ((not_avail bp s).b_addr ≡ s.b_addr)
        × ((not_avail bp s).disk ≡ s.disk)
  unfolding not_avail
  not_avail-keeps bp s = (refl, refl, refl)

  first_not_head :
      (s : Pool Disk) (bp : ℕ) (xs : List ℕ)
      → FreeRing s (bp ∷ xs)
      → s.av_forw b_free_list ≢ b_free_list
  first_not_head s bp xs (l, (h, d)) =
      let first : s.av_forw b_free_list ≡ bp = forw-start (bp ∷ xs) l in rw first (ground arith)

  locked : ℕ → Pool Disk → Pool Disk
  locked bp s = record s { b_wait_free_lock = update s.b_wait_free_lock bp true }

  -- The Buf `bp`, the first free one, now stands for the block in front of the queue of `dev`, its
  -- flags cleared and its content not valid; the other free Bufs are `xs`.
  abbrev pub HandedOut : ℕ → ℕ → ℕ → List ℕ → Pool Disk → ℕ × Pool Disk → Type 0
  HandedOut dev blkno bp xs s (bp', t) =
      (bp' ≡ bp)
      × FreeRing t xs
      × (t.b_forw dev ≡ bp)
      × (t.b_dev bp ≡ dev)
      × (t.b_blkno bp ≡ blkno)
      × (t.b_flags bp ≡ 0)
      × (t.b_wait_free_lock ≡ s.b_wait_free_lock)
      × (t.b_addr ≡ s.b_addr)
      × (t.disk ≡ s.disk)

  adopt-HandedOut :
      (dev blkno bp : ℕ) (xs : List ℕ) (s t : Pool Disk)
      → FreeRing t xs
      → t.b_wait_free_lock ≡ s.b_wait_free_lock
      → t.b_addr ≡ s.b_addr
      → t.disk ≡ s.disk
      → HandedOut dev blkno bp xs s (bp, adopt io dev blkno bp t)
  unfolding adopt
  adopt-HandedOut dev blkno bp xs s t ring locks bytes disk = (
    refl,
    ring,
    update_same _ dev bp,
    update_same t.b_dev bp dev,
    update_same t.b_blkno bp blkno,
    update_same t.b_flags bp 0,
    locks,
    bytes,
    disk,
  )

  -- GetBlk of a block that the search does not find, while the first free Buf is not to be
  -- written, returns that Buf in one pass: it stands for the block in front of the queue of
  -- the device, with no flag set, and the other free Bufs stay in their order. The locks, the
  -- bytes of all buffers and the disk stay as they are.
  pub get_blk-miss :
      (rounds dev blkno bp : ℕ) (xs : List ℕ) (s : Pool Disk)
      → Finds dev blkno none s
      → FreeRing s (bp ∷ xs)
      → has_flag (s.b_flags bp) b_delwri ≡ false
      → Returns (HandedOut dev blkno bp xs s) (get_blk io (suc rounds) dev blkno s)
  get_blk-miss rounds dev blkno bp xs s miss ring clean =
      let first : s.av_forw b_free_list ≡ bp = forw-start (bp ∷ xs) ring.0 in
      let e =
        get_blk-eq-miss rounds dev blkno s miss (first_not_head s bp xs ring) (rw first clean) in
      rw (e, first)
        (adopt-HandedOut dev blkno bp xs s (not_avail bp s) (not_avail-FreeRing s bp [] xs ring)
          (not_avail-keeps bp s).0 (not_avail-keeps bp s).1 (not_avail-keeps bp s).2)

  -- GetBlk of a block whose Buf the search finds, free and not locked, returns that Buf and
  -- takes it out of the ring of free Bufs, which keeps the others in their order; and the same
  -- call again, while the Buf is held, blocks.
  pub get_blk-hit :
      (rounds dev blkno bp : ℕ) (xs ys : List ℕ) (s : Pool Disk)
      → Finds dev blkno (some bp) s
      → FreeRing s (xs ++ bp ∷ ys)
      → s.b_wait_free_lock bp ≡ false
      → Returns
          (λ (bp', t).
            (bp' ≡ bp) × FreeRing t (xs ++ ys) × (get_blk io (suc rounds) dev blkno t ≡ blocked))
          (get_blk io (suc rounds) dev blkno s)
  unfolding take_buf not_avail locked
  get_blk-hit rounds dev blkno bp xs ys s hit ring free =
      rw (get_blk-eq-hit rounds dev blkno bp s hit free) (
        refl,
        not_avail-FreeRing (locked bp s) bp xs ys ring,
        get_blk-eq-held rounds dev blkno bp (take_buf io bp s)
            (search-take_buf (suc nbuf) dev dev blkno (s.b_forw dev) bp s ∙ hit)
            (update_same s.b_wait_free_lock bp true),
      )

  pub search-first :
      (n dev blkno bp : ℕ) (s : Pool Disk)
      → bp ≢ dev
      → s.b_blkno bp ≡ blkno
      → s.b_dev bp ≡ dev
      → search (suc n) dev dev blkno bp s ≡ done (some bp)
  unfolding search
  search-first n dev blkno bp s ne is_blkno is_dev =
      let test : (bp == dev) ≡ false = ground arith in rw (test, is_blkno, is_dev) (ground arith)

  -- GetBlk of a block that the search does not find, while the first free Buf is not to be
  -- written and not locked, does not lock the Buf that it returns: the same call in the state
  -- that it leaves, by another process, returns the same Buf.
  pub get_blk_miss-shared :
      (rounds again dev blkno bp : ℕ) (xs : List ℕ) (s : Pool Disk)
      → Finds dev blkno none s
      → FreeRing s (bp ∷ xs)
      → has_flag (s.b_flags bp) b_delwri ≡ false
      → s.b_wait_free_lock bp ≡ false
      → bp ≢ dev
      → Returns
          (λ (one, t).
            Returns (λ (other, u). (one ≡ bp) × (other ≡ bp)) (get_blk io (suc again) dev blkno t))
          (get_blk io (suc rounds) dev blkno s)
  get_blk_miss-shared rounds again dev blkno bp xs s miss ring clean free ne =
      Returns-mono {P = HandedOut dev blkno bp xs s} _
        (get_blk-miss rounds dev blkno bp xs s miss ring clean)
        λ (one, t) (e, r, front, is_dev, is_blkno, flags, locks, bytes, disk).
          rw
            (get_blk-eq-hit again dev blkno bp t
              (ap (λ first. search (suc nbuf) dev dev blkno first t) front
                ∙ search-first nbuf dev blkno bp t ne is_blkno is_dev)
              (ap (λ l. l bp) locks ∙ free))
            (e, refl)
