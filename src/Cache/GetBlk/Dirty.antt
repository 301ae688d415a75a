-- ===== src/Cache/GetBlk/Dirty.antt =====
-- BufferManager::GetBlk of UNIXV6PP/BufferManager.cc when the Buf that it takes is to be written
-- first: Bwrite gives the Buf back, and GetBlk gives it back again.
use secondfs_module.Prelude.{
  ℕ, zero, suc, ◌+◌, ◌≡◌, ◌≢◌, refl, ◌∙◌, false, List, [], ◌∷◌, arith, none, Returns, update,
  update_same, has, has_flag, ◌==◌,
}
use secondfs_module.Cache.Pool.{Pool, BlockIo, nbuf, b_free_list, b_delwri, b_done}
use secondfs_module.Cache.Ring.{last_node, last_node-outside, back-end, forw-start}
use secondfs_module.Cache.Queue.{brelse, not_avail, search}
use secondfs_module.Cache.Queue.Laws.{FreeRing, not_avail-FreeRing}
use secondfs_module.Cache.GetBlk.{get_blk, adopt, bwrite, io_done}
use secondfs_module.Cache.GetBlk.Laws.{Finds, get_blk-eq-miss}

module _ {Disk : Type 0} where
  -- The link that leads to a Buf that has been released twice stays when NotAvail takes it out.
  not_avail-brelse-brelse :
      (s : Pool Disk) (bp : ℕ) (xs : List ℕ)
      → FreeRing s xs
      → has bp (b_free_list ∷ xs) ≡ false
      → (not_avail bp (brelse bp (brelse bp s))).av_forw (last_node b_free_list xs) ≡ bp
  unfolding not_avail brelse update
  not_avail-brelse-brelse s bp xs (l, d) out =
      let tail : s.av_back b_free_list ≡ last_node b_free_list xs = back-end xs l in
      let apart : bp ≢ last_node b_free_list xs = last_node-outside bp b_free_list xs out in
      let not_head : bp ≢ b_free_list = ground arith in rw tail (ground arith)

  not_avail-flags : (bp : ℕ) (s : Pool Disk) → (not_avail bp s).b_flags bp ≡ s.b_flags bp
  unfolding not_avail
  not_avail-flags bp s = refl

  brelse-brelse-front :
      (s : Pool Disk) (bp : ℕ)
      → FreeRing s []
      → bp ≢ b_free_list
      → (brelse bp (brelse bp s)).av_forw b_free_list ≡ bp
  unfolding brelse update
  brelse-brelse-front s bp (l, d) not_head =
      let tail : s.av_back b_free_list ≡ b_free_list = back-end [] l in rw tail (ground arith)

module _ (io : BlockIo) where
  open io use {Disk, submit_write}

  written : ℕ → Disk → Pool Disk → Pool Disk
  written bp d t = record t { b_flags = update (update t.b_flags bp 0) bp 4; disk = d }

  bwrite-eq :
      (bp : ℕ) (t : Pool Disk)
      → t.b_flags bp ≡ b_delwri + b_done
      → (bwrite io bp t).1
        ≡ brelse bp (written bp (submit_write (t.b_dev bp) (t.b_blkno bp) (t.b_addr bp) t.disk).1 t)
  unfolding bwrite io_done written
  bwrite-eq bp t flags =
      rw (flags, update_same t.b_flags bp 0, update_same (update t.b_flags bp 0) bp 4) refl

  -- The state in which the second pass begins.
  released : ℕ → Pool Disk → Pool Disk
  released bp s =
      let t = not_avail bp s in
      brelse bp
        (brelse bp (written bp (submit_write (t.b_dev bp) (t.b_blkno bp) (t.b_addr bp) t.disk).1 t))

  get_blk-eq-dirty :
      (rounds dev blkno bp : ℕ) (s : Pool Disk)
      → Finds io dev blkno none s
      → s.av_forw b_free_list ≡ bp
      → bp ≢ b_free_list
      → s.b_flags bp ≡ b_delwri + b_done
      → get_blk io (suc rounds) dev blkno s ≡ get_blk io rounds dev blkno (released bp s)
  unfolding get_blk released
  get_blk-eq-dirty rounds dev blkno bp s miss first not_head flags =
      let test : (bp == b_free_list) ≡ false = ground arith in
      let flags' : (not_avail bp s).b_flags bp ≡ b_delwri + b_done = not_avail-flags bp s ∙ flags in
      rw (miss, first, test, flags', bwrite-eq bp (not_avail bp s) flags') refl

  search-released :
      (n head dev blkno p bp : ℕ) (s : Pool Disk)
      → search n head dev blkno p (released bp s) ≡ search n head dev blkno p s
  unfolding search released written brelse not_avail
  search-released zero head dev blkno p bp s = refl
  search-released (suc n) head dev blkno p bp s =
      rw (search-released n head dev blkno (s.b_forw p) bp s) refl

  released-flags : (bp : ℕ) (s : Pool Disk) → (released bp s).b_flags bp ≡ 4
  unfolding released written brelse not_avail update
  released-flags bp s = ground arith

  Finds-released :
      (dev blkno bp : ℕ) (s : Pool Disk)
      → Finds io dev blkno none s
      → Finds io dev blkno none (released bp s)
  unfolding released written brelse not_avail
  Finds-released dev blkno bp s miss =
      search-released (suc nbuf) dev dev blkno (s.b_forw dev) bp s ∙ miss

  -- In the second pass the Buf is the first free one, before and after NotAvail.
  released-front :
      (bp : ℕ) (s : Pool Disk)
      → FreeRing s (bp ∷ [])
      → ((released bp s).av_forw b_free_list ≡ bp)
        × ((not_avail bp (released bp s)).av_forw b_free_list ≡ bp)
  unfolding released written
  released-front bp s ring =
      let none_left = not_avail-FreeRing s bp [] [] ring in
      let (h, d) = ring.1 in
      (
        brelse-brelse-front _ bp none_left (ground arith),
        not_avail-brelse-brelse _ bp [] none_left (ground arith),
      )

  -- When a block that is in no buffer is asked for and the only free Buf waits to be written, with
  -- the flags that Bdwrite leaves, GetBlk returns that Buf in two passes, and the Buf that it has
  -- handed out is still the first free one.
  pub get_blk_dirty-shared :
      (rounds dev blkno bp : ℕ) (s : Pool Disk)
      → Finds io dev blkno none s
      → FreeRing s (bp ∷ [])
      → s.b_flags bp ≡ b_delwri + b_done
      → Returns
          (λ (bp', t). (bp' ≡ bp) × (t.av_forw b_free_list ≡ bp))
          (get_blk io (suc (suc rounds)) dev blkno s)
  unfolding adopt
  get_blk_dirty-shared rounds dev blkno bp s miss ring flags =
      let first : s.av_forw b_free_list ≡ bp = forw-start (bp ∷ []) ring.0 in
      let not_head : bp ≢ b_free_list = ground arith in
      let front : (released bp s).av_forw b_free_list ≡ bp = (released-front bp s ring).0 in
      let miss' : Finds io dev blkno none (released bp s) = Finds-released dev blkno bp s miss in
      let clean : has_flag ((released bp s).b_flags ((released bp s).av_forw b_free_list)) b_delwri
          ≡ false =
        rw (front, released-flags bp s) refl in
      let e = get_blk-eq-miss io rounds dev blkno (released bp s) miss' (rw front not_head) clean in
      rw (get_blk-eq-dirty (suc rounds) dev blkno bp s miss first not_head flags, e, front)
        (refl, (released-front bp s ring).1)
