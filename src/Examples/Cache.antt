-- ===== src/Examples/Cache.antt =====
-- The theorems on the buffer cache at concrete inputs.
use secondfs_module.Prelude.{
  ℕ, ◌≡◌, refl, Bool, false, [], ◌∷◌, some, none, arith, ℕ_discrete, value, blocked, Returns, ◌==◌,
  if◌then◌else◌,
}
use secondfs_module.Block.{Block}
use secondfs_module.Cache.Pool.{Pool, BlockIo}
use secondfs_module.Cache.Ring.{next, through}
use secondfs_module.Cache.Queue.{brelse, not_avail, search, initialize}
use secondfs_module.Cache.Queue.Laws.{
  Ring, FreeRing, brelse-FreeRing, not_avail-FreeRing, first_bufs, initialize-FreeRing,
}
use secondfs_module.Cache.GetBlk.{get_blk, adopt}
use secondfs_module.Cache.GetBlk.Laws.{
  Finds, HandedOut, get_blk-miss, get_blk-hit, get_blk_miss-shared, adopt-Ring,
}
use secondfs_module.Cache.GetBlk.Dirty.{get_blk_dirty-shared}
use secondfs_module.Cache.Transfer.{bread, bflush}
use secondfs_module.Cache.Transfer.Flush.{Flushed, count_dirty, bflush-Flushed}
use secondfs_module.Cache.Transfer.Laws.{FailsThenYields, request, bread-miss, bread_failed-cached}

-- A disk whose blocks in `bad` cannot be read or written.
abbrev disk_io : (ℕ → Bool) → BlockIo
disk_io bad = record {
  Disk = ℕ → Block;
  submit_read = λ dev n b d. if bad n then (5, b, d) else (0, d n, d);
  submit_write = λ dev n b d. if bad n then (5, d) else (0, d);
}

abbrev io : BlockIo
io = disk_io (λ n. false)

-- Block 6 is bad.
abbrev bad_io : BlockIo
bad_io = disk_io (λ n. n == 6)

-- The Bufs 0 and 1 are free, and Buf 0 stands for block 5 of device 12.
abbrev two_bufs : Pool (ℕ → Block)
two_bufs = record {
  b_flags = λ i. 0;
  b_forw = λ i. if i == 12 then 0 else 12;
  b_back = λ i. if i == 12 then 0 else 12;
  av_forw = λ i. if i == 10 then 0 else if i == 0 then 1 else 10;
  av_back = λ i. if i == 10 then 1 else if i == 0 then 10 else 0;
  b_dev = λ i. 12;
  b_blkno = λ i. 5;
  b_index = λ i. i;
  b_addr = λ i j. 0;
  b_wait_free_lock = λ i. false;
  b_free_sema = 1;
  disk = λ n j. n;
}

two_free : FreeRing two_bufs (0 ∷ 1 ∷ [])
two_free = (
  through {a = 10} {x = 0} refl refl (through {x = 1} refl refl (next {z = 10} refl refl)),
  (refl, (refl, (refl, tt))),
)

-- Block 6 is in no buffer, block 5 in Buf 0.
not_there : Finds io 12 6 none two_bufs
unfolding search
not_there = refl

not_there_either : Finds bad_io 12 6 none two_bufs
unfolding search
not_there_either = refl

there : Finds io 12 5 (some 0) two_bufs
unfolding search
there = refl

brelse-FreeRing_example : FreeRing (brelse 4 two_bufs) (0 ∷ 1 ∷ 4 ∷ [])
brelse-FreeRing_example = brelse-FreeRing two_bufs 4 (0 ∷ 1 ∷ []) two_free refl

not_avail-FreeRing_example : FreeRing (not_avail 1 two_bufs) (0 ∷ [])
not_avail-FreeRing_example = not_avail-FreeRing two_bufs 1 (0 ∷ []) [] two_free

one_on_device : Ring two_bufs.b_forw two_bufs.b_back 12 (0 ∷ [])
one_on_device = (through {a = 12} {x = 0} refl refl (next {z = 12} refl refl), (refl, (refl, tt)))

get_blk-miss_example : Returns (HandedOut io 12 6 0 (1 ∷ []) two_bufs) (get_blk io 1 12 6 two_bufs)
get_blk-miss_example = get_blk-miss io 0 12 6 0 (1 ∷ []) two_bufs not_there two_free refl

get_blk-hit_example :
    Returns
      (λ (bp, t). (bp ≡ 0) × FreeRing t (1 ∷ []) × (get_blk io 1 12 5 t ≡ blocked))
      (get_blk io 1 12 5 two_bufs)
get_blk-hit_example = get_blk-hit io 0 12 5 0 [] (1 ∷ []) two_bufs there two_free refl

get_blk_miss-shared_example :
    Returns
      (λ (one, t). Returns (λ (other, u). (one ≡ 0) × (other ≡ 0)) (get_blk io 1 12 6 t))
      (get_blk io 1 12 6 two_bufs)
get_blk_miss-shared_example =
    get_blk_miss-shared io 0 0 12 6 0 (1 ∷ []) two_bufs not_there two_free refl refl (omega arith)

bread-miss_example :
    Returns
      (λ (r, u).
        (r ≡ value 0)
        × (u.b_addr 0 ≡ (request io 12 6 0 two_bufs).1)
        × (u.disk ≡ (request io 12 6 0 two_bufs).2)
        × FreeRing u (1 ∷ []))
      (bread io 1 12 6 two_bufs)
bread-miss_example = bread-miss io 0 12 6 0 (1 ∷ []) two_bufs not_there two_free refl refl

bread_failed-cached_example :
    Returns (FailsThenYields bad_io 0 12 6 0 5) (bread bad_io 1 12 6 two_bufs)
bread_failed-cached_example =
    bread_failed-cached bad_io 0 0 12 6 0 (1 ∷ []) two_bufs not_there_either two_free refl
      (omega arith) (omega arith)

-- Buf 0 is the only free one, and waits to be written.
abbrev dirty_end : Pool (ℕ → Block)
dirty_end = record two_bufs {
  b_flags = λ i. 0x84;
  av_forw = λ i. if i == 10 then 0 else 10;
  av_back = λ i. if i == 10 then 0 else 10;
}

one_free : FreeRing dirty_end (0 ∷ [])
one_free = (through {a = 10} {x = 0} refl refl (next {z = 10} refl refl), (refl, (refl, tt)))

not_in_queue : Finds io 12 6 none dirty_end
unfolding search
not_in_queue = refl

get_blk_dirty-shared_example :
    Returns (λ (bp, t). (bp ≡ 0) × (t.av_forw 10 ≡ 0)) (get_blk io 2 12 6 dirty_end)
get_blk_dirty-shared_example = get_blk_dirty-shared io 0 12 6 0 dirty_end not_in_queue one_free refl

-- The same Bufs, Buf 1 to be written.
abbrev last_dirty : Pool (ℕ → Block)
last_dirty = record two_bufs { b_flags = λ i. if i == 1 then 0x86 else 0 }

bflush-Flushed_example : Returns (Flushed io 12 (0 ∷ 1 ∷ [])) (bflush io 2 12 last_dirty)
unfolding count_dirty
bflush-Flushed_example =
    bflush-Flushed io 2 12 last_dirty (0 ∷ 1 ∷ []) two_free (omega arith)
      (λ x h. elim (ℕ_discrete x 1) [
        | yes e ↦ rw e ((omega arith), refl)
        | no ne ↦ let z : x ≡ 0 = ground arith in rw z ((omega arith), refl)
      ])
      (omega arith)

initialize-FreeRing_example : FreeRing (initialize two_bufs) (first_bufs 10)
initialize-FreeRing_example = initialize-FreeRing two_bufs

adopt-Ring_example : let t = adopt io 12 6 0 two_bufs in Ring t.b_forw t.b_back 12 (0 ∷ [])
adopt-Ring_example = adopt-Ring io 12 6 0 [] [] two_bufs one_on_device
