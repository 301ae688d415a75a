-- ===== src/FileSystem/Space/Alloc.antt =====
-- FileSystem::Alloc of UNIXV6PP/FileSystem.cc takes the first block of the list of free blocks.
use secondfs_module.Prelude.{
  ◌⊎◌, inl, inr, ℕ, suc, ◌+◌, ◌<◌, ◌≡◌, ◌≢◌, refl, false, Option, none, some, List, ◌∷◌, arith,
  value, error, done, out_of_bounds, Returns,
}
use secondfs_module.Block.{Block, word}
use secondfs_module.BufferIo.{Buf, BufferIo}
use secondfs_module.FileSystem.SuperBlock.{SuperBlock}
use secondfs_module.FileSystem.Blocks.{alloc, clr_buf}
use secondfs_module.FileSystem.FreeList.{FreeList, in_stack, in_block, FreeList-cons}

module _ (io : BufferIo) where
  open io use {Pool, bread, get_blk, brelse, bwrite}

  pub alloc-eq-entry :
      (sb : SuperBlock) (p : Pool) (m b : ℕ)
      → sb.s_flock ≡ false
      → sb.s_nfree ≡ suc m
      → 0 < m
      → m < 100
      → sb.s_free m ≡ b
      → b ≢ 0
      → alloc io sb p
        ≡ done (
          some (clr_buf (get_blk b p).0),
          record sb { s_nfree = m; s_flock = false; s_fmod = 1 },
          (get_blk b p).1,
        )
  unfolding alloc
  alloc-eq-entry sb p m b lock count pos small top ne = ground arith

  alloc-eq-none :
      (sb : SuperBlock) (p : Pool)
      → sb.s_flock ≡ false
      → sb.s_nfree ≡ 1
      → sb.s_free 0 ≡ 0
      → alloc io sb p ≡ done (none, record sb { s_nfree = 1; s_flock = false }, p)
  unfolding alloc
  alloc-eq-none sb p lock count top = ground arith

  pub alloc-eq-group :
      (sb : SuperBlock) (p : Pool) (b : ℕ) (buf : Buf)
      → sb.s_flock ≡ false
      → sb.s_nfree ≡ 1
      → sb.s_free 0 ≡ b
      → b ≢ 0
      → (bread b p).0 ≡ value buf
      → let p' = brelse buf (bread b p).1 in
        alloc io sb p
        ≡ done (
          some (clr_buf (get_blk b p').0),
          record sb {
            s_nfree = word buf.b_addr 0;
            s_free = λ i. word buf.b_addr (i + 1);
            s_flock = false;
            s_fmod = 1;
          },
          (get_blk b p').1,
        )
  unfolding alloc
  alloc-eq-group sb p b buf lock count top ne read = ground arith

  alloc-eq-error :
      (sb : SuperBlock) (p : Pool) (b e : ℕ)
      → sb.s_flock ≡ false
      → sb.s_nfree ≡ 1
      → sb.s_free 0 ≡ b
      → b ≢ 0
      → (bread b p).0 ≡ error e
      → alloc io sb p ≡ done (none, record sb { s_nfree = 0; s_flock = false }, (bread b p).1)
  unfolding alloc
  alloc-eq-error sb p b e lock count top ne read = ground arith

  -- What Alloc leaves when `b` is handed out: the buffer that GetBlk yields for `b`, zeroed, and a
  -- super block that stands for the free blocks `bs`. The buffer of the group, if one was read, has
  -- been given back before.
  abbrev pub HandsOut :
      (ℕ → Block) → SuperBlock → Pool → ℕ → List ℕ → Option Buf × SuperBlock × Pool → Type 0
  HandsOut disk sb p b bs (r, sb', p') =
      ((q : Pool) × (((1 < sb.s_nfree) × (q ≡ p))
          ⊎ ((sb.s_nfree ≡ 1)
              × (q ≡ brelse (record { b_blkno = b; b_addr = disk b }) (bread b p).1)))
        × (r ≡ some (clr_buf (get_blk b q).0))
        × (p' ≡ (get_blk b q).1))
      × FreeList disk sb'.s_nfree sb'.s_free bs
      × (sb'.s_flock ≡ false)
      × (sb'.s_fmod ≡ 1)

  -- Where the stack and the groups in the blocks `disk` stand for the free blocks `b`, `bs`, and the
  -- lock is free: Alloc hands out `b` in a zeroed buffer, marks the super block modified and leaves
  -- it standing for `bs` in the same order; the lock is given back. Where the stack runs empty, the
  -- read of block `b` must yield its content; the buffer that was read is given back before the one
  -- for `b` is asked for.
  pub alloc-cons :
      (disk : ℕ → Block) (sb : SuperBlock) (p : Pool) (b : ℕ) (bs : List ℕ)
      → FreeList disk sb.s_nfree sb.s_free (b ∷ bs)
      → sb.s_flock ≡ false
      → (sb.s_nfree ≡ 1 → (bread b p).0 ≡ value (record { b_blkno = b; b_addr = disk b }))
      → Returns (HandsOut disk sb p b bs) (alloc io sb p)
  alloc-cons disk sb p b bs l lock read =
      let (ne, first) = FreeList-cons l in
      elim first [
        | in_stack m count pos small top rest ↦
            rw (alloc-eq-entry sb p m b lock count pos small top ne)
              ((p, inl (omega (arith, count, pos), refl), refl, refl), rest, refl, refl)
        | in_block count top rest ↦
            let buf : Buf = record { b_blkno = b; b_addr = disk b } in
            rw (alloc-eq-group sb p b buf lock count top ne (read count))
              ((brelse buf (bread b p).1, inr (count, refl), refl, refl), rest, refl, refl)
      ]

-- When the block that holds the next group cannot be read, Alloc returns NULL and leaves an empty
-- stack: the free blocks are lost to the super block, and the next Alloc reads `s_free` outside its
-- bounds.
pub alloc_twice-error :
    (io : BufferIo) (sb : SuperBlock) (p : io.Pool) (b e : ℕ)
    → sb.s_flock ≡ false
    → sb.s_nfree ≡ 1
    → sb.s_free 0 ≡ b
    → b ≢ 0
    → (io.bread b p).0 ≡ error e
    → Returns
        (λ (r, sb', p').
          (r ≡ none) × (sb'.s_nfree ≡ 0) × ((q : io.Pool) → alloc io sb' q ≡ out_of_bounds))
        (alloc io sb p)
unfolding alloc
alloc_twice-error io sb p b e lock count top ne fails =
    rw (alloc-eq-error io sb p b e lock count top ne fails) (refl, refl, λ q. ground arith)
