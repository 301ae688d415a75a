-- ===== src/FileSystem/Space/Free.antt =====
-- FileSystem::Free of UNIXV6PP/FileSystem.cc puts a block in front of the list of free blocks.
use secondfs_module.Prelude.{
  some, inr, ◌⊎◌, has, inl, ℕ, suc, ◌+◌, ◌<◌, ◌^◌, ◌≡◌, ◌≢◌, refl, false, List, ◌∷◌, arith, done,
  Returns, dec_lt, update, update_same, update_other, ◌∙◌,
}
use secondfs_module.Block.{
  Block, word, put_word, word-put_word_same, word-put_words, word-put_words_outside,
}
use secondfs_module.BufferIo.{Buf, BufferIo}
use secondfs_module.FileSystem.SuperBlock.{SuperBlock}
use secondfs_module.FileSystem.Blocks.{alloc, free, pack_group, clr_buf}
use secondfs_module.FileSystem.Space.Alloc.{alloc-eq-entry}
use secondfs_module.FileSystem.FreeList.{
  FreeList, group, entry, FreeList-count, FreeList-stack, FreeList-frame,
}

module _ (io : BufferIo) where
  open io use {Pool, get_blk, bwrite}

  pub free-eq-push :
      (sb : SuperBlock) (p : Pool) (b : ℕ)
      → sb.s_flock ≡ false
      → 0 < sb.s_nfree
      → sb.s_nfree < 100
      → free io sb b p
        ≡ done (
          0,
          record sb {
            s_free = update sb.s_free sb.s_nfree b;
            s_nfree = suc sb.s_nfree;
            s_flock = false;
            s_fmod = 1;
          },
          p,
        )
  unfolding free
  free-eq-push sb p b lock pos small = ground arith

  -- The buffer of block `b` with the full stack in it.
  abbrev pub filled : Pool → SuperBlock → ℕ → Buf
  filled p sb b = record {
    b_blkno = (get_blk b p).0.b_blkno;
    b_addr = pack_group (get_blk b p).0.b_addr 100 sb.s_free;
  }

  pub free-eq-full :
      (sb : SuperBlock) (p : Pool) (b : ℕ)
      → sb.s_flock ≡ false
      → sb.s_nfree ≡ 100
      → let w = bwrite (filled p sb b) (get_blk b p).1 in
        free io sb b p
        ≡ done (
          w.0,
          record sb { s_free = update sb.s_free 0 b; s_nfree = 1; s_flock = false; s_fmod = 1 },
          w.1,
        )
  unfolding free
  free-eq-full sb p b lock full = ground arith

word-pack_group_count : (b : Block) (stack : ℕ → ℕ) → word (pack_group b 100 stack) 0 ≡ 100
unfolding pack_group
word-pack_group_count b stack =
    word-put_words_outside (put_word b 0 100) 1 100 stack 0 (inl (omega arith))
    ∙ word-put_word_same b 0 100 (omega arith)

word-pack_group_entry :
    (b : Block) (stack : ℕ → ℕ) (i : ℕ)
    → i < 100
    → stack i < 2 ^ 32
    → word (pack_group b 100 stack) (i + 1) ≡ stack i
unfolding pack_group
word-pack_group_entry b stack i h small =
    let e : i + 1 ≡ 1 + i = omega arith in
    rw e (word-put_words (put_word b 0 100) 1 100 stack i h small)

-- A full stack that is written into block `b` is found there again.
FreeList-group :
    {disk : ℕ → Block} (stack : ℕ → ℕ) (b : ℕ) (old : Block) (bs : List ℕ)
    → FreeList disk 100 stack bs
    → has b bs ≡ false
    → b ≢ 0
    → ((i : ℕ) → i < 100 → stack i < 2 ^ 32)
    → FreeList (update disk b (pack_group old 100 stack)) 1 (update stack 0 b) (b ∷ bs)
FreeList-group {disk} stack b old bs l out ne small =
    let g = pack_group old 100 stack in
    let same : update disk b g b ≡ g = update_same disk b g in
    group (update_same stack 0 b) ne (
      rw (same, word-pack_group_count old stack)
        (FreeList-stack (FreeList-frame b g l out)
          λ i h. word-pack_group_entry old stack i h (small i h)))

module _ (io : BufferIo) where
  open io use {Pool, get_blk, bwrite}

  -- What Free leaves: with room in the stack, no buffer has been touched and the super block stands
  -- for `b`, `bs`; with a full stack, one buffer has been written, the one that GetBlk yields for
  -- `b`, and the super block stands for `b`, `bs` once its bytes are the content of block `b`.
  abbrev pub TakesBack :
      (ℕ → Block) → SuperBlock → Pool → ℕ → List ℕ → ℕ × SuperBlock × Pool → Type 0
  TakesBack disk sb p b bs (ret, sb', p') =
      (((sb.s_nfree < 100) × (ret ≡ 0) × (p' ≡ p) × FreeList disk sb'.s_nfree sb'.s_free (b ∷ bs))
        ⊎ ((g : Block) × (sb.s_nfree ≡ 100)
            × (ret ≡ (bwrite (record (get_blk b p).0 { b_addr = g }) (get_blk b p).1).0)
            × (p' ≡ (bwrite (record (get_blk b p).0 { b_addr = g }) (get_blk b p).1).1)
            × FreeList (update disk b g) sb'.s_nfree sb'.s_free (b ∷ bs)))
      × (sb'.s_flock ≡ false)
      × (sb'.s_fmod ≡ 1)

  -- Where the stack and the groups in the blocks `disk` stand for the free blocks `bs`, and the lock
  -- is free: Free of a block `b` outside the list makes `b` the first free block, the others in their
  -- order. With room in the stack no block is written; a full stack is written into block `b`, whose
  -- new bytes the list then refers to, and the result is that of the write. The entries of the stack
  -- must be 32-bit words.
  pub free-cons :
      (disk : ℕ → Block) (sb : SuperBlock) (p : Pool) (b : ℕ) (bs : List ℕ)
      → FreeList disk sb.s_nfree sb.s_free bs
      → sb.s_flock ≡ false
      → b ≢ 0
      → has b bs ≡ false
      → ((i : ℕ) → i < 100 → sb.s_free i < 2 ^ 32)
      → Returns (TakesBack disk sb p b bs) (free io sb b p)
  free-cons disk sb p b bs l lock ne out small =
      let (pos, bound) = FreeList-count l in
      elim (dec_lt sb.s_nfree 100) [
        | yes room ↦
            let pushed =
              entry pos room (update_same sb.s_free sb.s_nfree b) ne
                (FreeList-stack l λ i lt. update_other sb.s_free sb.s_nfree i b (omega arith)) in
            rw (free-eq-push io sb p b lock pos room) (inl (room, refl, refl, pushed), refl, refl)
        | no full ↦
            let e : sb.s_nfree ≡ 100 = omega arith in
            let old = (get_blk b p).0.b_addr in
            let moved = FreeList-group {disk = disk} sb.s_free b old bs (rw e at l) out ne small in
            rw (free-eq-full io sb p b lock e)
              (inr (pack_group old 100 sb.s_free, e, refl, refl, moved), refl, refl)
      ]

  -- A block that Free has put on the stack is the one that the next Alloc hands out, and the super
  -- block has its counts and its stack again. There must be room in the stack, and the lock be free.
  pub alloc-free :
      (sb : SuperBlock) (p : Pool) (b : ℕ)
      → sb.s_flock ≡ false
      → 0 < sb.s_nfree
      → sb.s_nfree < 100
      → b ≢ 0
      → Returns
          (λ (ret, sb', p').
            alloc io sb' p'
            ≡ done (
              some (clr_buf (get_blk b p).0),
              record sb {
                s_free = update sb.s_free sb.s_nfree b;
                s_nfree = sb.s_nfree;
                s_flock = false;
                s_fmod = 1;
              },
              (get_blk b p).1,
            ))
          (free io sb b p)
  alloc-free sb p b lock pos small ne = rw (free-eq-push io sb p b lock pos small) (
      alloc-eq-entry io
        (record sb {
          s_free = update sb.s_free sb.s_nfree b;
          s_nfree = suc sb.s_nfree;
          s_flock = false;
          s_fmod = 1;
        })
        p sb.s_nfree b refl refl pos small (update_same sb.s_free sb.s_nfree b) ne)
