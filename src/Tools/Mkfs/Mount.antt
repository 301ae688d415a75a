-- ===== src/Tools/Mkfs/Mount.antt =====
-- A volume that mkfs.c has formatted, in the hands of the kernel: FileSystem::LoadSuperBlock of UNIXV6PP/FileSystem.cc.
use secondfs_module.Prelude.{
  subst, sym, ℕ, ◌+◌, ◌-◌, ◌/◌, ◌%◌, ◌<◌, ◌≡◌, ◌∙◌, ap, refl, arith, dec_lt,
}
use secondfs_module.Block.{Block}
use secondfs_module.BufferIo.{BufferIo}
use secondfs_module.FileSystem.SuperBlock.{SuperBlock}
use secondfs_module.FileSystem.FreeList.{FreeList, FreeList-stack, FreeList-count}
use secondfs_module.FileSystem.Sync.{load_super_block, load_block}
use secondfs_module.FileSystem.Sync.Laws.{Serves, validate-ok, load-halves}
use secondfs_module.Tools.Mkfs.{Flags, Times}
use secondfs_module.Tools.Mkfs.Groups.{blocks_from}
use secondfs_module.Tools.Mkfs.Formatted.{Formatted, word_from}

-- The super block in memory stands for the volume: its sizes, its free blocks, its free i-nodes.
pub record Mounted (n : ℕ) (d : ℕ → Block) (sb : SuperBlock) : Type 0 where
  pub sizes : (sb.s_isize ≡ 822) × (sb.s_fsize ≡ n)
  pub free_blocks : FreeList d sb.s_nfree sb.s_free (blocks_from n 1025)
  pub ninode : sb.s_ninode ≡ 100
  pub free_inodes : (i : ℕ) → i < 100 → sb.s_inode i ≡ 100 - i

module _ (d : ℕ → Block) (sb : SuperBlock) where
  halves : SuperBlock
  halves = load_block 1 (d 201) (load_block 0 (d 200) sb)

  halves-free : (k : ℕ) → k < 100 → halves.s_free k ≡ word_from d 200 (k + 3)
  unfolding halves load_block word_from
  halves-free k h =
      let e : (k + 3) / 128 ≡ 0 = omega arith in
      let e' : (k + 3) % 128 ≡ k + 3 = omega arith in
      let e'' : 200 + (k + 3) / 128 ≡ 200 = omega arith in rw (e'', e') (ground arith)

  halves-inode : (k : ℕ) → k < 100 → halves.s_inode k ≡ word_from d 200 (k + 104)
  unfolding halves load_block word_from
  halves-inode k h = elim (dec_lt (k + 104) 128) [
    | yes low ↦
        let e' : (k + 104) % 128 ≡ k + 104 = omega arith in
        let e'' : 200 + (k + 104) / 128 ≡ 200 = omega arith in rw (e'', e') (ground arith)
    | no high ↦
        let e' : (k + 104) % 128 ≡ k + 104 - 128 = omega arith in
        let e'' : 200 + (k + 104) / 128 ≡ 201 = omega arith in rw (e'', e') (ground arith)
  ]

  halves-counts :
      (halves.s_isize ≡ word_from d 200 0)
      × (halves.s_fsize ≡ word_from d 200 1)
      × (halves.s_nfree ≡ word_from d 200 2)
      × (halves.s_ninode ≡ word_from d 200 103)
  unfolding halves load_block word_from
  halves-counts = (refl, refl, refl, refl)

halves-Mounted :
    (f : Flags) (n : ℕ) (times : Times) (d : ℕ → Block) (sb : SuperBlock)
    → Formatted f n times d
    → Mounted n d (halves d sb)
halves-Mounted f n times d sb fm =
    let (isize, fsize, nfree, ninode) = halves-counts d sb in
    let (pos, max) = FreeList-count fm.free_blocks in
    record {
      sizes = (isize ∙ fm.isize, fsize ∙ fm.fsize);
      free_blocks =
          rw nfree (FreeList-stack fm.free_blocks λ k h. halves-free d sb k (omega arith));
      ninode = ninode ∙ fm.ninode;
      free_inodes = λ k h. halves-inode d sb k h ∙ fm.free_inodes k h;
    }

restamped :
    (n : ℕ) (d : ℕ → Block) (sb : SuperBlock) (now : ℕ)
    → Mounted n d sb
    → Mounted n d (record sb { s_time = now })
restamped n d sb now m = record {
  sizes = m.sizes;
  free_blocks = m.free_blocks;
  ninode = m.ninode;
  free_inodes = m.free_inodes;
}

module _ (io : BufferIo) (now : ℕ) where
  open io use {Pool}

  -- LoadSuperBlock accepts a volume `d` that mkfs.c has formatted: where the reads of its two sectors
  -- yield their bytes, it returns 0, and the super block in memory has the sizes of the volume, the
  -- blocks from 1025 on as its free blocks, in this order, and the i-nodes 100 down to 1 on its stack.
  pub load-Mounted :
      (f : Flags) (n : ℕ) (times : Times) (d : ℕ → Block) (sb : SuperBlock) (p : Pool)
      → Formatted f n times d
      → Serves io now (d 200) (d 201) p
      → ((load_super_block io now sb p).0 ≡ 0) × Mounted n d (load_super_block io now sb p).1
  unfolding halves
  load-Mounted f n times d sb p fm serves =
      let m = halves-Mounted f n times d sb fm in
      let (pos, max) = FreeList-count m.free_blocks in
      let ok = validate-ok now (halves d sb) max (omega (arith, m.ninode)) in
      let (ret, after) = load-halves io now (d 200) (d 201) sb p serves in
      (
        ret ∙ ap (λ v. v.0) ok,
        subst (λ t. Mounted n d t) (sym (after ∙ ap (λ v. v.1) ok))
            (restamped n d (halves d sb) now m),
      )
