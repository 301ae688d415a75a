-- ===== src/Tools/Mkfs/Formatted.antt =====
-- A disk that mkfs.c has formatted: what stands where.
use secondfs_module.Prelude.{
  ℕ, ◌+◌, ◌-◌, ◌*◌, ◌/◌, ◌%◌, ◌≤◌, ◌<◌, ◌≡◌, ◌==◌, if◌then◌else◌, minus_one,
}
use secondfs_module.Block.{Block, word}
use secondfs_module.FileSystem.FreeList.{FreeList}
use secondfs_module.Tools.Volume.{disk_inode_word}
use secondfs_module.Tools.Mkfs.{Flags, Times, root_inode, root_block}
use secondfs_module.Tools.Mkfs.Groups.{blocks_from}

-- Word `k` of the blocks from `b` on.
unfoldable pub word_from : (ℕ → Block) → ℕ → ℕ → ℕ
word_from d b k = word (d (b + k / 128)) (k % 128)

-- A volume of `n` blocks: the free blocks are those behind the root directory, in this order; the
-- free i-nodes 1 to 100 are on the stack; all other i-nodes but the root are unused.
pub record Formatted (f : Flags) (n : ℕ) (times : Times) (d : ℕ → Block) : Type 0 where
  pub isize : word_from d 200 0 ≡ 822
  pub fsize : word_from d 200 1 ≡ n
  pub free_blocks :
      FreeList d (word_from d 200 2) (λ i. word_from d 200 (i + 3)) (blocks_from n 1025)
  pub ninode : word_from d 200 103 ≡ 100
  pub free_inodes : (i : ℕ) → i < 100 → word_from d 200 (i + 104) ≡ 100 - i
  pub has_dots : word_from d 200 204 ≡ (if f.has_dots_flag == 0 then 0 else minus_one)
  pub ronly : word_from d 200 207 ≡ (if f.read_only_flag == 0 then 0 else 1)
  pub root : (i : ℕ) → i < 16 → word_from d 202 i ≡ disk_inode_word (root_inode f times) i
  pub unused : (i : ℕ) → 16 ≤ i → i < 822 * 128 → word_from d 202 i ≡ 0
  pub directory : (j : ℕ) → j < 512 → d 1024 j ≡ root_block f j
