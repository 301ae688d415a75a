-- ===== src/Inode/Disk/Laws.antt =====
-- What Inode::IUpdate of UNIXV6PP/Inode.cc writes, Inode::ICopy reads back.
use secondfs_module.Prelude.{
  value, if◌then◌else◌, ℕ, ◌+◌, ◌-◌, ◌*◌, ◌/◌, ◌%◌, ◌^◌, ◌≤◌, ◌<◌, ◌≡◌, refl, true, false, arith,
  done, Returns, ltb, ◌==◌, s32_neg, ap, ◌∙◌, ◌⊎◌, ℕ_discrete,
}
use secondfs_module.Block.{Block, word, word-put_words, word-put_words_outside}
use secondfs_module.BufferIo.{Buf, BufferIo}
use secondfs_module.Inode.Node.{Inode, has_flag, set_flag, iupd, iacc}
use secondfs_module.Inode.Bmap.{Fs}
use secondfs_module.Inode.Disk.{
  disk_word, first_word, inode_sector, icopy, inode_image, iupdate, iupdate_written,
}

-- The fields fit their places in a `DiskInode`.
pub record IsStorable (node : Inode) : Type 0 where
  pub ids : (node.i_uid < 65536) × (node.i_gid < 65536)
  pub words : (k : ℕ) → k < 16 → disk_word node k < 2 ^ 32

-- All that a `DiskInode` holds of an i-node.
pub record SameFile (a b : Inode) : Type 0 where
  pub mode : a.i_mode ≡ b.i_mode
  pub nlink : a.i_nlink ≡ b.i_nlink
  pub ids : (a.i_uid ≡ b.i_uid) × (a.i_gid ≡ b.i_gid)
  pub size : a.i_size ≡ b.i_size
  pub addr : (k : ℕ) → k < 10 → a.i_addr k ≡ b.i_addr k
  pub times : (a.i_atime ≡ b.i_atime) × (a.i_mtime ≡ b.i_mtime)

word-inode_image :
    (node : Inode) (old : Block) (k : ℕ)
    → k < 16
    → disk_word node k < 2 ^ 32
    → word (inode_image node old) (first_word node.i_number + k) ≡ disk_word node k
unfolding inode_image
word-inode_image node old k h small =
    word-put_words old (first_word node.i_number) 16 (disk_word node) k h small

image_word :
    (node : Inode) (old : Block) (i k w : ℕ)
    → IsStorable node
    → k < 16
    → i ≡ first_word node.i_number + k
    → disk_word node k ≡ w
    → word (inode_image node old) i ≡ w
image_word node old i k w ok h e d =
    ap (λ n. word (inode_image node old) n) e ∙ word-inode_image node old k h (ok.words k h) ∙ d

disk_word-addr : (node : Inode) (k : ℕ) → k < 10 → disk_word node (k + 4) ≡ node.i_addr k
unfolding disk_word
disk_word-addr node k h =
    let back : k + 4 - 4 ≡ k = omega arith in
    let small : ltb (k + 4) 14 ≡ true = ground arith in
    let n0 : ((k + 4) == 0) ≡ false = ground arith in
    let n1 : ((k + 4) == 1) ≡ false = ground arith in
    let n2 : ((k + 4) == 2) ≡ false = ground arith in
    let n3 : ((k + 4) == 3) ≡ false = ground arith in rw (n0, n1, n2, n3, small, back) refl

-- The two halves of a word.
halves : (w a b : ℕ) → a < 65536 → w ≡ a + 65536 * b → (w % 65536 ≡ a) × (w / 65536 ≡ b)
halves w a b small e = (omega arith, omega arith)

icopy-inode_image :
    (node other : Inode) (old : Block)
    → IsStorable node
    → SameFile (icopy (inode_image node old) node.i_number other) node
unfolding icopy disk_word
icopy-inode_image node other old ok = record {
  mode = image_word node old _ 0 _ ok (omega arith) (omega arith) refl;
  nlink = image_word node old _ 1 _ ok (omega arith) refl refl;
  ids = halves _ _ _ ok.ids.0 (image_word node old _ 2 _ ok (omega arith) refl refl);
  size = image_word node old _ 3 _ ok (omega arith) refl refl;
  addr = λ k h. image_word node old _ (k + 4) _ ok (omega arith) refl (disk_word-addr node k h);
  times = (
    image_word node old _ 14 _ ok (omega arith) refl refl,
    image_word node old _ 15 _ ok (omega arith) refl refl,
  );
}

-- Writing the image changes no word outside the i-node's own 16.
inode_image-other :
    (node : Inode) (old : Block) (i : ℕ)
    → (i < first_word node.i_number) ⊎ (first_word node.i_number + 16 ≤ i)
    → word (inode_image node old) i ≡ word old i
unfolding inode_image
inode_image-other node old i h =
    word-put_words_outside old (first_word node.i_number) 16 (disk_word node) i h

-- The block `new` holds the i-node, and its other words are those of `old`.
pub record Image (node : Inode) (old new : Block) : Type 0 where
  pub reads_back : (other : Inode) → SameFile (icopy new node.i_number other) node
  pub rest :
      (i : ℕ)
      → (i < first_word node.i_number) ⊎ (first_word node.i_number + 16 ≤ i)
      → word new i ≡ word old i

module _ (io : BufferIo) where
  open io use {Pool, bread, bwrite, bflush}

  -- The sector of the i-node in the bytes `b`.
  abbrev pub sector_of : Inode → Block → Buf
  sector_of node b = record { b_blkno = inode_sector node.i_number; b_addr = b }

  -- A flush follows a write that has succeeded.
  abbrev pub flushed : ℕ × Pool → Pool
  flushed (ret, p) = if ret == 0 then bflush p else p

  -- The write of the bytes `new` for the sector of the i-node, behind the read of it.
  abbrev pub stored : Fs io → Block → ℕ × Pool
  stored s new = bwrite (sector_of s.node new) (bread (inode_sector s.node.i_number) s.pool).1

  -- One write has been made, of the sector with the i-node in it; its result is returned, and the
  -- i-node in memory and the super block stay.
  abbrev pub Synced : Fs io → Block → ℕ × Fs io → Type 0
  Synced s old (ret, t) =
      (new : Block) × Image s.node old new
      × (ret ≡ (stored s new).0)
      × (t ≡ record s { pool = flushed (stored s new) })

  iupdate_written-eq :
      (s : Fs io) (w : ℕ × Pool)
      → ((iupdate_written io s w).0 ≡ w.0)
        × ((iupdate_written io s w).1 ≡ record s { pool = flushed w })
  unfolding iupdate_written
  iupdate_written-eq s (ret, p) = elim (ℕ_discrete ret 0) [
    | yes e ↦ rw e (refl, refl)
    | no n ↦ let test : (ret == 0) ≡ false = ground arith in rw test (refl, refl)
  ]

  iupdate-eq :
      (s : Fs io) (old : Block)
      → has_flag s.node.i_flag (set_flag iupd iacc) ≡ true
      → s.super.s_ronly ≡ 0
      → s32_neg s.node.i_number ≡ false
      → (bread (inode_sector s.node.i_number) s.pool).0 ≡ value (sector_of s.node old)
      → iupdate io s ≡ done (iupdate_written io s (stored s (inode_image s.node old)))
  unfolding iupdate
  iupdate-eq s old dirty ronly number read = rw (dirty, ronly, number, read) refl

  -- IUpdate of an i-node whose flags ask for it, on a file system that is not read-only, where the
  -- read of its sector yields `old`: it makes one write, of that sector, with bytes from which ICopy
  -- reads back every field that a DiskInode holds and whose words outside the i-node are those of
  -- `old`; it returns the result of the write, flushes the cache if that is 0, and leaves the i-node
  -- in memory and the super block. The fields must fit their places, and the number of the i-node not
  -- be negative.
  pub iupdate-Synced :
      (s : Fs io) (old : Block)
      → IsStorable s.node
      → has_flag s.node.i_flag (set_flag iupd iacc) ≡ true
      → s.super.s_ronly ≡ 0
      → s32_neg s.node.i_number ≡ false
      → (bread (inode_sector s.node.i_number) s.pool).0 ≡ value (sector_of s.node old)
      → Returns (Synced s old) (iupdate io s)
  iupdate-Synced s old ok dirty ronly number read =
      let (ret, after) = iupdate_written-eq s (stored s (inode_image s.node old)) in
      rw (iupdate-eq s old dirty ronly number read) (
        inode_image s.node old,
        record {
          reads_back = λ other. icopy-inode_image s.node other old ok;
          rest = λ i h. inode_image-other s.node old i h;
        },
        ret,
        after,
      )
