-- ===== src/FileSystem/Sync/Laws.antt =====
-- What FileSystem::Update and FileSystem::LoadSuperBlock of UNIXV6PP/FileSystem.cc keep.
use secondfs_module.Prelude.{
  sym, value, ℕ, leb, ◌&&◌, if◌then◌else◌, ◌+◌, ◌-◌, ◌*◌, ◌^◌, ◌≤◌, ◌<◌, ◌≡◌, ◌≢◌, refl, false,
  arith, ◌∙◌, ap, subst,
}
use secondfs_module.Block.{Block, word, word-put_words}
use secondfs_module.BufferIo.{Buf, BufferIo}
use secondfs_module.FileSystem.SuperBlock.{SuperBlock}
use secondfs_module.FileSystem.Sync.{
  load_super_block, update_super_block, load_block, validate, super_word, super_image,
}

-- The super block that Update writes.
abbrev pub stamped : ℕ → SuperBlock → SuperBlock
stamped now sb = record sb { s_fmod = 0; s_time = now }

-- All words of the structure that stand in sector 200 are 32-bit words.
abbrev pub FirstWords : SuperBlock → Type 0
FirstWords sb = (i : ℕ) → i < 128 → super_word sb i < 2 ^ 32

module _ (io : BufferIo) (now : ℕ) where
  open io use {Pool, bread, get_blk, brelse, bwrite, bflush}

  -- The buffer of sector 200 that Update writes.
  abbrev pub first_half : SuperBlock → Pool → Buf
  first_half sb p =
      let b = (get_blk 200 p).0 in
      record { b_blkno = b.b_blkno; b_addr = super_image io now 0 (stamped now sb) b.b_addr }

  update-eq :
      (sb : SuperBlock) (p : Pool)
      → sb.s_update_lock ≡ false
      → sb.s_fmod ≢ 0
      → sb.s_ilock ≡ false
      → sb.s_flock ≡ false
      → (bwrite (first_half sb p) (get_blk 200 p).1).0 ≡ 0
      → update_super_block io now sb p
        ≡ (stamped now sb, bflush (bwrite (first_half sb p) (get_blk 200 p).1).1)
  unfolding update_super_block
  update-eq sb p l1 modified l2 l3 written = ground arith

  -- The two reads of LoadSuperBlock yield the bytes `first` and `second`.
  abbrev pub Serves : Block → Block → Pool → Type 0
  Serves first second p =
      ((bread 200 p).0 ≡ value (record { b_blkno = 200; b_addr = first }))
      × ((bread 201 (brelse (record { b_blkno = 200; b_addr = first }) (bread 200 p).1)).0
          ≡ value (record { b_blkno = 201; b_addr = second }))

  -- What LoadSuperBlock makes of the two sectors.
  abbrev pub both_halves : Block → Block → SuperBlock → SuperBlock
  both_halves first second sb = load_block 1 second (load_block 0 first sb)

  pub load-halves :
      (first second : Block) (sb : SuperBlock) (p : Pool)
      → Serves first second p
      → ((load_super_block io now sb p).0 ≡ (validate now (both_halves first second sb)).0)
        × ((load_super_block io now sb p).1 ≡ (validate now (both_halves first second sb)).1)
  unfolding load_super_block
  load-halves first second sb p (one, two) = rw (one, load_super_block) (rw two (refl, refl))

  word-super_image :
      (sb : SuperBlock) (old : Block) (i : ℕ)
      → i < 128
      → super_word sb i < 2 ^ 32
      → word (super_image io now 0 sb old) i ≡ super_word sb i
  unfolding super_image
  word-super_image sb old i h small =
      let e : 0 + i ≡ i = omega arith in
      rw e at (word-put_words old 0 128 (λ k. super_word sb (0 * 128 + k)) i h (rw e small))

-- `sb'` has the allocation state of `sb`, but the entries of `s_inode` from 24 on come from the words
-- of the old sector 201.
pub record Reloaded (sb sb' : SuperBlock) (old : Block) : Type 0 where
  pub sizes : (sb'.s_isize ≡ sb.s_isize) × (sb'.s_fsize ≡ sb.s_fsize)
  pub counts : (sb'.s_nfree ≡ sb.s_nfree) × (sb'.s_ninode ≡ sb.s_ninode)
  pub free_stack : (k : ℕ) → k < 100 → sb'.s_free k ≡ sb.s_free k
  pub low_inodes : (k : ℕ) → k < 24 → sb'.s_inode k ≡ sb.s_inode k
  pub high_inodes : (k : ℕ) → 24 ≤ k → k < 100 → sb'.s_inode k ≡ word old (k - 24)

Reloaded-load_block :
    (sb sb0 : SuperBlock) (first second : Block)
    → ((i : ℕ) → i < 128 → word first i ≡ super_word sb i)
    → Reloaded sb (load_block 1 second (load_block 0 first sb0)) second
unfolding load_block super_word
Reloaded-load_block sb sb0 first second same = record {
  sizes = (ground (arith, same 0), ground (arith, same 1));
  counts = (ground (arith, same 2), ground (arith, same 103));
  free_stack = λ k h. ground (arith, same (k + 3));
  low_inodes = λ k h. ground (arith, same (k + 104));
  high_inodes = λ k l h. let e : k + 104 - 128 ≡ k - 24 = omega arith in ground (arith, e);
}

pub validate-ok :
    (now : ℕ) (sb : SuperBlock)
    → sb.s_nfree ≤ 100
    → sb.s_ninode ≤ 100
    → validate now sb ≡ (0, record sb { s_time = now })
unfolding validate
validate-ok now sb h k = ground arith

validate-result :
    (now : ℕ) (sb : SuperBlock)
    → (validate now sb).0 ≡ (if leb sb.s_nfree 100 && leb sb.s_ninode 100 then 0 else 22)
unfolding validate
validate-result now sb = ground arith

module _ (io : BufferIo) (now : ℕ) where
  open io use {Pool, get_blk, bwrite, bflush}

  -- LoadSuperBlock, where both reads succeed, returns 0 exactly when the two counts in the sectors are
  -- at most 100, and EINVAL otherwise.
  pub load-validates :
      (first second : Block) (sb : SuperBlock) (p : Pool)
      → Serves io now first second p
      → (load_super_block io now sb p).0 ≡ (
          if leb (both_halves io now first second sb).s_nfree 100
            && leb (both_halves io now first second sb).s_ninode 100
          then 0
          else 22)
  load-validates first second sb p serves =
      (load-halves io now first second sb p serves).0
      ∙ validate-result now (both_halves io now first second sb)

  -- Update makes one write, of sector 200, and flushes the cache. LoadSuperBlock, where its reads yield
  -- the bytes of that write for sector 200 and `second` for sector 201, returns 0 and reads back the
  -- sizes, the counts, the stack of free blocks and the entries 0 to 23 of the stack of i-nodes; the
  -- entries from 24 on are those of sector 201, which Update has not written. The super block must be
  -- modified, hold at most 100 of each, its first half consist of 32-bit words, no lock be held, and
  -- the write succeed.
  pub load-update :
      (sb sb0 : SuperBlock) (second : Block) (p q : Pool)
      → sb.s_update_lock ≡ false
      → sb.s_fmod ≢ 0
      → sb.s_ilock ≡ false
      → sb.s_flock ≡ false
      → sb.s_nfree ≤ 100
      → sb.s_ninode ≤ 100
      → FirstWords (stamped now sb)
      → (bwrite (first_half io now sb p) (get_blk 200 p).1).0 ≡ 0
      → Serves io now (first_half io now sb p).b_addr second q
      → (update_super_block io now sb p
          ≡ (stamped now sb, bflush (bwrite (first_half io now sb p) (get_blk 200 p).1).1))
        × ((load_super_block io now sb0 q).0 ≡ 0)
        × Reloaded sb (load_super_block io now sb0 q).1 second
  load-update sb sb0 second p q l1 modified l2 l3 h k small written serves =
      let first = (first_half io now sb p).b_addr in
      let old = (get_blk 200 p).0.b_addr in
      let halves = both_halves io now first second sb0 in
      let r : Reloaded (stamped now sb) halves second =
        Reloaded-load_block (stamped now sb) sb0 first second
          (λ i lt. word-super_image io now (stamped now sb) old i lt (small i lt)) in
      let ok = validate-ok now halves (rw r.counts.0 h) (rw r.counts.1 k) in
      let (ret, after) = load-halves io now first second sb0 q serves in
      let kept : Reloaded sb (record halves { s_time = now }) second = record {
        sizes = r.sizes;
        counts = r.counts;
        free_stack = r.free_stack;
        low_inodes = r.low_inodes;
        high_inodes = r.high_inodes;
      } in
      (
        update-eq io now sb p l1 modified l2 l3 written,
        ret ∙ ap (λ v. v.0) ok,
        subst (λ t. Reloaded sb t second) (sym (after ∙ ap (λ v. v.1) ok)) kept,
      )
