-- ===== src/Tools/Mkfs/Volume.antt =====
-- What mkfs.c writes from the super block on.
use secondfs_module.Prelude.{
  ℕ, zero, suc, ◌+◌, ◌-◌, ◌*◌, ◌/◌, ◌%◌, ◌≤◌, ◌<◌, ◌^◌, ◌≡◌, ◌∙◌, fun_ext, refl, sym, inl, inr, Run,
  done, Returns, Returns-bind, arith, ◌==◌, if◌then◌else◌, s32_neg, minus_one,
}
use secondfs_module.Block.{word, put_words, zero_block}
use secondfs_module.FileSystem.FreeList.{FreeList-agree, FreeList-stack, FreeList-count}
use secondfs_module.Tools.Device.{Device, IsReliable, overlay, block_at}
use secondfs_module.Tools.Transfer.{FastStack, stack_word, write_block}
use secondfs_module.Tools.Transfer.Laws.{Written, write_block-Written, overlay-overlay}
use secondfs_module.Tools.Volume.{super_block_word, disk_inode_word}
use secondfs_module.Tools.Volume.Image.{block_at-outside, block_at-inside, word-written}
use secondfs_module.Tools.Mkfs.{
  Flags, Times, write_or_stop, write_inode_area, write_volume, root_inode, root_block,
  format_super_block,
}
use secondfs_module.Tools.Mkfs.Groups.{Filled, has-blocks_from}
use secondfs_module.Tools.Mkfs.Formatted.{word_from, Formatted}

-- The bytes of the device after the four steps behind the free blocks.
module _ (old : ℕ → ℕ) (w v : ℕ → ℕ) (r : ℕ → ℕ) where
  with_super : ℕ → ℕ
  with_super = overlay old (200 * 512) 1024 (put_words zero_block 0 256 w)

  with_area : ℕ → ℕ
  with_area = overlay with_super (202 * 512) (822 * 512) zero_block

  with_root : ℕ → ℕ
  with_root = overlay with_area (202 * 512) 64 (put_words zero_block 0 16 v)

  with_directory : ℕ → ℕ
  with_directory = overlay with_root (1024 * 512) 512 r

  after_directory : (b : ℕ) → 1024 < b → block_at with_directory b ≡ block_at old b
  unfolding with_directory with_root with_area with_super
  after_directory b h =
      block_at-outside with_root 1024 512 r b (inr (omega arith))
      ∙ block_at-outside with_area 202 64 (put_words zero_block 0 16 v) b (inr (omega arith))
      ∙ block_at-outside with_super 202 (822 * 512) zero_block b (inr (omega arith))
      ∙ block_at-outside old 200 1024 (put_words zero_block 0 256 w) b (inr (omega arith))

  before_area : (b : ℕ) → b < 202 → block_at with_directory b ≡ block_at with_super b
  unfolding with_directory with_root with_area
  before_area b h =
      block_at-outside with_root 1024 512 r b (inl (omega arith))
      ∙ block_at-outside with_area 202 64 (put_words zero_block 0 16 v) b (inl (omega arith))
      ∙ block_at-outside with_super 202 (822 * 512) zero_block b (inl (omega arith))

  super_words : (k : ℕ) → k < 256 → w k < 2 ^ 32 → word_from (block_at with_directory) 200 k ≡ w k
  unfolding word_from with_super
  super_words k h bound =
      let e : 128 * (k / 128) + k % 128 ≡ k = omega arith in
      let at_word =
        word-written old 200 256 w (k / 128) (k % 128) (omega arith) (omega arith) (rw e bound) in
      rw (before_area (200 + k / 128) (omega arith)) (rw e at at_word)

  before_directory : (b : ℕ) → b < 1024 → block_at with_directory b ≡ block_at with_root b
  unfolding with_directory
  before_directory b h = block_at-outside with_root 1024 512 r b (inl (omega arith))

  root_words : (k : ℕ) → k < 16 → v k < 2 ^ 32 → word_from (block_at with_directory) 202 k ≡ v k
  unfolding word_from with_root
  root_words k h bound =
      let e : 128 * (k / 128) + k % 128 ≡ k = omega arith in
      let at_word =
        word-written with_area 202 16 v (k / 128) (k % 128) (omega arith) (omega arith)
          (rw e bound) in
      rw (before_directory (202 + k / 128) (omega arith)) (rw e at at_word)

  area_bytes : (i j : ℕ) → i < 822 → j < 512 → 64 ≤ 512 * i + j → block_at with_root (202 + i) j ≡ 0
  unfolding with_root with_area overlay block_at zero_block
  area_bytes i j h l out = ground arith

  area_words : (k : ℕ) → 16 ≤ k → k < 822 * 128 → word_from (block_at with_directory) 202 k ≡ 0
  unfolding word_from word
  area_words k from h =
      let i = k / 128 in
      let j = 4 * (k % 128) in
      rw
        (
          before_directory (202 + k / 128) (omega arith),
          area_bytes i (j + 0) (omega arith) (omega arith) (omega arith),
          area_bytes i (j + 1) (omega arith) (omega arith) (omega arith),
          area_bytes i (j + 2) (omega arith) (omega arith) (omega arith),
          area_bytes i (j + 3) (omega arith) (omega arith) (omega arith),
        )
        (omega arith)

  directory_bytes : (j : ℕ) → j < 512 → block_at with_directory 1024 j ≡ r j
  unfolding with_directory
  directory_bytes j h =
      let e : 0 + j ≡ j = omega arith in
      let at_byte = block_at-inside with_root 1024 512 r 0 j (omega arith) (omega arith) in
      rw e at at_byte

module _ (old : ℕ → ℕ) (f : Flags) (n : ℕ) (free : FastStack) (times : Times) where
  volume_words : ℕ → ℕ
  volume_words = super_block_word (format_super_block f n free times)

  root_inode_words : ℕ → ℕ
  root_inode_words = disk_inode_word (root_inode f times)

  formatted : ℕ → ℕ
  formatted = with_directory old volume_words root_inode_words (root_block f)

  free_count : volume_words 2 ≡ free.count
  unfolding volume_words super_block_word format_super_block stack_word
  free_count = refl

  fixed_fields :
      (volume_words 0 ≡ 822)
      × (volume_words 1 ≡ n)
      × (volume_words 103 ≡ 100)
      × (volume_words 204 ≡ (if f.has_dots_flag == 0 then 0 else minus_one))
      × (volume_words 207 ≡ (if f.read_only_flag == 0 then 0 else 1))
  unfolding volume_words super_block_word format_super_block stack_word
  fixed_fields = (refl, refl, refl, refl, refl)

  free_entry : (i : ℕ) → i < 100 → volume_words (i + 3) ≡ free.stack i
  unfolding volume_words super_block_word format_super_block stack_word
  free_entry i h = let e : i + 3 - 2 - 1 ≡ i = omega arith in ground arith

  inode_entry : (i : ℕ) → i < 100 → volume_words (i + 104) ≡ 100 - i
  unfolding volume_words super_block_word format_super_block stack_word
  inode_entry i h = let e : i + 104 - 103 - 1 ≡ i = omega arith in ground arith

  root_small : (i : ℕ) → i < 16 → root_inode_words i < 2 ^ 32
  unfolding root_inode_words disk_inode_word root_inode
  root_small i h = ground arith

  formatted-Formatted :
      n ≤ 2 ^ 22
      → Filled (block_at old) n 1025 free.count free
      → Formatted f n times (block_at formatted)
  unfolding formatted root_inode_words
  formatted-Formatted bound fill =
      let (pos, max) = FreeList-count fill.leads in
      let (isize, fsize, ninode, dots, ronly) = fixed_fields in
      let fixed : (k : ℕ)
          → k < 256
          → volume_words k < 2 ^ 32
          → word_from (block_at formatted) 200 k ≡ volume_words k =
        super_words old volume_words root_inode_words (root_block f) in
      let count : word_from (block_at formatted) 200 2 ≡ free.count =
        fixed 2 (omega arith) (omega (arith, free_count)) ∙ free_count in
      let entries : (i : ℕ)
          → i < free.count
          → word_from (block_at formatted) 200 (i + 3) ≡ free.stack i =
        λ i h.
          fixed (i + 3) (omega arith) (rw (free_entry i (omega arith)) (fill.small i h))
          ∙ free_entry i (omega arith) in
      record {
        isize = fixed 0 (omega arith) (omega (arith, isize)) ∙ isize;
        fsize = fixed 1 (omega arith) (omega (arith, fsize)) ∙ fsize;
        free_blocks = rw count (
            FreeList-stack
              (FreeList-agree fill.leads λ b h.
                let (le, lt) = has-blocks_from b n 1025 h in
                after_directory old volume_words root_inode_words (root_block f) b (omega arith))
              entries);
        ninode = fixed 103 (omega arith) (omega (arith, ninode)) ∙ ninode;
        free_inodes =
            λ i h. fixed (i + 104) (omega arith) (omega (arith, inode_entry i h)) ∙ inode_entry i h;
        has_dots = fixed 204 (omega arith) (rw dots (ground arith)) ∙ dots;
        ronly = fixed 207 (omega arith) (rw ronly (ground arith)) ∙ ronly;
        root =
            λ i h. root_words old volume_words root_inode_words (root_block f) i h (root_small i h);
        unused = area_words old volume_words root_inode_words (root_block f);
        directory = directory_bytes old volume_words root_inode_words (root_block f);
      }

module _ (dev : Device) (laws : IsReliable dev) where
  open dev use {State, bytes, size}

  write_or_stop-eq :
      (b : ℕ) (buf : ℕ → ℕ) (len ret : ℕ) (next : State → Run (ℕ × State)) (s : State)
      (Q : ℕ × State → Type 0)
      → b < 2 ^ 22
      → 0 < len
      → b * 512 + len ≤ size
      → ((t : State) → bytes t ≡ overlay (bytes s) (b * 512) len buf → Returns Q (next t))
      → Returns Q (write_or_stop dev b buf len ret next s)
  unfolding write_or_stop
  write_or_stop-eq b buf len ret next s Q small some fits go =
      Returns-bind {P = Written dev laws (b * 512) len buf s} Q (write_block dev b buf len s)
        (λ (r, t). if s32_neg r then done (ret, t) else next t)
        (write_block-Written dev laws b len buf s small some fits)
        λ (r, t) (zero_ret, now). rw zero_ret (go t now)

  zeros-zeros :
      (old : ℕ → ℕ) (b n : ℕ)
      → overlay (overlay old (b * 512) 512 zero_block) ((b + 1) * 512) (n * 512) zero_block
        ≡ overlay old (b * 512) (suc n * 512) zero_block
  unfolding zero_block
  zeros-zeros old b n =
      let e : (b + 1) * 512 ≡ b * 512 + 512 = omega arith in
      let e' : n * 512 ≡ suc n * 512 - 512 = omega arith in
      rw (e, e') (overlay-overlay old (b * 512) 512 (suc n * 512) zero_block (omega arith))

  overlay-none : (old : ℕ → ℕ) (o : ℕ) (p : ℕ → ℕ) → overlay old o (0 * 512) p ≡ old
  unfolding overlay
  overlay-none old o p = fun_ext λ a. ground arith

  write_inode_area-zeros :
      (n b ret : ℕ) (next : State → Run (ℕ × State)) (s : State) (Q : ℕ × State → Type 0)
      → b + n < 2 ^ 22
      → (b + n) * 512 ≤ size
      → ((t : State)
          → bytes t ≡ overlay (bytes s) (b * 512) (n * 512) zero_block
          → Returns Q (next t))
      → Returns Q (write_inode_area dev n b ret next s)
  unfolding write_inode_area
  write_inode_area-zeros zero b ret next s Q small fits go =
      go s (sym (overlay-none (bytes s) (b * 512) zero_block))
  write_inode_area-zeros (suc n) b ret next s Q small fits go =
      write_or_stop-eq b zero_block 512 ret (λ t. write_inode_area dev n (b + 1) ret next t) s Q
        (omega arith) (omega arith) (omega arith)
        λ t now.
          write_inode_area-zeros n (b + 1) ret next t Q (omega arith) (omega arith)
            λ u then_zero. go u (then_zero ∙ (rw now (zeros-zeros (bytes s) b n)))

module _ (dev : Device) (laws : IsReliable dev) where
  open dev use {State, bytes, size}

  abbrev pub Formats : Flags → ℕ → Times → ℕ → ℕ × State → Type 0
  Formats f n times ret (r, s) = (r ≡ ret) × Formatted f n times (block_at (bytes s))

  -- From the stack for the super block on, mkfs.c returns what it is given and leaves a formatted
  -- volume.
  pub write_volume-Formats :
      (f : Flags) (n : ℕ) (free : FastStack) (times : Times) (ret : ℕ) (s : State)
      → 1025 ≤ n
      → n ≤ 2 ^ 22
      → n * 512 ≤ size
      → Filled (block_at (bytes s)) n 1025 free.count free
      → Returns (Formats f n times ret) (write_volume dev f n free times ret s)
  unfolding write_volume formatted with_directory with_root with_area with_super volume_words
      root_inode_words
  write_volume-Formats f n free times ret s some bound fits fill =
      let goal = Formats f n times ret in
      write_or_stop-eq dev laws 200
        (put_words zero_block 0 256 (volume_words (bytes s) f n free times)) 1024 ret _ s goal
        (omega arith) (omega arith) (omega arith)
        λ t t_now.
          write_inode_area-zeros dev laws 822 202 ret _ t goal (omega arith) (omega arith)
            λ u u_now.
              write_or_stop-eq dev laws 202
                (put_words zero_block 0 16 (root_inode_words (bytes s) f n free times)) 64 ret _ u
                goal (omega arith) (omega arith) (omega arith)
                λ v v_now.
                  write_or_stop-eq dev laws 1024 (root_block f) 512 ret _ v goal (omega arith)
                    (omega arith) (omega arith)
                    λ w w_now.
                      let all : bytes w ≡ formatted (bytes s) f n free times =
                        rw (w_now, v_now, u_now, t_now) refl in
                      (refl, rw all (formatted-Formatted (bytes s) f n free times bound fill))
