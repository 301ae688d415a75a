-- ===== src/Tools/Fsck/Laws.antt =====
-- fsck.c on a volume that mkfs.c has formatted.
use secondfs_module.Prelude.{
  ℕ, zero, suc, ◌+◌, ◌-◌, ◌*◌, ◌/◌, ◌%◌, ◌≤◌, ◌<◌, ◌^◌, ◌≡◌, ◌∙◌, ap, refl, sym, subst, true, List,
  [], ◌∷◌, ◌++◌, length, arith, Returns, Returns-bind, done, ◌>>=◌, Run, if◌then◌else◌, dec32, ◌==◌,
  leb,
}
use secondfs_module.Block.{word, zero_block}
use secondfs_module.FileSystem.FreeList.{FreeList-stack, FreeList-count}
use secondfs_module.Tools.Device.{Device, IsReliable, overlay, block_at}
use secondfs_module.Tools.Transfer.{read_block}
use secondfs_module.Tools.Transfer.Laws.{Fetched, read_block-Fetched}
use secondfs_module.Tools.Mkfs.{Flags, Times}
use secondfs_module.Tools.Mkfs.Groups.{blocks_from, ascending, has-blocks_from}
use secondfs_module.Tools.Mkfs.Formatted.{Formatted, word_from}
use secondfs_module.Tools.Fsck.{walk, check, check_inodes, inode_entries, Report}
use secondfs_module.Tools.Fsck.Walk.{walk-Lists, LeadsTo, Lists}

-- The buffer of the super block.
fetched : (ℕ → ℕ) → ℕ → ℕ
fetched bytes = overlay zero_block 0 1024 (λ j. bytes (200 * 512 + j))

module _ (bytes : ℕ → ℕ) where
  byte-fetched :
      (i j : ℕ) → i < 2 → j < 512 → fetched bytes (512 * i + j) ≡ block_at bytes (200 + i) j
  unfolding fetched overlay block_at
  byte-fetched i j h k =
      let e : 200 * 512 + (512 * i + j - 0) ≡ 512 * (200 + i) + j = omega arith in
      rw e (ground arith)

  word-fetched : (k : ℕ) → k < 256 → word (fetched bytes) k ≡ word_from (block_at bytes) 200 k
  unfolding word word_from
  word-fetched k h =
      let i = k / 128 in
      let j = k % 128 in
      let at_byte : (m : ℕ)
          → m < 4
          → fetched bytes (4 * k + m) ≡ block_at bytes (200 + i) (4 * j + m) =
        λ m l.
          let e : 512 * i + (4 * j + m) ≡ 4 * k + m = omega arith in
          subst (λ x. fetched bytes x ≡ block_at bytes (200 + i) (4 * j + m)) e
            (byte-fetched i (4 * j + m) (omega arith) (omega arith)) in
      rw
        (
          at_byte 0 (omega arith),
          at_byte 1 (omega arith),
          at_byte 2 (omega arith),
          at_byte 3 (omega arith),
        )
        refl

-- The stack behind the first two words.
word-behind : (p : ℕ → ℕ) (i : ℕ) → word (λ j. p (8 + j)) i ≡ word p (i + 2)
unfolding word
word-behind p i =
    let e : (m : ℕ) → p (8 + (4 * i + m)) ≡ p (4 * (i + 2) + m) = λ m. ap p (omega arith) in
    rw (e 0, e 1, e 2, e 3) refl

length-ascending : (x n : ℕ) → length (ascending x n) ≡ n
unfolding ascending
length-ascending x zero = refl
length-ascending x (suc n) = omega (arith, length-ascending (x + 1) n)

inode_entries-last :
    (fuel : ℕ) (stack : ℕ → ℕ) → inode_entries (suc fuel) 1 stack ≡ done (stack 0 ∷ [])
unfolding inode_entries
inode_entries-last fuel stack = refl

pub inode_entries-more :
    (fuel c : ℕ) (stack : ℕ → ℕ)
    → 0 < c
    → c < 100
    → inode_entries (suc fuel) (suc c) stack
      ≡ (inode_entries fuel c stack >>= λ xs. done (stack c ∷ xs))
unfolding inode_entries
inode_entries-more fuel c stack h k = let e : dec32 (suc c) ≡ c = omega arith in rw e (ground arith)

inode_entries-ascending :
    (c fuel : ℕ) (stack : ℕ → ℕ)
    → c < fuel
    → c < 100
    → ((i : ℕ) → i < 100 → stack i ≡ 100 - i)
    → inode_entries fuel (suc c) stack ≡ done (ascending (100 - c) (suc c))
unfolding ascending
inode_entries-ascending c zero stack h k same = absurd (omega arith)
inode_entries-ascending zero (suc fuel) stack h k same =
    inode_entries-last fuel stack ∙ (rw (same 0 (omega arith)) refl)
inode_entries-ascending (suc c) (suc fuel) stack h k same =
    let e : 100 - suc c + 1 ≡ 100 - c = omega arith in
    rw
      (
        inode_entries-more fuel (suc c) stack (omega arith) k,
        inode_entries-ascending c fuel stack (omega arith) (omega arith) same,
        same (suc c) k,
        e,
      )
      refl

pub check_inodes-eq :
    (ret : ℕ) (p : ℕ → ℕ)
    → word p 103 ≤ 100
    → check_inodes ret p
      ≡ (inode_entries 101 (word p 103) (λ i. word p (i + 104)) >>= λ xs. done (ret, xs))
unfolding check_inodes
check_inodes-eq ret p h = let e : leb (word p 103) 100 ≡ true = ground arith in rw e refl

check_inodes-full :
    (p : ℕ → ℕ)
    → word p 103 ≡ 100
    → ((i : ℕ) → i < 100 → word p (i + 104) ≡ 100 - i)
    → check_inodes 0 p ≡ done (0, ascending 1 100)
check_inodes-full p count same =
    let stack : ℕ → ℕ = λ i. word p (i + 104) in
    let all : inode_entries 101 (word p 103) stack ≡ done (ascending 1 100) =
      subst (λ c. inode_entries 101 c stack ≡ done (ascending 1 100)) (sym count)
        (inode_entries-ascending 99 101 stack (omega arith) (omega arith) same) in
    check_inodes-eq 0 p (omega (arith, count)) ∙ ap (λ r. r >>= λ xs. done (0, xs)) all

module _ (dev : Device) (laws : IsReliable dev) (f : Flags) (n : ℕ) (times : Times)
    (least : 1025 ≤ n) (bound : n ≤ 2 ^ 22) (fits : n * 512 ≤ dev.size) where
  open dev use {State, bytes, size}

  -- The behind of `check`, with the super block in `p`.
  check_rest : ℕ → ℕ → (ℕ → ℕ) → State → Run (Report × List ℕ × State)
  check_rest loops rounds p t =
      walk dev loops rounds (word p 1) (λ j. p (8 + j)) t >>= λ ((ret', blocks), u).
      if ret' == 0
      then (check_inodes ret' p >>= λ (ret'', inodes). done ((ret'', blocks), inodes, u))
      else done ((ret', blocks), [], u)

  abbrev pub Passes : State → Report × List ℕ × State → Type 0
  Passes s ((ret, blocks), inodes, t) =
      (ret ≡ 0)
      × (blocks ≡ blocks_from n 1025 ++ 0 ∷ [])
      × (inodes ≡ ascending 1 100)
      × (bytes t ≡ bytes s)

  module _ (loops rounds : ℕ) (s : State) (fm : Formatted f n times (block_at (bytes s)))
      (enough : n < loops) (reads : 1024 < rounds) where
    leads :
        (t : State)
        → bytes t ≡ bytes s
        → LeadsTo dev t (λ j. fetched (bytes s) (8 + j)) (blocks_from n 1025)
    leads t same =
        let d = block_at (bytes s) in
        let (pos, max) = FreeList-count fm.free_blocks in
        let count = word-behind (fetched (bytes s)) 0 ∙ word-fetched (bytes s) 2 (omega arith) in
        rw (same, count)
          (FreeList-stack fm.free_blocks λ i h.
            word-behind (fetched (bytes s)) (i + 1)
            ∙ ap (λ k. word (fetched (bytes s)) k) (omega arith)
            ∙ word-fetched (bytes s) (i + 3) (omega arith))

    check_rest-Passes :
        (t : State)
        → bytes t ≡ bytes s
        → Returns (Passes s) (check_rest loops rounds (fetched (bytes s)) t)
    unfolding check_rest blocks_from
    check_rest-Passes t same =
        let p = fetched (bytes s) in
        let size_word : word p 1 ≡ n = word-fetched (bytes s) 1 (omega arith) ∙ fm.fsize in
        let inodes =
          check_inodes-full p (word-fetched (bytes s) 103 (omega arith) ∙ fm.ninode)
            (λ i h. word-fetched (bytes s) (i + 104) (omega arith) ∙ fm.free_inodes i h) in
        rw size_word (
          Returns-bind {P = Lists dev (blocks_from n 1025) t} (Passes s)
            (walk dev loops rounds n (λ j. p (8 + j)) t) _
            (walk-Lists dev laws rounds n (omega arith) bound fits loops (λ j. p (8 + j)) t
              (blocks_from n 1025) (omega (arith, length-ascending 1025 (n - 1025))) (leads t same)
              (λ b h. (has-blocks_from b n 1025 h).1))
            λ ((ret, printed), u) (zero_ret, listed, kept).
              rw (zero_ret, inodes) (refl, listed, refl, kept ∙ same))

    -- fsck.c passes a volume of at most 2^22 blocks that mkfs.c has formatted: it ends, with 0, has
    -- printed the free blocks 1025 to `n - 1` with a 0 behind them, and the free i-nodes 1 to 100,
    -- each in the order in which they are handed out, and has changed nothing. No call may fail, and
    -- more loops be allowed than blocks, and more rounds of a read than the bytes of a super block.
    pub check-Passes : Returns (Passes s) (check dev loops rounds s)
    unfolding check fetched check_rest
    check-Passes =
        Returns-bind {P = Fetched dev laws (200 * 512) 1024 zero_block 0 s} (Passes s)
          (read_block dev rounds 200 zero_block 1024 s) _
          (read_block-Fetched dev laws rounds 200 1024 zero_block s (omega arith) (omega arith)
            reads (omega arith))
          λ (ret, p, t) (zero_ret, filled, same). rw (zero_ret, filled) (check_rest-Passes t same)
