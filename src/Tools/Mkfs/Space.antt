-- ===== src/Tools/Mkfs/Space.antt =====
-- The free blocks that mkfs.c leaves: its groups on the device, with the last one for the super block.
use secondfs_module.Prelude.{
  ℕ, zero, suc, ◌+◌, ◌-◌, ◌*◌, ◌≤◌, ◌<◌, ◌^◌, ◌≡◌, ◌∙◌, refl, sym, subst, true, false, Bool, inr,
  Result, value, error, Run, done, ◌>>=◌, Returns, Returns-bind, arith, ℕ_discrete, has,
  if◌then◌else◌, s32_neg, ◌==◌,
}
use secondfs_module.Block.{Block, word, put_words, zero_block}
use secondfs_module.FileSystem.FreeList.{FreeList-agree, FreeList-stack, FreeList-count}
use secondfs_module.Tools.Device.{Device, IsReliable, overlay, block_at}
use secondfs_module.Tools.Transfer.{FastStack, stack_word, write_stack_in_block}
use secondfs_module.Tools.Transfer.Laws.{Written, write_block-Written}
use secondfs_module.Tools.Volume.Image.{block_at-outside, word-written}
use secondfs_module.Tools.Mkfs.{groups, group_size, make_group}
use secondfs_module.Tools.Mkfs.Groups.{
  Filled, Stored, blocks_from, has-blocks_from, make_group-first, make_group-next, group_size-le,
  group_size-some,
}

module _ (dev : Device) where
  open dev use {State, bytes, size}

  abbrev pub disk : State → ℕ → Block
  disk s = block_at (bytes s)

  module _ (bytes : ℕ → ℕ) (last b m : ℕ) (st : FastStack)
      (f : Filled (block_at bytes) last (b + 1) m st) where
    -- The device after the stack has been written to block `b`.
    stored : ℕ → ℕ
    stored = overlay bytes (b * 512) 404 (put_words zero_block 0 101 (stack_word st))

    word-stored :
        (i : ℕ) → i < 101 → stack_word st i < 2 ^ 32 → word (block_at stored b) i ≡ stack_word st i
    unfolding stored
    word-stored i h bound =
        let e : b + 0 ≡ b = omega arith in
        let e' : 128 * 0 + i ≡ i = omega arith in
        let w =
          word-written bytes b 101 (stack_word st) 0 i (omega arith) (omega arith) (rw e' bound) in
        rw (e, e') at w

    stack_word-entry : (i : ℕ) → stack_word st (i + 1) ≡ st.stack i
    unfolding stack_word
    stack_word-entry i = let e : i + 1 - 1 ≡ i = omega arith in rw e (ground arith)

    stored-Stored : Stored (block_at stored) last b
    unfolding stored stack_word
    stored-Stored =
        let (pos, max) = FreeList-count f.leads in
        let count : word (block_at stored b) 0 ≡ m =
          word-stored 0 (omega arith) (omega (arith, f.counted)) ∙ f.counted in
        let same : (c : ℕ)
            → has c (blocks_from last (b + 1)) ≡ true
            → block_at stored c ≡ block_at bytes c =
          λ c h.
            let (le, lt) = has-blocks_from c last (b + 1) h in
            block_at-outside bytes b 404 (put_words zero_block 0 101 (stack_word st)) c
              (inr (omega arith)) in
        let entry : (i : ℕ) → i < m → word (block_at stored b) (i + 1) ≡ st.stack i = λ i h.
          word-stored (i + 1) (omega arith) (rw (stack_word-entry i) (f.small i h))
          ∙ stack_word-entry i in
        rw count (FreeList-stack (FreeList-agree f.leads same) entry)

  -- The stack for the super block leads to all blocks from 1025 on; nothing has failed.
  abbrev pub Grouped : ℕ → Result (ℕ × FastStack) × State → Type 0
  Grouped last (error e, s) = ⊥
  Grouped last (value (ret, st), s) = (ret ≡ 0) × Filled (disk s) last 1025 st.count st

  -- A round from its stack on, when the rounds behind it do what they should.
  pub distribute : ℕ → ℕ → FastStack → ℕ → State → Run (Result (ℕ × FastStack) × State)
  distribute n left full ret s =
      if left == 0
      then done (value (ret, full), s)
      else write_stack_in_block dev (left + 1024) full s >>= λ (ret', t).
          if s32_neg ret' then done (error ret', t) else groups dev n false left full ret' t

  distribute-eq-last :
      (n : ℕ) (full : FastStack) (s : State) → distribute n 0 full 0 s ≡ done (value (0, full), s)
  unfolding distribute
  distribute-eq-last n full s = refl

  unfoldable pub after_write : ℕ → ℕ → FastStack → ℕ × State → Run (Result (ℕ × FastStack) × State)
  after_write n left full (ret, t) =
      if s32_neg ret then done (error ret, t) else groups dev n false left full ret t

  pub distribute-eq-more :
      (n left : ℕ) (full : FastStack) (s : State)
      → 0 < left
      → distribute n left full 0 s
        ≡ (write_stack_in_block dev (left + 1024) full s >>= after_write n left full)
  unfolding distribute after_write
  distribute-eq-more n left full s h = ground arith

  after_write-zero :
      (n left : ℕ) (full : FastStack) (t : State)
      → after_write n left full (0, t) ≡ groups dev n false left full 0 t
  unfolding after_write
  after_write-zero n left full t = refl

  pub groups-eq :
      (n : ℕ) (first_time : Bool) (remain : ℕ) (st : FastStack) (s : State)
      → groups dev (suc n) first_time remain st 0 s ≡ (
          make_group first_time remain st >>= λ full.
          distribute n (remain - group_size first_time remain) full 0 s)
  unfolding groups distribute
  groups-eq n first_time remain st s = refl

  module _ (laws : IsReliable dev) (last : ℕ) (bounded : last ≤ 2 ^ 22)
      (fits : last * 512 ≤ size) where
    distribute-Grouped :
        (n left m : ℕ) (full : FastStack) (s : State)
        → left + 1025 ≤ last
        → Filled (disk s) last (left + 1025) m full
        → ((t : State)
            → 0 < left
            → Stored (disk t) last (left + 1024)
            → Returns (Grouped last) (groups dev n false left full 0 t))
        → Returns (Grouped last) (distribute n left full 0 s)
    unfolding write_stack_in_block stored
    distribute-Grouped n left m full s below f rec = elim (ℕ_discrete left 0) [
      | yes e ↦
          let all : left + 1025 ≡ 1025 = omega arith in
          let g : Filled (disk s) last 1025 full.count full =
            subst (λ k. Filled (disk s) last 1025 k full) (sym f.counted)
              (subst (λ x. Filled (disk s) last x m full) all f) in
          rw (e, distribute-eq-last n full s) (refl, g)
      | no ne ↦
          let next : left + 1025 ≡ left + 1024 + 1 = omega arith in
          let buf = put_words zero_block 0 101 (stack_word full) in
          let g : Filled (disk s) last (left + 1024 + 1) m full =
            subst (λ x. Filled (disk s) last x m full) next f in
          rw (distribute-eq-more n left full s (omega arith)) (
            Returns-bind {P = Written dev laws ((left + 1024) * 512) 404 buf s} (Grouped last)
              (write_stack_in_block dev (left + 1024) full s) (after_write n left full)
              (write_block-Written dev laws (left + 1024) 404 buf s (omega arith) (omega arith)
                (omega arith))
              λ (ret, t) (zero_ret, now).
                rw (zero_ret, after_write-zero n left full t)
                  (rec t (omega arith) (
                    subst (λ x. Stored (block_at x) last (left + 1024)) (sym now)
                      (stored-Stored (bytes s) last (left + 1024) m full g))))
    ]

    groups_next-Grouped :
        (n remain : ℕ) (st : FastStack) (s : State)
        → remain < n
        → 0 < remain
        → remain + 1025 ≤ last
        → Stored (disk s) last (remain + 1024)
        → Returns (Grouped last) (groups dev n false remain st 0 s)
    groups_next-Grouped zero remain st s enough some below at_block = absurd (omega arith)
    groups_next-Grouped (suc n) remain st s enough some below at_block =
        let size = group_size false remain in
        let left = remain - size in
        let (le, max) = group_size-le (disk s) last (omega arith) false remain in
        let moves : 0 < size = group_size-some false remain some in
        rw (groups-eq n false remain st s) (
          Returns-bind {P = Filled (disk s) last (left + 1025) size} (Grouped last)
            (make_group false remain st) (λ full. distribute n left full 0 s)
            (make_group-next (disk s) last (omega arith) remain st some below at_block)
            λ full f. distribute-Grouped n left size full s (omega arith) f λ t more at_left.
              groups_next-Grouped n left full t (omega arith) more (omega arith) at_left)

    -- The loop ends after at most `remain + 1` rounds, indexes no array outside its bounds, and leaves
    -- a stack for the super block that leads to the blocks 1025 to `last - 1`, in this order.
    pub groups-Grouped :
        (remain : ℕ) (st : FastStack) (s : State)
        → remain + 1025 ≡ last
        → Returns (Grouped last) (groups dev (suc remain) true remain st 0 s)
    groups-Grouped remain st s e =
        let size = group_size true remain in
        let left = remain - size in
        let (le, max) = group_size-le (disk s) last (omega arith) true remain in
        rw (groups-eq remain true remain st s) (
          Returns-bind {P = Filled (disk s) last (left + 1025) (suc size)} (Grouped last)
            (make_group true remain st) (λ full. distribute remain left full 0 s)
            (make_group-first (disk s) last (omega arith) remain st e)
            λ full f.
              distribute-Grouped remain left (suc size) full s (omega arith) f λ t more at_left.
                groups_next-Grouped remain left full t
                  (omega (arith, group_size-some true remain (omega arith))) more (omega arith)
                  at_left)
