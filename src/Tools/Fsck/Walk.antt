-- ===== src/Tools/Fsck/Walk.antt =====
-- The walk of fsck.c through the free blocks.
use secondfs_module.Prelude.{
  ℕ, zero, suc, ◌+◌, ◌-◌, ◌*◌, ◌≤◌, ◌<◌, ◌^◌, ◌≡◌, ◌≢◌, ◌∙◌, ap, refl, true, List, [], ◌∷◌, ◌++◌,
  has, length, arith, Returns, Returns-bind, done, ◌>>=◌, Run, s32_neg, if◌then◌else◌,
}
use secondfs_module.Block.{Block, word, put_word}
use secondfs_module.FileSystem.FreeList.{
  FreeList, bottom, group, entry, FreeList-count, FreeList-stack,
}
use secondfs_module.Tools.Device.{Device, IsReliable, overlay, block_at}
use secondfs_module.Tools.Transfer.{read_stack_from_block}
use secondfs_module.Tools.Transfer.Laws.{Fetched, read_block-Fetched}
use secondfs_module.Tools.Fsck.{walk, entries, Report}

-- The numbers of a stack, with what the list of free blocks goes on with behind its bottom entry.
data Bottom (disk : ℕ → Block) (stack : ℕ → ℕ) (printed bs : List ℕ) : Type 0 where
  at_end : stack 0 ≡ 0 → printed ≡ bs ++ 0 ∷ [] → Bottom disk stack printed bs
  in_block :
      (rest : List ℕ)
      → stack 0 ≢ 0
      → FreeList disk (word (disk (stack 0)) 0) (λ i. word (disk (stack 0)) (i + 1)) rest
      → printed ++ (rest ++ 0 ∷ []) ≡ bs ++ 0 ∷ []
      → has (stack 0) bs ≡ true
      → ((b : ℕ) → has b rest ≡ true → has b bs ≡ true)
      → length rest < length bs
      → Bottom disk stack printed bs

Bottom-cons :
    {disk : ℕ → Block} {stack : ℕ → ℕ} {printed bs : List ℕ} (x : ℕ)
    → Bottom disk stack printed bs
    → Bottom disk stack (x ∷ printed) (x ∷ bs)
Bottom-cons x (at_end e p) = at_end e (ap (λ l. x ∷ l) p)
Bottom-cons x (in_block rest ne l p h up less) =
    in_block rest ne l (ap (λ l. x ∷ l) p) (ground arith) (λ b i. let j = up b i in ground arith)
      (omega arith)

FreeList-Bottom :
    {disk : ℕ → Block} {n : ℕ} {stack : ℕ → ℕ} {bs : List ℕ}
    → FreeList disk n stack bs
    → Bottom disk stack (entries n stack) bs
unfolding entries
FreeList-Bottom (bottom e) = at_end e (ap (λ x. x ∷ []) e)
FreeList-Bottom (group {stack} {b} {bs} e ne l) =
    in_block bs (ground arith) (rw e l) (ap (λ x. x ∷ (bs ++ 0 ∷ [])) e) (ground arith)
      (λ c i. ground arith) (omega arith)
FreeList-Bottom (entry {n} {stack} {b} {bs} pos small e ne l) =
    rw e (Bottom-cons b (FreeList-Bottom l))

-- What is read from a block is the block.
pub byte-fetched :
    (old bytes : ℕ → ℕ) (b n j : ℕ)
    → n ≤ 512
    → j < n
    → overlay old 0 n (λ k. bytes (b * 512 + k)) j ≡ block_at bytes b j
unfolding overlay block_at
byte-fetched old bytes b n j h lt =
    let e : b * 512 + (j - 0) ≡ 512 * b + j = omega arith in rw e (ground arith)

word-fetched :
    (old bytes : ℕ → ℕ) (b i : ℕ)
    → i < 101
    → word (overlay old 0 404 (λ k. bytes (b * 512 + k))) i ≡ word (block_at bytes b) i
unfolding word
word-fetched old bytes b i h =
    rw
      (
        byte-fetched old bytes b 404 (4 * i + 0) (omega arith) (omega arith),
        byte-fetched old bytes b 404 (4 * i + 1) (omega arith) (omega arith),
        byte-fetched old bytes b 404 (4 * i + 2) (omega arith) (omega arith),
        byte-fetched old bytes b 404 (4 * i + 3) (omega arith) (omega arith),
      )
      refl

FreeList-fetched :
    (disk : ℕ → Block) (old bytes : ℕ → ℕ) (b : ℕ) (bs : List ℕ)
    → FreeList disk (word (block_at bytes b) 0) (λ i. word (block_at bytes b) (i + 1)) bs
    → let buf = overlay old 0 404 (λ k. bytes (b * 512 + k)) in
      FreeList disk (word buf 0) (λ i. word buf (i + 1)) bs
FreeList-fetched disk old bytes b bs l =
    let (pos, max) = FreeList-count l in
    rw (word-fetched old bytes b 0 (omega arith))
      (FreeList-stack l λ i h. word-fetched old bytes b (i + 1) (omega arith))

module _ (dev : Device) where
  open dev use {State, bytes}

  -- The walk has ended well and printed the free blocks, with a 0 behind them.
  abbrev pub Lists : List ℕ → State → Report × State → Type 0
  Lists bs s ((ret, printed), t) = (ret ≡ 0) × (printed ≡ bs ++ 0 ∷ []) × (bytes t ≡ bytes s)

  abbrev pub LeadsTo : State → (ℕ → ℕ) → List ℕ → Type 0
  LeadsTo s buf bs = FreeList (block_at (bytes s)) (word buf 0) (λ i. word buf (i + 1)) bs

module _ (dev : Device) (laws : IsReliable dev) (rounds s_fsize : ℕ) (enough : 404 < rounds)
    (small : s_fsize ≤ 2 ^ 22) (fits : s_fsize * 512 ≤ dev.size) where
  open dev use {State, bytes, size}

  after_read : ℕ → List ℕ → ℕ × (ℕ → ℕ) × State → Run (Report × State)
  after_read loops printed (ret, buf, t) =
      if s32_neg ret
      then done ((ret, printed), t)
      else walk dev loops rounds s_fsize buf t >>= λ ((ret', more), u).
          done ((ret', printed ++ more), u)

  walk-eq-end :
      (loops : ℕ) (buf : ℕ → ℕ) (s : State)
      → 0 < word buf 0
      → word buf 0 ≤ 100
      → word buf (0 + 1) ≡ 0
      → walk dev (suc loops) rounds s_fsize buf s
        ≡ done ((0, entries (word buf 0) (λ i. word buf (i + 1))), s)
  unfolding walk
  walk-eq-end loops buf s pos max last = ground arith

  walk-eq-next :
      (loops : ℕ) (buf : ℕ → ℕ) (s : State)
      → 0 < word buf 0
      → word buf 0 ≤ 100
      → word buf (0 + 1) ≢ 0
      → word buf (0 + 1) < s_fsize
      → walk dev (suc loops) rounds s_fsize buf s ≡ (
          read_stack_from_block dev rounds (word buf (0 + 1)) (put_word buf 0 0) s
          >>= after_read loops (entries (word buf 0) (λ i. word buf (i + 1))))
  unfolding walk after_read
  walk-eq-next loops buf s pos max ne below = ground arith

  after_read-Lists :
      (loops ret : ℕ) (buf : ℕ → ℕ) (s t : State) (printed rest bs : List ℕ)
      → ret ≡ 0
      → bytes t ≡ bytes s
      → printed ++ (rest ++ 0 ∷ []) ≡ bs ++ 0 ∷ []
      → Returns (Lists dev rest t) (walk dev loops rounds s_fsize buf t)
      → Returns (Lists dev bs s) (after_read loops printed (ret, buf, t))
  unfolding after_read
  after_read-Lists loops ret buf s t printed rest bs zero_ret same p walked = rw zero_ret (
      Returns-bind {P = Lists dev rest t} (Lists dev bs s) (walk dev loops rounds s_fsize buf t)
        (λ ((ret', more), u). done ((ret', printed ++ more), u)) walked
        λ ((ret', more), u) (z, m, kept). (z, ap (λ l. printed ++ l) m ∙ p, kept ∙ same))

  -- When the stack in the buffer stands for free blocks that are all below `s_fsize`, the walk ends
  -- after at most one round for each of them and one more; it returns 0, has printed exactly the free
  -- blocks in the order in which Alloc hands them out, with the 0 at the bottom behind them, and
  -- changes nothing. `s_fsize` must be at most 2^22 and inside of the device.
  pub walk-Lists :
      (loops : ℕ) (buf : ℕ → ℕ) (s : State) (bs : List ℕ)
      → length bs < loops
      → LeadsTo dev s buf bs
      → ((b : ℕ) → has b bs ≡ true → b < s_fsize)
      → Returns (Lists dev bs s) (walk dev loops rounds s_fsize buf s)
  unfolding read_stack_from_block
  walk-Lists zero buf s bs h l below = absurd (omega arith)
  walk-Lists (suc loops) buf s bs h l below =
      let (pos, max) = FreeList-count l in
      let printed = entries (word buf 0) (λ i. word buf (i + 1)) in
      elim (FreeList-Bottom l) [
        | at_end e p ↦ rw (walk-eq-end loops buf s pos max e) (refl, p, refl)
        | in_block rest ne inner p names up less ↦
            let nxt = word buf (0 + 1) in
            rw (walk-eq-next loops buf s pos max ne (below nxt names)) (
              Returns-bind {P = Fetched dev laws (nxt * 512) 404 (put_word buf 0 0) 0 s}
                (Lists dev bs s) (read_stack_from_block dev rounds nxt (put_word buf 0 0) s)
                (after_read loops printed)
                (read_block-Fetched dev laws rounds nxt 404 (put_word buf 0 0) s
                  (omega (arith, below nxt names)) (omega arith) enough
                  (omega (arith, below nxt names)))
                λ (ret, buf', t) (zero_ret, filled, same).
                  after_read-Lists loops ret buf' s t printed rest bs zero_ret same p (
                    walk-Lists loops buf' t rest (omega arith)
                      (rw (filled, same)
                        (FreeList-fetched (block_at (bytes s)) (put_word buf 0 0) (bytes s) nxt rest
                          inner))
                      (λ b i. below b (up b i))))
      ]
