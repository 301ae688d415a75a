-- ===== src/FileSystem/FreeList.antt =====
-- The free blocks that a super block and the disk stand for, in the order in which they are handed
-- out: an abstract stack.
use secondfs_module.Prelude.{
  has, ℕ, suc, ◌+◌, ◌≤◌, ◌<◌, ◌≡◌, ◌≢◌, refl, List, [], ◌∷◌, arith, update, update_other, false,
  true,
}
use secondfs_module.Block.{Block, word}

-- `FreeList disk n stack bs`: the stack with `n` entries leads to the free blocks `bs`.
pub data FreeList (disk : ℕ → Block) : ℕ → (ℕ → ℕ) → List ℕ → Type 0 where
  bottom : {stack : ℕ → ℕ} → stack 0 ≡ 0 → FreeList disk 1 stack []
  group :
      {stack : ℕ → ℕ} {b : ℕ} {bs : List ℕ}
      → stack 0 ≡ b
      → b ≢ 0
      → FreeList disk (word (disk b) 0) (λ i. word (disk b) (i + 1)) bs
      → FreeList disk 1 stack (b ∷ bs)
  entry :
      {n : ℕ} {stack : ℕ → ℕ} {b : ℕ} {bs : List ℕ}
      → 0 < n
      → n < 100
      → stack n ≡ b
      → b ≢ 0
      → FreeList disk n stack bs
      → FreeList disk (suc n) stack (b ∷ bs)

module _ {disk : ℕ → Block} where
  -- The stack has between 1 and 100 entries.
  pub FreeList-count :
      {n : ℕ} {stack : ℕ → ℕ} {bs : List ℕ} → FreeList disk n stack bs → (0 < n) × (n ≤ 100)
  FreeList-count (bottom e) = omega arith
  FreeList-count (group e ne l) = omega arith
  FreeList-count (entry h k e ne l) = omega arith

  -- Only the entries below the count matter.
  pub FreeList-stack :
      {n : ℕ} {stack other : ℕ → ℕ} {bs : List ℕ}
      → FreeList disk n stack bs
      → ((i : ℕ) → i < n → other i ≡ stack i)
      → FreeList disk n other bs
  FreeList-stack (bottom e) same = bottom (ground (arith, same 0))
  FreeList-stack (group e ne l) same = group (ground (arith, same 0)) ne l
  FreeList-stack (entry {n} h k e ne l) same =
      entry h k (ground (arith, same n)) ne (FreeList-stack l λ i lt. same i (omega arith))

  -- A change of a block that is not in the list is not seen.
  pub FreeList-frame :
      {n : ℕ} {stack : ℕ → ℕ} {bs : List ℕ} (a : ℕ) (v : Block)
      → FreeList disk n stack bs
      → has a bs ≡ false
      → FreeList (update disk a v) n stack bs
  FreeList-frame a v (bottom e) out = bottom e
  FreeList-frame a v (group {b} {bs} e ne l) out =
      let same : update disk a v b ≡ disk b = update_other disk a b v (ground arith) in
      group e ne (rw same (FreeList-frame a v l (ground arith)))
  FreeList-frame a v (entry h k e ne l) out = entry h k e ne (FreeList-frame a v l (ground arith))

  pub FreeList-nil : {n : ℕ} {stack : ℕ → ℕ} → FreeList disk n stack [] → (n ≡ 1) × (stack 0 ≡ 0)
  FreeList-nil (bottom e) = (refl, e)

-- How the first free block is found: the last entry of the stack, or the block that its bottom
-- entry names.
pub data First (disk : ℕ → Block) (n : ℕ) (stack : ℕ → ℕ) (b : ℕ) (bs : List ℕ) : Type 0 where
  in_stack :
      (m : ℕ)
      → n ≡ suc m
      → 0 < m
      → m < 100
      → stack m ≡ b
      → FreeList disk m stack bs
      → First disk n stack b bs
  in_block :
      n ≡ 1
      → stack 0 ≡ b
      → FreeList disk (word (disk b) 0) (λ i. word (disk b) (i + 1)) bs
      → First disk n stack b bs

module _ {disk : ℕ → Block} where
  pub FreeList-cons :
      {n : ℕ} {stack : ℕ → ℕ} {b : ℕ} {bs : List ℕ}
      → FreeList disk n stack (b ∷ bs)
      → (b ≢ 0) × First disk n stack b bs
  FreeList-cons (group e ne l) = (ne, in_block refl e l)
  FreeList-cons (entry {n} h k e ne l) = (ne, in_stack n refl h k e l)

-- The list stands on each disk that has the same free blocks.
pub FreeList-agree :
    {disk other : ℕ → Block} {n : ℕ} {stack : ℕ → ℕ} {bs : List ℕ}
    → FreeList disk n stack bs
    → ((b : ℕ) → has b bs ≡ true → other b ≡ disk b)
    → FreeList other n stack bs
FreeList-agree (bottom e) same = bottom e
FreeList-agree (group {b} {bs} e ne l) same =
    let at_b = same b (ground arith) in
    group e ne (rw at_b (FreeList-agree l λ c h. same c (ground arith)))
FreeList-agree (entry h k e ne l) same =
    entry h k e ne (FreeList-agree l λ c i. same c (ground arith))
