-- ===== src/Tools/Mkfs/Groups.antt =====
-- The loop of mkfs.c that distributes the free blocks over groups.
use secondfs_module.Prelude.{
  ℕ, zero, suc, ◌+◌, ◌-◌, ◌≤◌, ◌<◌, ◌^◌, ◌≡◌, refl, sym, subst, Bool, true, false, List, [], ◌∷◌,
  arith, has, done, ◌>>=◌, Returns, Returns-bind, update, update_same, update_other, ℕ_discrete,
  if◌then◌else◌,
}
use secondfs_module.Block.{Block, word}
use secondfs_module.FileSystem.FreeList.{FreeList, bottom, group, entry, FreeList-stack}
use secondfs_module.Tools.Transfer.{FastStack}
use secondfs_module.Tools.Mkfs.{push, fill, make_group, group_size, data_first_block}

-- `n` numbers from `x` on.
unfoldable pub ascending : ℕ → ℕ → List ℕ
ascending x zero = []
ascending x (suc n) = x ∷ ascending (x + 1) n

-- The numbers from `x` on below `last`.
unfoldable pub blocks_from : ℕ → ℕ → List ℕ
unfolding ascending
blocks_from last x = ascending x (last - x)

has-ascending : (b x n : ℕ) → has b (ascending x n) ≡ true → (x ≤ b) × (b < x + n)
unfolding ascending
has-ascending b x zero h = absurd (ground arith)
has-ascending b x (suc n) h = elim (ℕ_discrete b x) [
  | yes e ↦ (omega arith, omega arith)
  | no ne ↦ let (le, lt) = has-ascending b (x + 1) n (ground arith) in (omega arith, omega arith)
]

pub has-blocks_from : (b last x : ℕ) → has b (blocks_from last x) ≡ true → (x ≤ b) × (b < last)
unfolding blocks_from
has-blocks_from b last x h = let (le, lt) = has-ascending b x (last - x) h in (le, omega arith)

pub blocks_from-cons : (last x : ℕ) → x < last → blocks_from last x ≡ x ∷ blocks_from last (x + 1)
unfolding blocks_from ascending
blocks_from-cons last x h = let e : last - x ≡ suc (last - (x + 1)) = omega arith in rw e refl

blocks_from-nil : (last : ℕ) → blocks_from last last ≡ []
unfolding blocks_from ascending
blocks_from-nil last = let e : last - last ≡ 0 = omega arith in rw e refl

-- A stack of `m` entries that leads to the blocks from `x` on, with entries of 32 bits.
pub record Filled (disk : ℕ → Block) (last x m : ℕ) (st : FastStack) : Type 0 where
  pub counted : st.count ≡ m
  pub leads : FreeList disk m st.stack (blocks_from last x)
  pub small : (k : ℕ) → k < m → st.stack k < 2 ^ 32

-- Block `b` holds the group that leads to the blocks behind `b`.
abbrev pub Stored : (ℕ → Block) → ℕ → ℕ → Type 0
Stored disk last b =
    FreeList disk (word (disk b) 0) (λ i. word (disk b) (i + 1)) (blocks_from last (b + 1))

pub group_size-some : (b : Bool) (remain : ℕ) → 0 < remain → 0 < group_size b remain
unfolding group_size
group_size-some true remain h = ground arith
group_size-some false remain h = ground arith

module _ (disk : ℕ → Block) (last : ℕ) (bounded : last ≤ 2 ^ 31) where
  push-eq :
      (v : ℕ) (st : FastStack)
      → st.count < 100
      → push v st ≡ done (record { count = st.count + 1; stack = update st.stack st.count v })
  unfolding push
  push-eq v st h = ground arith

  update_small :
      (a : ℕ → ℕ) (m v : ℕ)
      → v < 2 ^ 32
      → ((k : ℕ) → k < m → a k < 2 ^ 32)
      → (k : ℕ) → k < suc m
      → update a m v k < 2 ^ 32
  unfolding update
  update_small a m v h old k lt = elim (ℕ_discrete k m) [
    | yes e ↦ ground arith
    | no ne ↦ let o = old k (omega arith) in ground arith
  ]

  push-Filled :
      (x m : ℕ) (st : FastStack)
      → Filled disk last (x + 1) m st
      → 0 < m
      → m < 100
      → 0 < x
      → x < last
      → Returns (Filled disk last x (suc m)) (push x st)
  push-Filled x m st f pos room some below =
      let e = f.counted in
      let kept : FreeList disk m (update st.stack m x) (blocks_from last (x + 1)) =
        FreeList-stack f.leads λ i h. update_other st.stack m i x (omega arith) in
      rw (push-eq x st (omega (arith, e))) (record {
        counted = omega (arith, e);
        leads =
            rw (e, blocks_from-cons last x below)
              (entry pos room (update_same st.stack m x) (omega arith) kept);
        small = rw e (update_small st.stack m x (omega arith) f.small);
      })

  fill-Filled :
      (n i remain m : ℕ) (st : FastStack)
      → Filled disk last (remain - i + 1025) m st
      → 0 < m
      → m + n ≤ 100
      → i + n ≤ remain
      → remain + 1025 ≤ last
      → Returns (Filled disk last (remain - (i + n) + 1025) (m + n)) (fill n i remain st)
  unfolding fill
  fill-Filled zero i remain m st f pos room some below =
      let e : i + 0 ≡ i = omega arith in let e' : m + 0 ≡ m = omega arith in rw (e, e') f
  fill-Filled (suc n) i remain m st f pos room some below =
      let x = remain - i + data_first_block in
      let start : remain - i + 1025 ≡ x + 1 = omega arith in
      let i_next : i + 1 + n ≡ i + suc n = omega arith in
      let m_next : suc m + n ≡ m + suc n = omega arith in
      let next : x ≡ remain - (i + 1) + 1025 = omega arith in
      Returns-bind (Filled disk last (remain - (i + suc n) + 1025) (m + suc n)) (push x st)
        (fill n (i + 1) remain)
        (push-Filled x m st (rw start at f) pos (omega arith) (omega arith) (omega arith))
        λ st' g.
          rw (sym i_next, sym m_next)
            (fill-Filled n (i + 1) remain (suc m) st' (rw next at g) (omega arith) (omega arith)
              (omega arith) below)

  recount :
      (x m n : ℕ) (st : FastStack)
      → n ≡ m
      → Filled disk last x m st
      → Filled disk last x m (record st { count = n })
  recount x m n st e f = record { counted = e; leads = f.leads; small = f.small }

  pub group_size-le :
      (b : Bool) (remain : ℕ)
      → (group_size b remain ≤ remain) × (group_size b remain ≤ (if b then 99 else 100))
  unfolding group_size
  group_size-le true remain = (ground arith, ground arith)
  group_size-le false remain = (ground arith, ground arith)

  ends_with_zero : FastStack → FastStack
  ends_with_zero st = record { count = 1; stack = update st.stack 0 0 }

  ends_with_zero-Filled : (st : FastStack) → Filled disk last last 1 (ends_with_zero st)
  unfolding ends_with_zero
  ends_with_zero-Filled st = record {
    counted = refl;
    leads = rw (blocks_from-nil last) (bottom (update_same st.stack 0 0));
    small = λ k h. let e : k ≡ 0 = omega arith in rw (e, update_same st.stack 0 0) (omega arith);
  }

  make_group-eq-first :
      (remain : ℕ) (st : FastStack)
      → make_group true remain st ≡ (
          fill (group_size true remain) 0 remain (ends_with_zero st) >>= λ full.
          done (record full { count = group_size true remain + 1 }))
  unfolding make_group push ends_with_zero
  make_group-eq-first remain st = refl

  -- The group at the end of the list, above the entry 0.
  pub make_group-first :
      (remain : ℕ) (st : FastStack)
      → remain + 1025 ≡ last
      → let size = group_size true remain in
        Returns (Filled disk last (remain - size + 1025) (suc size)) (make_group true remain st)
  make_group-first remain st e =
      let size = group_size true remain in
      let (le, max) = group_size-le true remain in
      let start : last ≡ remain - 0 + 1025 = omega arith in
      let ends : Filled disk last (remain - 0 + 1025) 1 (ends_with_zero st) =
        subst (λ x. Filled disk last x 1 (ends_with_zero st)) start (ends_with_zero-Filled st) in
      rw (make_group-eq-first remain st) (
        Returns-bind {P = Filled disk last (remain - (0 + size) + 1025) (1 + size)}
          (Filled disk last (remain - size + 1025) (suc size))
          (fill size 0 remain (ends_with_zero st)) (λ full. done (record full { count = size + 1 }))
          (fill-Filled size 0 remain 1 (ends_with_zero st) ends (omega arith) (omega arith)
            (omega arith) (omega arith))
          λ full f. recount (remain - size + 1025) (suc size) (size + 1) full (omega arith) (
            let a : 0 + size ≡ size = omega arith in
            let b : 1 + size ≡ suc size = omega arith in rw (a, b) at f))

  names_block : ℕ → FastStack → FastStack
  names_block b st = record { count = 1; stack = update st.stack 0 b }

  make_group-eq-next :
      (n remain : ℕ) (st : FastStack)
      → group_size false remain ≡ suc n
      → make_group false remain st ≡ (
          fill n 1 remain (names_block (remain + 1024) st) >>= λ full.
          done (record full { count = suc n }))
  unfolding make_group fill push names_block
  make_group-eq-next n remain st e =
      let s : remain - 0 + 1024 ≡ remain + 1024 = omega arith in rw (e, s) refl

  names_block-Filled :
      (b : ℕ) (st : FastStack)
      → Stored disk last b
      → 0 < b
      → b < last
      → Filled disk last b 1 (names_block b st)
  unfolding names_block
  names_block-Filled b st stored some below = record {
    counted = refl;
    leads =
        rw (blocks_from-cons last b below) (group (update_same st.stack 0 b) (omega arith) stored);
    small = λ k h. let e : k ≡ 0 = omega arith in rw (e, update_same st.stack 0 b) (omega arith);
  }

  -- A group above the block that holds the one before.
  pub make_group-next :
      (remain : ℕ) (st : FastStack)
      → 0 < remain
      → remain + 1025 ≤ last
      → Stored disk last (remain + 1024)
      → let size = group_size false remain in
        Returns (Filled disk last (remain - size + 1025) size) (make_group false remain st)
  unfolding group_size
  make_group-next remain st some below stored =
      let size = group_size false remain in
      let (le, max) = group_size-le false remain in
      let n = size - 1 in
      let e : size ≡ suc n = ground (arith, group_size) in
      let start : remain + 1024 ≡ remain - 1 + 1025 = omega arith in
      let one : Filled disk last (remain - 1 + 1025) 1 (names_block (remain + 1024) st) =
        subst (λ x. Filled disk last x 1 (names_block (remain + 1024) st)) start
          (names_block-Filled (remain + 1024) st stored (omega arith) (omega arith)) in
      rw (make_group-eq-next n remain st e) (
        Returns-bind {P = Filled disk last (remain - (1 + n) + 1025) (1 + n)}
          (Filled disk last (remain - size + 1025) size)
          (fill n 1 remain (names_block (remain + 1024) st))
          (λ full. done (record full { count = suc n }))
          (fill-Filled n 1 remain 1 (names_block (remain + 1024) st) one (omega arith) (omega arith)
            (omega arith) (omega arith))
          λ full f.
            recount (remain - size + 1025) size (suc n) full (omega arith)
              (let a : 1 + n ≡ size = omega arith in rw a at f))
