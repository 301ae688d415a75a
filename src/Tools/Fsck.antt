-- ===== src/Tools/Fsck.antt =====
-- main of fsck.c: the checks of the super block, and the walks through the stack of free blocks with
-- the groups on the device and through the stack of free i-nodes. The numbers that it prints for the
-- two stacks are a list; all other output is left out.
pub mod Walk
pub mod Laws
pub mod Failures
use secondfs_module.Prelude.{
  ℕ, zero, suc, ◌+◌, ◌-◌, ◌*◌, ◌/◌, ◌%◌, true, false, not, ◌&&◌, ◌||◌, List, [], ◌∷◌, ◌++◌, Option,
  none, some, Result, value, error, Run, done, out_of_bounds, out_of_fuel, ◌>>=◌, leb, ◌==◌,
  if◌then◌else◌, word_mod, dec32, s32_neg, s32_le_zero, s32_le,
}
use secondfs_module.Block.{block_size, word, put_word, zero_block}
use secondfs_module.Tools.Device.{Device}
use secondfs_module.Tools.Transfer.{read_block, read_stack_from_block}
use secondfs_module.Tools.Volume.{super_block_size}
use secondfs_module.Tools.Mkfs.{sb_first_block, block_min_required, exit_failure, einval, enospc}

-- `while (count) printf(stack[LE32_PRE_DEC(count)])`, with `count` at most 100.
unfoldable pub entries : ℕ → (ℕ → ℕ) → List ℕ
entries zero stack = []
entries (suc n) stack = stack n ∷ entries n stack

-- The loop over the stack of i-nodes, which looks at the count behind the first entry only. 101
-- rounds are enough.
unfoldable pub inode_entries : ℕ → ℕ → (ℕ → ℕ) → Run (List ℕ)
inode_entries zero count stack = out_of_fuel
inode_entries (suc n) count stack =
    let top = dec32 count in
    let rest = inode_entries n top stack in
    if leb 100 top
    then out_of_bounds
    else if top == 0
    then done (stack top ∷ [])
    else rest >>= λ xs. done (stack top ∷ xs)

-- The return value with what has been printed.
abbrev pub Report : Type 0
Report = ℕ × List ℕ

-- The part behind the walk over the free blocks, which has returned `ret`.
unfoldable pub check_inodes : ℕ → (ℕ → ℕ) → Run Report
unfolding inode_entries
check_inodes ret sb_buf =
    let count = word sb_buf 103 in
    if not (leb count 100)
    then done (einval, [])
    else inode_entries 101 count (λ i. word sb_buf (i + 104)) >>= λ xs. done (ret, xs)

module _ (dev : Device) where
  open dev use {State}

  -- The loop over the groups, with `buf` the bytes of `fast_stack_buf`; `loops` bounds its rounds and
  -- `rounds` those of a read.
  unfoldable pub walk : ℕ → ℕ → ℕ → (ℕ → ℕ) → State → Run (Report × State)
  walk zero rounds s_fsize buf s = out_of_fuel
  walk (suc loops) rounds s_fsize buf s =
      let count = word buf 0 in
      let stack : ℕ → ℕ = λ i. word buf (i + 1) in
      let nxt_ind_blkno = stack 0 in
      if not (leb count 100) || s32_le_zero count
      then done ((einval, []), s)
      else let printed = entries count stack in
        if nxt_ind_blkno == 0
        then done ((0, printed), s)
        else if leb s_fsize nxt_ind_blkno
        then done ((einval, printed), s)
        else read_stack_from_block dev rounds nxt_ind_blkno (put_word buf 0 0) s
          >>= λ (ret, buf', t).
              if s32_neg ret
              then done ((ret, printed), t)
              else walk loops rounds s_fsize buf' t >>= λ ((ret', more), u).
                  done ((ret', printed ++ more), u)

  -- From the super block on.
  unfoldable pub check : ℕ → ℕ → State → Run (Report × List ℕ × State)
  unfolding walk check_inodes read_block
  check loops rounds s =
      read_block dev rounds sb_first_block zero_block super_block_size s >>= λ (ret, sb_buf, t).
      if s32_neg ret
      then done ((ret, []), [], t)
      else walk loops rounds (word sb_buf 1) (λ j. sb_buf (8 + j)) t >>= λ ((ret', blocks), u).
          if ret' == 0
          then (check_inodes ret' sb_buf >>= λ (ret'', inodes). done ((ret'', blocks), inodes, u))
          else done ((ret', blocks), [], u)

  -- `main`: the exit status, the free blocks and the free i-nodes that are printed, and the state of
  -- the device file, when it is open.
  unfoldable pub main :
      ℕ → ℕ → ℕ → Result State → (State → Result ℕ) → Run (Report × List ℕ × Option State)
  unfolding check
  main loops rounds argc opened fstat =
      if not (argc == 2) then done ((exit_failure, []), [], none) else elim opened [
        | error e ↦ done ((exit_failure, []), [], none)
        | value s ↦ elim (fstat s) [
          | error e ↦ done ((e, []), [], some s)
          | value st_size ↦
              if not (s32_le block_min_required (st_size / block_size % word_mod))
              then done ((enospc, []), [], some s)
              else check loops rounds s >>= λ (report, inodes, t). done (report, inodes, some t)
        ]
      ]
