-- ===== src/Tools/Fsck/Failures.antt =====
-- What fsck.c does not survive: an empty stack of i-nodes, and an image that ends too early.
use secondfs_module.Prelude.{
  ℕ, zero, suc, ◌+◌, ◌-◌, ◌≤◌, ◌<◌, ◌≡◌, ◌∙◌, refl, false, [], List, Run, arith, done,
  out_of_bounds, out_of_fuel, ◌>>=◌, ℕ_discrete, if◌then◌else◌, ◌==◌, leb, value, dec_lt,
}
use secondfs_module.Block.{word}
use secondfs_module.Tools.Device.{Device, overlay}
use secondfs_module.Tools.Transfer.{read_loop, read_block, block_offset}
use secondfs_module.Tools.Fsck.{entries, inode_entries, check_inodes, einval}
use secondfs_module.Tools.Fsck.Laws.{inode_entries-more, check_inodes-eq}

inode_entries-zero : (fuel : ℕ) (stack : ℕ → ℕ) → inode_entries (suc fuel) 0 stack ≡ out_of_bounds
unfolding inode_entries
inode_entries-zero fuel stack = refl

inode_entries-entries :
    (c fuel : ℕ) (stack : ℕ → ℕ)
    → c < fuel
    → c < 100
    → inode_entries fuel (suc c) stack ≡ done (entries (suc c) stack)
unfolding entries inode_entries
inode_entries-entries c zero stack h k = absurd (omega arith)
inode_entries-entries zero (suc fuel) stack h k = refl
inode_entries-entries (suc c) (suc fuel) stack h k =
    rw
      (
        inode_entries-more fuel (suc c) stack (omega arith) k,
        inode_entries-entries c fuel stack (omega arith) (omega arith),
      )
      refl

check_inodes-eq-over :
    (ret : ℕ) (p : ℕ → ℕ) → 100 < word p 103 → check_inodes ret p ≡ done (einval, [])
unfolding check_inodes
check_inodes-eq-over ret p h = let e : leb (word p 103) 100 ≡ false = ground arith in rw e refl

list_inodes : ℕ → ℕ → (ℕ → ℕ) → Run (ℕ × List ℕ)
list_inodes ret c stack = inode_entries 101 c stack >>= λ xs. done (ret, xs)

list_inodes-zero : (ret c : ℕ) (stack : ℕ → ℕ) → c ≡ 0 → list_inodes ret c stack ≡ out_of_bounds
unfolding list_inodes
list_inodes-zero ret c stack e = rw (e, inode_entries-zero 100 stack) refl

list_inodes-entries :
    (ret c : ℕ) (stack : ℕ → ℕ)
    → 0 < c
    → c ≤ 100
    → list_inodes ret c stack ≡ done (ret, entries c stack)
unfolding list_inodes
list_inodes-entries ret c stack h k =
    let e : suc (c - 1) ≡ c = omega arith in
    rw (rw e at (inode_entries-entries (c - 1) 101 stack (omega arith) (omega arith))) refl

-- The walk over the stack of free i-nodes: a count above 100 is refused, a count from 1 to 100 is
-- printed from the top down to the bottom and keeps the return value, and with a count of 0 the
-- stack is indexed outside its bounds.
pub check_inodes-cases :
    (ret : ℕ) (p : ℕ → ℕ)
    → let count = word p 103 in
      check_inodes ret p ≡ (
        if count == 0
        then out_of_bounds
        else if leb count 100
        then done (ret, entries count (λ i. word p (i + 104)))
        else done (einval, []))
unfolding list_inodes
check_inodes-cases ret p =
    let stack : ℕ → ℕ = λ i. word p (i + 104) in
    elim (ℕ_discrete (word p 103) 0) [
      | yes e ↦
          check_inodes-eq ret p (omega arith)
          ∙ list_inodes-zero ret (word p 103) stack e
          ∙ ground arith
      | no ne ↦ elim (dec_lt 100 (word p 103)) [
        | yes over ↦ check_inodes-eq-over ret p over ∙ ground arith
        | no inside ↦
            check_inodes-eq ret p (omega arith)
            ∙ list_inodes-entries ret (word p 103) stack (omega arith) (omega arith)
            ∙ ground arith
      ]
    ]

module _ (dev : Device) where
  open dev use {State, size, position, lseek, read}

  -- read(2) behind the end of the file yields 0 bytes, and leaves the position.
  abbrev pub EndsThere : Type 0
  EndsThere =
      (m : ℕ) (t : State)
      → size ≤ position t
      → (p : ℕ → ℕ) × ((read m t).0 ≡ value (0, p)) × (position (read m t).1 ≡ position t)

  read_loop-eq :
      (fuel n o : ℕ) (buf p : ℕ → ℕ) (s : State)
      → (read n s).0 ≡ value (0, p)
      → 0 < n
      → read_loop dev (suc fuel) buf o n s
        ≡ read_loop dev fuel (overlay buf o 0 p) (o + 0) (n - 0) (read n s).1
  unfolding read_loop
  read_loop-eq fuel n o buf p s ret some_left = ground arith

  read_loop-endless :
      EndsThere
      → (fuel n o : ℕ) (buf : ℕ → ℕ) (s : State) → 0 < n
      → size ≤ position s
      → read_loop dev fuel buf o n s ≡ out_of_fuel
  unfolding read_loop
  read_loop-endless ends zero n o buf s some_left past = refl
  read_loop-endless ends (suc fuel) n o buf s some_left past =
      let (p, ret, stays) = ends n s past in
      read_loop-eq fuel n o buf p s ret some_left
      ∙ read_loop-endless ends fuel (n - 0) (o + 0) (overlay buf o 0 p) (read n s).1 (omega arith)
          (omega (arith, stays))

  -- Where the seek to a block ends at the end of the file or behind it, as it does for a block that
  -- `s_fsize` promises but a shorter image lacks, read_block makes no end for any number of rounds.
  pub read_block-endless :
      EndsThere
      → (rounds b len : ℕ) (buf : ℕ → ℕ) (s : State) (o : ℕ) → 0 < len
      → (lseek (block_offset b) s).0 ≡ value o
      → size ≤ position (lseek (block_offset b) s).1
      → read_block dev rounds b buf len s ≡ out_of_fuel
  unfolding read_block
  read_block-endless ends rounds b len buf s o some_left ret past =
      rw (ret, read_block)
        (read_loop-endless ends rounds len 0 buf (lseek (block_offset b) s).1 some_left past)
