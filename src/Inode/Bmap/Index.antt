-- ===== src/Inode/Bmap/Index.antt =====
-- The arithmetic of Inode::Bmap of UNIXV6PP/Inode.cc: where the number of a block of a file stands in
-- the index, and that every place is that of one block.
use secondfs_module.Prelude.{
  ℕ, ◌+◌, ◌-◌, ◌*◌, ◌≤◌, ◌<◌, ◌≡◌, ◌⊎◌, inl, inr, arith, dec_lt, ltb, true, false,
}
use secondfs_module.Inode.Bmap.{addr_index, second_index, table_index}

-- The number of block `lbn` stands in entry `k` of the table that `i_addr[a]` names: block 6 is the
-- first of table 6, and each table has the numbers of 128 blocks.
pub record InTable (lbn a k : ℕ) : Type 0 where
  pub table : (6 ≤ a) × (a < 8)
  pub entry : k < 128
  pub place : lbn ≡ 6 + 128 * (a - 6) + k

-- The number of block `lbn` stands in entry `k` of the table that entry `t` of the table names which
-- `i_addr[a]` names: block 262 is the first of table 8.
pub record InTables (lbn a t k : ℕ) : Type 0 where
  pub table : (8 ≤ a) × (a < 10)
  pub second : t < 128
  pub entry : k < 128
  pub place : lbn ≡ 262 + 16384 * (a - 8) + 128 * t + k

-- The entries that Bmap looks at for a block from 6 on put it where the layout of the index has it: up
-- to 261 behind one table, from there up to 33029, the last block of the largest file, behind two.
pub table_index-InTable :
    (lbn : ℕ)
    → 6 ≤ lbn
    → lbn < 33030
    → ((lbn < 262) × InTable lbn (addr_index lbn) (table_index lbn))
      ⊎ ((262 ≤ lbn) × InTables lbn (addr_index lbn) (second_index lbn) (table_index lbn))
unfolding addr_index second_index table_index
table_index-InTable lbn low high = elim (dec_lt lbn 262) [
  | yes one ↦
      let t : ltb lbn 262 ≡ true = ground arith in
      rw t (
        inl (
          one,
          record { table = (omega arith, omega arith); entry = omega arith; place = omega arith },
        ))
  | no two ↦
      let t : ltb lbn 262 ≡ false = ground arith in
      rw t (
        inr (
          omega arith,
          record {
            table = (omega arith, omega arith);
            second = omega arith;
            entry = omega arith;
            place = omega arith;
          },
        ))
]
