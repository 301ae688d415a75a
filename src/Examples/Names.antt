-- ===== src/Examples/Names.antt =====
-- The comparison of names and the index of a file at concrete inputs.
use secondfs_module.Prelude.{ℕ, ◌≡◌, ◌<◌, ◌≤◌, ◌↔◌, ◌⊎◌, true, ◌==◌, if◌then◌else◌, arith}
use secondfs_module.File.Locate.{is_match}
use secondfs_module.File.Locate.Names.{SameName, is_match-SameName}
use secondfs_module.Inode.Bmap.{addr_index, second_index, table_index}
use secondfs_module.Inode.Bmap.Index.{InTable, InTables, table_index-InTable}

-- "ab" and the entry "ab".
abbrev ab : ℕ → ℕ
ab i = if i == 0 then 97 else if i == 1 then 98 else 0

is_match-SameName_example : (is_match ab 2 ab ≡ true) ↔ SameName ab 2 ab 0
is_match-SameName_example = is_match-SameName ab 2 ab (λ j. ground arith)

table_index-InTable_example :
    ((500 < 262) × InTable 500 (addr_index 500) (table_index 500))
    ⊎ ((262 ≤ 500) × InTables 500 (addr_index 500) (second_index 500) (table_index 500))
table_index-InTable_example = table_index-InTable 500 (omega arith) (omega arith)
