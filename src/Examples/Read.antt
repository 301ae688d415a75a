-- ===== src/Examples/Read.antt =====
-- ReadI on the buffer cache: 600 bytes are asked for from byte 500 on of a file of 1000 bytes.
use secondfs_module.Prelude.{ℕ, ◌+◌, ◌%◌}
use secondfs_module.Block.{Block}
use secondfs_module.Inode.Bmap.{Fs}
use secondfs_module.Inode.ReadWrite.{IoParameter}
use secondfs_module.Examples.Data.{good, ready, state}

-- No two blocks below 256 of this disk are the same.
abbrev pattern_disk : ℕ → Block
pattern_disk n j = (n + j) % 256

abbrev pattern_state : Fs good
pattern_state = record state { pool = ready pattern_disk }

abbrev request : IoParameter
request = record {
  m_base = 40;
  m_offset = 500;
  m_count = 600;
  is_user_p = 0;
  err = 0;
  memory = λ a. 7;
}
