-- ===== src/File/Rdwr.antt =====
-- FileManager::Rdwr, Read and Write of UNIXV6PP/FileOperations.cc.
use secondfs_module.Prelude.{
  ℕ, ◌+◌, ◌-◌, ◌%◌, Result, value, error, Run, done, ◌>>=◌, ◌==◌, if◌then◌else◌, word_mod,
}
use secondfs_module.BufferIo.{BufferIo}
use secondfs_module.Inode.Bmap.{Fs}
use secondfs_module.Inode.Disk.{nf_lock, nf_rele}
use secondfs_module.Inode.ReadWrite.{IoParameter, Io, read_i, write_i}

-- `SECONDFS_FREAD` and `SECONDFS_FWRITE`
pub data Mode : Type 0 where
  fread : Mode
  fwrite : Mode

-- What Rdwr fills in: `len` is a `size_t`, `m_count` an `s32`.
unfoldable pub io_param : ℕ → ℕ → ℕ → (ℕ → ℕ) → IoParameter
io_param buf len pos memory = record {
  m_base = buf;
  m_offset = pos;
  m_count = len % word_mod;
  is_user_p = 1;
  err = 0;
  memory = memory;
}

module _ (io : BufferIo) where
  unfoldable pub transfer : Mode → Io io → Run (Io io)
  transfer fread p = read_i io p
  transfer fwrite p = write_i io p

  -- `FileManager::Rdwr`: the bytes moved, the i-node's state and the parameters, whose `m_offset` is
  -- the new `*ppos`.
  unfoldable pub rdwr : Mode → ℕ → ℕ → ℕ → (ℕ → ℕ) → Fs io → Run (ℕ × Fs io × IoParameter)
  unfolding nf_lock nf_rele io_param transfer
  rdwr mode buf len pos memory s = nf_lock s.node >>= λ node.
      transfer mode (record s { node = node }, io_param buf len pos memory) >>= λ (t, p).
      done ((len + word_mod - p.m_count) % word_mod, record t { node = nf_rele t.node }, p)

  -- The errno of the parameters, or the bytes moved.
  unfoldable pub outcome : ℕ × Fs io × IoParameter → Result ℕ × Fs io × IoParameter
  outcome (size, s, p) = (if p.err == 0 then value size else error p.err, s, p)

  -- `FileManager::Read` and `FileManager::Write`
  unfoldable pub file_read : ℕ → ℕ → ℕ → (ℕ → ℕ) → Fs io → Run (Result ℕ × Fs io × IoParameter)
  unfolding outcome rdwr
  file_read buf len pos memory s = rdwr fread buf len pos memory s >>= λ r. done (outcome r)

  unfoldable pub file_write : ℕ → ℕ → ℕ → (ℕ → ℕ) → Fs io → Run (Result ℕ × Fs io × IoParameter)
  unfolding outcome rdwr
  file_write buf len pos memory s = rdwr fwrite buf len pos memory s >>= λ r. done (outcome r)
