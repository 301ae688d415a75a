-- ===== src/Vfs/FileCalls.antt =====
-- fileops.c: secondfs_file_read, secondfs_file_write and secondfs_fsync.
use secondfs_module.Prelude.{ℕ, ◌%◌, Result, error, Run, done, ◌>>=◌, ◌==◌, if◌then◌else◌, word_mod}
use secondfs_module.BufferIo.{BufferIo}
use secondfs_module.Inode.Bmap.{Fs}
use secondfs_module.Inode.ReadWrite.{IoParameter}
use secondfs_module.File.Rdwr.{file_read, file_write}
use secondfs_module.Vfs.Kernel.{Volume, Kernel, v2s, s2v, fs_at, put_at}

-- What a call on an open file leaves: the bytes moved or the errno, `*ppos`, the memory of the
-- process, and the volume.
pub record Moved (V : Type 0) : Type 0 where
  pub ret : Result ℕ
  pub ppos : ℕ
  pub memory : ℕ → ℕ
  pub volume : V

module _ (io : BufferIo) (K : Type 0) (k : Kernel io K) where
  open io use {bflush}

  -- What FileManager_Read or FileManager_Write leaves, the VFS half conformed.
  unfoldable pub moved : ℕ → Volume io K → Result ℕ × Fs io × IoParameter → Moved (Volume io K)
  unfolding s2v
  moved p w (r, s, q) = record {
    ret = r;
    ppos = q.m_offset;
    memory = q.memory;
    volume = s2v io K k p (put_at io K p s w);
  }

  -- `secondfs_file_read` of the file at `p`
  unfoldable pub vfs_read : ℕ → ℕ → ℕ → ℕ → (ℕ → ℕ) → Volume io K → Run (Moved (Volume io K))
  unfolding file_read moved v2s
  vfs_read p buf len pos memory w = k.inode_lock p w >>= λ w1.
      file_read io buf len (pos % word_mod) memory (fs_at io K p w1) >>= λ r.
      let m : Moved (Volume io K) = moved p w1 r in
      done (record m {
        volume =
            k.inode_unlock p (k.mark_inode_dirty_sync p (v2s io K p (k.file_accessed p m.volume)));
      })

  -- file_write behind file_update_time.
  unfoldable pub time_updated : ℕ → Moved (Volume io K) → ℕ × Volume io K → Moved (Volume io K)
  unfolding v2s
  time_updated p m (reti, w) =
      if reti == 0
      then record m { volume = k.inode_unlock p (k.mark_inode_dirty_sync p (v2s io K p w)) }
      else record m { ret = error reti; volume = k.inode_unlock p w }

  -- `secondfs_file_write` into the file at `p`
  unfoldable pub vfs_write : ℕ → ℕ → ℕ → ℕ → (ℕ → ℕ) → Volume io K → Run (Moved (Volume io K))
  unfolding file_write moved time_updated
  vfs_write p buf len pos memory w = k.inode_lock p w >>= λ w1.
      file_write io buf len (pos % word_mod) memory (fs_at io K p w1) >>= λ r.
      let m : Moved (Volume io K) = moved p w1 r in
      done (time_updated p m (k.file_update_time p m.volume))

  -- `secondfs_fsync`: the whole device is written.
  unfoldable pub fsync : Volume io K → ℕ × Volume io K
  fsync w = (0, record w { pool = bflush w.pool })
