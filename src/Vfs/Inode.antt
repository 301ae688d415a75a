-- ===== src/Vfs/Inode.antt =====
-- The i-node of the VFS and the calls on it in inode.c: secondfs_inode_conform_v2s and _s2v,
-- secondfs_dirty_inode, secondfs_write_inode and secondfs_evict_inode. Times are seconds.
use secondfs_module.Prelude.{
  ℕ, ◌+◌, ◌-◌, ◌%◌, ◌^◌, Bool, true, false, Run, done, ◌>>=◌, ltb, ◌==◌, if◌then◌else◌, s32_neg,
  word_mod, set_flag, has_flag, minus_one,
}
use secondfs_module.BufferIo.{BufferIo}
use secondfs_module.FileSystem.Inodes.{ifree}
use secondfs_module.Inode.Node.{Inode, iupd}
use secondfs_module.Inode.Bmap.{Fs}
use secondfs_module.Inode.Disk.{iupdate}
use secondfs_module.Inode.Trunc.{itrunc}
use secondfs_module.Vfs.Mode.{mode_v2s, mode_s2v}

-- The tables that `i_op` and `i_fop` point to: those for a file, or those for a directory.
pub data Operations : Type 0 where
  no_operations : Operations
  file_operations : Operations
  dir_operations : Operations

-- What the module uses of `struct inode`; `i_mode` has 16 bits, `i_ino` and `i_size` 64.
pub record VfsInode : Type 0 where
  pub i_ino : ℕ
  pub i_mode : ℕ
  pub i_uid : ℕ
  pub i_gid : ℕ
  pub i_nlink : ℕ
  pub i_size : ℕ
  pub i_atime : ℕ
  pub i_mtime : ℕ
  pub i_ctime : ℕ
  pub i_blocks : ℕ
  pub i_op : Operations

-- `EPERM`
abbrev pub eperm : ℕ
eperm = 1

-- An `s32` in a field of 64 bits.
abbrev pub widen : ℕ → ℕ
widen x = if s32_neg x then x + (2 ^ 64 - word_mod) else x

-- `secondfs_inode_conform_v2s`
unfoldable pub conform_v2s : Inode → VfsInode → Inode × VfsInode
unfolding mode_v2s
conform_v2s si v = (
  record si {
    i_number = v.i_ino % word_mod;
    i_mode = mode_v2s v.i_mode si.i_mode;
    i_uid = v.i_uid % 65536;
    i_gid = v.i_gid % 65536;
    i_nlink = v.i_nlink % word_mod;
    i_size = v.i_size % word_mod;
    i_atime = v.i_atime % word_mod;
    i_mtime = (if ltb v.i_ctime v.i_mtime then v.i_mtime else v.i_ctime) % word_mod;
  },
  record v { i_mtime = v.i_ctime },
)

-- `secondfs_inode_conform_s2v`; `mark` is `mark_inode_dirty_sync`.
unfoldable pub conform_s2v : (VfsInode → VfsInode) → VfsInode → Inode → VfsInode
unfolding mode_s2v
conform_s2v mark v si =
    let w : VfsInode = record v {
      i_ino = widen si.i_number;
      i_mode = mode_s2v si.i_mode v.i_mode;
      i_uid = si.i_uid;
      i_gid = si.i_gid;
      i_nlink = si.i_nlink;
      i_size = widen si.i_size;
      i_atime = widen si.i_atime;
      i_mtime = widen si.i_mtime;
      i_ctime = widen si.i_mtime;
    } in
    if has_flag si.i_flag iupd then mark w else w

-- `secondfs_dirty_inode`
unfoldable pub dirty_inode : Inode → Inode
dirty_inode si = record si { i_flag = set_flag si.i_flag iupd }

module _ (io : BufferIo) where
  -- `secondfs_write_inode`: 0 or the errno, and the state. `rdonly` is the flag of the super block of
  -- the VFS.
  unfoldable pub write_inode : Bool → VfsInode → Fs io → Run (ℕ × VfsInode × Fs io)
  unfolding conform_v2s dirty_inode
  write_inode rdonly v s =
      let (si, w) = conform_v2s (dirty_inode s.node) v in
      let t : Fs io = record s { node = si } in
      if rdonly then done (eperm, w, t) else iupdate io t >>= λ (ret, u). done (ret, w, u)

  -- What evict_inode does last: the number is given back where the file is deleted, and the i-node is
  -- marked as not in use.
  unfoldable pub evict_end : Bool → Fs io → Fs io
  evict_end want_delete s = record s {
    super = if want_delete then ifree s.super s.node.i_number else s.super;
    node = record (s.node) { i_flag = 0; i_number = minus_one };
  }

  -- From IUpdate on.
  unfoldable pub evict_update : Bool → Bool → Fs io → Run (Fs io)
  unfolding evict_end
  evict_update rdonly want_delete s =
      if rdonly
      then done (evict_end want_delete s)
      else iupdate io s >>= λ (ret, t). if ret == 0 then done (evict_end want_delete t) else done t

  -- `secondfs_evict_inode`. The calls invalidate_inode_buffers and clear_inode change the part of
  -- `struct inode` that is the kernel's.
  unfoldable pub evict_inode : Bool → VfsInode → Fs io → Run (VfsInode × Fs io)
  unfolding conform_v2s evict_update
  evict_inode rdonly v s =
      let (si, w) = conform_v2s s.node v in
      let t : Fs io = record s { node = si } in
      if v.i_nlink == 0
      then (itrunc io t >>= λ (ret, u).
          if ret == 0
          then (evict_update rdonly true (record u { node = record (u.node) { i_mode = 0 } })
              >>= λ x. done (w, x))
          else done (w, u))
      else evict_update rdonly false t >>= λ x. done (w, x)
