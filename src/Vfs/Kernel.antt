-- ===== src/Vfs/Kernel.antt =====
-- The i-nodes in memory together, and the calls of the Linux kernel that inode.c, super.c and
-- fileops.c make, as an interface. An i-node is named by its pointer, a number.
use secondfs_module.Prelude.{
  ℕ, ◌-◌, Bool, false, Option, Result, Run, done, ◌>>=◌, update, if◌then◌else◌, ltb,
}
use secondfs_module.Block.{byte_of}
use secondfs_module.BufferIo.{BufferIo}
use secondfs_module.FileSystem.SuperBlock.{SuperBlock}
use secondfs_module.Inode.Node.{Inode, has_flag, iupd}
use secondfs_module.Inode.Bmap.{Fs}
use secondfs_module.Inode.ReadWrite.{write_i}
use secondfs_module.File.Locate.{SearchMode, DirectoryEntry, Query, Search, de_locate}
use secondfs_module.Vfs.Inode.{VfsInode, conform_v2s, conform_s2v}

-- The mounted volume: the super block, the buffers, both halves of each i-node in memory, and what
-- the kernel keeps. `rdonly` is the flag SB_RDONLY of the super block of the VFS.
pub record World (Pool K : Type 0) : Type 0 where
  pub super : SuperBlock
  pub pool : Pool
  pub rablock : ℕ
  pub node : ℕ → Inode
  pub vfs_inode : ℕ → VfsInode
  pub rdonly : Bool
  pub s_maxbytes : ℕ
  pub kernel : K

-- `ENOMEM`, `EIO`, `ENAMETOOLONG` and `ENOTEMPTY`
abbrev pub enomem : ℕ
enomem = 12

abbrev pub eio : ℕ
eio = 5

abbrev pub enametoolong : ℕ
enametoolong = 36

abbrev pub enotempty : ℕ
enotempty = 39

-- The name in a directory; `d_parent` is the i-node of the directory, `d_inode` the i-node that the
-- name stands for, none for NULL.
pub record Dentry : Type 0 where
  pub d_name : ℕ → ℕ
  pub d_len : ℕ
  pub d_parent : ℕ
  pub d_inode : Option ℕ

-- What the callback of DELocate is outside a listing, where it is not called.
abbrev pub no_emit : (ℕ → ℕ) → ℕ → ℕ → Unit {0} → Bool × Unit {0}
no_emit name len ino c = (false, c)

abbrev pub query : SearchMode → (ℕ → ℕ) → ℕ → Query (Unit {0})
query mode name len = record { mode = mode; name = name; namelen = len; dir_emit = no_emit }

module _ (io : BufferIo) (K : Type 0) where
  abbrev pub Volume : Type 0
  Volume = World (io.Pool) K

  -- The calls of the kernel. A call on an i-node takes its pointer.
  pub record Kernel : Type 0 where
    -- The i-node of that number, with a reference more, and whether it is I_NEW; none for NULL.
    pub iget_locked : ℕ → Volume → Option (ℕ × Bool) × Volume
    pub iget_failed : ℕ → Volume → Volume
    pub unlock_new_inode : ℕ → Volume → Volume
    -- `secondfs_c_helper_new_inode`
    pub new_inode : Volume → Option ℕ × Volume
    -- `secondfs_c_helper_ilookup_without_iget`
    pub ilookup : Volume → ℕ → Bool
    -- Whether the i-node could be inserted.
    pub insert_inode_locked : ℕ → Volume → Bool × Volume
    pub make_bad_inode : ℕ → Volume → Volume
    pub inode_init_owner : ℕ → Option ℕ → ℕ → Volume → Volume
    pub iput : ℕ → Volume → Volume
    pub ihold : ℕ → Volume → Volume
    pub inode_lock : ℕ → Volume → Run Volume
    pub inode_unlock : ℕ → Volume → Volume
    pub mark_inode_dirty : ℕ → Volume → Volume
    pub mark_inode_dirty_sync : ℕ → Volume → Volume
    pub inode_inc_link_count : ℕ → Volume → Volume
    pub inode_dec_link_count : ℕ → Volume → Volume
    pub drop_nlink : ℕ → Volume → Volume
    -- In seconds.
    pub current_time : Volume → ℕ
    pub file_accessed : ℕ → Volume → Volume
    -- 0 or the errno.
    pub file_update_time : ℕ → Volume → ℕ × Volume
    pub d_instantiate : Dentry → ℕ → Volume → Volume
    pub d_splice_alias : Option ℕ → Dentry → Volume → Result (Option Dentry) × Volume
    -- Whether there was memory for the dentry of the root.
    pub d_make_root : Option ℕ → Volume → Bool × Volume
    -- `dir_emit`, which takes a name, its length and an i-node number, `dir_emit_dot` and
    -- `dir_emit_dotdot`: whether to go on.
    pub dir_emit : (ℕ → ℕ) → ℕ → ℕ → K → Bool × K
    pub dir_emit_dot : K → Bool × K
    pub dir_emit_dotdot : K → Bool × K

  -- What a call on the i-node at `p` works on, and what it leaves.
  abbrev pub fs_at : ℕ → Volume → Fs io
  fs_at p w = record { node = w.node p; super = w.super; pool = w.pool; rablock = w.rablock }

  abbrev pub put_at : ℕ → Fs io → Volume → Volume
  put_at p s w = record w {
    node = update w.node p s.node;
    super = s.super;
    pool = s.pool;
    rablock = s.rablock;
  }

  -- `secondfs_inode_conform_v2s(SECONDFS_INODE(inode), inode)`
  unfoldable pub v2s : ℕ → Volume → Volume
  unfolding conform_v2s
  v2s p w =
      let (si, v) = conform_v2s (w.node p) (w.vfs_inode p) in
      record w { node = update w.node p si; vfs_inode = update w.vfs_inode p v }

  -- A change of the VFS half of the i-node at `p`.
  abbrev pub on_vfs : ℕ → (VfsInode → VfsInode) → Volume → Volume
  on_vfs p f w = record w { vfs_inode = update w.vfs_inode p (f (w.vfs_inode p)) }

  abbrev pub on_node : ℕ → (Inode → Inode) → Volume → Volume
  on_node p f w = record w { node = update w.node p (f (w.node p)) }

  module _ (k : Kernel) where
    open k use {mark_inode_dirty_sync}

    -- `secondfs_inode_conform_s2v(inode, SECONDFS_INODE(inode))`
    unfoldable pub s2v : ℕ → Volume → Volume
    unfolding conform_s2v
    s2v p w =
        let w' : Volume = on_vfs p (λ v. conform_s2v (λ x. x) v (w.node p)) w in
        if has_flag (w.node p).i_flag iupd then mark_inode_dirty_sync p w' else w'

  -- What a search in a directory leaves: `ret`, 0 or the errno, the offset and the i-node number that
  -- were found, and the volume.
  pub record Sought : Type 0 where
    pub ret : ℕ
    pub m_offset : ℕ
    pub inop : Option ℕ
    pub volume : Volume

  abbrev pub sought : ℕ → Volume → ℕ × Search (Unit {0}) (Fs io) → Sought
  sought dir w (ret, t) = record {
    ret = ret;
    m_offset = t.m_offset;
    inop = t.inop;
    volume = put_at dir t.fs w;
  }

  -- `FileManager_DELocate` on the directory at `dir`.
  unfoldable pub seek : ℕ → SearchMode → (ℕ → ℕ) → ℕ → Volume → Run Sought
  unfolding de_locate
  seek dir mode name len w =
      de_locate io (Unit {0}) (query mode name len) 0 tt (fs_at dir w) >>= λ r.
      done (sought dir w r)

  -- `Inode_WriteI` of `count` bytes of a variable of the caller, which holds `bytes`, into the file
  -- at `p`: `err` of the parameters, which is `err` before the call, and the volume.
  unfoldable pub write_at : ℕ → ℕ → ℕ → ℕ → (ℕ → ℕ) → Volume → Run (ℕ × Volume)
  unfolding write_i
  write_at p offset count err bytes w =
      write_i io (
        fs_at p w,
        record {
          m_base = 0;
          m_offset = offset;
          m_count = count;
          is_user_p = 0;
          err = err;
          memory = bytes;
        },
      )
      >>= λ (s, q). done (q.err, put_at p s w)

-- The bytes of a `DirectoryEntry`.
unfoldable pub entry_bytes : DirectoryEntry → ℕ → ℕ
unfolding byte_of
entry_bytes de j = if ltb j 4 then byte_of de.m_ino j else de.m_name (j - 4)
