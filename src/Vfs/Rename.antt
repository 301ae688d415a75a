-- ===== src/Vfs/Rename.antt =====
-- fileops.c: secondfs_rename.
use secondfs_module.Prelude.{
  ℕ, ◌&&◌, Bool, true, false, none, some, Run, done, ◌>>=◌, leb, ◌==◌, if◌then◌else◌,
}
use secondfs_module.BufferIo.{BufferIo}
use secondfs_module.FileSystem.Sync.{einval}
use secondfs_module.File.Locate.{
  open_entry, delete, check_empty, open_not_ignore_dots, entry_size, enoent,
}
use secondfs_module.Vfs.Inode.{eperm}
use secondfs_module.Vfs.Kernel.{
  Dentry, Volume, Kernel, Sought, v2s, s2v, on_vfs, seek, write_at, entry_bytes, enotempty,
}
use secondfs_module.Vfs.Super.{is_dir}
use secondfs_module.Vfs.Link.{follow, add_link, set_link}
use secondfs_module.Vfs.Folder.{has_dots}

-- "..", the name that rename looks for in a directory that it moves.
abbrev pub dotdot : ℕ → ℕ
dotdot i = if leb 2 i then 0 else 46

-- What the parts of rename share: the i-nodes of the two directories, the i-node that is moved,
-- whether it is a directory, the name and the i-node at the target, and the two offsets that DELocate
-- found: of the entry to remove, and of "..".
pub record Moving : Type 0 where
  pub old_dir : ℕ
  pub new_dir : ℕ
  pub old_inode : ℕ
  pub source_is_dir : Bool
  pub new_dentry : Dentry
  pub offset : ℕ
  pub offset_dot : ℕ

-- `stack` is what the memory of the new entry holds, `err` the field of parameters that is not set.
module _ (io : BufferIo) (K : Type 0) (k : Kernel io K) (stack : ℕ → ℕ) (err : ℕ) where
  -- A directory is moved, and has an entry "..".
  abbrev pub moves_dots : Moving → Volume io K → Bool
  moves_dots m w = m.source_is_dir && has_dots w.super

  -- ".." leads to the new directory, and the old one has one link less.
  unfoldable pub relink_dotdot : Moving → Volume io K → Run (ℕ × Volume io K)
  unfolding set_link v2s
  relink_dotdot m w =
      (if m.old_dir == m.new_dir
        then done w
        else set_link io K k m.old_inode m.offset_dot 0 m.new_dir false w)
      >>= λ t. done (0, v2s io K m.old_dir (k.inode_dec_link_count m.old_dir t))

  -- rename behind the WriteI that removes the source.
  unfoldable pub removed : Moving → ℕ × Volume io K → Run (ℕ × Volume io K)
  unfolding s2v relink_dotdot
  removed m (e, w) =
      let w1 : Volume io K = s2v io K k m.old_dir w in
      if e == 0 then (if moves_dots m w1 then relink_dotdot m w1 else done (0, w1)) else done (e, w)

  -- The i-nodes are conformed once the target has its new entry.
  unfoldable pub conform_all : Moving → Volume io K → Volume io K
  unfolding v2s
  conform_all m w =
      let w1 : Volume io K = v2s io K m.new_dir (
        k.mark_inode_dirty m.old_inode
          (on_vfs io K m.old_inode (λ v. record v { i_ctime = k.current_time w }) w)) in
      let w2 : Volume io K = elim m.new_dentry.d_inode [ none ↦ w1 | some n ↦ v2s io K n w1 ] in
      v2s io K m.old_inode (v2s io K m.old_dir w2)

  -- The entry of the source is removed.
  unfoldable pub remove_source : Moving → Volume io K → Run (ℕ × Volume io K)
  unfolding conform_all write_at entry_bytes removed
  remove_source m w =
      write_at io K m.old_dir m.offset entry_size 0
        (entry_bytes (record { m_ino = 0; m_name = stack })) (conform_all m w)
      >>= removed m

  -- The i-node `n` that is replaced has a link less, or two.
  unfoldable pub unlink_target : Moving → ℕ → Volume io K → Volume io K
  unlink_target m n w = k.inode_dec_link_count n (if moves_dots m w then k.drop_nlink n w else w)

  -- The search for the target in the new directory has ended.
  unfoldable pub replace_located : Moving → ℕ → Sought io K → Run (ℕ × Volume io K)
  unfolding set_link unlink_target remove_source
  replace_located m n r =
      if r.ret == 0
      then (set_link io K k m.new_dir r.m_offset err m.old_inode true r.volume >>= λ w.
          remove_source m (unlink_target m n w))
      else done (r.ret, r.volume)

  -- The entry of the target is made to lead to the i-node that is moved.
  unfoldable pub replace : Moving → ℕ → Volume io K → Run (ℕ × Volume io K)
  unfolding seek replace_located
  replace m n w =
      seek io K m.new_dir open_entry m.new_dentry.d_name m.new_dentry.d_len w
      >>= replace_located m n

  -- The search for entries in the target directory has ended. Where it has failed, the result is
  -- that of the search for the source, 0.
  unfoldable pub replace_checked : Moving → ℕ → Sought io K → Run (ℕ × Volume io K)
  unfolding replace
  replace_checked m n r =
      if r.ret == 0
      then (if r.m_offset == 0 then done (enotempty, r.volume) else replace m n r.volume)
      else done (0, r.volume)

  -- The target exists.
  unfoldable pub rename_onto : Moving → ℕ → Volume io K → Run (ℕ × Volume io K)
  unfolding replace_checked is_dir
  rename_onto m n w =
      if m.source_is_dir
      then (if is_dir (w.vfs_inode n)
          then seek io K n check_empty m.new_dentry.d_name m.new_dentry.d_len w
            >>= replace_checked m n
          else done (eperm, w))
      else replace m n w

  -- rename behind add_link.
  unfoldable pub fresh_linked : Moving → ℕ × Volume io K → Run (ℕ × Volume io K)
  unfolding remove_source
  fresh_linked m (e, w) =
      if e == 0
      then remove_source m (if moves_dots m w then k.inode_inc_link_count m.new_dir w else w)
      else done (e, w)

  -- The target is looked at: it gets a new entry, or its entry is changed.
  unfoldable pub rename_target : Moving → Volume io K → Run (ℕ × Volume io K)
  unfolding rename_onto add_link fresh_linked
  rename_target m w = elim m.new_dentry.d_inode [
    | none ↦ add_link io K k m.new_dentry m.old_inode w >>= fresh_linked m
    | some n ↦ rename_onto m n w
  ]

  -- The search for ".." has ended. Where it has failed, the result is that of the search for the
  -- source, 0.
  unfoldable pub dotdot_located : Moving → Sought io K → Run (ℕ × Volume io K)
  unfolding rename_target
  dotdot_located m r =
      if r.ret == 0
      then rename_target (record m { offset_dot = r.m_offset }) r.volume
      else done (0, r.volume)

  -- The search for the source has ended.
  unfoldable pub source_located : Moving → Sought io K → Run (ℕ × Volume io K)
  unfolding dotdot_located seek
  source_located m r =
      let m' : Moving = record m { offset = r.m_offset } in
      if r.ret == 0
      then (if moves_dots m' r.volume
          then seek io K m.old_inode open_not_ignore_dots dotdot 2 r.volume >>= dotdot_located m'
          else rename_target m' r.volume)
      else done (enoent, r.volume)

  -- `secondfs_rename`: 0 or the errno, and the volume. All flags but RENAME_NOREPLACE are refused.
  unfoldable pub rename : ℕ → Dentry → ℕ → Dentry → ℕ → Volume io K → Run (ℕ × Volume io K)
  unfolding source_located is_dir
  rename old_dir old_dentry new_dir new_dentry flags w =
      if leb 2 flags
      then done (einval, w)
      else (follow old_dentry.d_inode λ p.
          seek io K old_dir delete old_dentry.d_name old_dentry.d_len w
          >>= source_located (record {
            old_dir = old_dir;
            new_dir = new_dir;
            old_inode = p;
            source_is_dir = is_dir (w.vfs_inode p);
            new_dentry = new_dentry;
            offset = 0;
            offset_dot = 0;
          }))
