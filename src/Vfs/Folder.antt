-- ===== src/Vfs/Folder.antt =====
-- fileops.c: secondfs_add_dots, secondfs_mkdir, secondfs_rmdir and secondfs_readdir.
use secondfs_module.Prelude.{
  ℕ, ◌+◌, ◌-◌, ◌*◌, ◌%◌, ◌^◌, Bool, none, some, Result, value, error, Run, done, ◌>>=◌, ltb, ◌==◌,
  if◌then◌else◌, word_mod, minus_one, set_flag,
}
use secondfs_module.BufferIo.{BufferIo}
use secondfs_module.FileSystem.SuperBlock.{SuperBlock}
use secondfs_module.File.Locate.{
  DirectoryEntry, check_empty, list, entry_size, Query, Search, de_locate,
}
use secondfs_module.Inode.Bmap.{Fs}
use secondfs_module.Vfs.Inode.{dir_operations}
use secondfs_module.Vfs.Kernel.{
  Dentry, Volume, Kernel, Sought, v2s, on_vfs, seek, write_at, entry_bytes, enotempty, fs_at,
  put_at,
}
use secondfs_module.Vfs.Link.{follow, add_link, unlink, conform_written}
use secondfs_module.Vfs.Create.{new_inode}

-- The volume keeps entries "." and "..".
abbrev pub has_dots : SuperBlock → Bool
has_dots sb = sb.s_has_dots == minus_one

-- The entry "." or "..", with `dots` dots; the root directory, number 0, has the number -1 here.
unfoldable pub dots_entry : ℕ → ℕ → DirectoryEntry
dots_entry dots i_ino = record {
  m_ino = if i_ino % word_mod == 0 then minus_one else i_ino % word_mod;
  m_name = λ i. if ltb i dots then 46 else 0;
}

-- `ctx->pos` lies behind the last entry; the difference is taken on 64 bits.
unfoldable pub is_past : Bool → ℕ → ℕ → Bool
is_past dots i_size pos =
    if dots
    then ltb ((i_size + 2 ^ 64 - entry_size) % 2 ^ 64) pos
    else ltb ((i_size + 2 * entry_size - entry_size) % 2 ^ 64) pos

module _ (io : BufferIo) (K : Type 0) (k : Kernel io K) where
  -- add_dots behind the first WriteI.
  unfoldable pub second_dots : ℕ → ℕ → ℕ × Volume io K → Run (ℕ × Volume io K)
  unfolding write_at entry_bytes dots_entry conform_written
  second_dots p parent (err, w) =
      if err == 0
      then (write_at io K p entry_size entry_size 0
            (entry_bytes (dots_entry 2 (w.vfs_inode parent).i_ino)) w
          >>= λ x. done (conform_written io K k p x))
      else done (err, w)

  -- `secondfs_add_dots` for the directory at `p`. `err` is what the field of the parameters holds,
  -- which is not set before the first WriteI.
  unfoldable pub add_dots : ℕ → ℕ → ℕ → Volume io K → Run (ℕ × Volume io K)
  unfolding second_dots
  add_dots err p parent w =
      if has_dots w.super
      then (write_at io K p 0 entry_size err (entry_bytes (dots_entry 1 (w.vfs_inode p).i_ino)) w
          >>= second_dots p parent)
      else done (0, w)

  -- `out_fail` of mkdir.
  unfoldable pub mkdir_fail : ℕ → ℕ → Volume io K → ℕ × Volume io K
  unfolding v2s
  mkdir_fail err p w =
      (err, v2s io K p (k.iput p (k.unlock_new_inode p (k.inode_dec_link_count p w))))

  -- mkdir behind add_link.
  unfoldable pub mkdir_linked : Dentry → ℕ → ℕ × Volume io K → ℕ × Volume io K
  unfolding mkdir_fail
  mkdir_linked dentry p (err, w) =
      if err == 0
      then (0, k.d_instantiate dentry p (k.unlock_new_inode p w))
      else mkdir_fail err p w

  -- mkdir behind add_dots.
  unfoldable pub mkdir_dotted : Dentry → ℕ → ℕ × Volume io K → Run (ℕ × Volume io K)
  unfolding add_link mkdir_linked
  mkdir_dotted dentry p (err, w) =
      if err == 0
      then (add_link io K k dentry p w >>= λ x. done (mkdir_linked dentry p x))
      else done (mkdir_fail err p w)

  -- mkdir behind new_inode.
  unfoldable pub mkdir_new : ℕ → ℕ → Dentry → Result ℕ × Volume io K → Run (ℕ × Volume io K)
  unfolding v2s add_dots mkdir_dotted
  mkdir_new err dir dentry (error e, w) =
      done (e, if has_dots w.super then k.inode_dec_link_count dir w else w)
  mkdir_new err dir dentry (value p, w) =
      let w1 : Volume io K = on_vfs io K p (λ v. record v { i_op = dir_operations }) w in
      let w2 : Volume io K =
        if has_dots w1.super then v2s io K p (k.inode_inc_link_count p w1) else w1 in
      add_dots err p dir w2 >>= mkdir_dotted dentry p

  -- `secondfs_mkdir`
  unfoldable pub mkdir : ℕ → ℕ → Dentry → ℕ → Volume io K → Run (ℕ × Volume io K)
  unfolding v2s new_inode mkdir_new
  mkdir err dir dentry mode w =
      let w1 : Volume io K =
        if has_dots w.super then v2s io K dir (k.inode_inc_link_count dir w) else w in
      new_inode io K k dir (set_flag mode 0x4000) w1 >>= mkdir_new err dir dentry

  -- rmdir behind unlink.
  unfoldable pub rmdir_unlinked : ℕ → ℕ → ℕ × Volume io K → ℕ × Volume io K
  unfolding v2s
  rmdir_unlinked dir p (err, w) =
      let w1 : Volume io K = on_vfs io K p (λ v. record v { i_size = 0 }) w in
      let w2 : Volume io K =
        v2s io K p (if has_dots w1.super then k.inode_dec_link_count p w1 else w1) in
      if err == 0
      then (0, if has_dots w2.super then v2s io K dir (k.inode_dec_link_count dir w2) else w2)
      else (err, w)

  -- rmdir behind DELocate, whose return value is not looked at: the directory counts as empty if the
  -- offset is not 0.
  unfoldable pub rmdir_sought : (ℕ → ℕ) → ℕ → Dentry → ℕ → Sought io K → Run (ℕ × Volume io K)
  unfolding unlink rmdir_unlinked
  rmdir_sought stack dir dentry p r =
      if r.m_offset == 0
      then done (enotempty, r.volume)
      else unlink io K k stack dir dentry r.volume >>= λ x. done (rmdir_unlinked dir p x)

  -- `secondfs_rmdir`
  unfoldable pub rmdir : (ℕ → ℕ) → ℕ → Dentry → Volume io K → Run (ℕ × Volume io K)
  unfolding seek rmdir_sought
  rmdir stack dir dentry w =
      follow dentry.d_inode λ p.
        seek io K p check_empty dentry.d_name dentry.d_len w >>= rmdir_sought stack dir dentry p

  -- The listing of DELocate, whose callback is `dir_emit`.
  abbrev pub listing : Query K
  listing = record { mode = list; name = λ i. 0; namelen = 0; dir_emit = k.dir_emit }

  -- `ctx->pos` and the volume behind the listing.
  unfoldable pub listed : ℕ → ℕ → Volume io K → Search K (Fs io) → ℕ × Volume io K
  listed pos p w t = (
    elim t.ppos [ none ↦ pos | some pos' ↦ pos' ],
    record (put_at io K p t.fs w) { kernel = t.ctx },
  )

  -- readdir behind "." and "..".
  unfoldable pub list_entries : ℕ → ℕ → Volume io K → Run (ℕ × Volume io K)
  unfolding de_locate listed
  list_entries p pos w =
      let offset =
        if has_dots w.super
        then pos % word_mod
        else (pos % word_mod + word_mod - 2 * entry_size) % word_mod in
      de_locate io K listing offset w.kernel (fs_at io K p w) >>= λ (ret, t).
      done (listed pos p w t)

  unfoldable pub list_dotdot : ℕ → ℕ → Volume io K → Run (ℕ × Volume io K)
  unfolding list_entries
  list_dotdot p pos w =
      let (go_on, c) = k.dir_emit_dotdot w.kernel in
      if ltb pos (2 * entry_size)
      then (if go_on
          then list_entries p (2 * entry_size) (record w { kernel = c })
          else done (pos, record w { kernel = c }))
      else list_entries p pos w

  unfoldable pub list_dot : ℕ → ℕ → Volume io K → Run (ℕ × Volume io K)
  unfolding list_dotdot
  list_dot p pos w =
      let (go_on, c) = k.dir_emit_dot w.kernel in
      if ltb pos entry_size
      then (if go_on
          then list_dotdot p entry_size (record w { kernel = c })
          else done (pos, record w { kernel = c }))
      else list_dotdot p pos w

  -- `secondfs_readdir` of the directory at `p` from `ctx->pos` on: the new `ctx->pos` and the volume.
  -- It always returns 0.
  unfoldable pub readdir : ℕ → ℕ → Volume io K → Run (ℕ × Volume io K)
  unfolding is_past list_dot
  readdir p pos w =
      if is_past (has_dots w.super) (w.vfs_inode p).i_size pos
      then done (pos, w)
      else list_dot p pos w
