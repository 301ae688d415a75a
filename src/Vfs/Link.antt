-- ===== src/Vfs/Link.antt =====
-- fileops.c: the entries of a directory. secondfs_add_link, secondfs_set_link, secondfs_link and
-- secondfs_unlink.
use secondfs_module.Prelude.{
  ℕ, ◌%◌, Bool, Option, none, some, Run, done, out_of_bounds, ◌>>=◌, ltb, ◌==◌, if◌then◌else◌,
  word_mod, set_flag,
}
use secondfs_module.BufferIo.{BufferIo}
use secondfs_module.FileSystem.Sync.{einval}
use secondfs_module.Inode.Node.{iacc, iupd}
use secondfs_module.File.Locate.{DirectoryEntry, create, delete, dirsiz, entry_size}
use secondfs_module.Vfs.Kernel.{
  Dentry, Volume, Kernel, Sought, v2s, s2v, on_vfs, on_node, seek, write_at, entry_bytes,
}

-- The entry that add_link writes: the name, cut off at 28 bytes.
unfoldable pub new_entry : ℕ → (ℕ → ℕ) → ℕ → DirectoryEntry
new_entry i_ino name len = record {
  m_ino = i_ino % word_mod;
  m_name = λ i. if ltb i (if ltb dirsiz len then dirsiz else len) then name i else 0;
}

-- `strcpy(de.m_name, "(deleted)")` over what the structure holds.
unfoldable pub deleted_name : (ℕ → ℕ) → ℕ → ℕ
deleted_name stack i =
    if i == 0
    then 40
    else if i == 1
    then 100
    else if i == 2
    then 101
    else if i == 3
    then 108
    else if i == 4
    then 101
    else if i == 5
    then 116
    else if i == 6
    then 101
    else if i == 7
    then 100
    else if i == 8
    then 41
    else if i == 9
    then 0
    else stack i

-- The entry that unlink writes.
unfoldable pub deleted_entry : (ℕ → ℕ) → DirectoryEntry
unfolding deleted_name
deleted_entry stack = record { m_ino = 0; m_name = deleted_name stack }

-- A pointer that is followed.
abbrev pub follow {ℓ} : {A : Type ℓ} → Option ℕ → (ℕ → Run A) → Run A
follow none f = out_of_bounds
follow (some p) f = f p

module _ (io : BufferIo) (K : Type 0) (k : Kernel io K) where
  -- The end of add_link and of set_link: the directory changes if the write has not failed.
  unfoldable pub conform_written : ℕ → ℕ × Volume io K → ℕ × Volume io K
  unfolding s2v
  conform_written dir (err, w) = if err == 0 then (0, s2v io K k dir w) else (err, w)

  -- add_link behind DELocate.
  unfoldable pub add_located : Dentry → ℕ → Sought io K → Run (ℕ × Volume io K)
  unfolding conform_written write_at entry_bytes new_entry
  add_located dentry p r =
      if r.ret == 0
      then (let w : Volume io K =
            on_node io K p (λ si. record si { i_flag = set_flag si.i_flag (set_flag iacc iupd) })
              r.volume in
          write_at io K dentry.d_parent r.m_offset entry_size 0
            (entry_bytes (new_entry (w.vfs_inode p).i_ino dentry.d_name dentry.d_len)) w
          >>= λ x. done (conform_written dentry.d_parent x))
      else done (r.ret, r.volume)

  -- `secondfs_add_link` for the i-node at `p`: 0 or the errno, and the volume.
  unfoldable pub add_link : Dentry → ℕ → Volume io K → Run (ℕ × Volume io K)
  unfolding seek add_located
  add_link dentry p w =
      seek io K dentry.d_parent create dentry.d_name dentry.d_len w >>= add_located dentry p

  -- `secondfs_set_link` for the entry at `offset` of `dir` and the i-node at `p`. A failed write is
  -- reported in the log only; `err` is the field of the parameters, which may not have been set.
  unfoldable pub set_link : ℕ → ℕ → ℕ → ℕ → Bool → Volume io K → Run (Volume io K)
  unfolding write_at entry_bytes s2v
  set_link dir offset err p update_times w =
      write_at io K dir offset 4 err
        (entry_bytes (record { m_ino = (w.vfs_inode p).i_ino % word_mod; m_name = λ i. 0 })) w
      >>= λ (e, t). done (
          s2v io K k dir (
            if update_times
            then on_node io K dir (λ si. record si { i_mtime = k.current_time t % word_mod }) t
            else t))

  -- link behind add_link.
  unfoldable pub link_added : Dentry → ℕ → ℕ × Volume io K → ℕ × Volume io K
  unfolding v2s
  link_added dentry p (err, w) =
      if err == 0
      then (0, v2s io K p (k.d_instantiate dentry p w))
      else (err, k.iput p (v2s io K p (k.unlock_new_inode p (k.inode_dec_link_count p w))))

  -- `secondfs_link`
  unfoldable pub link : Dentry → ℕ → Dentry → Volume io K → Run (ℕ × Volume io K)
  unfolding v2s add_link link_added
  link old_dentry dir dentry w = follow old_dentry.d_inode λ p.
      add_link dentry p (
        v2s io K p (
          k.ihold p (
            k.inode_inc_link_count p
              (on_vfs io K p (λ v. record v { i_ctime = k.current_time w }) w))))
      >>= λ r. done (link_added dentry p r)

  -- unlink behind WriteI.
  unfoldable pub unlink_written : ℕ → ℕ → ℕ × Volume io K → ℕ × Volume io K
  unfolding s2v v2s
  unlink_written dir p (err, w) =
      let w1 : Volume io K = s2v io K k dir w in
      let w2 : Volume io K =
        on_vfs io K p (λ v. record v { i_ctime = (w1.vfs_inode dir).i_ctime }) w1 in
      if err == 0 then (0, v2s io K dir (k.inode_dec_link_count p w2)) else (err, w)

  -- unlink behind DELocate; `stack` is what the memory of the new entry holds.
  unfoldable pub unlink_located : (ℕ → ℕ) → ℕ → ℕ → Sought io K → Run (ℕ × Volume io K)
  unfolding write_at entry_bytes deleted_entry unlink_written
  unlink_located stack dir p r =
      if r.ret == 0
      then (follow r.inop λ ino.
          if ino == (r.volume.vfs_inode p).i_ino
          then (write_at io K dir r.m_offset entry_size 0 (entry_bytes (deleted_entry stack))
                r.volume
              >>= λ x. done (unlink_written dir p x))
          else done (einval, r.volume))
      else done (r.ret, r.volume)

  -- `secondfs_unlink`
  unfoldable pub unlink : (ℕ → ℕ) → ℕ → Dentry → Volume io K → Run (ℕ × Volume io K)
  unfolding seek unlink_located
  unlink stack dir dentry w =
      follow dentry.d_inode
        λ p. seek io K dir delete dentry.d_name dentry.d_len w >>= unlink_located stack dir p
