-- ===== src/Vfs/Create.antt =====
-- secondfs_new_inode of inode.c, and of fileops.c secondfs_add_nondir, secondfs_create and
-- secondfs_lookup.
use secondfs_module.Prelude.{
  ℕ, ◌&&◌, Bool, not, Option, none, some, Result, value, error, Run, done, ◌>>=◌, ltb, ◌==◌,
  if◌then◌else◌,
}
use secondfs_module.BufferIo.{BufferIo}
use secondfs_module.FileSystem.SuperBlock.{SuperBlock}
use secondfs_module.FileSystem.Inodes.{ialloc}
use secondfs_module.Inode.Node.{Inode}
use secondfs_module.Inode.ReadWrite.{enospc}
use secondfs_module.File.Locate.{open_entry, dirsiz, enoent}
use secondfs_module.Vfs.Inode.{file_operations}
use secondfs_module.Vfs.Kernel.{
  Dentry, Volume, Kernel, Sought, v2s, s2v, on_vfs, seek, eio, enametoolong,
}
use secondfs_module.Vfs.Super.{iget}
use secondfs_module.Vfs.Link.{follow, add_link}

module _ (io : BufferIo) (K : Type 0) (k : Kernel io K) where
  open io use {Pool}

  -- new_inode behind insert_inode_locked.
  unfoldable pub new_inserted : ℕ → Bool × Volume io K → Result ℕ × Volume io K
  unfolding v2s
  new_inserted p (inserted, w) =
      if inserted then (value p, v2s io K p w) else (error eio, k.iput p (k.make_bad_inode p w))

  -- new_inode behind IAlloc, with the i-node at `p`.
  unfoldable pub new_allocated : ℕ → ℕ → ℕ → Volume io K → Result ℕ × Volume io K
  unfolding s2v new_inserted
  new_allocated p dir mode w =
      let w1 : Volume io K = on_vfs io K p (λ v. record v { i_blocks = 0 }) (s2v io K k p w) in
      let now = k.current_time w1 in
      let w2 : Volume io K =
        on_vfs io K p (λ v. record v { i_mtime = now; i_atime = now; i_ctime = now }) w1 in
      new_inserted p
        (k.insert_inode_locked p (k.mark_inode_dirty p (k.inode_init_owner p (some dir) mode w2)))

  -- The i-node that IAlloc returns is the one at the pointer.
  unfoldable pub new_named :
      Option ℕ
      → ℕ
      → ℕ
      → Volume io K
      → Volume io K
      → Option Inode × SuperBlock × Pool
      → Result ℕ × Volume io K
  unfolding new_allocated
  new_named none dir mode w w1 (r, sb, q) = (error enospc, record w { super = sb; pool = q })
  new_named (some p) dir mode w w1 (none, sb, q) = (error enospc, record w { super = sb; pool = q })
  new_named (some p) dir mode w w1 (some si, sb, q) =
      new_allocated p dir mode
        (record w1 { super = sb; pool = q; node = λ j. if j == p then si else w1.node j })

  -- `secondfs_new_inode`. The i-node that the kernel allocates within IAlloc is asked for before it;
  -- where IAlloc returns NULL, the volume is as if it had not been.
  unfoldable pub new_inode : ℕ → ℕ → Volume io K → Run (Result ℕ × Volume io K)
  unfolding ialloc new_named
  new_inode dir mode w =
      let (fresh, w1) = k.new_inode w in
      let si : Option Inode = elim fresh [ none ↦ none | some p ↦ some (w1.node p) ] in
      ialloc io (k.ilookup w) si w.super w.pool >>= λ r. done (new_named fresh dir mode w w1 r)

  -- add_nondir behind add_link.
  unfoldable pub nondir_added : Dentry → ℕ → ℕ × Volume io K → ℕ × Volume io K
  unfolding v2s
  nondir_added dentry p (err, w) =
      if err == 0
      then (0, k.d_instantiate dentry p (k.unlock_new_inode p w))
      else (err, k.iput p (k.unlock_new_inode p (v2s io K p (k.inode_dec_link_count p w))))

  -- `secondfs_add_nondir`
  unfoldable pub add_nondir : Dentry → ℕ → Volume io K → Run (ℕ × Volume io K)
  unfolding add_link nondir_added
  add_nondir dentry p w = add_link io K k dentry p w >>= λ r. done (nondir_added dentry p r)

  -- create behind new_inode, which never returns NULL.
  unfoldable pub create_new : Dentry → Result ℕ × Volume io K → Run (ℕ × Volume io K)
  unfolding add_nondir v2s
  create_new dentry (error e, w) = done (e, w)
  create_new dentry (value p, w) =
      add_nondir dentry p
        (k.mark_inode_dirty p (on_vfs io K p (λ v. record v { i_op = file_operations }) w))
      >>= λ (ret, t). done (ret, v2s io K p t)

  -- `secondfs_create`
  unfoldable pub create_file : ℕ → Dentry → ℕ → Volume io K → Run (ℕ × Volume io K)
  unfolding new_inode create_new
  create_file dir dentry mode w = new_inode dir mode w >>= create_new dentry

  abbrev pub LookedUp : Type 0
  LookedUp = Result (Option Dentry) × Volume io K

  -- lookup behind iget: an error pointer or NULL is EIO.
  unfoldable pub lookup_got : Dentry → Result (Option ℕ) × Volume io K → LookedUp
  lookup_got dentry (error e, w) = (error eio, w)
  lookup_got dentry (value none, w) = (error eio, w)
  lookup_got dentry (value (some p), w) = k.d_splice_alias (some p) dentry w

  -- lookup behind DELocate.
  unfoldable pub lookup_located : Dentry → Sought io K → Run LookedUp
  unfolding iget lookup_got
  lookup_located dentry r =
      if not (r.ret == 0) && not (r.ret == enoent)
      then done (error r.ret, r.volume)
      else if r.ret == enoent
      then done (k.d_splice_alias none dentry r.volume)
      else follow r.inop λ ino. done (lookup_got dentry (iget io K k ino r.volume))

  -- `secondfs_lookup` in the directory at `dir`.
  unfoldable pub lookup : ℕ → Dentry → Volume io K → Run LookedUp
  unfolding seek lookup_located
  lookup dir dentry w =
      if ltb dirsiz dentry.d_len
      then done (error enametoolong, w)
      else seek io K dir open_entry dentry.d_name dentry.d_len w >>= lookup_located dentry
