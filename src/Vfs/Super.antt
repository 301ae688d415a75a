-- ===== src/Vfs/Super.antt =====
-- super.c: secondfs_iget, secondfs_iget_forcc, secondfs_sync_fs, secondfs_write_super,
-- secondfs_fill_super and secondfs_put_super.
use Prim.Native.Nat.{bit_and}
use secondfs_module.Prelude.{
  ℕ, ◌+◌, ◌*◌, ◌%◌, Bool, true, false, not, Option, none, some, Result, value, error, Run, done,
  out_of_bounds, if◌then◌else◌, ◌==◌, word_mod, minus_one,
}
use secondfs_module.BufferIo.{Buf, BufferIo}
use secondfs_module.FileSystem.SuperBlock.{SuperBlock}
use secondfs_module.FileSystem.Sync.{load_super_block, update_super_block}
use secondfs_module.Inode.Disk.{icopy, inode_sector}
use secondfs_module.Vfs.Mode.{s_ifmt}
use secondfs_module.Vfs.Inode.{VfsInode, Operations, file_operations, dir_operations}
use secondfs_module.Vfs.Kernel.{Volume, Kernel, s2v, on_vfs, on_node, enomem}

-- The tables for an i-node by its mode: those of a file, those of a directory, or as before.
unfoldable pub operations : ℕ → Operations → Operations
operations i_mode before =
    if bit_and i_mode s_ifmt == 0x8000
    then file_operations
    else if bit_and i_mode s_ifmt == 0x4000
    then dir_operations
    else before

-- `S_ISDIR(inode->i_mode)`
unfoldable pub is_dir : VfsInode → Bool
is_dir v = bit_and v.i_mode s_ifmt == 0x4000

-- 512 bytes in each of the blocks that an index of two levels reaches.
abbrev pub maxbytes : ℕ
maxbytes = 512 * (128 * 128 * 2 + 128 * 2 + 6)

module _ (io : BufferIo) (K : Type 0) (k : Kernel io K) where
  open io use {Pool, bread, brelse, bflush}

  -- iget from the read of the sector on; NULL is `value none`. A failed read is an error pointer, so
  -- that the test of B_ERROR behind it is never reached.
  unfoldable pub iget_read :
      ℕ → ℕ → Result Buf × Pool → Volume io K → Result (Option ℕ) × Volume io K
  unfolding operations icopy s2v
  iget_read ino p (error e, q) w = (value none, k.iget_failed p (record w { pool = q }))
  iget_read ino p (value buf, q) w =
      let w1 : Volume io K =
        s2v io K k p (on_node io K p (icopy buf.b_addr ino) (record w { pool = q })) in
      let w2 : Volume io K =
        on_vfs io K p (λ v. record v { i_op = operations v.i_mode v.i_op }) w1 in
      (value (some p), k.unlock_new_inode p (record w2 { pool = brelse buf w2.pool }))

  -- iget behind iget_locked.
  unfoldable pub iget_got : ℕ → Option (ℕ × Bool) × Volume io K → Result (Option ℕ) × Volume io K
  unfolding iget_read
  iget_got ino (none, w) = (error enomem, w)
  iget_got ino (some (p, false), w) = (value (some p), w)
  iget_got ino (some (p, true), w) =
      iget_read ino p (bread (inode_sector ino) w.pool)
        (on_node io K p (λ si. record si { i_number = ino % word_mod; i_lastr = minus_one }) w)

  -- `secondfs_iget`
  unfoldable pub iget : ℕ → Volume io K → Result (Option ℕ) × Volume io K
  unfolding iget_got
  iget ino w = iget_got ino (k.iget_locked ino w)

  -- The i-node that contains the VFS half; no error pointer and no NULL is looked for.
  unfoldable pub container_of : Result (Option ℕ) × Volume io K → Run (Option ℕ × Volume io K)
  container_of (error e, w) = out_of_bounds
  container_of (value none, w) = out_of_bounds
  container_of (value (some p), w) = done (some p, w)

  -- What follows the first of the two calls of iget.
  unfoldable pub iget_again : ℕ → Result (Option ℕ) × Volume io K → Run (Option ℕ × Volume io K)
  unfolding container_of
  iget_again ino (error e, w) = done (none, w)
  iget_again ino (value none, w) = done (none, w)
  iget_again ino (value (some p), w) = container_of (iget ino w)

  -- `secondfs_iget_forcc`
  unfoldable pub iget_forcc : ℕ → Volume io K → Run (Option ℕ × Volume io K)
  unfolding iget_again
  iget_forcc ino w = iget_again ino (iget ino w)

  -- `secondfs_sync_fs`
  unfoldable pub sync_fs : Bool → Volume io K → Volume io K
  unfolding update_super_block
  sync_fs wait w =
      let (sb, p) = update_super_block io (k.current_time w % word_mod) w.super w.pool in
      if not wait then w else if w.rdonly then w else record w { super = sb; pool = p }

  -- `secondfs_write_super`
  unfoldable pub write_super : Volume io K → Volume io K
  write_super w = if w.rdonly then w else sync_fs true w

  -- `secondfs_put_super`, but for the memory that it frees.
  unfoldable pub put_super : Volume io K → Volume io K
  put_super w =
      let w' : Volume io K = if w.rdonly then w else sync_fs true w in
      record w' { pool = bflush w'.pool }

  -- The root has a dentry.
  unfoldable pub fill_rooted : Option ℕ → Volume io K → Run (ℕ × Volume io K)
  fill_rooted none w = out_of_bounds
  fill_rooted (some p) w =
      done (0, write_super (k.inode_init_owner p none (w.vfs_inode p).i_mode w))

  -- fill_super behind the call of d_make_root.
  unfoldable pub fill_dentry : Option ℕ → Bool × Volume io K → Run (ℕ × Volume io K)
  unfolding fill_rooted
  fill_dentry root (false, w) = done (enomem, w)
  fill_dentry root (true, w) = fill_rooted root w

  -- fill_super behind the call of iget. An error pointer is given to iput, which follows it.
  unfoldable pub fill_root : Result (Option ℕ) × Volume io K → Run (ℕ × Volume io K)
  unfolding fill_dentry
  fill_root (error e, w) = out_of_bounds
  fill_root (value root, w) = fill_dentry root (k.d_make_root root w)

  -- fill_super behind LoadSuperBlock.
  unfoldable pub fill_loaded : ℕ × SuperBlock × Pool → Volume io K → Run (ℕ × Volume io K)
  unfolding fill_root
  fill_loaded (ret, sb, p) w =
      let w' : Volume io K = record w {
        super = sb;
        pool = p;
        s_maxbytes = maxbytes;
        rdonly = if sb.s_ronly == 0 then w.rdonly else true;
      } in
      if ret == 0 then fill_root (iget 0 w') else done (ret, record w { pool = p })

  -- `secondfs_fill_super`: 0 or the errno, and the volume; `new_super` is what `newSuperBlock`
  -- returns.
  unfoldable pub fill_super : SuperBlock → Volume io K → Run (ℕ × Volume io K)
  unfolding load_super_block fill_loaded
  fill_super new_super w =
      fill_loaded (load_super_block io (k.current_time w % word_mod) new_super w.pool) w
