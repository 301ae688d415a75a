-- ===== src/Vfs/Laws.antt =====
-- What inode.c keeps of an i-node on its way to the disk and back.
use secondfs_module.Prelude.{
  value, Bool-cases, ℕ, ◌+◌, ◌^◌, ◌<◌, ◌≡◌, ◌≢◌, refl, inl, inr, true, false, Run, done,
  out_of_bounds, blocked, bug, out_of_fuel, minus_one, Returns, Returns-bind, ◌>>=◌, ltb, ◌==◌,
  if◌then◌else◌, s32_neg, set_flag, has_flag, arith,
}
use secondfs_module.Block.{Block}
use secondfs_module.BufferIo.{BufferIo}
use secondfs_module.Inode.Node.{Inode, iupd, iacc}
use secondfs_module.Inode.Bmap.{Fs}
use secondfs_module.Inode.Disk.{iupdate, icopy, inode_sector}
use secondfs_module.Inode.Disk.Laws.{
  IsStorable, Synced, Image, iupdate-Synced, sector_of, stored, flushed,
}
use secondfs_module.Vfs.Mode.{is_kind}
use secondfs_module.Vfs.Inode.{
  VfsInode, conform_v2s, conform_s2v, dirty_inode, evict_inode, evict_end, evict_update,
}

-- The i-node of the VFS fits an i-node of the volume: its mode has the type `kind` and the bits `p`.
pub record Fits (v : VfsInode) (kind p : ℕ) : Type 0 where
  pub mode : v.i_mode ≡ kind + p
  pub known : is_kind kind ≡ true
  pub bits : p < 4096
  pub ids : (v.i_uid < 65536) × (v.i_gid < 65536)
  pub nlink : v.i_nlink < 2 ^ 32
  pub numbers : (v.i_ino < 2 ^ 31) × (v.i_size < 2 ^ 31)
  pub times : (v.i_atime < 2 ^ 31) × (v.i_mtime < 2 ^ 31) × (v.i_ctime < 2 ^ 31)

-- The later one of the times of change, which the volume keeps.
abbrev pub changed : VfsInode → ℕ
changed v = if ltb v.i_ctime v.i_mtime then v.i_mtime else v.i_ctime

-- What is left of `v` when both times of change are the later one, and the fields that the volume does
-- not have are those of `v0`.
abbrev pub kept : VfsInode → VfsInode → VfsInode
kept v0 v = record v {
  i_mtime = changed v;
  i_ctime = changed v;
  i_blocks = v0.i_blocks;
  i_op = v0.i_op;
}

module _ (io : BufferIo) where
  open io use {Pool, bread}

  -- The state from which write_inode writes.
  abbrev pub conformed : VfsInode → Fs io → Fs io
  conformed v s = record s { node = (conform_v2s (dirty_inode s.node) v).0 }

  -- The i-node of the VFS that is made of the i-node number `n` in the bytes `b`; `other` is the i-node
  -- in memory before ICopy, `v0` the one of the VFS.
  abbrev pub reread : (VfsInode → VfsInode) → ℕ → Inode → VfsInode → Block → VfsInode
  reread mark n other v0 b = conform_s2v mark v0 (record (icopy b n other) { i_number = n })

  -- One write has been made, its result is returned, and what is made of its bytes is the i-node
  -- that was to be written.
  abbrev pub Rereads :
      (VfsInode → VfsInode) → VfsInode → VfsInode → Inode → Fs io → ℕ × VfsInode × Fs io → Type 0
  Rereads mark v v0 other s (ret, w, u) =
      (new : Block) × (reread mark v.i_ino other v0 new ≡ kept v0 v)
      × (ret ≡ (stored io (conformed v s) new).0)
      × (u ≡ record (conformed v s) { pool = flushed io (stored io (conformed v s) new) })

  -- What evict_inode leaves of a file with links: one write has been made, of the sector with the
  -- i-node in it. If it has succeeded, the i-node in memory counts as not in use; else it stays. No
  -- block and no number is given back: the super block stays.
  abbrev pub Evicted : Fs io → Block → VfsInode × Fs io → Type 0
  Evicted t old (w, u) =
      (new : Block) × Image t.node old new
      × (u ≡ (
          if (stored io t new).0 == 0
          then record t {
            pool = flushed io (stored io t new);
            node = record (t.node) { i_flag = 0; i_number = minus_one };
          }
          else record t { pool = flushed io (stored io t new) }))

  -- The end of evict_inode behind IUpdate, for a file that stays.
  evict_after : ℕ × Fs io → Run (Fs io)
  evict_after (ret, t) = if ret == 0 then done (evict_end io false t) else done t

  evict_after-Evicted :
      (t : Fs io) (old : Block) (w : VfsInode) (ret : ℕ) (u : Fs io)
      → Synced io t old (ret, u)
      → Returns (Evicted t old) (evict_after (ret, u) >>= λ x. done (w, x))
  unfolding evict_after evict_end
  evict_after-Evicted t old w ret u (new, image, result, after) =
      rw (result, after)
        (elim (Bool-cases ((stored io t new).0 == 0)) [
          | inl good ↦ rw good (new, image, rw good refl)
          | inr fails ↦ rw fails (new, image, rw fails refl)
        ])

  evict_inode-eq :
      (v : VfsInode) (s : Fs io)
      → v.i_nlink ≢ 0
      → evict_inode io false v s ≡ (
          (iupdate io (record s { node = (conform_v2s s.node v).0 }) >>= evict_after) >>= λ x.
          done ((conform_v2s s.node v).1, x))
  unfolding evict_inode evict_update evict_after
  evict_inode-eq v s linked = let test : (v.i_nlink == 0) ≡ false = ground arith in rw test refl

  bind-bind :
      {A B C : Type 0} (r : Run A) (f : A → Run B) (g : B → Run C)
      → ((r >>= f) >>= g) ≡ (r >>= λ a. f a >>= g)
  bind-bind (done a) f g = refl
  bind-bind out_of_bounds f g = refl
  bind-bind blocked f g = refl
  bind-bind bug f g = refl
  bind-bind out_of_fuel f g = refl

  -- evict_inode of a file with links, that is to be updated, on a volume that is not read-only: it
  -- gives back no block and no i-node number, and makes one write, of the sector of the i-node, with
  -- bytes from which ICopy reads back the i-node that agrees with that of the VFS; if the write has
  -- succeeded, the i-node in memory counts as not in use, else it stays. The fields must fit the
  -- volume, and the read of the sector succeed.
  pub evict_linked-Evicted :
      (v : VfsInode) (s : Fs io) (old : Block)
      → let t : Fs io = record s { node = (conform_v2s s.node v).0 } in
        v.i_nlink ≢ 0
        → IsStorable t.node
        → has_flag t.node.i_flag (set_flag iupd iacc) ≡ true
        → s.super.s_ronly ≡ 0
        → s32_neg t.node.i_number ≡ false
        → (bread (inode_sector t.node.i_number) s.pool).0 ≡ value (sector_of io t.node old)
        → Returns (Evicted t old) (evict_inode io false v s)
  evict_linked-Evicted v s old linked ok dirty ronly number read =
      let w = (conform_v2s s.node v).1 in
      let t : Fs io = record s { node = (conform_v2s s.node v).0 } in
      rw
        (
          evict_inode-eq v s linked,
          bind-bind {C = VfsInode × Fs io} (iupdate io t) evict_after (λ x. done (w, x)),
        )
        (Returns-bind {P = Synced io t old} (Evicted t old) (iupdate io t) _
          (iupdate-Synced io t old ok dirty ronly number read)
          λ (ret, u) synced. evict_after-Evicted t old w ret u synced)
