-- ===== src/FileSystem/Inodes/Stack.antt =====
-- FileSystem::IAlloc and FileSystem::IFree of UNIXV6PP/FileSystem.cc on the stack `s_inode`.
use secondfs_module.Prelude.{
  ℕ, suc, ◌<◌, ◌≡◌, Bool, false, none, some, arith, done, update, update_same,
}
use secondfs_module.BufferIo.{BufferIo}
use secondfs_module.FileSystem.SuperBlock.{SuperBlock}
use secondfs_module.FileSystem.Inodes.{ifree, ialloc}
use secondfs_module.Inode.Node.{Inode, set_flag, ialloc_flag}

-- The i-node that IAlloc makes of a new in-memory i-node.
abbrev pub numbered : Inode → ℕ → Inode
numbered node ino = record node { i_mode = set_flag node.i_mode ialloc_flag; i_number = ino }

module _ (io : BufferIo) (in_use : ℕ → Bool) where
  -- While the lock is free and the stack is not empty, IAlloc takes the number on top of the
  -- stack without touching the disk: it returns the new i-node under that number, or NULL when
  -- the system has no memory for one; the number is off the stack in both cases. No i-node of
  -- that number may be in memory.
  ialloc-top :
      (node : Inode) (sb : SuperBlock) (p : io.Pool) (m : ℕ)
      → sb.s_ilock ≡ false
      → sb.s_ninode ≡ suc m
      → m < 100
      → in_use (sb.s_inode m) ≡ false
      → (ialloc io in_use (some node) sb p
          ≡ done
              (some (numbered node (sb.s_inode m)), record sb { s_ninode = m; s_ilock = false }, p))
        × (ialloc io in_use none sb p ≡ done (none, record sb { s_ninode = m; s_ilock = false }, p))
  unfolding ialloc
  ialloc-top node sb p m lock count small unused = (ground arith, ground arith)

  -- What IFree has put on the stack, the next IAlloc gives to the new i-node, and the stack
  -- has its old height again. The lock must be free, the stack not full, and no i-node of that
  -- number in memory.
  pub ialloc-ifree :
      (node : Inode) (sb : SuperBlock) (p : io.Pool) (n : ℕ)
      → sb.s_ilock ≡ false
      → sb.s_ninode < 100
      → in_use n ≡ false
      → ialloc io in_use (some node) (ifree sb n) p
        ≡ done (
          some (numbered node n),
          record sb {
            s_inode = update sb.s_inode sb.s_ninode n;
            s_ninode = sb.s_ninode;
            s_fmod = 1;
            s_ilock = false;
          },
          p,
        )
  unfolding ialloc ifree
  ialloc-ifree node sb p n lock small unused = ground (arith, update_same sb.s_inode sb.s_ninode n)
