-- ===== src/FileSystem/Inodes/Zone.antt =====
-- The search of FileSystem::IAlloc of UNIXV6PP/FileSystem.cc through all sectors of the i-node zone.
use secondfs_module.Prelude.{
  value, subst, sym, ℕ, zero, suc, ◌+◌, ◌*◌, ◌-◌, ◌/◌, ◌%◌, ◌≤◌, ◌<◌, ◌^◌, ◌≡◌, refl, Bool, true,
  false, ◌&&◌, not, Option, none, some, arith, done, blocked, Returns, Returns-mono, Returns-bind,
  ◌==◌, ◌⊎◌, inl, inr, Bool-cases, leb, ltb, ◌∙◌, ◌>>=◌, s32_le_zero, dec32,
}
use secondfs_module.Block.{Block, word}
use secondfs_module.BufferIo.{Buf, BufferIo}
use secondfs_module.FileSystem.SuperBlock.{SuperBlock}
use secondfs_module.FileSystem.Inodes.{
  scan_sector, scan_buf, scan_zone, ialloc_filled, ialloc, ifree,
}
use secondfs_module.FileSystem.Inodes.Stack.{numbered}
use secondfs_module.FileSystem.Inodes.Scan.{
  Stacked, Scanned, IsAvailable, AllTaken, Tells, AllTaken-append, scan_sector-Scanned,
}
use secondfs_module.Inode.Node.{Inode}

-- Whether i-node `ino` is one of the `limit` i-nodes of the zone, with mode 0 on the disk and no
-- copy in memory.
abbrev pub available : (ℕ → Block) → (ℕ → Bool) → ℕ → ℕ → Bool
available disk in_use limit ino =
    ltb ino limit && (word (disk (202 + ino / 8)) (ino % 8 * 16) == 0) && not (in_use ino)

available-Tells :
    (io : BufferIo) (disk : ℕ → Block) (in_use : ℕ → Bool) (limit i : ℕ)
    → i * 8 + 8 ≤ limit
    → Tells io in_use (available disk in_use limit) (disk (202 + i)) 0 (i * 8) 8
available-Tells io disk in_use limit i room m lt =
    let e : (i * 8 + m) / 8 ≡ i = omega arith in
    let f : (i * 8 + m) % 8 ≡ 0 + m = omega arith in
    let g : ltb (i * 8 + m) limit ≡ true = ground arith in rw (g, e, f) refl

ifree-locked : (sb : SuperBlock) (n : ℕ) → sb.s_ilock ≡ true → ifree sb n ≡ sb
unfolding ifree
ifree-locked sb n held = ground arith

available-unused :
    (disk : ℕ → Block) (in_use : ℕ → Bool) (limit ino : ℕ)
    → available disk in_use limit ino ≡ true
    → in_use ino ≡ false
available-unused disk in_use limit ino h = ground arith

module _ (io : BufferIo) (in_use : ℕ → Bool) where
  ialloc-eq-search :
      (new_inode : Option Inode) (sb : SuperBlock) (p : io.Pool)
      → sb.s_ilock ≡ false
      → sb.s_ninode ≡ 0
      → sb.s_isize < 2 ^ 31
      → ialloc io in_use new_inode sb p ≡ (
          scan_zone io in_use sb.s_isize 0 0 (record sb { s_ilock = true }) p
          >>= ialloc_filled io in_use new_inode true)
  unfolding ialloc
  ialloc-eq-search new_inode sb p lock none_left size =
      let small : leb (2 ^ 31) sb.s_isize ≡ false = ground arith in
      let zero_entries : s32_le_zero sb.s_ninode ≡ true = ground arith in
      rw (lock, small, zero_entries)

  ialloc_filled-eq-none :
      (new_inode : Option Inode) (sb : SuperBlock) (p : io.Pool)
      → (sb.s_ninode == 0) ≡ true
      → ialloc_filled io in_use new_inode true (sb, p) ≡ done (none, sb, p)
  unfolding ialloc_filled
  ialloc_filled-eq-none new_inode sb p e = ground arith

  ialloc_filled-eq-some :
      (node : Inode) (sb : SuperBlock) (p : io.Pool)
      → (sb.s_ninode == 0) ≡ false
      → sb.s_ninode ≤ 100
      → in_use (sb.s_inode (sb.s_ninode - 1)) ≡ false
      → ialloc_filled io in_use (some node) true (sb, p)
        ≡ done (
          some (numbered node (sb.s_inode (sb.s_ninode - 1))),
          record sb { s_ilock = false; s_ninode = sb.s_ninode - 1 },
          p,
        )
  unfolding ialloc_filled
  ialloc_filled-eq-some node sb p e small unused =
      let m : dec32 sb.s_ninode ≡ sb.s_ninode - 1 = ground arith in rw (e, m) (ground arith)

module _ (io : BufferIo) (in_use : ℕ → Bool) (disk : ℕ → Block) where
  open io use {Pool, bread, brelse}

  abbrev pub sector : ℕ → Buf
  sector i = record { b_blkno = 202 + i; b_addr = disk (202 + i) }

  -- The reads of `n` sectors of the i-node zone one after the other, each buffer given back before the
  -- next, from sector `i` on, yield the contents `disk`.
  abbrev pub ServesZone : ℕ → ℕ → Pool → Type 0
  ServesZone zero i p = Unit
  ServesZone (suc n) i p =
      ((bread (202 + i) p).0 ≡ value (sector i))
      × ServesZone n (i + 1) (brelse (sector i) (bread (202 + i) p).1)

  abbrev Sector : ℕ → ℕ → ℕ → SuperBlock → SuperBlock → Type 0
  Sector limit ino n sb sb' =
      Scanned (IsAvailable io in_use (available disk in_use limit))
        (AllTaken io in_use (available disk in_use limit) ino n) sb sb'

  scan_buf-Sector :
      (limit i : ℕ) (sb : SuperBlock) (p : Pool)
      → i * 8 + 8 ≤ limit
      → Stacked (IsAvailable io in_use (available disk in_use limit)) sb
      → sb.s_ninode < 100
      → (bread (202 + i) p).0 ≡ value (sector i)
      → Returns
          (λ (sb', p').
            Sector limit (i * 8) 8 sb sb' × (p' ≡ brelse (sector i) (bread (202 + i) p).1))
          (scan_buf io in_use (i * 8) (bread (202 + i) p) sb)
  unfolding scan_buf
  scan_buf-Sector limit i sb p room s h read =
      rw (read, Returns)
        (Returns-bind _ (scan_sector io in_use 8 0 (i * 8) (disk (202 + i)) sb) _
          (scan_sector-Scanned io in_use (available disk in_use limit) 8 0 (i * 8) (disk (202 + i))
            sb (available-Tells io disk in_use limit i room) s h)
          λ sb' r. (r, refl))

  later :
      (limit n i : ℕ) (sb : SuperBlock) (p : Pool)
      → Returns
          (λ (sb', p'). Sector limit ((i + 1) * 8) (n * 8) sb sb')
          (scan_zone io in_use n (i + 1) ((i + 1) * 8) sb p)
      → Returns
          (λ (sb', p'). Sector limit (i * 8 + 8) (n * 8) sb sb')
          (scan_zone io in_use n (i + 1) (i * 8 + 8) sb p)
  later limit n i sb p h = let e : (i + 1) * 8 ≡ i * 8 + 8 = omega arith in rw e at h

  scan_zone-Sector :
      (limit n i : ℕ) (sb : SuperBlock) (p : Pool)
      → (i + n) * 8 ≤ limit
      → ServesZone n i p
      → Stacked (IsAvailable io in_use (available disk in_use limit)) sb
      → sb.s_ninode < 100
      → Returns
          (λ (sb', p'). Sector limit (i * 8) (n * 8) sb sb')
          (scan_zone io in_use n i (i * 8) sb p)
  unfolding scan_zone
  scan_zone-Sector limit zero i sb p room seen s h = record {
    stacked = s;
    lock = refl;
    grows = omega arith;
    empty = λ e m lt. absurd (omega arith);
  }
  scan_zone-Sector limit (suc n) i sb p room (read, seen) s h =
      Returns-bind _ (scan_buf io in_use (i * 8) (bread (202 + i) p) sb) _
        (scan_buf-Sector limit i sb p (omega arith) s h read)
        λ (sb', p') (r, same). elim (Bool-cases (leb 100 sb'.s_ninode)) [
          | inl full ↦
              rw (full, Returns)
                (record {
                  stacked = r.stacked;
                  lock = r.lock;
                  grows = r.grows;
                  empty = λ e. absurd (ground arith);
                })
          | inr left ↦
              rw (left, Returns)
                (Returns-mono (scan_zone io in_use n (i + 1) (i * 8 + 8) sb' p')
                  (later limit n i sb' p' (
                    scan_zone-Sector limit n (i + 1) sb' p' (omega arith)
                      (subst (λ q. ServesZone n (i + 1) q) (sym same) seen) r.stacked
                      (ground arith)))
                  λ (sb'', p'') q. record {
                    stacked = q.stacked;
                    lock = q.lock ∙ r.lock;
                    grows = omega (arith, q.grows, r.grows);
                    empty = λ e m lt.
                        AllTaken-append io in_use (available disk in_use limit) (i * 8) 8 (n * 8)
                          (r.empty (omega (arith, q.grows))) (q.empty e) m (omega arith);
                  })
        ]

  abbrev pub Found : ℕ → Inode → Option Inode × SuperBlock × Pool → Type 0
  Found limit node (r, sb', p') =
      (ino : ℕ) × (r ≡ some (numbered node ino))
      × (available disk in_use limit ino ≡ true)
      × (sb'.s_ilock ≡ false)

  abbrev pub Exhausted : ℕ → Option Inode × SuperBlock × Pool → Type 0
  Exhausted limit (r, sb', p') =
      (r ≡ none) × AllTaken io in_use (available disk in_use limit) 0 limit × (sb'.s_ilock ≡ true)

  start-Stacked :
      (P : ℕ → Type 0) (sb : SuperBlock)
      → sb.s_ninode ≡ 0
      → Stacked P (record sb { s_ilock = true })
  start-Stacked P sb e = record { bounded = omega arith; entries = λ k lt. absurd (omega arith) }

  ialloc_filled-cases :
      (node : Inode) (n : ℕ) (sb sb' : SuperBlock) (p' : Pool)
      → Scanned
          (IsAvailable io in_use (available disk in_use (n * 8)))
          (AllTaken io in_use (available disk in_use (n * 8)) 0 (n * 8))
          sb
          sb'
      → sb.s_ilock ≡ true
      → Returns
          (λ (r, sb'', q). Found (n * 8) node (r, sb'', q) ⊎ Exhausted (n * 8) (r, sb'', q))
          (ialloc_filled io in_use (some node) true (sb', p'))
  ialloc_filled-cases node n sb sb' p' r held = elim (Bool-cases (sb'.s_ninode == 0)) [
    | inl none_left ↦
        rw (ialloc_filled-eq-none io in_use (some node) sb' p' none_left)
          (inr (refl, r.empty (ground arith), r.lock ∙ held))
    | inr some_left ↦
        let top = sb'.s_ninode - 1 in
        let ino = sb'.s_inode top in
        let unused : available disk in_use (n * 8) ino ≡ true =
          r.stacked.entries top (ground arith) in
        rw
          (ialloc_filled-eq-some io in_use node sb' p' some_left r.stacked.bounded
            (available-unused disk in_use (n * 8) ino unused))
          (inl (ino, refl, unused, refl))
  ]

  -- When the stack is empty and the lock free, IAlloc searches the i-node zone: it returns the new
  -- i-node under a number whose i-node has mode 0 on the disk and no copy in memory, the lock given
  -- back; or NULL when there is no such i-node in the zone, and then it keeps the lock. The reads of
  -- the sectors of the zone, one after the other, must succeed, and the zone have fewer than 2^31.
  pub ialloc-search :
      (node : Inode) (sb : SuperBlock) (p : Pool)
      → sb.s_ilock ≡ false
      → sb.s_ninode ≡ 0
      → sb.s_isize < 2 ^ 31
      → ServesZone sb.s_isize 0 p
      → Returns
          (λ (r, sb', p').
            Found (sb.s_isize * 8) node (r, sb', p') ⊎ Exhausted (sb.s_isize * 8) (r, sb', p'))
          (ialloc io in_use (some node) sb p)
  ialloc-search node sb p lock none_left size serves =
      let start = record sb { s_ilock = true } in
      let filled =
        scan_zone-Sector (sb.s_isize * 8) sb.s_isize 0 start p (omega arith) serves
          (start-Stacked (IsAvailable io in_use (available disk in_use (sb.s_isize * 8))) sb
            none_left)
          (ground arith) in
      rw (ialloc-eq-search io in_use (some node) sb p lock none_left size) (
        Returns-bind _ (scan_zone io in_use sb.s_isize 0 0 start p) _ filled
          λ (sb', p') r. ialloc_filled-cases node sb.s_isize start sb' p' r refl)

  locked :
      (other : Option Inode) (sb : SuperBlock) (p : Pool)
      → sb.s_ilock ≡ true
      → ialloc io in_use other sb p ≡ blocked
  unfolding ialloc
  locked other sb p held = ground arith

  -- When the lock is free, the stack empty and every i-node of the zone taken, IAlloc returns
  -- NULL with the lock held: from then on every IAlloc waits for that lock, and every IFree
  -- leaves the super block as it is. The reads of the sectors of the zone, one after the other, must
  -- succeed, and the zone have fewer than 2^31.
  pub ialloc_exhausted-blocked :
      (node : Inode) (sb : SuperBlock) (p : Pool)
      → sb.s_ilock ≡ false
      → sb.s_ninode ≡ 0
      → sb.s_isize < 2 ^ 31
      → ServesZone sb.s_isize 0 p
      → ((ino : ℕ) → available disk in_use (sb.s_isize * 8) ino ≡ false)
      → Returns
          (λ (r, sb', p').
            (r ≡ none)
            × ((other : Option Inode) (q : Pool) → ialloc io in_use other sb' q ≡ blocked)
            × ((n : ℕ) → ifree sb' n ≡ sb'))
          (ialloc io in_use (some node) sb p)
  ialloc_exhausted-blocked node sb p lock none_left size serves taken =
      Returns-mono (ialloc io in_use (some node) sb p)
        (ialloc-search node sb p lock none_left size serves)
        λ (r, sb', p') outcome. elim outcome [
          | inl (ino, got, free, unlocked) ↦ cc (taken ino)
          | inr (nothing, all, held) ↦
              (nothing, λ other q. locked other sb' q held, λ n. ifree-locked sb' n held)
        ]
