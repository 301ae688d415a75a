-- ===== src/FileSystem/Inodes/Scan.antt =====
-- The search of FileSystem::IAlloc of UNIXV6PP/FileSystem.cc through the i-node zone.
use secondfs_module.Prelude.{
  ℕ, zero, suc, ◌+◌, ◌*◌, ◌-◌, ◌≤◌, ◌<◌, ◌≡◌, refl, Bool, true, false, ◌&&◌, not, arith, Returns,
  Returns-mono, update, ◌==◌, inl, inr, Bool-cases, leb, dec_lt, update_same, update_other, inc32,
  ℕ_discrete, Returns-bind, ◌∙◌,
}
use secondfs_module.Block.{Block, word}
use secondfs_module.BufferIo.{BufferIo}
use secondfs_module.FileSystem.SuperBlock.{SuperBlock}
use secondfs_module.FileSystem.Inodes.{record_inode, scan_sector}

-- All entries of the stack of i-node numbers satisfy `P`.
pub record Stacked (P : ℕ → Type 0) (sb : SuperBlock) : Type 0 where
  pub bounded : sb.s_ninode ≤ 100
  pub entries : (k : ℕ) → k < sb.s_ninode → P (sb.s_inode k)

-- The search goes from `sb` to `sb'`: the lock is left alone, and the stack is empty only if nothing
-- was found.
pub record Scanned (P : ℕ → Type 0) (None : Type 0) (sb sb' : SuperBlock) : Type 0 where
  pub stacked : Stacked P sb'
  pub lock : sb'.s_ilock ≡ sb.s_ilock
  pub grows : sb.s_ninode ≤ sb'.s_ninode
  pub empty : sb'.s_ninode ≡ 0 → None

record_inode-Stacked :
    (P : ℕ → Type 0) (ino : ℕ) (sb : SuperBlock)
    → Stacked P sb
    → sb.s_ninode < 100
    → P ino
    → Returns
        (λ sb'. Stacked P sb' × (sb'.s_ilock ≡ sb.s_ilock) × (sb'.s_ninode ≡ suc sb.s_ninode))
        (record_inode ino sb)
unfolding record_inode
record_inode-Stacked P ino sb s h here =
    let room : leb 100 sb.s_ninode ≡ false = ground arith in
    let next : inc32 sb.s_ninode ≡ suc sb.s_ninode = omega arith in
    rw (room, next)
      (
        record { bounded = omega arith; entries = λ k lt. entry k lt (ℕ_discrete k sb.s_ninode) },
        refl,
        refl,
      )
  where
    entry :
        (k : ℕ)
        → k < suc sb.s_ninode
        → Dec (k ≡ sb.s_ninode)
        → P (update sb.s_inode sb.s_ninode ino k)
    entry k lt (yes e) = rw (e, update_same sb.s_inode sb.s_ninode ino) here
    entry k lt (no ne) =
        rw (update_other sb.s_inode sb.s_ninode k ino ne) (s.entries k (omega arith))

module _ (io : BufferIo) (in_use : ℕ → Bool) (avail : ℕ → Bool) where
  abbrev pub IsAvailable : ℕ → Type 0
  IsAvailable ino = avail ino ≡ true

  -- The i-nodes from `ino` on, `n` of them, are all taken.
  abbrev pub AllTaken : ℕ → ℕ → Type 0
  AllTaken ino n = (m : ℕ) → m < n → avail (ino + m) ≡ false

  -- `avail` tells of the `n` i-nodes of the sector from `j` on, the first of them `ino`.
  abbrev pub Tells : Block → ℕ → ℕ → ℕ → Type 0
  Tells blk j ino n =
      (m : ℕ) → m < n → avail (ino + m) ≡ ((word blk ((j + m) * 16) == 0) && not (in_use (ino + m)))

  AllTaken-suc : (ino n : ℕ) → avail ino ≡ false → AllTaken (ino + 1) n → AllTaken ino (suc n)
  AllTaken-suc ino n first rest zero lt = let e : ino + 0 ≡ ino = omega arith in rw e first
  AllTaken-suc ino n first rest (suc m) lt =
      let e : ino + suc m ≡ ino + 1 + m = omega arith in rw e (rest m (omega arith))

  Tells-suc : (blk : Block) (j ino n : ℕ) → Tells blk j ino (suc n) → Tells blk (j + 1) (ino + 1) n
  Tells-suc blk j ino n t m lt =
      let e : ino + 1 + m ≡ ino + suc m = omega arith in
      let f : j + 1 + m ≡ j + suc m = omega arith in rw (e, f) (t (suc m) (omega arith))

  Tells-first :
      (blk : Block) (j ino n : ℕ)
      → Tells blk j ino (suc n)
      → avail ino ≡ ((word blk (j * 16) == 0) && not (in_use ino))
  Tells-first blk j ino n t =
      let e : ino + 0 ≡ ino = omega arith in
      let f : j + 0 ≡ j = omega arith in rw (e, f) at (t 0 (omega arith))

  pub scan_sector-Scanned :
      (n j ino : ℕ) (blk : Block) (sb : SuperBlock)
      → Tells blk j ino n
      → Stacked IsAvailable sb
      → sb.s_ninode < 100
      → Returns (Scanned IsAvailable (AllTaken ino n) sb) (scan_sector io in_use n j ino blk sb)
  unfolding scan_sector
  scan_sector-Scanned zero j ino blk sb t s h = record {
    stacked = s;
    lock = refl;
    grows = omega arith;
    empty = λ e m lt. absurd (omega arith);
  }
  scan_sector-Scanned (suc n) j ino blk sb t s h =
      let here = Tells-first blk j ino n t in
      elim (Bool-cases ((word blk (j * 16) == 0) && not (in_use ino))) [
        | inl free ↦
            rw (free, Returns)
              (Returns-bind _ (record_inode ino sb) _
                (record_inode-Stacked IsAvailable ino sb s h (here ∙ free))
                λ sb' (s', lock, count). elim (Bool-cases (leb 100 sb'.s_ninode)) [
                  | inl full ↦
                      rw (full, Returns)
                        (record {
                          stacked = s';
                          lock = lock;
                          grows = omega arith;
                          empty = λ e. absurd (omega arith);
                        })
                  | inr room ↦
                      rw (room, Returns)
                        (Returns-mono (scan_sector io in_use n (j + 1) (ino + 1) blk sb')
                          (scan_sector-Scanned n (j + 1) (ino + 1) blk sb' (Tells-suc blk j ino n t)
                            s' (ground arith))
                          λ sb'' r. record {
                            stacked = r.stacked;
                            lock = r.lock ∙ lock;
                            grows = omega (arith, r.grows);
                            empty = λ e. absurd (omega (arith, r.grows));
                          })
                ])
        | inr taken ↦
            rw (taken, Returns)
              (Returns-mono (scan_sector io in_use n (j + 1) (ino + 1) blk sb)
                (scan_sector-Scanned n (j + 1) (ino + 1) blk sb (Tells-suc blk j ino n t) s h)
                λ sb'' r. record {
                  stacked = r.stacked;
                  lock = r.lock;
                  grows = r.grows;
                  empty = λ e. AllTaken-suc ino n (here ∙ taken) (r.empty e);
                })
      ]

  pub AllTaken-append : (ino a b : ℕ) → AllTaken ino a → AllTaken (ino + a) b → AllTaken ino (a + b)
  AllTaken-append ino a b front back m lt = elim (dec_lt m a) [
    | yes h ↦ front m h
    | no h ↦ let e : ino + m ≡ ino + a + (m - a) = omega arith in rw e (back (m - a) (omega arith))
  ]
