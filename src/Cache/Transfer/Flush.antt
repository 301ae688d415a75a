-- ===== src/Cache/Transfer/Flush.antt =====
-- BufferManager::Bflush of UNIXV6PP/BufferManager.cc ends, and leaves no free Buf of the device to be
-- written.
pub mod Flags
use secondfs_module.Prelude.{
  ℕ, zero, suc, ◌+◌, ◌≤◌, ◌<◌, ◌≡◌, ◌≢◌, ◌∙◌, ap, refl, sym, subst, ◌⊎◌, inl, inr, Bool, true,
  false, not, ◌&&◌, ◌||◌, List, [], ◌∷◌, ◌++◌, has, length, arith, Option, none, some, Run, done,
  Returns, Returns-mono, Returns-done, ◌>>=◌, update, update_same, update_other, has_flag, set_flag,
  clear_flag, ◌==◌, ltb, if◌then◌else◌, Bool-cases, ℕ_discrete, Distinct,
}
use secondfs_module.Cache.Pool.{Pool, BlockIo, nbuf, b_free_list, nodev, b_delwri, b_async}
use secondfs_module.Cache.Ring.{Linked, next, through, forw-start}
use secondfs_module.Cache.Queue.{brelse, not_avail}
use secondfs_module.Cache.Queue.Laws.{FreeRing, has-middle, not_avail-FreeRing, brelse-FreeRing}
use secondfs_module.Cache.GetBlk.{bwrite, io_done}
use secondfs_module.Cache.Transfer.{find_dirty, bflush}
use secondfs_module.Cache.Transfer.Flush.Flags.{
  written_flags, released_flags, Settles, settles, has-rotate, has-node, length-rotate,
}

module _ (io : BlockIo) where
  open io use {Disk, submit_write}

  -- What Bwrite leaves when the Buf is released.
  bwrite-eq :
      (bp : ℕ) (t : Pool Disk)
      → has_flag (t.b_flags bp) b_async ≡ false
      → has_flag (written_flags (t.b_flags bp)) b_async ≡ false
      → (bwrite io bp t).1
        ≡ brelse bp (record t {
          b_flags =
              update
                (update t.b_flags bp (clear_flag (t.b_flags bp) 0x8e))
                bp
                (written_flags (t.b_flags bp));
          disk = (submit_write (t.b_dev bp) (t.b_blkno bp) (t.b_addr bp) t.disk).1;
        })
  unfolding bwrite io_done
  bwrite-eq bp t sync later =
      rw
        (
          update_same t.b_flags bp (clear_flag (t.b_flags bp) 0x8e),
          update_same (update t.b_flags bp (clear_flag (t.b_flags bp) 0x8e)) bp
              (written_flags (t.b_flags bp)),
          later,
          sync,
        )
        refl

  -- The Buf is to be written, on the device `dev` or on any.
  abbrev pub dirty : ℕ → Pool Disk → ℕ → Bool
  dirty dev s bp = has_flag (s.b_flags bp) b_delwri && ((dev == nodev) || (dev == s.b_dev bp))

  -- The Bufs of a list that are to be written.
  unfoldable pub count_dirty : ℕ → Pool Disk → List ℕ → ℕ
  count_dirty dev s [] = 0
  count_dirty dev s (x ∷ xs) = (if dirty dev s x then 1 else 0) + count_dirty dev s xs

  -- How the walk of Bflush through the free Bufs ends.
  data Walked (dev : ℕ) (s : Pool Disk) (xs : List ℕ) : Option ℕ → Type 0 where
    all_clean : ((x : ℕ) → has x xs ≡ true → dirty dev s x ≡ false) → Walked dev s xs none
    first_dirty :
        (ys : List ℕ) (bp : ℕ) (zs : List ℕ)
        → xs ≡ ys ++ bp ∷ zs
        → dirty dev s bp ≡ true
        → Walked dev s xs (some bp)

  Walked-cons :
      (dev : ℕ) (s : Pool Disk) (x : ℕ) (xs : List ℕ) (r : Option ℕ)
      → dirty dev s x ≡ false
      → Walked dev s xs r
      → Walked dev s (x ∷ xs) r
  Walked-cons dev s x xs none clean (all_clean rest) =
      all_clean λ y h. elim (ℕ_discrete y x) [ yes e ↦ rw e clean | no ne ↦ rest y (ground arith) ]
  Walked-cons dev s x xs (some b) clean (first_dirty ys bp zs e d) =
      first_dirty (x ∷ ys) bp zs (ap (λ l. x ∷ l) e) d

  find_dirty-Walked :
      (n dev a : ℕ) (xs : List ℕ) (s : Pool Disk)
      → length xs < n
      → Linked s.av_forw s.av_back a xs b_free_list
      → has b_free_list xs ≡ false
      → Returns (Walked dev s xs) (find_dirty io n dev (s.av_forw a) s)
  unfolding find_dirty
  find_dirty-Walked zero dev a xs s enough l out = absurd (omega arith)
  find_dirty-Walked (suc n) dev a [] s enough (next f b) out =
      rw f (all_clean λ x h. absurd (ground arith))
  find_dirty-Walked (suc n) dev a (x ∷ xs) s enough (through f b l) out =
      let rest = find_dirty-Walked n dev x xs s (omega arith) l (ground arith) in
      let not_head : (x == b_free_list) ≡ false = ground arith in
      elim (Bool-cases (dirty dev s x)) [
        | inl d ↦ rw (f, not_head, d) (first_dirty [] x xs refl d)
        | inr d ↦
            rw (f, not_head, d)
              (Returns-mono (find_dirty io n dev (s.av_forw x) s) rest
                λ r w. Walked-cons dev s x xs r d w)
      ]

  -- The flags of a Buf that no request is under way for.
  abbrev pub Idle : Pool Disk → ℕ → Type 0
  Idle s bp = (s.b_flags bp < 256) × (has_flag (s.b_flags bp) b_async ≡ false)

  -- The state behind one write of Bflush.
  flushed : ℕ → Pool Disk → Pool Disk
  flushed bp s = (bwrite io bp (not_avail bp s)).1

  module _ (dev bp : ℕ) (s : Pool Disk) (idle : Idle s bp) where
    flushed-eq :
        (flushed bp s
          ≡ brelse bp (record (not_avail bp s) {
            b_flags =
                update
                  (update s.b_flags bp (clear_flag (s.b_flags bp) 0x8e))
                  bp
                  (written_flags (s.b_flags bp));
            disk = (submit_write (s.b_dev bp) (s.b_blkno bp) (s.b_addr bp) s.disk).1;
          }))
    unfolding flushed not_avail
    flushed-eq =
        bwrite-eq bp (not_avail bp s) idle.1 (settles (s.b_flags bp) idle.0 idle.1).no_async

    flushed-flags : (flushed bp s).b_flags bp ≡ released_flags (s.b_flags bp)
    unfolding brelse update
    flushed-flags = rw flushed-eq ground arith

    flushed-other : (x : ℕ) → x ≢ bp → (flushed bp s).b_flags x ≡ s.b_flags x
    unfolding brelse update
    flushed-other x ne = rw flushed-eq (ground arith)

    flushed-dev : (flushed bp s).b_dev ≡ s.b_dev
    unfolding brelse not_avail
    flushed-dev = rw flushed-eq refl

    flushed-FreeRing :
        (xs ys : List ℕ)
        → FreeRing s (xs ++ bp ∷ ys)
        → FreeRing (flushed bp s) ((xs ++ ys) ++ bp ∷ [])
    flushed-FreeRing xs ys ring = rw flushed-eq (
        brelse-FreeRing
          (record (not_avail bp s) {
            b_flags =
                update (update s.b_flags bp (clear_flag (s.b_flags bp) 0x8e)) bp
                  (written_flags (s.b_flags bp));
            disk = (submit_write (s.b_dev bp) (s.b_blkno bp) (s.b_addr bp) s.disk).1;
          })
          bp (xs ++ ys) (not_avail-FreeRing s bp xs ys ring)
          (has-middle b_free_list bp xs ys ring.1))

    flushed-clean : dirty dev (flushed bp s) bp ≡ false
    flushed-clean =
        let k = (settles (s.b_flags bp) idle.0 idle.1).no_delwri in rw (flushed-flags, k) refl

    flushed-Dirty : (x : ℕ) → x ≢ bp → dirty dev (flushed bp s) x ≡ dirty dev s x
    flushed-Dirty x ne = rw (flushed-other x ne, flushed-dev) refl

    flushed-Idle : (x : ℕ) → Idle s x → Idle (flushed bp s) x
    flushed-Idle x i = elim (ℕ_discrete x bp) [
      | yes e ↦
          let k = settles (s.b_flags bp) idle.0 idle.1 in
          rw (e, flushed-flags) (k.small, k.still_sync)
      | no ne ↦ rw (flushed-other x ne) i
    ]

    count-frame :
        (xs : List ℕ) → has bp xs ≡ false → count_dirty dev (flushed bp s) xs ≡ count_dirty dev s xs
    unfolding count_dirty
    count-frame [] out = refl
    count-frame (x ∷ xs) out =
        rw (flushed-Dirty x (ground arith), count-frame xs (ground arith)) refl

    count-last :
        (xs : List ℕ)
        → has bp xs ≡ false
        → count_dirty dev (flushed bp s) (xs ++ bp ∷ []) ≡ count_dirty dev s xs
    unfolding count_dirty
    count-last [] out = rw flushed-clean refl
    count-last (x ∷ xs) out = rw (flushed-Dirty x (ground arith), count-last xs (ground arith)) refl

  count-middle :
      (dev bp : ℕ) (s : Pool Disk) (xs ys : List ℕ)
      → dirty dev s bp ≡ true
      → count_dirty dev s (xs ++ bp ∷ ys) ≡ count_dirty dev s (xs ++ ys) + 1
  unfolding count_dirty
  count-middle dev bp s [] ys d = rw d (omega arith)
  count-middle dev bp s (x ∷ xs) ys d = omega (arith, count-middle dev bp s xs ys d)

  -- The free Bufs are the same as before, in a ring, and none is to be written.
  abbrev pub Flushed : ℕ → List ℕ → Pool Disk → Type 0
  Flushed dev xs t =
      (ys : List ℕ) × FreeRing t ys
      × ((x : ℕ) → has x ys ≡ has x xs)
      × ((x : ℕ) → has x ys ≡ true → dirty dev t x ≡ false)

  bflush-eq-none :
      (rounds dev : ℕ) (s : Pool Disk)
      → find_dirty io (suc nbuf) dev (s.av_forw b_free_list) s ≡ done none
      → bflush io (suc rounds) dev s ≡ done s
  unfolding bflush
  bflush-eq-none rounds dev s e = rw e refl

  bflush-eq-some :
      (rounds dev bp : ℕ) (s : Pool Disk)
      → find_dirty io (suc nbuf) dev (s.av_forw b_free_list) s ≡ done (some bp)
      → bflush io (suc rounds) dev s ≡ bflush io rounds dev (flushed bp s)
  unfolding bflush flushed
  bflush-eq-some rounds dev bp s e = rw e refl

  -- What Bflush asks of the free Bufs before `rounds` passes.
  record Ready (rounds dev : ℕ) (s : Pool Disk) (xs : List ℕ) : Type 0 where
    ring : FreeRing s xs
    few : length xs ≤ nbuf
    idle : (x : ℕ) → has x xs ≡ true → Idle s x
    enough : count_dirty dev s xs < rounds

  Ready-next :
      (rounds dev bp : ℕ) (s : Pool Disk) (ys zs : List ℕ)
      → Ready (suc rounds) dev s (ys ++ bp ∷ zs)
      → dirty dev s bp ≡ true
      → Ready rounds dev (flushed bp s) ((ys ++ zs) ++ bp ∷ [])
  Ready-next rounds dev bp s ys zs r d =
      let outside = has-middle b_free_list bp ys zs r.ring.1 in
      let here : Idle s bp = r.idle bp (has-node bp ys zs) in
      record {
        ring = flushed-FreeRing dev bp s here ys zs r.ring;
        few = omega (arith, r.few, length-rotate bp ys zs);
        idle = λ x h. flushed-Idle dev bp s here x (r.idle x (sym (has-rotate x bp ys zs) ∙ h));
        enough = omega (
          arith,
          r.enough,
          count-last dev bp s here (ys ++ zs) (ground arith),
          count-middle dev bp s ys zs d,
        );
      }

  bflush-step :
      (rounds dev : ℕ) (s : Pool Disk) (xs : List ℕ) (r : Option ℕ)
      → Ready (suc rounds) dev s xs
      → find_dirty io (suc nbuf) dev (s.av_forw b_free_list) s ≡ done r
      → Walked dev s xs r
      → ((t : Pool Disk) (ys : List ℕ)
          → Ready rounds dev t ys
          → Returns (Flushed dev ys) (bflush io rounds dev t))
      → Returns (Flushed dev xs) (bflush io (suc rounds) dev s)
  bflush-step rounds dev s xs none ready found (all_clean clean) rec =
      rw (bflush-eq-none rounds dev s found) (xs, ready.ring, (λ x. refl), clean)
  bflush-step rounds dev s xs (some b) ready found (first_dirty ys bp zs e d) rec =
      let after = Ready-next rounds dev bp s ys zs (rw e at ready) d in
      rw (bflush-eq-some rounds dev bp s found) (
        Returns-mono {P = Flushed dev ((ys ++ zs) ++ bp ∷ [])} (bflush io rounds dev (flushed bp s))
          (rec (flushed bp s) ((ys ++ zs) ++ bp ∷ []) after)
          λ t (vs, ring, same, clean).
            (vs, ring, (λ x. same x ∙ has-rotate x bp ys zs ∙ ap (λ l. has x l) (sym e)), clean))

  bflush-Ready :
      (rounds dev : ℕ) (s : Pool Disk) (xs : List ℕ)
      → Ready rounds dev s xs
      → Returns (Flushed dev xs) (bflush io rounds dev s)
  bflush-Ready zero dev s xs ready = absurd (omega (arith, ready.enough))
  bflush-Ready (suc rounds) dev s xs ready =
      let (r, found, walked) =
        Returns-done (Walked dev s xs) (find_dirty io (suc nbuf) dev (s.av_forw b_free_list) s) (
          find_dirty-Walked (suc nbuf) dev b_free_list xs s (omega (arith, ready.few)) ready.ring.0
            ready.ring.1.0) in
      bflush-step rounds dev s xs r ready found walked (bflush-Ready rounds dev)

  -- Bflush ends: with one pass more allowed than Bufs of the device wait to be written, it returns,
  -- whatever the writes yield. The free Bufs are the same as before, in a doubly linked ring, and
  -- none of them waits to be written to the device. At most 10 Bufs may be free, and their flags be
  -- below 256, without B_ASYNC.
  pub bflush-Flushed :
      (rounds dev : ℕ) (s : Pool Disk) (xs : List ℕ)
      → FreeRing s xs
      → length xs ≤ nbuf
      → ((x : ℕ) → has x xs ≡ true → Idle s x)
      → count_dirty dev s xs < rounds
      → Returns (Flushed dev xs) (bflush io rounds dev s)
  bflush-Flushed rounds dev s xs ring few idle enough =
      bflush-Ready rounds dev s xs (record { ring = ring; few = few; idle = idle; enough = enough })
