-- ===== src/Cache/Transfer/Flush/Flags.antt =====
-- The flags of a Buf that Bflush of UNIXV6PP/BufferManager.cc writes, and lists in which a node
-- moves to the end.
use secondfs_module.Prelude.{
  ℕ, zero, suc, ◌<◌, ◌≡◌, refl, Bool, true, false, not, ◌&&◌, ◌||◌, List, [], ◌∷◌, ◌++◌, has,
  length, arith, has_flag, set_flag, clear_flag, ltb, ℕ_discrete,
}
use secondfs_module.Cache.Pool.{b_delwri, b_async}

-- The flags of a Buf behind the write, and behind its release.
abbrev pub written_flags : ℕ → ℕ
written_flags f = set_flag (clear_flag f 0x8e) 4

abbrev pub released_flags : ℕ → ℕ
released_flags f = clear_flag (written_flags f) 0x70

-- A write without B_ASYNC leaves neither B_ASYNC nor B_DELWRI.
abbrev fine : ℕ → Bool
fine f =
    has_flag f b_async
    || (not (has_flag (written_flags f) b_async)
        && not (has_flag (released_flags f) b_async)
        && not (has_flag (released_flags f) b_delwri)
        && ltb (released_flags f) 256)

all_below : ℕ → (ℕ → Bool) → Bool
all_below zero test = true
all_below (suc n) test = test n && all_below n test

all_below-at : (n i : ℕ) (test : ℕ → Bool) → all_below n test ≡ true → i < n → test i ≡ true
unfolding all_below
all_below-at zero i test h lt = absurd (omega arith)
all_below-at (suc n) i test h lt = elim (ℕ_discrete i n) [
  | yes e ↦ rw e (ground arith)
  | no ne ↦ all_below-at n i test (ground arith) (omega arith)
]

all_fine : all_below 256 fine ≡ true
unfolding all_below
all_fine = refl

-- A node moves to the end.
pub has-rotate : (n x : ℕ) (xs ys : List ℕ) → has n ((xs ++ ys) ++ x ∷ []) ≡ has n (xs ++ x ∷ ys)
has-rotate n x [] [] = refl
has-rotate n x [] (y ∷ ys) = ground (arith, has-rotate n x [] ys)
has-rotate n x (z ∷ xs) ys = ground (arith, has-rotate n x xs ys)

pub has-node : (x : ℕ) (xs ys : List ℕ) → has x (xs ++ x ∷ ys) ≡ true
has-node x [] ys = ground arith
has-node x (y ∷ xs) ys = ground (arith, has-node x xs ys)

pub length-rotate : (x : ℕ) (xs ys : List ℕ) → length ((xs ++ ys) ++ x ∷ []) ≡ length (xs ++ x ∷ ys)
length-rotate x [] [] = refl
length-rotate x [] (y ∷ ys) = omega (arith, length-rotate x [] ys)
length-rotate x (z ∷ xs) ys = omega (arith, length-rotate x xs ys)

pub record Settles (f : ℕ) : Type 0 where
  pub no_async : has_flag (written_flags f) b_async ≡ false
  pub still_sync : has_flag (released_flags f) b_async ≡ false
  pub no_delwri : has_flag (released_flags f) b_delwri ≡ false
  pub small : released_flags f < 256

all_true :
    (a b c d : Bool)
    → (not a && not b && not c && d) ≡ true
    → (a ≡ false) × (b ≡ false) × (c ≡ false) × (d ≡ true)
all_true a b c d h = ground arith

pub settles : (f : ℕ) → f < 256 → has_flag f b_async ≡ false → Settles f
settles f h sync =
    let t : fine f ≡ true = all_below-at 256 f fine all_fine h in
    let (a, b, c, d) =
      all_true (has_flag (written_flags f) b_async) (has_flag (released_flags f) b_async)
        (has_flag (released_flags f) b_delwri) (ltb (released_flags f) 256) (rw sync at t) in
    record { no_async = a; still_sync = b; no_delwri = c; small = ground arith }
