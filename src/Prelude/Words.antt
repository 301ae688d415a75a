-- ===== src/Prelude/Words.antt =====
-- 32-bit words as they stand in the structures of the program (`u32`, `s32` as its bit pattern),
-- and arrays as functions of the index.
use Prim.Native.Nat.{ℕ, ◌+◌, ◌-◌, ◌%◌, ◌^◌, bit_and, bit_or, bit_xor}
use mathlib.Core.Path.{◌≡◌}
use mathlib.Core.Logic.{◌≢◌}
use mathlib.Core.Bool.{Bool, true, false, not, ◌||◌}
use native.Mathlib.Omega.{arith}
use secondfs_module.Prelude.Tests.{leb, ◌==◌, if◌then◌else◌}

abbrev pub word_mod : ℕ
word_mod = 2 ^ 32

-- `-1` in a 32-bit field.
abbrev pub minus_one : ℕ
minus_one = 0xffff_ffff

-- `x + 1` and `x - 1` on a `u32`.
abbrev pub inc32 : ℕ → ℕ
inc32 x = (x + 1) % word_mod

abbrev pub dec32 : ℕ → ℕ
dec32 x = (x + word_mod - 1) % word_mod

-- `(s32) x < 0` and `(s32) x <= 0`.
abbrev pub s32_neg : ℕ → Bool
s32_neg x = leb (2 ^ 31) x

abbrev pub s32_le_zero : ℕ → Bool
s32_le_zero x = (x == 0) || s32_neg x

-- `(s32) x <= (s32) y`
abbrev pub s32_le : ℕ → ℕ → Bool
s32_le x y =
    if s32_neg x
    then (if s32_neg y then leb x y else true)
    else (if s32_neg y then false else leb x y)

-- `a[i] = v`
unfoldable pub update {ℓ} : {A : Type ℓ} → (ℕ → A) → ℕ → A → ℕ → A
update a i v j = if j == i then v else a j

pub update_same {ℓ} : {A : Type ℓ} (a : ℕ → A) (i : ℕ) (v : A) → update a i v i ≡ v
unfolding update
update_same a i v = ground arith

pub update_other {ℓ} : {A : Type ℓ} (a : ℕ → A) (i j : ℕ) (v : A) → j ≢ i → update a i v j ≡ a j
unfolding update
update_other a i j v h = ground arith

-- `x |= f` and `x & f`
abbrev pub set_flag : ℕ → ℕ → ℕ
set_flag x f = bit_or x f

abbrev pub has_flag : ℕ → ℕ → Bool
has_flag x f = not (bit_and x f == 0)

-- `x & ~f`
abbrev pub clear_flag : ℕ → ℕ → ℕ
clear_flag x f = bit_xor x (bit_and x f)
