-- ===== src/Vfs/Mode.antt =====
-- The mode of an i-node, between the VFS and the disk: secondfs_inode_conform_v2s and
-- secondfs_inode_conform_s2v of inode.c.
use Prim.Native.Nat.{bit_and}
use secondfs_module.Prelude.{
  ℕ, zero, suc, ◌+◌, ◌≡◌, ◌≢◌, ◌<◌, refl, true, false, Bool, ◌&&◌, ◌||◌, ◌==◌, ltb, if◌then◌else◌,
  set_flag, has_flag, clear_flag, arith, ℕ_discrete,
}

-- `if (from & f) x |= f`; the flags of both sides have the same values.
abbrev pub copy_flag : ℕ → ℕ → ℕ → ℕ
copy_flag from f x = if has_flag from f then set_flag x f else x

-- `S_IFMT` of the VFS
abbrev pub s_ifmt : ℕ
s_ifmt = 0xf000

-- The nine permission bits of `from`, put into `x`.
unfoldable pub copy_permissions : ℕ → ℕ → ℕ
copy_permissions from x = copy_flag from 1 (
    copy_flag from 2 (
      copy_flag from 4 (
        copy_flag from 8 (
          copy_flag from 0x10 (
            copy_flag from 0x20
              (copy_flag from 0x40 (copy_flag from 0x80 (copy_flag from 0x100 x))))))))

-- The set-id bits and the sticky bit of `from`, put into `x`.
unfoldable pub copy_special : ℕ → ℕ → ℕ
copy_special from x = copy_flag from 0x200 (
    clear_flag (copy_flag from 0x400 (clear_flag (copy_flag from 0x800 (clear_flag x 0x800)) 0x400))
      0x200)

-- `si->i_mode` from `inode->i_mode`
unfoldable pub mode_v2s : ℕ → ℕ → ℕ
unfolding copy_permissions copy_special
mode_v2s m x =
    let kind = bit_and m s_ifmt in
    let y = clear_flag x 0x6000 in
    let t =
      if kind == 0x4000
      then set_flag y 0x4000
      else if kind == 0x2000
      then set_flag y 0x2000
      else if kind == 0x6000
      then set_flag y 0x6000
      else y in
    copy_permissions m (clear_flag (clear_flag (clear_flag (copy_special m t) 0x1c0) 0x38) 7)

-- `inode->i_mode` from `si->i_mode`
unfoldable pub mode_s2v : ℕ → ℕ → ℕ
unfolding copy_permissions copy_special
mode_s2v x m =
    let kind = bit_and x 0x6000 in
    let y = clear_flag m s_ifmt in
    let t =
      if kind == 0x4000
      then set_flag y 0x4000
      else if kind == 0x2000
      then set_flag y 0x2000
      else if kind == 0x6000
      then set_flag y 0x6000
      else 0x8000 in
    copy_permissions x (clear_flag (clear_flag (clear_flag (copy_special x t) 0x1c0) 0x38) 7)

-- The file types of the VFS that a volume can hold: directory, character and block device, file.
abbrev pub is_kind : ℕ → Bool
is_kind kind = (kind == 0x4000) || (kind == 0x2000) || (kind == 0x6000) || (kind == 0x8000)

all_below : ℕ → (ℕ → Bool) → Bool
all_below zero test = true
all_below (suc n) test = test n && all_below n test

all_below-at : (n i : ℕ) (test : ℕ → Bool) → all_below n test ≡ true → i < n → test i ≡ true
unfolding all_below
all_below-at zero i test h lt = absurd (omega arith)
all_below-at (suc n) i test h lt = elim (ℕ_discrete i n) [
  | yes e ↦ rw e (ground arith)
  | no ne ↦ all_below-at n i test (ground arith) (omega arith)
]

-- The bits `p` of a mode of the type `kind` come back.
abbrev comes_back : ℕ → ℕ → Bool
comes_back kind p =
    (mode_s2v (mode_v2s (kind + p) 0x8000) 0 == kind + p) && ltb (mode_v2s (kind + p) 0x8000) 65536

directories : all_below 4096 (comes_back 0x4000) ≡ true
unfolding all_below mode_s2v mode_v2s
directories = refl

character_devices : all_below 4096 (comes_back 0x2000) ≡ true
unfolding all_below mode_s2v mode_v2s
character_devices = refl

block_devices : all_below 4096 (comes_back 0x6000) ≡ true
unfolding all_below mode_s2v mode_v2s
block_devices = refl

files : all_below 4096 (comes_back 0x8000) ≡ true
unfolding all_below mode_s2v mode_v2s
files = refl

-- The mode comes back, and fits a word.
abbrev pub ComesBack : ℕ → Type 0
ComesBack m = (mode_s2v (mode_v2s m 0x8000) 0 ≡ m) × (mode_v2s m 0x8000 < 65536)

both : (a b m : ℕ) → ((a == m) && ltb b 65536) ≡ true → (a ≡ m) × (b < 65536)
both a b m h = (ground arith, ground arith)

at_kind : (kind p : ℕ) → all_below 4096 (comes_back kind) ≡ true → p < 4096 → ComesBack (kind + p)
at_kind kind p table h =
    both (mode_s2v (mode_v2s (kind + p) 0x8000) 0) (mode_v2s (kind + p) 0x8000) (kind + p)
      (all_below-at 4096 p (comes_back kind) table h)

last_kind :
    (kind : ℕ) → is_kind kind ≡ true → kind ≢ 0x4000 → kind ≢ 0x2000 → kind ≢ 0x6000 → kind ≡ 0x8000
last_kind kind ok n1 n2 n3 =
    let e1 : (kind == 0x4000) ≡ false = ground arith in
    let e2 : (kind == 0x2000) ≡ false = ground arith in
    let e3 : (kind == 0x6000) ≡ false = ground arith in
    let t : (kind == 0x8000) ≡ true = rw (e1, e2, e3) at ok in ground (arith, t)

-- A mode of the VFS comes back from an i-node whose mode was IALLOC.
pub mode_s2v-mode_v2s : (kind p : ℕ) → is_kind kind ≡ true → p < 4096 → ComesBack (kind + p)
mode_s2v-mode_v2s kind p ok h = elim (ℕ_discrete kind 0x4000) [
  | yes e ↦ rw e (at_kind 0x4000 p directories h)
  | no n1 ↦ elim (ℕ_discrete kind 0x2000) [
    | yes e ↦ rw e (at_kind 0x2000 p character_devices h)
    | no n2 ↦ elim (ℕ_discrete kind 0x6000) [
      | yes e ↦ rw e (at_kind 0x6000 p block_devices h)
      | no n3 ↦
          let e : kind ≡ 0x8000 = last_kind kind ok n1 n2 n3 in rw e (at_kind 0x8000 p files h)
    ]
  ]
]
