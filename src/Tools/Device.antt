-- ===== src/Tools/Device.antt =====
-- The device file that mkfs.c and fsck.c work on, as an interface: the system calls that they use on
-- the descriptor, and their documented behaviour when no call fails.
use secondfs_module.Prelude.{
  ℕ, ◌+◌, ◌-◌, ◌*◌, ◌≤◌, ◌<◌, ◌^◌, ◌≡◌, leb, ltb, ◌&&◌, if◌then◌else◌, Result, value,
}
use secondfs_module.Block.{Block, block_size}

pub record Device : Type 1 where
  pub State : Type 0
  pub size : ℕ
  pub bytes : State → ℕ → ℕ
  pub position : State → ℕ
  -- `lseek(fd, offset, SEEK_SET)`, the offset as the bit pattern of an `int`: the new position or the
  -- errno.
  pub lseek : ℕ → State → Result ℕ × State
  -- `write(fd, p, n)`, with the bytes at `p`: how many have been written, or the errno.
  pub write : (ℕ → ℕ) → ℕ → State → Result ℕ × State
  -- `read(fd, p, n)`: how many have been read and the bytes, or the errno.
  pub read : ℕ → State → Result (ℕ × (ℕ → ℕ)) × State

-- The `n` bytes of `p` stand from `offset` on.
unfoldable pub overlay : (ℕ → ℕ) → ℕ → ℕ → (ℕ → ℕ) → ℕ → ℕ
overlay old offset n p a = if leb offset a && ltb a (offset + n) then p (a - offset) else old a

-- Block `b` of the device.
unfoldable pub block_at : (ℕ → ℕ) → ℕ → Block
block_at bytes b j = if ltb j block_size then bytes (block_size * b + j) else 0

module _ (dev : Device) where
  open dev use {State, size, bytes, position, lseek, write, read}

  -- A call that moves `r` bytes, at least one.
  abbrev pub Progress : ℕ → ℕ → State → State → Type 0
  Progress r n s s' = (0 < r) × (r ≤ n) × (position s' ≡ position s + r)

  -- No call fails inside of the device, and each call moves at least one byte.
  pub record IsReliable : Type 0 where
    pub lseek_ok :
        (offset : ℕ) (s : State)
        → offset < 2 ^ 31
        → ((lseek offset s).0 ≡ value offset)
          × (position (lseek offset s).1 ≡ offset)
          × (bytes (lseek offset s).1 ≡ bytes s)
    pub write_ok :
        (p : ℕ → ℕ) (n : ℕ) (s : State)
        → 0 < n
        → position s + n ≤ size
        → (r : ℕ) × ((write p n s).0 ≡ value r)
          × Progress r n s (write p n s).1
          × (bytes (write p n s).1 ≡ overlay (bytes s) (position s) r p)
    pub read_ok :
        (n : ℕ) (s : State)
        → 0 < n
        → position s + n ≤ size
        → (r : ℕ) × (p : ℕ → ℕ) × ((read n s).0 ≡ value (r, p))
          × Progress r n s (read n s).1
          × (bytes (read n s).1 ≡ bytes s)
          × ((j : ℕ) → j < r → p j ≡ bytes s (position s + j))
