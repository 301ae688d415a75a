-- ===== src/Tools/Memory.antt =====
-- A file in memory: a concrete device for the tests, which moves at most 300 bytes in a call.
use secondfs_module.Prelude.{
  ℕ, ◌+◌, ◌-◌, ◌≤◌, ◌<◌, ◌^◌, ◌≡◌, refl, value, error, arith, ltb, leb, true, if◌then◌else◌,
}
use secondfs_module.Tools.Device.{Device, IsReliable, overlay}

pub record File : Type 0 where
  pub bytes : ℕ → ℕ
  pub position : ℕ

-- What one call moves of `n` bytes.
unfoldable pub moved : ℕ → ℕ
moved n = if ltb n 300 then n else 300

-- What is left from the position on.
unfoldable pub left : ℕ → File → ℕ → ℕ
left size s n = if leb (s.position + n) size then n else size - s.position

-- A file of `size` bytes; an offset of 2^31 or more stands for a negative number.
abbrev pub memory : ℕ → Device
memory size = record {
  State = File;
  size = size;
  bytes = λ s. s.bytes;
  position = λ s. s.position;
  lseek = λ o s. if ltb o (2 ^ 31) then (value o, record s { position = o }) else (error 22, s);
  write = λ p n s. (
    value (moved n),
    record { bytes = overlay s.bytes s.position (moved n) p; position = s.position + moved n },
  );
  read = λ n s.
      let r = moved (left size s n) in
      (value (r, λ j. s.bytes (s.position + j)), record s { position = s.position + r });
}

moved-le : (n : ℕ) → 0 < n → (0 < moved n) × (moved n ≤ n)
unfolding moved
moved-le n h = (ground arith, ground arith)

module _ (size : ℕ) where
  seek_ok :
      (o : ℕ) (s : File)
      → o < 2 ^ 31
      → (((memory size).lseek o s).0 ≡ value o)
        × (((memory size).lseek o s).1.position ≡ o)
        × (((memory size).lseek o s).1.bytes ≡ s.bytes)
  seek_ok o s h = let e : ltb o (2 ^ 31) ≡ true = ground arith in rw e (refl, refl, refl)

  left-whole : (n : ℕ) (s : File) → s.position + n ≤ size → left size s n ≡ n
  unfolding left
  left-whole n s h = ground arith

  pub memory-IsReliable : IsReliable (memory size)
  memory-IsReliable = record {
    lseek_ok = seek_ok;
    write_ok = λ p n s pos fits.
        let (some_moved, le) = moved-le n pos in (moved n, refl, (some_moved, le, refl), refl);
    read_ok = λ n s pos fits.
        let (some_moved, le) = moved-le n pos in
        let e = left-whole n s fits in
        (
          moved n,
          λ j. s.bytes (s.position + j),
          rw e refl,
          (some_moved, le, rw e refl),
          refl,
          λ j h. refl,
        );
  }

  moved-past : (n : ℕ) (s : File) → size ≤ s.position → moved (left size s n) ≡ 0
  unfolding moved left
  moved-past n s h = ground arith

  -- Behind the end there is nothing to read.
  pub memory-ends :
      (n : ℕ) (s : File)
      → size ≤ s.position
      → (p : ℕ → ℕ) × (((memory size).read n s).0 ≡ value (0, p))
        × (((memory size).read n s).1.position ≡ s.position)
  memory-ends n s h =
      let e = moved-past n s h in (λ j. s.bytes (s.position + j), rw e refl, omega (arith, e))
