-- ===== src/Tools/Mkfs/Laws.antt =====
-- What main of mkfs.c promises: a formatted volume on a device on which no call fails, an exit
-- status that says nothing of some failed writes, and no change where an argument is refused.
use secondfs_module.Prelude.{
  ℕ, suc, ◌-◌, ◌*◌, ◌/◌, ◌%◌, ◌≤◌, ◌<◌, ◌^◌, ◌≡◌, subst, sym, refl, ◌⊎◌, inl, inr, Option, none,
  some, List, Result, value, error, done, ◌>>=◌, Returns, Returns-bind, arith, true, false, leb,
  s32_le, s32_neg, word_mod,
}
use secondfs_module.Tools.Device.{Device, IsReliable, block_at}
use secondfs_module.Tools.Transfer.{FastStack}
use secondfs_module.Tools.Mkfs.{
  Flags, Times, Found, groups, after_groups, write_volume, format, format_checked, main, options,
  no_flags, defaults,
}
use secondfs_module.Tools.Mkfs.Space.{Grouped, groups-Grouped}
use secondfs_module.Tools.Mkfs.Volume.{Formats, write_volume-Formats}
use secondfs_module.Tools.Mkfs.Formatted.{Formatted}

s32_le-small : (a b : ℕ) → a ≤ b → b < 2 ^ 31 → s32_le a b ≡ true
s32_le-small a b le bound =
    let p : s32_neg a ≡ false = ground arith in
    let q : s32_neg b ≡ false = ground arith in
    let r : leb a b ≡ true = ground arith in rw (p, q, r) refl

module _ (dev : Device) (laws : IsReliable dev) (garbage : ℕ → ℕ) (times : Times) where
  open dev use {State, bytes, size}

  after_groups-Formats :
      (f : Flags) (n : ℕ) (r : Result (ℕ × FastStack)) (t : State)
      → 1025 ≤ n
      → n ≤ 2 ^ 22
      → n * 512 ≤ size
      → Grouped dev n (r, t)
      → Returns (Formats dev laws f n times 0) (after_groups dev f n times (r, t))
  unfolding after_groups
  after_groups-Formats f n (error ret) t least bound fits h = absurd h
  after_groups-Formats f n (value (ret, free)) t least bound fits (e, fill) =
      subst (λ q. Returns (Formats dev laws f n times 0) (write_volume dev f n free times q t))
        (sym e) (write_volume-Formats dev laws f n free times 0 t least bound fits fill)

  -- Formatting a volume of `n` blocks, from the root directory on up to 2^22 and inside of the
  -- device, ends with status 0 and leaves the super block, the list of free blocks, the i-node area
  -- and the root directory as `Formatted` says.
  pub format-Formats :
      (f : Flags) (n : ℕ) (s : State)
      → 1025 ≤ n
      → n ≤ 2 ^ 22
      → n * 512 ≤ size
      → Returns (Formats dev laws f n times 0) (format dev f n garbage times s)
  unfolding format
  format-Formats f n s least bound fits =
      let remain = n - 1024 - 1 in
      let start : FastStack = record { count = 0; stack = garbage } in
      Returns-bind {P = Grouped dev n} (Formats dev laws f n times 0)
        (groups dev (suc remain) true remain start 0 s) (after_groups dev f n times)
        (groups-Grouped dev laws n bound fits remain start s (omega arith))
        λ (r, t) g. after_groups-Formats f n r t least bound fits g

  format_checked-eq-default :
      (f : Flags) (total : ℕ) (s : State)
      → 1025 ≤ total
      → total < 2 ^ 31
      → format_checked dev f none total garbage times s ≡ format dev f total garbage times s
  unfolding format_checked
  format_checked-eq-default f total s least bound =
      rw (s32_le-small 1025 total least bound, format_checked) refl

  format_checked-eq-given :
      (f : Flags) (n total : ℕ) (s : State)
      → 1025 ≤ n
      → n ≤ total
      → total < 2 ^ 31
      → format_checked dev f (some n) total garbage times s ≡ format dev f n garbage times s
  unfolding format_checked
  format_checked-eq-given f n total s least le bound =
      rw
        (
          s32_le-small 1025 total (omega arith) bound,
          s32_le-small 1025 n least (omega arith),
          s32_le-small n total le bound,
          format_checked,
        )
        refl

  -- `main` ends with status 0 on a formatted volume.
  abbrev pub Succeeds : Flags → ℕ → ℕ × Option State → Type 0
  Succeeds f n (status, r) =
      (status ≡ 0) × ((s : State) × (r ≡ some s) × Formatted f n times (block_at (bytes s)))

  opened-Succeeds :
      (f : Flags) (n : ℕ) (s : State)
      → 1025 ≤ n
      → n ≤ 2 ^ 22
      → n * 512 ≤ size
      → Returns (Succeeds f n) (format dev f n garbage times s >>= λ (ret, t). done (ret, some t))
  opened-Succeeds f n s least bound fits =
      Returns-bind {P = Formats dev laws f n times 0} (Succeeds f n)
        (format dev f n garbage times s) (λ (ret, t). done (ret, some t))
        (format-Formats f n s least bound fits) λ (ret, t) (z, fm). (z, (t, refl, fm))

  -- mkfs.c on a device of fewer than 2^40 bytes on which no call fails, with options that are
  -- accepted, and one argument behind them or two, the second a number of blocks that is on the
  -- device: main ends with status 0, and the file is a formatted volume of that many blocks, or of
  -- all blocks of the device. They must be 1025 to 2^22.
  pub main-Succeeds :
      (found : List Found) (f : Flags) (operands block_count n : ℕ) (s : State)
      → options found no_flags ≡ done (value f)
      → (operands ≡ 1 × n ≡ size / 512) ⊎ (operands ≡ 2 × n ≡ block_count × n ≤ size / 512)
      → 1025 ≤ n
      → n ≤ 2 ^ 22
      → size < 2 ^ 40
      → Returns
          (Succeeds (defaults f) n)
          (main dev found operands block_count (value s) (λ t. value size) garbage times)
  unfolding main
  main-Succeeds found f operands block_count n s parsed (inl (one, e)) least bound small =
      let whole : size / 512 % word_mod ≡ n = omega arith in
      rw (parsed, main)
        (rw one (
          rw (whole, format_checked-eq-default (defaults f) n s least (omega arith))
            (opened-Succeeds (defaults f) n s least bound (omega arith))))
  main-Succeeds found f operands block_count n s parsed (inr (two, e, le)) least bound small =
      let whole : size / 512 % word_mod ≡ size / 512 = omega arith in
      let taken = format_checked-eq-given (defaults f) n (size / 512) s least le (omega arith) in
      rw (parsed, main)
        (rw two
          (rw (whole, sym e, taken) (opened-Succeeds (defaults f) n s least bound (omega arith))))
