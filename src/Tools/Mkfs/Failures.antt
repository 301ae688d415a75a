-- ===== src/Tools/Mkfs/Failures.antt =====
-- mkfs.c when a call fails: the exit status, and what happens on a device of more than 2 GiB, where
-- the offset of a block is no `int`.
use secondfs_module.Prelude.{
  ℕ, suc, ◌+◌, ◌-◌, ◌*◌, ◌≤◌, ◌<◌, ◌^◌, ◌≡◌, refl, error, Result, done, Returns, Returns-bind,
  arith, true, minus_one,
}
use secondfs_module.Tools.Device.{Device, block_at}
use secondfs_module.Tools.Transfer.{FastStack, write_stack_in_block, write_block, block_offset}
use secondfs_module.Tools.Mkfs.{
  Flags, Times, groups, after_groups, make_group, group_size, format, write_volume, fill, push,
  write_or_stop,
}
use secondfs_module.Tools.Mkfs.Groups.{Filled, make_group-first}
use secondfs_module.Tools.Mkfs.Space.{distribute, distribute-eq-more, after_write, groups-eq}

module _ (dev : Device) (garbage : ℕ → ℕ) (times : Times) where
  open dev use {State, bytes, lseek}

  write_stack-fails :
      (b : ℕ) (st : FastStack) (s : State) (e : ℕ)
      → (lseek (block_offset b) s).0 ≡ error e
      → write_stack_in_block dev b st s ≡ done (minus_one, (lseek (block_offset b) s).1)
  unfolding write_stack_in_block
  write_stack-fails b st s e fails = rw (fails, write_block) refl

  -- The first group of the free blocks could not be written.
  abbrev pub Failed : Result (ℕ × FastStack) × State → Type 0
  Failed (r, t) = r ≡ error minus_one

  distribute-Failed :
      (k left e : ℕ) (full : FastStack) (s : State)
      → 0 < left
      → (lseek (block_offset (left + 1024)) s).0 ≡ error e
      → Returns Failed (distribute dev k left full 0 s)
  unfolding after_write
  distribute-Failed k left e full s more fails =
      rw (distribute-eq-more dev k left full s more)
        (rw (write_stack-fails (left + 1024) full s e fails) refl)

  groups-Failed :
      (n e : ℕ) (st : FastStack) (s : State)
      → 2 ^ 22 + 100 ≤ n
      → n ≤ 2 ^ 23
      → ((offset : ℕ) → 2 ^ 31 ≤ offset → (t : State) → (lseek offset t).0 ≡ error e)
      → let remain = n - 1024 - 1 in Returns Failed (groups dev (suc remain) true remain st 0 s)
  unfolding group_size
  groups-Failed n e st s least bound refuses =
      let remain = n - 1024 - 1 in
      let size = group_size true remain in
      let full_group : size ≡ 99 = ground arith in
      let left = remain - size in
      rw (groups-eq dev remain true remain st s) (
        Returns-bind {P = Filled (block_at (bytes s)) n (left + 1025) (suc size)} Failed
          (make_group true remain st) (λ full. distribute dev remain left full 0 s)
          (make_group-first (block_at (bytes s)) n (omega arith) remain st (omega arith))
          λ full f.
            distribute-Failed remain left e full s (omega arith)
              (refuses (block_offset (left + 1024)) (omega arith) s))

  after_groups-Failed :
      (f : Flags) (n : ℕ) (r : Result (ℕ × FastStack)) (t : State)
      → r ≡ error minus_one
      → Returns (λ (status, u). status ≡ minus_one) (after_groups dev f n times (r, t))
  unfolding after_groups
  after_groups-Failed f n r t e = rw e refl

  -- On a volume of 2^22 + 100 to 2^23 blocks the first group of free blocks belongs into a block
  -- whose offset overflows an `int` to a negative number. Where lseek(2) refuses negative offsets,
  -- formatting ends with status -1, at a device of any size.
  pub format_large-fails :
      (f : Flags) (n e : ℕ) (s : State)
      → 2 ^ 22 + 100 ≤ n
      → n ≤ 2 ^ 23
      → ((offset : ℕ) → 2 ^ 31 ≤ offset → (t : State) → (lseek offset t).0 ≡ error e)
      → Returns (λ (status, t). status ≡ minus_one) (format dev f n garbage times s)
  unfolding format
  format_large-fails f n e s least bound refuses =
      let remain = n - 1024 - 1 in
      let start : FastStack = record { count = 0; stack = garbage } in
      Returns-bind {P = Failed} (λ (status, t). status ≡ minus_one)
        (groups dev (suc remain) true remain start 0 s) (after_groups dev f n times)
        (groups-Failed n e start s least bound refuses)
        λ (r, t) failed. after_groups-Failed f n r t failed

  -- A volume of 1025 blocks has no group on the device. When the seek to its super block fails,
  -- formatting writes nothing and ends with status 0 all the same.
  pub format_failed-status :
      (f : Flags) (s : State) (e : ℕ)
      → (lseek (200 * 512) s).0 ≡ error e
      → format dev f 1025 garbage times s ≡ done (0, (lseek (200 * 512) s).1)
  unfolding format groups make_group fill push group_size after_groups write_volume write_or_stop
      write_block
  format_failed-status f s e fails = rw (fails, write_block) refl
