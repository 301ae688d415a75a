-- ===== src/Examples/Tools.antt =====
-- mkfs.c and fsck.c on a file of 1200 blocks, and on files that they cannot handle.
use secondfs_module.Prelude.{
  update, true, ℕ, ◌+◌, ◌*◌, ◌^◌, ◌≡◌, inl, refl, arith, [], ◌∷◌, value, out_of_bounds, out_of_fuel,
  Returns, returned, returned-holds, minus_one, ltb, false,
}
use secondfs_module.Block.{zero_block, put_word, word, byte_of}
use secondfs_module.FileSystem.FreeList.{FreeList, entry, bottom}
use secondfs_module.FileSystem.Sync.{load_super_block}
use secondfs_module.FileSystem.Sync.Laws.{Serves}
use secondfs_module.Cache.Queue.{search, not_avail, brelse}
use secondfs_module.Cache.GetBlk.{get_blk, io_done, adopt}
use secondfs_module.Cache.Transfer.{bread, read_in}
use secondfs_module.Cache.Io.{parted, read_out, on_buf, found_buf}
use secondfs_module.Tools.Device.{Device, block_at}
use secondfs_module.Tools.Memory.{File, memory, memory-IsReliable, memory-ends}
use secondfs_module.Tools.Transfer.{FastStack, read_block, write_block}
use secondfs_module.Tools.Transfer.Laws.{Written, write_block-Written}
use secondfs_module.Tools.Mkfs.{Flags, Times, character, options, defaults, main, format, groups}
use secondfs_module.Tools.Mkfs.Space.{Grouped, groups-Grouped}
use secondfs_module.Tools.Mkfs.Volume.{Formats}
use secondfs_module.Tools.Mkfs.Laws.{format-Formats, Succeeds, main-Succeeds}
use secondfs_module.Tools.Mkfs.Failures.{format_large-fails}
use secondfs_module.Tools.Mkfs.Mount.{Mounted, load-Mounted}
use secondfs_module.Tools.Fsck.{check, check_inodes, walk}
use secondfs_module.Tools.Fsck.Walk.{Lists, walk-Lists}
use secondfs_module.Tools.Fsck.Laws.{Passes, check-Passes}
use secondfs_module.Tools.Fsck.Failures.{check_inodes-cases, read_block-endless}
use secondfs_module.Examples.Data.{good, ready, super_block}

abbrev dev : Device
dev = memory (1200 * 512)

abbrev empty_file : File
empty_file = record { bytes = λ j. 0; position = 0 }

abbrev times : Times
times = record { super_time = 1; access_time = 2; modify_time = 3 }

-- `-D`
abbrev flags : Flags
flags = record {
  read_only_flag = minus_one;
  has_dots_flag = 0;
  getopt_err = 0;
  verbose_level = minus_one;
}

abbrev nothing : ℕ → ℕ
nothing i = 0

main-Succeeds_example :
    Returns
      (Succeeds dev (memory-IsReliable (1200 * 512)) nothing times (defaults flags) 1200)
      (main dev (character 68 ∷ []) 1 0 (value empty_file) (λ t. value (1200 * 512)) nothing times)
unfolding options
main-Succeeds_example =
    main-Succeeds dev (memory-IsReliable (1200 * 512)) nothing times (character 68 ∷ []) flags 1 0
      1200 empty_file refl (inl (refl, refl)) (omega arith) (omega arith) (omega arith)

-- The file that mkfs.c has formatted.
formatting :
    Returns
      (Formats dev (memory-IsReliable (1200 * 512)) (defaults flags) 1200 times 0)
      (format dev (defaults flags) 1200 nothing times empty_file)
formatting =
    format-Formats dev (memory-IsReliable (1200 * 512)) nothing times (defaults flags) 1200
      empty_file (omega arith) (omega arith) (omega arith)

abbrev volume : ℕ × File
volume =
    returned (Formats dev (memory-IsReliable (1200 * 512)) (defaults flags) 1200 times 0)
      (format dev (defaults flags) 1200 nothing times empty_file) formatting

volume-formatted : Formats dev (memory-IsReliable (1200 * 512)) (defaults flags) 1200 times 0 volume
volume-formatted =
    returned-holds (Formats dev (memory-IsReliable (1200 * 512)) (defaults flags) 1200 times 0)
      (format dev (defaults flags) 1200 nothing times empty_file) formatting

Serves-volume :
    Serves good 9
      (block_at volume.1.bytes 200)
      (block_at volume.1.bytes 201)
      (ready (block_at volume.1.bytes))
unfolding parted read_out on_buf found_buf bread get_blk search not_avail brelse io_done adopt
    read_in update
Serves-volume = (refl, refl)

load-Mounted_example :
    ((load_super_block good 9 (super_block 0 0 0) (ready (block_at volume.1.bytes))).0 ≡ 0)
    × Mounted 1200
        (block_at volume.1.bytes)
        (load_super_block good 9 (super_block 0 0 0) (ready (block_at volume.1.bytes))).1
load-Mounted_example =
    load-Mounted good 9 (defaults flags) 1200 times (block_at volume.1.bytes) (super_block 0 0 0)
      (ready (block_at volume.1.bytes)) volume-formatted.1 Serves-volume

check-Passes_example :
    Returns
      (Passes dev
        (memory-IsReliable (1200 * 512))
        (defaults flags)
        1200
        times
        (omega arith)
        (omega arith)
        (omega arith)
        volume.1)
      (check dev 1201 1025 volume.1)
check-Passes_example =
    check-Passes dev (memory-IsReliable (1200 * 512)) (defaults flags) 1200 times (omega arith)
      (omega arith) (omega arith) 1201 1025 volume.1 volume-formatted.1 (omega arith) (omega arith)

abbrev stack_buffer : ℕ → ℕ
stack_buffer = put_word (put_word zero_block 0 2) 2 1030

one_block :
    FreeList
      (block_at empty_file.bytes)
      (word stack_buffer 0)
      (λ i. word stack_buffer (i + 1))
      (1030 ∷ [])
unfolding word put_word zero_block byte_of
one_block = entry (omega arith) (omega arith) refl (omega arith) (bottom refl)

abbrev empty_stack : FastStack
empty_stack = record { count = 0; stack = nothing }

groups-Grouped_example :
    Returns (Grouped dev 1200) (groups dev 176 true 175 empty_stack 0 empty_file)
groups-Grouped_example =
    groups-Grouped dev (memory-IsReliable (1200 * 512)) 1200 (omega arith) (omega arith) 175
      empty_stack empty_file refl

walk-Lists_example :
    Returns (Lists dev (1030 ∷ []) empty_file) (walk dev 2 405 1200 stack_buffer empty_file)
walk-Lists_example =
    walk-Lists dev (memory-IsReliable (1200 * 512)) 405 1200 (omega arith) (omega arith)
      (omega arith) 2 stack_buffer empty_file (1030 ∷ []) (omega arith) one_block
      (λ b h. ground arith)

write_block-Written_example :
    Returns
      (Written dev (memory-IsReliable (1200 * 512)) (7 * 512) 404 stack_buffer empty_file)
      (write_block dev 7 stack_buffer 404 empty_file)
write_block-Written_example =
    write_block-Written dev (memory-IsReliable (1200 * 512)) 7 404 stack_buffer empty_file
      (omega arith) (omega arith) (omega arith)

-- A file of 2 GiB and 100 blocks.
format_large-fails_example :
    Returns
      (λ (status, t). status ≡ minus_one)
      (format (memory (2 ^ 32)) flags (2 ^ 22 + 100) nothing times empty_file)
format_large-fails_example =
    format_large-fails (memory (2 ^ 32)) nothing times flags (2 ^ 22 + 100) 22 empty_file
      (omega arith) (omega arith)
      λ o h s. let e : ltb o (2 ^ 31) ≡ false = ground arith in rw e refl

check_inodes-cases_example : check_inodes 0 zero_block ≡ out_of_bounds
unfolding word zero_block
check_inodes-cases_example = check_inodes-cases 0 zero_block

-- A file of 1025 blocks whose super block promises block 1100.
read_block-endless_example :
    read_block (memory (1025 * 512)) 9 1100 nothing 404 empty_file ≡ out_of_fuel
read_block-endless_example =
    read_block-endless (memory (1025 * 512)) (memory-ends (1025 * 512)) 9 1100 404 nothing
      empty_file (1100 * 512) (omega arith) refl (omega arith)
