-- ===== src/Tools/Mkfs.antt =====
-- main of mkfs.c: the options, the groups of free blocks, and the blocks that it writes. Output to
-- the terminal is left out.
pub mod Groups
pub mod Space
pub mod Volume
pub mod Formatted
pub mod Laws
pub mod Mount
pub mod Failures
use secondfs_module.Prelude.{
  ℕ, zero, suc, ◌+◌, ◌-◌, ◌*◌, ◌/◌, ◌%◌, true, false, Bool, not, ◌&&◌, ◌||◌, List, [], ◌∷◌, Option,
  none, some, Result, value, error, Run, done, out_of_bounds, bug, out_of_fuel, ◌>>=◌, leb, ltb,
  ◌==◌, if◌then◌else◌, minus_one, word_mod, inc32, s32_neg, s32_le, update,
}
use secondfs_module.Block.{block_size, put_words, zero_block}
use secondfs_module.File.Locate.{DirectoryEntry, entry_size}
use secondfs_module.Tools.Device.{Device, overlay}
use secondfs_module.Tools.Transfer.{FastStack, write_block, write_stack_in_block}
use secondfs_module.Tools.Volume.{
  SuperBlock, super_block_word, super_block_size, DiskInode, disk_inode_word, disk_inode_size,
  entry_byte,
}

abbrev pub sb_first_block : ℕ
sb_first_block = 200

abbrev pub inode_first_block : ℕ
inode_first_block = 202

abbrev pub data_first_block : ℕ
data_first_block = 1024

abbrev pub block_min_required : ℕ
block_min_required = 1025

-- `EXIT_FAILURE` and the errnos
abbrev pub exit_failure : ℕ
exit_failure = 1

abbrev pub einval : ℕ
einval = 22

abbrev pub enospc : ℕ
enospc = 28

-- What getopt_long has found: a long option with a flag, by its index in `long_options` and the
-- value that it has stored in `verbose_level`, or the character that it returns.
pub data Found : Type 0 where
  long_flag : ℕ → ℕ → Found
  character : ℕ → Found

pub record Flags : Type 0 where
  pub read_only_flag : ℕ
  pub has_dots_flag : ℕ
  pub getopt_err : ℕ
  pub verbose_level : ℕ

abbrev pub no_flags : Flags
no_flags = record {
  read_only_flag = minus_one;
  has_dots_flag = minus_one;
  getopt_err = 0;
  verbose_level = minus_one;
}

-- The switch of the loop over the options: the flags, or the exit status.
unfoldable pub option : Found → Flags → Run (Result Flags)
option (long_flag index v) f =
    if (index == 3) || (index == 4) then done (value (record f { verbose_level = v })) else bug
option (character c) f =
    if c == 114
    then done (
        value (
          if f.read_only_flag == minus_one
          then record f { read_only_flag = 1 }
          else record f { getopt_err = 1 }))
    else if (c == 100) || (c == 68)
    then done (
        value (
          if f.has_dots_flag == minus_one
          then record f { has_dots_flag = if c == 100 then 1 else 0 }
          else record f { getopt_err = 1 }))
    else if c == 118
    then done (value (record f { verbose_level = 1 }))
    else if c == 63
    then done (error exit_failure)
    else bug

unfoldable pub options : List Found → Flags → Run (Result Flags)
unfolding option
options [] f = done (value f)
options (o ∷ os) f =
    option o f >>= λ r. elim r [ error e ↦ done (error e) | value g ↦ options os g ]

-- What the options leave open.
unfoldable pub defaults : Flags → Flags
defaults f = record f {
  read_only_flag = if f.read_only_flag == minus_one then 0 else f.read_only_flag;
  has_dots_flag = if f.has_dots_flag == minus_one then 1 else f.has_dots_flag;
  verbose_level = if f.verbose_level == minus_one then 0 else f.verbose_level;
}

-- `fast_stack_buf.stack[LE32_POST_INC(fast_stack_buf.count)] = v`
unfoldable pub push : ℕ → FastStack → Run FastStack
push v st =
    if leb 100 st.count
    then out_of_bounds
    else done (record { count = inc32 st.count; stack = update st.stack st.count v })

-- The `for` loop, from `i` on with `n` numbers to go.
unfoldable pub fill : ℕ → ℕ → ℕ → FastStack → Run FastStack
unfolding push
fill zero i remain st = done st
fill (suc n) i remain st =
    push (remain - i + data_first_block) st >>= λ st'. fill n (i + 1) remain st'

-- `curr_group_size`
unfoldable pub group_size : Bool → ℕ → ℕ
group_size first_time remain =
    let group_max_size = if first_time then 99 else 100 in
    if ltb remain group_max_size then remain else group_max_size

-- `fast_stack_buf` of one round.
unfoldable pub make_group : Bool → ℕ → FastStack → Run FastStack
unfolding push fill group_size
make_group first_time remain st =
    let empty : FastStack = record st { count = 0 } in
    let size = group_size first_time remain in
    (if first_time then push 0 empty else done empty) >>= λ bottom.
    fill size 0 remain bottom >>= λ full.
    done (record full { count = if first_time then size + 1 else size })

-- The results of `time(NULL)`, in their order.
pub record Times : Type 0 where
  pub super_time : ℕ
  pub access_time : ℕ
  pub modify_time : ℕ

-- `sb_buf`
unfoldable pub format_super_block : Flags → ℕ → FastStack → Times → SuperBlock
format_super_block f arg_block_num free times = record {
  s_isize = data_first_block - inode_first_block;
  s_fsize = arg_block_num;
  s_free = free;
  s_inode = record { count = 100; stack = λ i. if ltb i 100 then 100 - i else 0 };
  s_has_dots = if f.has_dots_flag == 0 then 0 else minus_one;
  s_ilock_obsolete = 0;
  s_fmod = 0;
  s_ronly = if f.read_only_flag == 0 then 0 else 1;
  s_time = times.super_time % word_mod;
  padding = λ i. 0;
}

-- `di`, the i-node of the root; its mode is IALLOC | IFDIR and rwx for all.
unfoldable pub root_inode : Flags → Times → DiskInode
root_inode f times = record {
  d_mode = 0x8000 + 0x4000 + 0x100 + 0x80 + 0x40 + 0x20 + 0x10 + 8 + 4 + 2 + 1;
  d_nlink = if f.has_dots_flag == 0 then 1 else 2;
  d_uid = 0;
  d_gid = 0;
  d_size = if f.has_dots_flag == 0 then 0 else 2 * entry_size;
  d_addr = λ i. if i == 0 then data_first_block else 0;
  d_atime = times.access_time % word_mod;
  d_mtime = times.modify_time % word_mod;
}

-- The entries "." and "..": the number is -1, and a name has `n` dots.
unfoldable pub dots : ℕ → DirectoryEntry
dots n = record { m_ino = minus_one; m_name = λ i. if ltb i n then 46 else 0 }

-- The block of the root directory.
unfoldable pub root_block : Flags → ℕ → ℕ
unfolding overlay entry_byte dots
root_block f =
    if f.has_dots_flag == 0
    then zero_block
    else overlay (overlay zero_block 0 entry_size (entry_byte (dots 1))) entry_size entry_size
        (entry_byte (dots 2))

module _ (dev : Device) where
  open dev use {State}

  -- The loop that distributes the free blocks: the return value of `main` so far with the stack for
  -- the super block, or the exit status.
  unfoldable pub groups :
      ℕ → Bool → ℕ → FastStack → ℕ → State → Run (Result (ℕ × FastStack) × State)
  unfolding make_group
  groups zero first_time remain st ret s = out_of_fuel
  groups (suc n) first_time remain st ret s = make_group first_time remain st >>= λ full.
      let left = remain - group_size first_time remain in
      if left == 0
      then done (value (ret, full), s)
      else write_stack_in_block dev (left + data_first_block) full s >>= λ (ret', t).
          if s32_neg ret' then done (error ret', t) else groups n false left full ret' t

  -- `if (write_block(...) < 0) goto fclose_err;`
  unfoldable pub write_or_stop :
      ℕ → (ℕ → ℕ) → ℕ → ℕ → (State → Run (ℕ × State)) → State → Run (ℕ × State)
  write_or_stop block_no buf len ret next s =
      write_block dev block_no buf len s >>= λ (r, t). if s32_neg r then done (ret, t) else next t

  -- The i-node area, with `n` blocks to go.
  unfoldable pub write_inode_area : ℕ → ℕ → ℕ → (State → Run (ℕ × State)) → State → Run (ℕ × State)
  unfolding write_or_stop
  write_inode_area zero blkno ret next s = next s
  write_inode_area (suc n) blkno ret next s =
      write_or_stop blkno zero_block block_size ret (λ t. write_inode_area n (blkno + 1) ret next t)
        s

  -- From the super block on: the super block, the i-node area, the i-node of the root, its block.
  unfoldable pub write_volume : Flags → ℕ → FastStack → Times → ℕ → State → Run (ℕ × State)
  unfolding write_or_stop write_inode_area format_super_block super_block_word root_inode
      disk_inode_word root_block
  write_volume f arg_block_num free times ret s =
      write_or_stop sb_first_block
        (put_words zero_block 0 256
          (super_block_word (format_super_block f arg_block_num free times)))
        super_block_size ret
        (λ t.
          write_inode_area (data_first_block - inode_first_block) inode_first_block ret
            (λ u.
              write_or_stop inode_first_block
                (put_words zero_block 0 16 (disk_inode_word (root_inode f times))) disk_inode_size
                ret
                (λ v.
                  write_or_stop data_first_block (root_block f) block_size ret (λ w. done (ret, w))
                    v)
                u)
            t)
        s

  -- Behind the loop over the groups, which may have failed.
  unfoldable pub after_groups : Flags → ℕ → Times → Result (ℕ × FastStack) × State → Run (ℕ × State)
  unfolding write_volume
  after_groups f arg_block_num times (error ret, t) = done (ret, t)
  after_groups f arg_block_num times (value (ret, free), t) =
      write_volume f arg_block_num free times ret t

  -- From the free blocks on; `ret` is 0 after fstat, and `garbage` what the stack buffer holds.
  unfoldable pub format : Flags → ℕ → (ℕ → ℕ) → Times → State → Run (ℕ × State)
  unfolding groups after_groups
  format f arg_block_num garbage times s =
      let remain = arg_block_num - data_first_block - 1 in
      groups (suc remain) true remain (record { count = 0; stack = garbage }) 0 s
      >>= after_groups f arg_block_num times

  -- The checks of the sizes, and the formatting.
  unfoldable pub format_checked : Flags → Option ℕ → ℕ → (ℕ → ℕ) → Times → State → Run (ℕ × State)
  unfolding format
  format_checked f block_count block_num garbage times s =
      if not (s32_le block_min_required block_num) then done (enospc, s) else elim block_count [
        | none ↦ format f block_num garbage times s
        | some n ↦
            if not (s32_le block_min_required n) || not (s32_le n block_num)
            then done (einval, s)
            else format f n garbage times s
      ]

  -- `main`: the exit status and the state of the device file, when it is open. `operands` are the
  -- `argc - optind` arguments behind the options, `block_count` is `atoi` of the second;
  -- `opened` is what open(2) yields, `fstat` the size of the file or the errno.
  unfoldable pub main :
      List Found
      → ℕ
      → ℕ
      → Result State
      → (State → Result ℕ)
      → (ℕ → ℕ)
      → Times
      → Run (ℕ × Option State)
  unfolding options defaults format_checked
  main found operands block_count opened fstat garbage times = options found no_flags >>= λ r.
      elim r [
        | error e ↦ done (e, none)
        | value f ↦
            if not (operands == 2) && not (operands == 1)
            then done (exit_failure, none)
            else elim opened [
              | error e ↦ done (exit_failure, none)
              | value s ↦ elim (fstat s) [
                | error e ↦ done (e, some s)
                | value st_size ↦
                    format_checked (defaults f) (if operands == 2 then some block_count else none)
                      (st_size / block_size % word_mod) garbage times s
                    >>= λ (ret, t). done (ret, some t)
              ]
            ]
      ]
