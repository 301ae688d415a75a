-- ===== src/File/Locate.antt =====
-- FileManager::DELocate of UNIXV6PP/FileOperations.cc: the search in a directory, whose entries are
-- 32 bytes long, the i-node number and 28 bytes of the name.
pub mod Names
use secondfs_module.Prelude.{
  ltb, ℕ, zero, suc, ◌+◌, ◌-◌, ◌*◌, ◌/◌, ◌%◌, Bool, true, false, Option, none, some, Result, value,
  error, Run, done, ◌>>=◌, leb, ◌==◌, ◌&&◌, ◌||◌, not, if◌then◌else◌, word_mod, minus_one,
  out_of_bounds,
}
use secondfs_module.Block.{Block, word, block_size}
use secondfs_module.BufferIo.{Buf, BufferIo}
use secondfs_module.Inode.Bmap.{Fs, bmap, give_back, mark_updated}

-- `DirectorySearchMode`
pub data SearchMode : Type 0 where
  open_entry : SearchMode
  create : SearchMode
  delete : SearchMode
  check_empty : SearchMode
  list : SearchMode
  open_not_ignore_dots : SearchMode

-- `DIRSIZ`
abbrev pub dirsiz : ℕ
dirsiz = 28

-- `sizeof(DirectoryEntry)`
abbrev pub entry_size : ℕ
entry_size = 32

-- `ENOENT` and `EEXIST`
abbrev pub enoent : ℕ
enoent = 2

abbrev pub eexist : ℕ
eexist = 17

pub record DirectoryEntry : Type 0 where
  pub m_ino : ℕ
  pub m_name : ℕ → ℕ

-- The entry at an offset of the directory, out of the block that holds it.
unfoldable pub entry_at : Block → ℕ → DirectoryEntry
entry_at b offset = record {
  m_ino = word b (offset % block_size / 4);
  m_name = λ i. b (offset % block_size + 4 + i);
}

-- "." and ".."
unfoldable pub is_dot : (ℕ → ℕ) → Bool
is_dot m_name = (m_name 0 == 46) && (((m_name 1 == 46) && (m_name 2 == 0)) || (m_name 1 == 0))

-- A `char`, which has a sign, in an `int`: the bytes from 128 on are negative.
unfoldable pub char_int : ℕ → ℕ
char_int c = if ltb c 128 then c else c + (word_mod - 256)

-- The loop that compares from byte `i` on, with `n` bytes of the entry left.
unfoldable pub match_from : ℕ → (ℕ → ℕ) → ℕ → (ℕ → ℕ) → ℕ → Bool
unfolding char_int
match_from zero name namelen m_name i = false
match_from (suc n) name namelen m_name i =
    let rest = match_from n name namelen m_name (i + 1) in
    if leb namelen i
    then false
    else if not (char_int (name i) == m_name i)
    then false
    else if (i == namelen - 1) && ((i == dirsiz - 1) || (m_name (i + 1) == 0))
    then true
    else rest

-- `matchSuc`
unfoldable pub is_match : (ℕ → ℕ) → ℕ → (ℕ → ℕ) → Bool
unfolding match_from
is_match name namelen m_name = match_from dirsiz name namelen m_name 0

-- The length of the name in an entry, from byte `i` on.
unfoldable pub name_length : ℕ → (ℕ → ℕ) → ℕ → ℕ
name_length zero m_name i = i
name_length (suc n) m_name i =
    let rest = name_length n m_name (i + 1) in if m_name i == 0 then i else rest

-- `sizeof(DirectoryEntry)` taken off an `s32`
abbrev pub step_back : ℕ → ℕ
step_back offset = (offset + word_mod - entry_size) % word_mod

abbrev pub is_list : SearchMode → Bool
is_list list = true
is_list _ = false

abbrev pub sees_dots : SearchMode → Bool
sees_dots open_not_ignore_dots = true
sees_dots _ = false

-- The search of one caller: the name, and the callback `dir_emit`, which takes the name of an entry,
-- its length and its i-node number, and says whether to go on.
pub record Query (Ctx : Type 0) : Type 0 where
  pub mode : SearchMode
  pub name : ℕ → ℕ
  pub namelen : ℕ
  pub dir_emit : (ℕ → ℕ) → ℕ → ℕ → Ctx → Bool × Ctx

-- What the loop keeps, and what it leaves behind the pointers of the caller. `inop` and `ppos` are
-- `none` until they are written.
pub record Search (Ctx : Type 0) (S : Type 0) : Type 0 where
  pub fs : S
  pub p_buf : Option Buf
  pub free_entry_offset : ℕ
  pub first_time_read : Bool
  pub m_offset : ℕ
  pub m_count : ℕ
  pub inop : Option ℕ
  pub ppos : Option ℕ
  pub ctx : Ctx

module _ (io : BufferIo) (Ctx : Type 0) where
  open io use {Pool, bread}

  abbrev pub Sweep : Type 0
  Sweep = Search Ctx (Fs io)

  -- The errno that DELocate returns, or 0, and the state.
  abbrev pub Located : Type 0
  Located = ℕ × Sweep

  -- The held buffer, if any, is given back.
  unfoldable pub drop_buf : Sweep → Sweep
  drop_buf t = elim t.p_buf [
    | none ↦ t
    | some buf ↦ record t { fs = give_back io buf t.fs; p_buf = none }
  ]

  -- All entries have been looked at.
  unfoldable pub not_found : SearchMode → Sweep → Located
  unfolding mark_updated
  not_found create t =
      if t.free_entry_offset == 0
      then (0, record t { fs = record (t.fs) { node = mark_updated t.fs.node }; inop = some 0 })
      else (0, record t { m_offset = step_back t.free_entry_offset; inop = some 0 })
  not_found check_empty t = (0, record t { m_offset = 1 })
  not_found list t = (0, record t { m_offset = step_back t.m_offset })
  not_found _ t = (enoent, record t { m_offset = step_back t.m_offset; inop = some 0 })

  -- The entry has the name that is searched for.
  unfoldable pub found : SearchMode → ℕ → Sweep → Located
  found create ino t =
      (eexist, record t { m_offset = step_back (step_back t.m_offset); inop = some ino })
  found _ ino t = (0, record t { m_offset = step_back t.m_offset; inop = some ino })

  -- The buffer of the block of the next entry is `buf` now.
  unfoldable pub hold : Result Buf × Pool → Sweep → Result Sweep × Sweep
  hold (error e, p) t = (error e, record t { fs = record (t.fs) { pool = p } })
  hold (value buf, p) t =
      let u = record t { fs = record (t.fs) { pool = p }; p_buf = some buf } in (value u, u)

  -- The next block is read where the last one has been searched.
  unfoldable pub load : Sweep → Run (Result Sweep × Sweep)
  unfolding drop_buf hold
  load t =
      if (t.m_offset % block_size == 0) || t.first_time_read
      then (let u : Sweep = drop_buf (record t { first_time_read = false }) in
          bmap io (t.m_offset / block_size) u.fs >>= λ (blkno, s).
          done (hold (bread blkno s.pool) (record u { fs = s })))
      else done (value t, t)

  -- `m_Offset` and `m_Count` move on, and `*ppos` in a listing; `has_dots` is -1 or not.
  unfoldable pub step : Query Ctx → Sweep → Sweep
  step q t =
      let offset = t.m_offset + entry_size in
      record t {
        m_offset = offset;
        m_count = t.m_count - 1;
        ppos =
            if is_list q.mode
            then some
                (if t.fs.super.s_has_dots == minus_one then offset else offset + entry_size * 2)
            else t.ppos;
      }

  unfoldable pub note_free : Sweep → Sweep
  note_free t = if t.free_entry_offset == 0 then record t { free_entry_offset = t.m_offset } else t

  -- An entry in use: the search ends with it, or goes on with `next`.
  unfoldable pub visit : Query Ctx → (Sweep → Run Located) → DirectoryEntry → Sweep → Run Located
  unfolding drop_buf found
  visit q next dent t = elim q.mode [
    | check_empty ↦ done (0, drop_buf (record t { m_offset = 0 }))
    | list ↦
        let (go_on, ctx) =
          q.dir_emit dent.m_name (name_length dirsiz dent.m_name 0) dent.m_ino t.ctx in
        let u : Sweep = record t { ctx = ctx } in if go_on then next u else done (0, drop_buf u)
    | _ ↦
        if is_match q.name q.namelen dent.m_name
        then done (found q.mode dent.m_ino (drop_buf t))
        else next t
  ]

  unfoldable pub examine : Query Ctx → (Sweep → Run Located) → DirectoryEntry → Sweep → Run Located
  unfolding note_free visit step
  examine q next dent t =
      if dent.m_ino == 0
      then next (note_free (step q t))
      else if not (sees_dots q.mode) && is_dot dent.m_name
      then next (step q t)
      else visit q next dent (step q t)

  -- A round with the buffer in hand.
  unfoldable pub round : Query Ctx → (Sweep → Run Located) → Sweep → Run Located
  unfolding examine
  round q next t = elim t.p_buf [
    | none ↦ out_of_bounds
    | some buf ↦ examine q next (entry_at buf.b_addr t.m_offset) t
  ]

  -- The loop, with `m_count` entries to go.
  unfoldable pub sweep : ℕ → Query Ctx → Sweep → Run Located
  unfolding drop_buf not_found
  sweep zero q t = done (not_found q.mode (drop_buf t))
  sweep (suc n) q t =
      let next = sweep n q in
      load t >>= λ (r, u). elim r [ error e ↦ done (e, u) | value v ↦ round q next v ]

  -- `FileManager::DELocate`; `offset` is what `m_Offset` holds before a listing.
  unfoldable pub de_locate : Query Ctx → ℕ → Ctx → Fs io → Run Located
  unfolding sweep
  de_locate q offset ctx s =
      let start = if is_list q.mode then (offset + 31) / entry_size * entry_size else 0 in
      let count = (s.node.i_size / entry_size + word_mod - start / entry_size) % word_mod in
      sweep count q (record {
        fs = s;
        p_buf = none;
        free_entry_offset = 0;
        first_time_read = true;
        m_offset = start;
        m_count = count;
        inop = none;
        ppos = none;
        ctx = ctx;
      })
