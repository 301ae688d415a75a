-- ===== src/Bio.antt =====
-- bio.c: secondfs_submit_bio and its two callers, which move the 512 bytes of a buffer to or from a
-- sector. The block layer of the kernel is an interface. A page has 4096 bytes.
pub mod Pages
use secondfs_module.Prelude.{
  ℕ, zero, suc, ◌+◌, ◌-◌, ◌*◌, ◌/◌, ◌%◌, Bool, true, false, List, [], Result, value, error, Run,
  done, out_of_fuel, ◌>>=◌, ltb, ◌==◌, if◌then◌else◌,
}

abbrev pub page_size : ℕ
page_size = 4096

-- What `bio_add_page` takes: the number of the page, `len` and `page_offset`.
pub record Segment : Type 0 where
  pub page : ℕ
  pub len : ℕ
  pub page_offset : ℕ

-- `sync` is REQ_SYNC.
pub record Bio : Type 0 where
  pub bi_sector : ℕ
  pub write : Bool
  pub sync : Bool
  pub segments : List Segment

-- The calls of the block layer, on what it keeps.
pub record BlockLayer (S : Type 0) : Type 0 where
  -- The number of bytes that have been added.
  pub bio_add_page : Bio → Segment → ℕ × Bio
  -- 0 or the errno.
  pub submit_bio_wait : Bio → S → ℕ × S

-- The part of the buffer at `buf` that lies in one page.
unfoldable pub segment_at : ℕ → ℕ → Segment
segment_at buf io_size =
    let room = page_size - buf % page_size in
    record {
      page = buf / page_size;
      len = if ltb room io_size then room else io_size;
      page_offset = buf % page_size;
    }

-- `EIO`
abbrev pub eio : ℕ
eio = 5

module _ (S : Type 0) (layer : BlockLayer S) where
  -- A round behind bio_add_page.
  unfoldable pub page_added :
      (ℕ → ℕ → Bio → Run (Result Bio)) → ℕ → ℕ → Segment → ℕ × Bio → Run (Result Bio)
  page_added next buf io_size seg (ret, bio) =
      if ret == seg.len then next (buf + seg.len) (io_size - seg.len) bio else done (error eio)

  -- The loop over the pages of the buffer.
  unfoldable pub add_pages : ℕ → ℕ → ℕ → Bio → Run (Result Bio)
  unfolding page_added segment_at
  add_pages zero buf io_size bio = out_of_fuel
  add_pages (suc fuel) buf io_size bio =
      let seg = segment_at buf io_size in
      if io_size == 0
      then done (value bio)
      else page_added (add_pages fuel) buf io_size seg (layer.bio_add_page bio seg)

  -- submit_bio behind the loop.
  unfoldable pub submitted : S → Result Bio → ℕ × S
  submitted s (error e) = (e, s)
  submitted s (value bio) = layer.submit_bio_wait bio s

  -- `secondfs_submit_bio` for the buffer at `buf`: 0 or the errno.
  unfoldable pub submit_bio : ℕ → ℕ → Bool → Bool → S → Run (ℕ × S)
  unfolding add_pages submitted
  submit_bio sector buf write sync s =
      add_pages 513 buf 512
        (record { bi_sector = sector; write = write; sync = sync; segments = [] })
      >>= λ r. done (submitted s r)

  -- `secondfs_submit_bio_sync_read`
  unfoldable pub submit_bio_sync_read : ℕ → ℕ → S → Run (ℕ × S)
  unfolding submit_bio
  submit_bio_sync_read sector buf s = submit_bio sector buf false false s

  -- `secondfs_submit_bio_sync_write`
  unfoldable pub submit_bio_sync_write : ℕ → ℕ → S → Run (ℕ × S)
  unfolding submit_bio
  submit_bio_sync_write sector buf s = submit_bio sector buf true true s
