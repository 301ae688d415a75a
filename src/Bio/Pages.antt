-- ===== src/Bio/Pages.antt =====
-- The requests that bio.c makes cover the buffer, page by page.
use secondfs_module.Prelude.{
  ℕ, suc, ◌+◌, ◌-◌, ◌*◌, ◌%◌, ◌≤◌, ◌<◌, ◌≡◌, refl, ◌∙◌, Bool, true, false, List, [], ◌∷◌, value,
  done, arith, dec_le, ltb, ◌==◌,
}
use secondfs_module.Bio.{
  Segment, Bio, BlockLayer, segment_at, page_added, add_pages, submit_bio, submitted,
}

-- The segments are the bytes from `buf` on, `n` of them, in their order, and each lies in one page.
abbrev pub Covers : ℕ → ℕ → List Segment → Type 0
Covers buf n [] = n ≡ 0
Covers buf n (s ∷ rest) =
    (s.page * 4096 + s.page_offset ≡ buf)
    × (0 < s.len)
    × (s.page_offset + s.len ≤ 4096)
    × (s.len ≤ n)
    × Covers (buf + s.len) (n - s.len) rest

-- At most two.
abbrev pub FewSegments : List Segment → Type 0
FewSegments [] = Unit
FewSegments (s ∷ []) = Unit
FewSegments (s ∷ s' ∷ []) = Unit
FewSegments (s ∷ s' ∷ s'' ∷ rest) = ⊥

-- The documentation of bio_alloc and bio_add_page: a request that has been made for two segments
-- takes a first and a second one whole.
pub record AddsTwo {S : Type 0} (layer : BlockLayer S) : Type 0 where
  pub first :
      (b : Bio) (s : Segment)
      → b.segments ≡ []
      → layer.bio_add_page b s ≡ (s.len, record b { segments = s ∷ [] })
  pub second :
      (b : Bio) (s t : Segment)
      → b.segments ≡ s ∷ []
      → layer.bio_add_page b t ≡ (t.len, record b { segments = s ∷ t ∷ [] })

module _ (S : Type 0) (layer : BlockLayer S) (adds : AddsTwo layer) where
  add_pages-end :
      (fuel buf : ℕ) (bio : Bio) → add_pages S layer (suc fuel) buf 0 bio ≡ done (value bio)
  unfolding add_pages
  add_pages-end fuel buf bio = refl

  add_pages-round :
      (fuel buf n : ℕ) (b b' : Bio)
      → 0 < n
      → layer.bio_add_page b (segment_at buf n) ≡ ((segment_at buf n).len, b')
      → add_pages S layer (suc fuel) buf n b
        ≡ add_pages S layer fuel (buf + (segment_at buf n).len) (n - (segment_at buf n).len) b'
  unfolding add_pages page_added
  add_pages-round fuel buf n b b' some_left added =
      let test : (n == 0) ≡ false = ground arith in
      let whole : ((segment_at buf n).len == (segment_at buf n).len) ≡ true = ground arith in
      rw (test, added, whole) refl

  abbrev request : ℕ → Bool → Bool → List Segment → Bio
  request sector write sync segs = record {
    bi_sector = sector;
    write = write;
    sync = sync;
    segments = segs;
  }

  -- The part of the buffer in its first page, and the one behind it.
  len-segment_at-inside : (buf n : ℕ) → buf % 4096 + n ≤ 4096 → (segment_at buf n).len ≡ n
  unfolding segment_at
  len-segment_at-inside buf n h =
      let e : ltb (4096 - buf % 4096) n ≡ false = ground arith in rw e refl

  len-segment_at-over :
      (buf n : ℕ) → 4096 < buf % 4096 + n → (segment_at buf n).len ≡ 4096 - buf % 4096
  unfolding segment_at
  len-segment_at-over buf n h = let e : ltb (4096 - buf % 4096) n ≡ true = ground arith in rw e refl

  place-segment_at :
      (buf n : ℕ)
      → ((segment_at buf n).page * 4096 + (segment_at buf n).page_offset ≡ buf)
        × ((segment_at buf n).page_offset ≡ buf % 4096)
  unfolding segment_at
  place-segment_at buf n = (omega arith, refl)

  submit_bio-eq :
      (sector buf : ℕ) (write sync : Bool) (s : S) (segs : List Segment)
      → add_pages S layer 513 buf 512 (request sector write sync [])
        ≡ done (value (request sector write sync segs))
      → submit_bio S layer sector buf write sync s
        ≡ done (layer.submit_bio_wait (request sector write sync segs) s)
  unfolding submit_bio submitted
  submit_bio-eq sector buf write sync s segs e = rw e refl

  -- The outcome of submit_bio: one request has been submitted and waited for, whose segments cover
  -- the buffer.
  abbrev pub Submits : ℕ → ℕ → Bool → Bool → S → Type 0
  Submits sector buf write sync s =
      (segs : List Segment) × (submit_bio S layer sector buf write sync s
        ≡ done (
            layer.submit_bio_wait
              (record { bi_sector = sector; write = write; sync = sync; segments = segs }) s))
      × Covers buf 512 segs
      × FewSegments segs

  submit_bio_inside-Submits :
      (sector buf : ℕ) (write sync : Bool) (s : S)
      → buf % 4096 + 512 ≤ 4096
      → Submits sector buf write sync s
  submit_bio_inside-Submits sector buf write sync s h =
      let seg = segment_at buf 512 in
      let whole = len-segment_at-inside buf 512 h in
      let (place, offset) = place-segment_at buf 512 in
      let none_left : 512 - seg.len ≡ 0 = omega arith in
      let b = request sector write sync [] in
      let b1 = request sector write sync (seg ∷ []) in
      let ends : add_pages S layer 512 (buf + seg.len) (512 - seg.len) b1 ≡ done (value b1) =
        rw none_left (add_pages-end 511 (buf + seg.len) b1) in
      (
        seg ∷ [],
        submit_bio-eq sector buf write sync s (seg ∷ [])
            (add_pages-round 512 buf 512 b b1 (omega arith) (adds.first b seg refl) ∙ ends),
        (place, omega arith, omega arith, omega arith, none_left),
        tt,
      )

  submit_bio_over-Submits :
      (sector buf : ℕ) (write sync : Bool) (s : S)
      → 4096 < buf % 4096 + 512
      → Submits sector buf write sync s
  submit_bio_over-Submits sector buf write sync s h =
      let seg = segment_at buf 512 in
      let part = len-segment_at-over buf 512 h in
      let (place, offset) = place-segment_at buf 512 in
      let buf' = buf + seg.len in
      let n = 512 - seg.len in
      let seg' = segment_at buf' n in
      let border : buf' % 4096 ≡ 0 = omega arith in
      let whole = len-segment_at-inside buf' n (omega arith) in
      let (place', offset') = place-segment_at buf' n in
      let none_left : n - seg'.len ≡ 0 = omega arith in
      let b = request sector write sync [] in
      let b1 = request sector write sync (seg ∷ []) in
      let b2 = request sector write sync (seg ∷ seg' ∷ []) in
      let ends : add_pages S layer 511 (buf' + seg'.len) (n - seg'.len) b2 ≡ done (value b2) =
        rw none_left (add_pages-end 510 (buf' + seg'.len) b2) in
      (
        seg ∷ seg' ∷ [],
        submit_bio-eq sector buf write sync s (seg ∷ seg' ∷ []) (
            add_pages-round 512 buf 512 b b1 (omega arith) (adds.first b seg refl)
            ∙ add_pages-round 511 buf' n b1 b2 (omega arith) (adds.second b1 seg seg' refl)
            ∙ ends),
        (
          place,
          omega arith,
          omega arith,
          omega arith,
          (place', omega arith, omega arith, omega arith, none_left),
        ),
        tt,
      )

  -- submit_bio ends, and returns what the block layer returns for one request on the sector, whose
  -- segments are the 512 bytes from `buf` on in their order, each within one page, and no more than
  -- the two for which the request has been made. The block layer takes two segments whole.
  pub submit_bio-Submits :
      (sector buf : ℕ) (write sync : Bool) (s : S) → Submits sector buf write sync s
  submit_bio-Submits sector buf write sync s = elim (dec_le (buf % 4096 + 512) 4096) [
    | yes inside ↦ submit_bio_inside-Submits sector buf write sync s inside
    | no over ↦ submit_bio_over-Submits sector buf write sync s (omega arith)
  ]
