-- ===== src/Tools/Transfer/Laws.antt =====
-- The transfers of mkfs.c and fsck.c on a device on which no call fails.
use secondfs_module.Prelude.{
  ℕ, zero, suc, ◌+◌, ◌-◌, ◌*◌, ◌≤◌, ◌<◌, ◌^◌, ◌≡◌, fun_ext, refl, Returns, Returns-mono, value,
  done, ◌∙◌, arith, dec_lt,
}
use secondfs_module.Tools.Device.{Device, IsReliable, overlay}
use secondfs_module.Tools.Transfer.{write_loop, write_block, read_loop, read_block, block_offset}

-- Two writes, one behind the other, are one.
pub overlay-overlay :
    (old : ℕ → ℕ) (o r n : ℕ) (p : ℕ → ℕ)
    → r ≤ n
    → overlay (overlay old o r p) (o + r) (n - r) (λ j. p (r + j)) ≡ overlay old o n p
unfolding overlay
overlay-overlay old o r n p h = fun_ext λ a. elim (dec_lt a (o + r)) [
  | yes low ↦ ground arith
  | no high ↦ elim (dec_lt a (o + n)) [
    | yes inside ↦ let e : r + (a - (o + r)) ≡ a - o = omega arith in rw e (ground arith)
    | no outside ↦ ground arith
  ]
]

-- A read behind one is the read of both, where the bytes of the first are those of the source.
overlay-split :
    (old : ℕ → ℕ) (o r n : ℕ) (p q : ℕ → ℕ)
    → r ≤ n
    → ((j : ℕ) → j < r → p j ≡ q j)
    → overlay (overlay old o r p) (o + r) (n - r) (λ j. q (r + j)) ≡ overlay old o n q
unfolding overlay
overlay-split old o r n p q h same = fun_ext λ a. elim (dec_lt a o) [
  | yes before ↦ ground arith
  | no from ↦ elim (dec_lt a (o + r)) [
    | yes low ↦ let e : p (a - o) ≡ q (a - o) = same (a - o) (omega arith) in ground arith
    | no high ↦ elim (dec_lt a (o + n)) [
      | yes inside ↦ let e : r + (a - (o + r)) ≡ a - o = omega arith in rw e (ground arith)
      | no outside ↦ ground arith
    ]
  ]
]

module _ (dev : Device) (laws : IsReliable dev) where
  open dev use {State, size, bytes, position, write, read}

  -- The transfer is complete: 0 is returned and the `n` bytes of `p` stand at `offset`.
  abbrev pub Written : ℕ → ℕ → (ℕ → ℕ) → State → ℕ × State → Type 0
  Written offset n p s (ret, s') = (ret ≡ 0) × (bytes s' ≡ overlay (bytes s) offset n p)

  write_loop-eq-last :
      (fuel n : ℕ) (p : ℕ → ℕ) (s : State)
      → (write p n s).0 ≡ value n
      → write_loop dev (suc fuel) p n s ≡ done (0, (write p n s).1)
  unfolding write_loop
  write_loop-eq-last fuel n p s ret = ground arith

  write_loop-eq-more :
      (fuel n r : ℕ) (p : ℕ → ℕ) (s : State)
      → (write p n s).0 ≡ value r
      → r < n
      → write_loop dev (suc fuel) p n s
        ≡ write_loop dev fuel (λ j. p (r + j)) (n - r) (write p n s).1
  unfolding write_loop
  write_loop-eq-more fuel n r p s ret part = ground arith

  write_loop-Written :
      (fuel n : ℕ) (p : ℕ → ℕ) (s : State)
      → n < fuel
      → 0 < n
      → position s + n ≤ size
      → Returns (Written (position s) n p s) (write_loop dev fuel p n s)
  write_loop-Written zero n p s enough some_left fits = absurd (omega arith)
  write_loop-Written (suc fuel) n p s enough some_left fits =
      let (r, ret, (pos, le, moved), now) = laws.write_ok p n s some_left fits in
      let t = (write p n s).1 in
      let q : ℕ → ℕ = λ j. p (r + j) in
      elim (dec_lt r n) [
        | yes part ↦ rw (write_loop-eq-more fuel n r p s ret part) (
            Returns-mono {P = Written (position t) (n - r) q t} (write_loop dev fuel q (n - r) t)
              (write_loop-Written fuel (n - r) q t (omega arith) (omega arith)
                (omega (arith, moved)))
              λ (ret', u) (zero_ret, after). (
                zero_ret,
                after ∙ rw (now, moved) (overlay-overlay (bytes s) (position s) r n p le),
              ))
        | no whole ↦
            let e : r ≡ n = omega arith in
            rw (write_loop-eq-last fuel n p s (rw e at ret)) (refl, rw e at now)
      ]

  -- write_block inside of the first 2^31 bytes and of the device returns 0, after at most `len`
  -- calls of write(2), and has replaced the `len` bytes at the block and no other.
  pub write_block-Written :
      (b len : ℕ) (buf : ℕ → ℕ) (s : State)
      → b < 2 ^ 22
      → 0 < len
      → b * 512 + len ≤ size
      → Returns (Written (b * 512) len buf s) (write_block dev b buf len s)
  unfolding write_block
  write_block-Written b len buf s small some_left fits =
      let (ret, at_offset, same) = laws.lseek_ok (block_offset b) s (omega arith) in
      let e : block_offset b ≡ b * 512 = omega arith in
      rw (ret, write_block)
        (Returns-mono (write_loop dev (suc len) buf len (dev.lseek (block_offset b) s).1)
          (write_loop-Written (suc len) len buf (dev.lseek (block_offset b) s).1 (omega arith)
            some_left (omega (arith, at_offset)))
          λ (r, u) (zero_ret, after). (zero_ret, after ∙ rw (same, at_offset, e) refl))

  -- The `n` bytes of the device from `offset` on stand in the buffer from `at_byte` on.
  abbrev pub Fetched : ℕ → ℕ → (ℕ → ℕ) → ℕ → State → ℕ × (ℕ → ℕ) × State → Type 0
  Fetched offset n buf at_byte s (ret, buf', s') =
      (ret ≡ 0) × (buf' ≡ overlay buf at_byte n λ j. bytes s (offset + j)) × (bytes s' ≡ bytes s)

  read_loop-eq-last :
      (fuel n o : ℕ) (buf p : ℕ → ℕ) (s : State)
      → (read n s).0 ≡ value (n, p)
      → read_loop dev (suc fuel) buf o n s ≡ done (0, overlay buf o n p, (read n s).1)
  unfolding read_loop
  read_loop-eq-last fuel n o buf p s ret = ground arith

  read_loop-eq-more :
      (fuel n r o : ℕ) (buf p : ℕ → ℕ) (s : State)
      → (read n s).0 ≡ value (r, p)
      → r < n
      → read_loop dev (suc fuel) buf o n s
        ≡ read_loop dev fuel (overlay buf o r p) (o + r) (n - r) (read n s).1
  unfolding read_loop
  read_loop-eq-more fuel n r o buf p s ret part = ground arith

  overlay-shift :
      (buf p : ℕ → ℕ) (o r n : ℕ) (s t : State)
      → r ≤ n
      → position t ≡ position s + r
      → bytes t ≡ bytes s
      → ((j : ℕ) → j < r → p j ≡ bytes s (position s + j))
      → overlay (overlay buf o r p) (o + r) (n - r) (λ j. bytes t (position t + j))
        ≡ overlay buf o n (λ j. bytes s (position s + j))
  overlay-shift buf p o r n s t le moved same got =
      let shift : (λ j. bytes t (position t + j)) ≡ (λ j. bytes s (position s + (r + j))) =
        fun_ext λ j. rw (same, moved) (ground arith) in
      rw shift (overlay-split buf o r n p (λ j. bytes s (position s + j)) le got)

  overlay-whole :
      (buf p q : ℕ → ℕ) (o n : ℕ)
      → ((j : ℕ) → j < n → p j ≡ q j)
      → overlay buf o n p ≡ overlay buf o n q
  unfolding overlay
  overlay-whole buf p q o n same = fun_ext λ a. elim (dec_lt a o) [
    | yes before ↦ ground arith
    | no from ↦ elim (dec_lt a (o + n)) [
      | yes inside ↦ let e : p (a - o) ≡ q (a - o) = same (a - o) (omega arith) in ground arith
      | no outside ↦ ground arith
    ]
  ]

  read_loop-Fetched :
      (fuel n o : ℕ) (buf : ℕ → ℕ) (s : State)
      → n < fuel
      → 0 < n
      → position s + n ≤ size
      → Returns (Fetched (position s) n buf o s) (read_loop dev fuel buf o n s)
  read_loop-Fetched zero n o buf s enough some_left fits = absurd (omega arith)
  read_loop-Fetched (suc fuel) n o buf s enough some_left fits =
      let (r, p, ret, (pos, le, moved), same, got) = laws.read_ok n s some_left fits in
      let t = (read n s).1 in
      let q : ℕ → ℕ = overlay buf o r p in
      elim (dec_lt r n) [
        | yes part ↦ rw (read_loop-eq-more fuel n r o buf p s ret part) (
            Returns-mono {P = Fetched (position t) (n - r) q (o + r) t}
              (read_loop dev fuel q (o + r) (n - r) t)
              (read_loop-Fetched fuel (n - r) (o + r) q t (omega arith) (omega arith)
                (omega (arith, moved)))
              λ (ret', b, u) (zero_ret, filled, after).
                (zero_ret, filled ∙ overlay-shift buf p o r n s t le moved same got, after ∙ same))
        | no whole ↦
            let e : r ≡ n = omega arith in
            rw (read_loop-eq-last fuel n o buf p s (rw e at ret)) (
              refl,
              overlay-whole buf p (λ j. bytes s (position s + j)) o n (λ j h. got j (omega arith)),
              same,
            )
      ]

  -- read_block inside of the first 2^31 bytes and of the device returns 0, when more rounds are
  -- allowed than bytes are asked for; the first `len` bytes of the buffer are those of the block on,
  -- and the device keeps its bytes.
  pub read_block-Fetched :
      (rounds b len : ℕ) (buf : ℕ → ℕ) (s : State)
      → b < 2 ^ 22
      → 0 < len
      → len < rounds
      → b * 512 + len ≤ size
      → Returns (Fetched (b * 512) len buf 0 s) (read_block dev rounds b buf len s)
  unfolding read_block
  read_block-Fetched rounds b len buf s small some_left enough fits =
      let (ret, at_offset, same) = laws.lseek_ok (block_offset b) s (omega arith) in
      let e : block_offset b ≡ b * 512 = omega arith in
      let t = (dev.lseek (block_offset b) s).1 in
      rw (ret, read_block)
        (Returns-mono {P = Fetched (position t) len buf 0 t} (read_loop dev rounds buf 0 len t)
          (read_loop-Fetched rounds len 0 buf t enough some_left (omega (arith, at_offset)))
          λ (r, b', u) (zero_ret, filled, after).
            (zero_ret, filled ∙ rw (same, at_offset, e) refl, after ∙ same))
