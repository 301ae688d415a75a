-- ===== src/File/Locate/Names.antt =====
-- The comparison of names in FileManager::DELocate of UNIXV6PP/FileOperations.cc.
use secondfs_module.Prelude.{
  dec_lt, word_mod, ltb, ◌-◌, ℕ, zero, suc, ◌+◌, ◌≤◌, ◌<◌, ◌≡◌, ◌⊎◌, inl, inr, ◌↔◌, true, false,
  arith, ℕ_discrete, Bool-cases, ◌==◌, ◌||◌, refl,
}
use secondfs_module.File.Locate.{match_from, is_match, char_int}

-- From byte `i` on, the `namelen` bytes of `name` are those of the entry and lie below 128, and behind
-- them the entry ends, by a zero byte or by its size.
pub record SameName (name : ℕ → ℕ) (namelen : ℕ) (m_name : ℕ → ℕ) (i : ℕ) : Type 0 where
  pub some_left : i < namelen
  pub fits : namelen ≤ 28
  pub bytes : (j : ℕ) → i ≤ j → j < namelen → (name j ≡ m_name j) × (name j < 128)
  pub ends : (namelen ≡ 28) ⊎ (m_name namelen ≡ 0)

module _ (name : ℕ → ℕ) (namelen : ℕ) (m_name : ℕ → ℕ) (bytes : (j : ℕ) → m_name j < 256) where
  char_int-same : (i : ℕ) → char_int (name i) ≡ m_name i → (name i ≡ m_name i) × (name i < 128)
  unfolding char_int
  char_int-same i e =
      let below : m_name i < 256 = bytes i in
      elim (dec_lt (name i) 128) [
        | yes low ↦
            let t : ltb (name i) 128 ≡ true = ground arith in
            let f : name i ≡ m_name i = rw t at e in (f, low)
        | no high ↦
            let t : ltb (name i) 128 ≡ false = ground arith in
            let f : name i + (word_mod - 256) ≡ m_name i = rw t at e in absurd (omega arith)
      ]

  same-char_int : (i : ℕ) → (name i ≡ m_name i) × (name i < 128) → char_int (name i) ≡ m_name i
  unfolding char_int
  same-char_int i (e, low) = let t : ltb (name i) 128 ≡ true = ground arith in rw t e

  SameName-step :
      (i : ℕ)
      → (name i ≡ m_name i) × (name i < 128)
      → SameName name namelen m_name (i + 1)
      → SameName name namelen m_name i
  SameName-step i e s = record {
    some_left = omega (arith, s.some_left);
    fits = s.fits;
    bytes = λ j h k. elim (ℕ_discrete j i) [
      | yes same ↦ rw same e
      | no more ↦ s.bytes j (omega arith) k
    ];
    ends = s.ends;
  }

  match_from-past : (n i : ℕ) → namelen ≤ i → match_from n name namelen m_name i ≡ false
  unfolding match_from
  match_from-past zero i h = refl
  match_from-past (suc n) i h = ground arith

  match_from-SameName :
      (n i : ℕ)
      → n + i ≡ 28
      → match_from n name namelen m_name i ≡ true
      → SameName name namelen m_name i
  unfolding match_from
  match_from-SameName zero i e h = absurd (ground arith)
  match_from-SameName (suc n) i e h =
      let inside : i < namelen = ground arith in
      let test : (char_int (name i) == m_name i) ≡ true = ground arith in
      let same = char_int-same i (ground arith) in
      elim (ℕ_discrete (i + 1) namelen) [
        | yes last ↦ elim (Bool-cases ((i == 27) || (m_name (i + 1) == 0))) [
          | inl stops ↦ record {
            some_left = inside;
            fits = omega arith;
            bytes = λ j k l. let f : j ≡ i = omega arith in rw f same;
            ends = elim (ℕ_discrete i 27) [
              | yes full ↦ inl (omega arith)
              | no short ↦
                  let zero_byte : m_name (i + 1) ≡ 0 = ground arith in inr (rw last at zero_byte)
            ];
          }
          | inr goes ↦
              let past : match_from n name namelen m_name (i + 1) ≡ false =
                match_from-past n (i + 1) (omega arith) in
              absurd (ground arith)
        ]
        | no more ↦
            let rest : match_from n name namelen m_name (i + 1) ≡ true = ground arith in
            SameName-step i same (match_from-SameName n (i + 1) (omega arith) rest)
      ]

  SameName-match_from :
      (n i : ℕ)
      → n + i ≡ 28
      → SameName name namelen m_name i
      → match_from n name namelen m_name i ≡ true
  unfolding match_from
  SameName-match_from zero i e s = absurd (omega (arith, s.some_left, s.fits))
  SameName-match_from (suc n) i e s =
      let inside : i < namelen = s.some_left in
      let same : char_int (name i) ≡ m_name i = same-char_int i (s.bytes i (omega arith) inside) in
      elim (ℕ_discrete (i + 1) namelen) [
        | yes last ↦ elim s.ends [
          | inl full ↦ let at_end : i ≡ 27 = omega arith in ground arith
          | inr stops ↦ let zero_byte : m_name (i + 1) ≡ 0 = rw last stops in ground arith
        ]
        | no more ↦
            let rest : match_from n name namelen m_name (i + 1) ≡ true =
              SameName-match_from n (i + 1) (omega arith) (record {
                some_left = omega arith;
                fits = s.fits;
                bytes = λ j k l. s.bytes j (omega arith) l;
                ends = s.ends;
              }) in
            ground arith
      ]

  -- The comparison of DELocate accepts an entry exactly when the name that is searched for is
  -- not empty, has at most 28 bytes, all below 128, agrees with the entry in each of them, and the
  -- entry ends there, by a zero byte or by its 28 bytes. A name with a byte from 128 on is accepted
  -- for no entry, not even for the one that has it.
  pub is_match-SameName : (is_match name namelen m_name ≡ true) ↔ SameName name namelen m_name 0
  unfolding is_match
  is_match-SameName = (match_from-SameName 28 0 refl, SameName-match_from 28 0 refl)
