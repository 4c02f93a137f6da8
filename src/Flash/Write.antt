-- ===== src/Flash/Write.antt =====
-- What `flash_simple_write`, `flash_simple_erase_page` and `flash_simple_read` do to the bytes.
use rutgers_2026_e_ctf_desig.Prelude.{
  ℕ, zero, suc, ◌+◌, ◌-◌, ◌*◌, ◌/◌, ◌%◌, ◌^◌, ◌≤◌, ◌<◌, ◌≡◌, refl, sym, ap, ◌∙◌, ◌⊎◌, inl, inr,
  Bool, true, false, [], ◌∷◌, ◌++◌, arith, Bytes, byte_at, u32, ltb, Bool-cases, length, take, drop,
  replicate, length-append, length-take, length-drop, length-replicate, get_or-take, get_or-drop,
  get_or-append_lt, get_or_ext, if◌then◌else◌, ltb→lt, ltb→le,
}
use rutgers_2026_e_ctf_desig.Flash.{
  FlashCtl, IsFlash, IsErased, Outside, flash_word, page_size, chunk_size, chunk_words, write_data,
  erase_page, read_bytes, read_flash, write_loop, write_flash,
}

-- The whole ECC words that `n` bytes take.
abbrev pub ecc_round : ℕ → ℕ
ecc_round n = (n + 7) / 8 * 8

length-write_data : (d : Bytes) → length d ≤ 64 → length (write_data d) ≡ ecc_round (length d)
length-write_data d h = ground (
  arith,
  length-take (4 * chunk_words (length d)) (d ++ replicate (64 - length d) 255),
  length-append d (replicate (64 - length d) 255),
  length-replicate {A = ℕ} (64 - length d) 255,
)

write_data-get :
    (d : Bytes) (i : ℕ) → length d ≤ 64 → i < length d → byte_at (write_data d) i ≡ byte_at d i
write_data-get d i h l =
    get_or-take (4 * chunk_words (length d)) (d ++ replicate (64 - length d) 255) i 0 (ground arith)
    ∙ get_or-append_lt d (replicate (64 - length d) 255) i 0 l

chunk_size_lem :
    (d : Bytes)
    → 0 < length d
    → let n = chunk_size d in (n ≤ length d) × (n ≤ 64) × (0 < n) × ((n ≡ 64) ⊎ (n ≡ length d))
unfolding chunk_size
chunk_size_lem d h = elim (Bool-cases (ltb (length d) 64)) [
  | inl short ↦ rw short (omega arith, omega (arith, ltb→lt (length d) 64 short), h, inr refl)
  | inr long ↦ rw long (ltb→le (length d) 64 long, omega arith, omega arith, inl refl)
]

module _ {F : Type 0} (c : FlashCtl F) (laws : IsFlash c) where
  -- From `f` to `g` the bytes of `d` have been put at `a`, and nothing else has changed but the
  -- rest of the last ECC word.
  pub record IsPut (a : ℕ) (d : Bytes) (f g : F) : Type 0 where
    pub inside : (i : ℕ) → i < length d → c.byte g (a + i) ≡ byte_at d i
    pub outside : (x : ℕ) → Outside a (ecc_round (length d)) x → c.byte g x ≡ c.byte f x

  IsPut-nil : (a : ℕ) (f : F) → IsPut a [] f f
  IsPut-nil a f = record { inside = λ i h. absurd (omega arith); outside = λ x o. refl }

  -- The controller programs one chunk.
  program_chunk : (a : ℕ) (d : Bytes) → F → Bool × F
  program_chunk a d f =
      let (programmed, f1) = c.program a (write_data d) f in
      let (done, f2) = c.wait_done f1 in
      if programmed then (if done then (true, f2) else (false, f2)) else (false, f1)

  program_chunk-IsPut :
      (a : ℕ) (d : Bytes) (f : F) {g : F}
      → a % flash_word ≡ 0
      → length d ≤ 64
      → IsErased c f a (ecc_round (length d))
      → program_chunk a d f ≡ (true, g)
      → IsPut a d f g
  unfolding program_chunk
  program_chunk-IsPut a d f {g} aligned h e r = record {
    inside = λ i l.
        ap (λ (k : F). c.byte k (a + i)) (sym after.1)
        ∙ laws.keep_wait f1 (a + i)
        ∙ laws.program_in a (write_data d) f i aligned words after.0
            (λ j lj. e j (omega (arith, size))) (omega (arith, size))
        ∙ write_data-get d i h l;
    outside = λ x o.
        ap (λ (k : F). c.byte k x) (sym after.1)
        ∙ laws.keep_wait f1 x
        ∙ laws.program_out a (write_data d) f x aligned words (rw size o);
  }
    where
      f1 : F
      f1 = (c.program a (write_data d) f).1

      size : length (write_data d) ≡ ecc_round (length d)
      size = length-write_data d h

      words : length (write_data d) % flash_word ≡ 0
      words = omega (arith, size)

      after : ((c.program a (write_data d) f).0 ≡ true) × ((c.wait_done f1).1 ≡ g)
      after = ground arith

  -- A chunk, and the rest of the data behind it.
  IsPut-append :
      (a n : ℕ) (d : Bytes) (f g h : F)
      → n ≤ length d
      → (n ≡ 64) ⊎ (n ≡ length d)
      → IsPut a (take n d) f g
      → IsPut (a + n) (drop n d) g h
      → IsPut a d f h
  IsPut-append a n d f g h le cut first rest = record {
    inside = λ i l. elim (Bool-cases (ltb i n)) [
      | inl early ↦
          rest.outside (a + i) (inl (omega (arith, ltb→lt i n early)))
          ∙ first.inside i (omega (arith, ltb→lt i n early, taken))
          ∙ get_or-take n d i 0 (ltb→lt i n early)
      | inr late ↦
          ap (λ (x : ℕ). c.byte h x) {x = a + i} {y = a + n + (i - n)}
            (omega (arith, ltb→le i n late))
          ∙ rest.inside (i - n) (omega (arith, left, ltb→le i n late))
          ∙ get_or-drop n d (i - n) i 0 (omega (arith, ltb→le i n late))
    ];
    outside = λ x o.
        rest.outside x (omega (arith, o, left, taken, cut))
        ∙ first.outside x (omega (arith, o, left, taken, cut));
  }
    where
      taken : length (take n d) ≡ n
      taken = omega (arith, length-take n d)

      left : length (drop n d) ≡ length d - n
      left = length-drop n d

  -- One round of the loop is `program_chunk`, and the loop on the rest.
  write_loop-step :
      (fuel a : ℕ) (x : ℕ) (xs : Bytes) (f : F) {g : F}
      → let d : Bytes = x ∷ xs in
        let n = chunk_size d in
        write_loop c (suc fuel) a d f ≡ (true, g)
        → let f2 = (program_chunk a (take n d) f).1 in
          (program_chunk a (take n d) f ≡ (true, f2))
          × (write_loop c fuel (u32 (a + n)) (drop n d) f2 ≡ (true, g))
  unfolding write_loop program_chunk
  write_loop-step fuel a x xs f r = ground arith

  word_start :
      (a x : ℕ) (xs : Bytes) → (a % flash_word ≡ 0) ⊎ (length (x ∷ xs) ≡ 0) → a % flash_word ≡ 0
  word_start a x xs (inl aligned) = aligned
  word_start a x xs (inr empty) = absurd (omega arith)

  next_start :
      (a n : ℕ) (d : Bytes)
      → a % flash_word ≡ 0
      → (n ≡ 64) ⊎ (n ≡ length d)
      → ((a + n) % flash_word ≡ 0) ⊎ (length (drop n d) ≡ 0)
  next_start a n d aligned (inl full) = inl (omega arith)
  next_start a n d aligned (inr whole) = inr (omega (arith, length-drop n d))

  -- The chunks of 64 bytes keep the address at the start of a word, up to the end of the data.
  write_loop-IsPut :
      (fuel a : ℕ) (d : Bytes) (f : F) {g : F}
      → (a % flash_word ≡ 0) ⊎ (length d ≡ 0)
      → length d ≤ fuel
      → a + length d < 2 ^ 32
      → IsErased c f a (ecc_round (length d))
      → write_loop c fuel a d f ≡ (true, g)
      → IsPut a d f g
  unfolding write_loop
  write_loop-IsPut zero a [] f start h b e r = rw (← ap (λ (t : Bool × F). t.1) r) (IsPut-nil a f)
  write_loop-IsPut zero a (x ∷ xs) f start h b e r = absurd (omega arith)
  write_loop-IsPut (suc fuel) a [] f start h b e r =
      rw (← ap (λ (t : Bool × F). t.1) r) (IsPut-nil a f)
  write_loop-IsPut (suc fuel) a (x ∷ xs) f {g} start h b e r =
      let d : Bytes = x ∷ xs in
      let n = chunk_size d in
      let (le, most, pos, cut) = chunk_size_lem d (omega arith) in
      let taken = length-take n d in
      let left = length-drop n d in
      let step = write_loop-step fuel a x xs f r in
      let f2 = (program_chunk a (take n d) f).1 in
      let aligned : a % flash_word ≡ 0 = word_start a x xs start in
      let first =
        program_chunk-IsPut a (take n d) f aligned (omega (arith, taken))
          (λ i l. e i (omega (arith, taken, cut))) step.0 in
      let wraps : u32 (a + n) ≡ a + n = omega arith in
      let rest =
        write_loop-IsPut fuel (a + n) (drop n d) f2 (next_start a n d aligned cut)
          (omega (arith, left)) (omega (arith, left))
          (λ i l.
            first.outside (a + n + i) (inr (omega (arith, taken, cut, left)))
            ∙ ap (λ (y : ℕ). c.byte f y) {x = a + n + i} {y = a + (n + i)} (omega arith)
            ∙ e (n + i) (omega (arith, left, cut)))
          (rw wraps at (step.1)) in
      IsPut-append a n d f f2 g le cut first rest

  -- On a flash that keeps its laws, a `flash_simple_write` that returns 0, at an address that is
  -- a multiple of 8 and on erased bytes below 2^32, has put the data there, and has changed
  -- nothing outside the whole ECC words that hold it.
  pub write_flash-IsPut :
      (a : ℕ) (d : Bytes) (f : F) {g : F}
      → a % flash_word ≡ 0
      → a + length d < 2 ^ 32
      → IsErased c f a (ecc_round (length d))
      → write_flash c a d f ≡ (true, g)
      → IsPut a d f g
  unfolding write_flash
  write_flash-IsPut a d f aligned b e r =
      let f' = c.unprotect a (c.clear_status f) in
      let kept = λ (x : ℕ). laws.keep_unprotect a (c.clear_status f) x ∙ laws.keep_status f x in
      let p =
        write_loop-IsPut (length d) a d f' (inl aligned) (omega arith) b
          (λ i l. kept (a + i) ∙ e i l) r in
      record { inside = p.inside; outside = λ x o. p.outside x o ∙ kept x }

  -- An erased page reads 0xFF, and no other page has changed.
  pub erase_page_lem :
      (a : ℕ) (f : F) {g : F}
      → a % page_size ≡ 0
      → erase_page c a f ≡ (true, g)
      → IsErased c g a page_size × ((x : ℕ) → Outside a page_size x → c.byte g x ≡ c.byte f x)
  unfolding erase_page
  erase_page_lem a f {g} aligned r =
      let f0 = c.unprotect a (c.clear_status f) in
      let f1 = (c.erase_sector a f0).1 in
      let after : ((c.erase_sector a f0).0 ≡ true) × ((c.wait_done f1).1 ≡ g) = ground arith in
      let waited = λ (x : ℕ). ap (λ (k : F). c.byte k x) (sym after.1) ∙ laws.keep_wait f1 x in
      (
        λ i l. waited (a + i) ∙ laws.erase_in a f0 aligned after.0 i l,
        λ x o.
            waited x
            ∙ laws.erase_out a f0 x aligned o
            ∙ laws.keep_unprotect a (c.clear_status f) x
            ∙ laws.keep_status f x,
      )

  -- Reading back.
  length-read : (f : F) (a n : ℕ) → length (read_bytes c f a n) ≡ n
  unfolding read_bytes
  length-read f a zero = refl
  length-read f a (suc n) = ap suc (length-read f (a + 1) n)

  read-get : (f : F) (a n i : ℕ) → i < n → byte_at (read_bytes c f a n) i ≡ c.byte f (a + i)
  unfolding read_bytes
  read-get f a zero i h = absurd (omega arith)
  read-get f a (suc n) zero h = ap (c.byte f) {x = a} {y = a + 0} (omega arith)
  read-get f a (suc n) (suc i) h =
      read-get f (a + 1) n i (omega arith)
      ∙ ap (c.byte f) {x = a + 1 + i} {y = a + suc i} (omega arith)

  pub length-read_flash : (f : F) (a n : ℕ) → length (read_flash c f a n) ≡ n
  unfolding read_flash
  length-read_flash f a n = length-read f a n

  -- What is read is any data with the same bytes.
  pub read_flash_eq :
      (f : F) (a : ℕ) (d : Bytes)
      → ((i : ℕ) → i < length d → c.byte f (a + i) ≡ byte_at d i)
      → read_flash c f a (length d) ≡ d
  unfolding read_flash
  read_flash_eq f a d h =
      let size = length-read f a (length d) in
      get_or_ext 0 (read_bytes c f a (length d)) d size
        λ i l. read-get f a (length d) i (omega (arith, size)) ∙ h i (omega (arith, size))
