-- ===== src/Flash/Page.antt =====
-- A page that is erased and written (firmware/src/simple_flash.c) reads back as the data.
use rutgers_2026_e_ctf_desig.Prelude.{
  ℕ, ◌+◌, ◌%◌, ◌≤◌, ◌<◌, ◌^◌, ◌≡◌, true, ◌++◌, ap, ◌∙◌, arith, Bytes, byte_at, length,
  length-append, get_or-append_lt,
}
use rutgers_2026_e_ctf_desig.Flash.{
  FlashCtl, IsFlash, page_size, erase_page, write_flash, read_flash,
}
use rutgers_2026_e_ctf_desig.Flash.Write.{write_flash-IsPut, erase_page_lem, read_flash_eq}

module _ {F : Type 0} (c : FlashCtl F) (laws : IsFlash c) where
  -- On a flash that keeps its laws, data of at most a page that is written successfully on a page
  -- that was erased successfully is what `flash_simple_read` returns.
  pub erase_write-read :
      (a : ℕ) (d : Bytes) (f : F) {f1 g : F}
      → a % page_size ≡ 0
      → length d ≤ page_size
      → a + length d < 2 ^ 32
      → erase_page c a f ≡ (true, f1)
      → write_flash c a d f1 ≡ (true, g)
      → read_flash c g a (length d) ≡ d
  erase_write-read a d f {f1} {g} aligned fits low e w =
      let erased = erase_page_lem c laws a f aligned e in
      read_flash_eq c laws g a d
        (write_flash-IsPut c laws a d f1 (omega arith) low (λ i l. erased.0 i (omega arith))
          w).inside

  -- The same of what stands first on the page.
  pub erase_write-read_prefix :
      (a : ℕ) (d p q : Bytes) (f : F) {f1 g : F}
      → d ≡ p ++ q
      → a % page_size ≡ 0
      → length d ≤ page_size
      → a + length d < 2 ^ 32
      → erase_page c a f ≡ (true, f1)
      → write_flash c a d f1 ≡ (true, g)
      → read_flash c g a (length p) ≡ p
  erase_write-read_prefix a d p q f {f1} {g} split aligned fits low e w =
      let erased = erase_page_lem c laws a f aligned e in
      let put =
        write_flash-IsPut c laws a d f1 (omega arith) low (λ i l. erased.0 i (omega arith)) w in
      let size = ap length split ∙ length-append p q in
      read_flash_eq c laws g a p (λ i l.
        put.inside i (omega (arith, size))
        ∙ ap (λ (b : Bytes). byte_at b i) split
        ∙ get_or-append_lt p q i 0 l)
