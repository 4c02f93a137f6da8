-- ===== src/Filesystem/RoundTrip.antt =====
-- What `write_file` of firmware/src/filesystem.c leaves in flash is what `read_file` gives.
use rutgers_2026_e_ctf_desig.Prelude.{
  ℕ, zero, suc, ◌+◌, ◌≤◌, ◌<◌, ◌^◌, ◌≡◌, refl, sym, ap, ap₂, ◌∙◌, Bool, true, false, some, List,
  ◌++◌, arith, Bytes, u16, le16, splice, leb, le→ltb, ◌==◌, length, length-append, length-take,
  take, set, get_or, get_or-set_self,
}
use rutgers_2026_e_ctf_desig.Flash.{
  FlashCtl, IsFlash, page_size, erase_page, write_flash, read_flash,
}
use rutgers_2026_e_ctf_desig.Flash.Write.{write_flash-IsPut, read_flash_eq}
use rutgers_2026_e_ctf_desig.BlobStore.{FatEntry, blank_entry, erase_pages}
use rutgers_2026_e_ctf_desig.BlobStore.Erase.{erase_pages_lem}
use rutgers_2026_e_ctf_desig.Filesystem.{
  FileRecord, FileTable, encode_file, file_start, file_total_size, files_start_addr,
  file_page_count, erase_file, store_fat, write_file, read_file,
}

-- The fields have the sizes of their C types.
pub record IsRecord (r : FileRecord) : Type 0 where
  pub name : length r.name ≡ 32
  pub nonce : length r.nonce ≡ 12
  pub tag : length r.tag ≡ 16
  pub contents : length r.contents ≡ 8192
  pub fits : r.contents_len ≤ 8192

length-encode_file : (r : FileRecord) → IsRecord r → length (encode_file r) ≡ 8260
length-encode_file r v = omega (
  arith,
  v.name,
  v.nonce,
  v.tag,
  v.contents,
  length-append r.name (le16 r.contents_len ++ (r.nonce ++ (r.tag ++ r.contents))),
  length-append r.nonce (r.tag ++ r.contents),
  length-append r.tag r.contents,
)

module _ {F : Type 0} (c : FlashCtl F) (laws : IsFlash c) where
  erase_file_eq :
      (n a : ℕ) (f : F)
      → ((a : ℕ) (f : F) → (erase_page c a f).0 ≡ true)
      → erase_pages c n a f ≡ (true, erase_file c n a f)
  unfolding erase_pages erase_file
  erase_file_eq zero a f erases = refl
  erase_file_eq (suc n) a f erases =
      simp (erases a f) (erase_file_eq n (a + page_size) (erase_page c a f).1 erases)

  read_file-found :
      (slot : ℕ) (dest : Bytes) (s : FileTable F)
      → files_start_addr ≤ (get_or s.table slot blank_entry).flash_addr
      → (get_or s.table slot blank_entry).flash_addr < 2 ^ 31
      → 0 < (get_or s.table slot blank_entry).length
      → let e = get_or s.table slot blank_entry in
        read_file c slot dest s ≡ some (splice dest 0 (read_flash c s.flash e.flash_addr e.length))
  unfolding read_file
  read_file-found slot dest s above below full =
      let e = get_or s.table slot blank_entry in
      let positive : leb (2 ^ 31) e.flash_addr ≡ false = ground arith in
      let inside = le→ltb e.flash_addr files_start_addr above in
      let some_bytes : (e.length == 0) ≡ false = ground arith in simp (positive, inside, some_bytes)

  -- On a flash that keeps its laws and whose erasures succeed, after a `write_file` that returns
  -- 0, for one of eight slots and a file whose fields have the sizes of their types, `read_file`
  -- succeeds and puts the record up to the end of its contents at the start of the destination.
  pub write_file-read_file :
      (slot : ℕ) (src : FileRecord) (uuid dest : Bytes) (s : FileTable F) {s' : FileTable F}
      → IsRecord src
      → ((a : ℕ) (f : F) → (erase_page c a f).0 ≡ true)
      → slot < 8
      → length s.table ≡ 8
      → write_file c slot src uuid s ≡ (true, s')
      → read_file c slot dest s'
        ≡ some (splice dest 0 (take (file_total_size src.contents_len) (encode_file src)))
  unfolding write_file store_fat
  write_file-read_file slot src uuid dest s {s'} v erases low sized r =
      let address = file_start slot in
      let len = file_total_size src.contents_len in
      let data_ = take len (encode_file src) in
      let old = get_or s.table slot blank_entry in
      let entry = record old { uuid = uuid; length = u16 len; flash_addr = address } in
      let s1 = (store_fat c (record s { table = set s.table slot entry })).1 in
      let f1 = erase_file c file_page_count address s1.flash in
      let f2 = (write_flash c address data_ f1).1 in
      let full : write_flash c address data_ f1 ≡ (true, f2) =
        ap (λ (t : Bool × FileTable F). (t.0, f2)) r in
      let same : s1.table ≡ s'.table = ap (λ (t : Bool × FileTable F). t.1.table) r in
      let same_flash : f2 ≡ s'.flash = ap (λ (t : Bool × FileTable F). t.1.flash) r in
      let long : length data_ ≡ len =
        length-take len (encode_file src) ∙ omega (arith, length-encode_file src v, v.fits) in
      let erased =
        erase_pages_lem c laws file_page_count address s1.flash (omega arith)
          (erase_file_eq file_page_count address s1.flash erases) in
      let put =
        write_flash-IsPut c laws address data_ f1 (omega arith) (omega (arith, long, v.fits, low))
          (λ i l. erased.0 i (omega (arith, long, v.fits))) full in
      let got = read_flash_eq c laws f2 address data_ put.inside in
      let found : get_or s'.table slot blank_entry ≡ entry =
        ap (λ (t : List FatEntry). get_or t slot blank_entry) (sym same)
        ∙ get_or-set_self s.table slot entry blank_entry (omega (arith, low, sized)) in
      let placed : (get_or s'.table slot blank_entry).flash_addr ≡ address =
        ap (λ (e : FatEntry). e.flash_addr) found in
      let measured : (get_or s'.table slot blank_entry).length ≡ length data_ =
        ap (λ (e : FatEntry). e.length) found ∙ omega (arith, long, v.fits) in
      read_file-found slot dest s' (omega (arith, placed)) (omega (arith, placed, low))
        (omega (arith, measured, long))
      ∙ ap₂ (λ (a n : ℕ). some (splice dest 0 (read_flash c s'.flash a n))) placed measured
      ∙ ap (λ (f : F). some (splice dest 0 (read_flash c f address (length data_))))
          (sym same_flash)
      ∙ ap (λ (d : Bytes). some (splice dest 0 d)) got
