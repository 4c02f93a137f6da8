-- ===== src/BlobStore/Fat.antt =====
-- The FAT page of firmware/src/secure_blob_store.c: what `commit_fat_entry` leaves in flash is what
-- `blob_store_init` loads.
use rutgers_2026_e_ctf_desig.Prelude.{
  ℕ, zero, suc, ◌+◌, ◌*◌, ◌<◌, ◌≡◌, refl, sym, ap, ap₂, ◌∙◌, Bool, true, false, List, [], ◌∷◌, ◌++◌,
  append_assoc, append-nil, arith, Bytes, splice, ltb→lt, length, take, drop, replicate, set,
  length-append, length-set, drop-append_ge, take-append_ge, Bool-cases, inl, inr,
}
use rutgers_2026_e_ctf_desig.Flash.{FlashCtl, IsFlash, erase_page, write_flash, read_flash}
use rutgers_2026_e_ctf_desig.Flash.Write.{erase_page_lem, write_flash-IsPut}
use rutgers_2026_e_ctf_desig.Flash.Page.{erase_write-read_prefix}
use rutgers_2026_e_ctf_desig.BlobStore.{
  BlobStatus, blob_ok, invalid_argument, io_error, FatEntry, encode_entry, encode_fat, decode_fat,
  fat_entry_size, max_slots, fat_addr, fat_page, Store, commit_fat_entry, blob_store_init,
  slot_is_valid,
}
use rutgers_2026_e_ctf_desig.BlobStore.Status.{ok_clash}
use rutgers_2026_e_ctf_desig.BlobStore.Codec.{
  IsEntry, IsFat, length-encode_entry, decode_fat-encode,
}

splice-encode_fat :
    (es : List FatEntry) (slot : ℕ) (e : FatEntry) (post : Bytes)
    → IsFat es
    → IsEntry e
    → slot < length es
    → splice (encode_fat es ++ post) (slot * fat_entry_size) (encode_entry e)
      ≡ encode_fat (set es slot e) ++ post
unfolding IsFat
splice-encode_fat [] slot e post v w l = absurd (omega arith)
splice-encode_fat (x ∷ xs) zero e post v w l =
    let rest = append_assoc (encode_entry x) (encode_fat xs) post in
    let size = length-encode_entry e w in
    ap (λ (d : Bytes). encode_entry e ++ d)
      (ap (drop (0 * 24 + length (encode_entry e))) rest
        ∙ drop-append_ge (0 * 24 + length (encode_entry e)) 0 (encode_entry x)
            (encode_fat xs ++ post) (omega (arith, size, length-encode_entry x v.0)))
    ∙ sym (append_assoc (encode_entry e) (encode_fat xs) post)
splice-encode_fat (x ∷ xs) (suc slot) e post v w l =
    let tail = encode_fat xs ++ post in
    let rest = append_assoc (encode_entry x) (encode_fat xs) post in
    let size = length-encode_entry x v.0 in
    let n = length (encode_entry e) in
    ap (λ (d : Bytes). splice d (suc slot * 24) (encode_entry e)) rest
    ∙ ap₂ (λ (t d : Bytes). t ++ (encode_entry e ++ d))
        (take-append_ge (suc slot * 24) (slot * 24) (encode_entry x) tail (omega (arith, size)))
        (drop-append_ge (suc slot * 24 + n) (slot * 24 + n) (encode_entry x) tail
          (omega (arith, size)))
    ∙ append_assoc (encode_entry x) (take (slot * 24) tail)
        (encode_entry e ++ drop (slot * 24 + n) tail)
    ∙ ap (λ (d : Bytes). encode_entry x ++ d) (splice-encode_fat xs slot e post v.1 w (omega arith))
    ∙ sym (append_assoc (encode_entry x) (encode_fat (set xs slot e)) post)

length-encode_fat : (es : List FatEntry) → IsFat es → length (encode_fat es) ≡ length es * 24
unfolding IsFat
length-encode_fat [] v = refl
length-encode_fat (e ∷ es) v = omega (
  arith,
  length-append (encode_entry e) (encode_fat es),
  length-encode_entry e v.0,
  length-encode_fat es v.1,
)

pub IsFat-set :
    (es : List FatEntry) (slot : ℕ) (e : FatEntry) → IsFat es → IsEntry e → IsFat (set es slot e)
unfolding IsFat
IsFat-set [] slot e v w = tt
IsFat-set (x ∷ xs) zero e v w = (w, v.1)
IsFat-set (x ∷ xs) (suc slot) e v w = (v.0, IsFat-set xs slot e v.1 w)

-- The page is the new table, padded.
fat_page_lem :
    (es : List FatEntry) (slot : ℕ) (e : FatEntry)
    → IsFat es
    → length es ≡ max_slots
    → IsEntry e
    → slot < max_slots
    → fat_page es slot e ≡ encode_fat (set es slot e) ++ replicate 832 255
fat_page_lem es slot e v n w l =
    ap (λ (d : Bytes). splice d (slot * fat_entry_size) (encode_entry e)) first
    ∙ splice-encode_fat es slot e (replicate 832 255) v w (omega arith)
  where
    first : splice (replicate 1024 255) 0 (encode_fat es) ≡ encode_fat es ++ replicate 832 255
    first =
        ap (λ (k : ℕ). encode_fat es ++ drop k (replicate 1024 255))
          {x = 0 + length (encode_fat es)} {y = 192} (omega (arith, n, length-encode_fat es v))

length-fat_page :
    (es : List FatEntry) (slot : ℕ) (e : FatEntry)
    → IsFat es
    → length es ≡ max_slots
    → IsEntry e
    → slot < max_slots
    → length (fat_page es slot e) ≡ 1024
length-fat_page es slot e v n w l =
    ap length (fat_page_lem es slot e v n w l)
    ∙ length-append (encode_fat (set es slot e)) (replicate 832 255)
    ∙ omega (
      arith,
      n,
      length-set es slot e,
      length-encode_fat (set es slot e) (IsFat-set es slot e v w),
    )

module _ {F : Type 0} (c : FlashCtl F) (laws : IsFlash c) where
  pub commit-steps :
      (slot : ℕ) (e : FatEntry) (s : Store F) {s' : Store F}
      → commit_fat_entry c slot e s ≡ (blob_ok, s')
      → let f1 = (erase_page c fat_addr s.flash).1 in
        (slot_is_valid slot ≡ true)
        × (erase_page c fat_addr s.flash ≡ (true, f1))
        × (write_flash c fat_addr (fat_page s.fat slot e) f1 ≡ (true, s'.flash))
        × (s' ≡ record s { fat = set s.fat slot e; flash = s'.flash })
  unfolding commit_fat_entry
  commit-steps slot e s {s'} r =
      let (erased, f1) = erase_page c fat_addr s.flash in
      let (written, f2) = write_flash c fat_addr (fat_page s.fat slot e) f1 in
      elim (Bool-cases (slot_is_valid slot)) [
        | inr bad ↦ absurd (ok_clash invalid_argument s refl r (simp (commit_fat_entry, bad)))
        | inl good ↦ elim (Bool-cases erased) [
          | inr bad ↦ absurd (
              ok_clash io_error (record s { flash = f1 }) refl r
                (simp (commit_fat_entry, good, bad)))
          | inl clean ↦ elim (Bool-cases written) [
            | inr bad ↦ absurd (
                ok_clash io_error (record s { flash = f2 }) refl r
                  (simp (commit_fat_entry, good, clean, bad)))
            | inl full ↦
                let made : commit_fat_entry c slot e s
                    ≡ (blob_ok, record s { fat = set s.fat slot e; flash = f2 }) =
                  simp (commit_fat_entry, good, clean, full) in
                let same = ap (λ (x : BlobStatus × Store F). x.1) (sym r ∙ made) in
                (
                  good,
                  ap (λ (b : Bool). (b, f1)) clean,
                  ap₂ (λ (b : Bool) (f : F). (b, f)) full
                      (sym (ap (λ (x : Store F). x.flash) same)),
                  same
                      ∙ ap (λ (f : F). record s { fat = set s.fat slot e; flash = f })
                          (sym (ap (λ (x : Store F). x.flash) same)),
                )
          ]
        ]
      ]

  -- A commit changes nothing below the FAT page.
  pub commit-keeps :
      (slot : ℕ) (e : FatEntry) (s : Store F) {s' : Store F}
      → IsFat s.fat
      → length s.fat ≡ max_slots
      → IsEntry e
      → commit_fat_entry c slot e s ≡ (blob_ok, s')
      → (x : ℕ) → x < fat_addr
      → c.byte s'.flash x ≡ c.byte s.flash x
  commit-keeps slot e s v n w committed x below =
      let (valid, erased, written, changed) = commit-steps slot e s committed in
      let size = length-fat_page s.fat slot e v n w (ltb→lt slot max_slots valid) in
      let (clean, kept) = erase_page_lem c laws fat_addr s.flash refl erased in
      let f1 = (erase_page c fat_addr s.flash).1 in
      let put =
        write_flash-IsPut c laws fat_addr (fat_page s.fat slot e) f1 refl (omega (arith, size))
          (λ i l. clean i (omega (arith, size))) written in
      put.outside x (inl below) ∙ kept x (inl below)

  -- On a flash that keeps its laws and a FAT of eight well-formed entries, a `commit_fat_entry`
  -- of a well-formed entry that succeeds has set this entry in RAM, and `blob_store_init` on a
  -- later boot loads from the flash exactly the table that was in RAM.
  pub commit-init :
      (slot : ℕ) (e : FatEntry) (s r : Store F) {s' : Store F}
      → IsFat s.fat
      → length s.fat ≡ max_slots
      → IsEntry e
      → commit_fat_entry c slot e s ≡ (blob_ok, s')
      → r.initialized ≡ false
      → r.flash ≡ s'.flash
      → (s'.fat ≡ set s.fat slot e)
        × (blob_store_init c r ≡ (blob_ok, record r { fat = s'.fat; initialized = true }))
  unfolding blob_store_init
  commit-init slot e s r {s'} v n w committed fresh same =
      let (valid, erased, written, changed) = commit-steps slot e s committed in
      let new = set s.fat slot e in
      let page = fat_page s.fat slot e in
      let below = ltb→lt slot max_slots valid in
      let shape = fat_page_lem s.fat slot e v n w below in
      let size = length-set s.fat slot e in
      let vn = IsFat-set s.fat slot e v w in
      let fat = ap (λ (x : Store F). x.fat) changed in
      let length_page = length-fat_page s.fat slot e v n w below in
      let bytes = length-encode_fat new vn in
      let loaded =
        erase_write-read_prefix c laws fat_addr page (encode_fat new) (replicate 832 255) s.flash
          shape refl (omega (arith, length_page)) (omega (arith, length_page)) erased written in
      let table : decode_fat max_slots (read_flash c r.flash fat_addr 192) ≡ s'.fat =
        ap₂ (λ (f : F) (k : ℕ). decode_fat max_slots (read_flash c f fat_addr k)) {u = 192}
          {v = length (encode_fat new)} same (omega (arith, n, size, bytes))
        ∙ ap (decode_fat max_slots) (loaded ∙ sym (append-nil (encode_fat new)))
        ∙ ap (λ (k : ℕ). decode_fat k (encode_fat new ++ [])) (sym (size ∙ n))
        ∙ decode_fat-encode new [] vn
        ∙ sym fat in
      (fat, simp (blob_store_init, fresh, table))
