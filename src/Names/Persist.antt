-- ===== src/Names/Persist.antt =====
-- The name table of firmware/src/commands.c over a boot: what a save leaves in flash is what the next
-- boot loads.
use rutgers_2026_e_ctf_desig.Prelude.{
  ℕ, zero, suc, ◌+◌, ◌*◌, ◌<◌, ◌≡◌, refl, sym, ap, ap₂, ◌∙◌, Bool, true, false, true≢false, List,
  [], ◌∷◌, ◌++◌, append_assoc, arith, Bytes, byte_at, le16, load16, splice, ltb, length, take, drop,
  replicate, set, length-append, length-set, take-append, drop-append, drop-append_ge,
  get_or-append_ge, load16-append, Bool-cases, inl, inr,
}
use rutgers_2026_e_ctf_desig.Flash.{
  FlashCtl, IsFlash, page_size, erase_page, write_flash, read_flash,
}
use rutgers_2026_e_ctf_desig.Flash.Page.{erase_write-read_prefix}
use rutgers_2026_e_ctf_desig.BlobStore.{max_slots}
use rutgers_2026_e_ctf_desig.Names.{
  NameEntry, NameTable, encode_name, decode_name, encode_names, decode_names, new_name,
  name_table_addr, load_name_table, flush_name_table, save_name_entry,
}

-- An entry that fits its 64 bytes.
pub record IsStored (e : NameEntry) : Type 0 where
  pub name_fits : length e.name ≡ 32
  pub group_fits : e.group_id < 65536
  pub padded : length e.reserved ≡ 29

abbrev pub AllStored : List NameEntry → Type 0
AllStored [] = Unit {0}
AllStored (e ∷ es) = IsStored e × AllStored es

decode_name-encode :
    (e : NameEntry) (post : Bytes) → IsStored e → decode_name (encode_name e ++ post) ≡ e
decode_name-encode e post v = λ i. record {
  name = (ap (take 32) split ∙ take-append 32 e.name fields v.name_fits) i;
  group_id =
      (ap (λ (b : Bytes). load16 b 32) split
          ∙ load16-append e.name e.group_id (e.in_use ∷ (e.reserved ++ post)) 32 v.name_fits
              v.group_fits)
        i;
  in_use =
      (ap (λ (b : Bytes). byte_at b 34) split
          ∙ get_or-append_ge 34 2 e.name fields 0 (omega (arith, v.name_fits)))
        i;
  reserved =
      (ap (λ (b : Bytes). take 29 (drop 35 b)) split
          ∙ ap (take 29) (drop-append_ge 35 3 e.name fields (omega (arith, v.name_fits)))
          ∙ take-append 29 e.reserved post v.padded)
        i;
}
  where
    fields : Bytes
    fields = le16 e.group_id ++ (e.in_use ∷ (e.reserved ++ post))

    split : encode_name e ++ post ≡ e.name ++ fields
    split = append_assoc e.name (le16 e.group_id ++ (e.in_use ∷ e.reserved)) post

length-encode_name : (e : NameEntry) → IsStored e → length (encode_name e) ≡ 64
length-encode_name e v = omega (
  arith,
  v.name_fits,
  v.padded,
  length-append e.name (le16 e.group_id ++ (e.in_use ∷ e.reserved)),
)

length-encode_names :
    (es : List NameEntry) → AllStored es → length (encode_names es) ≡ length es * 64
length-encode_names [] v = refl
length-encode_names (e ∷ es) v = omega (
  arith,
  length-append (encode_name e) (encode_names es),
  length-encode_name e v.0,
  length-encode_names es v.1,
)

decode_names-encode :
    (es : List NameEntry) → AllStored es → decode_names (length es) (encode_names es) ≡ es
decode_names-encode [] v = refl
decode_names-encode (e ∷ es) v =
    let first = decode_name-encode e (encode_names es) v.0 in
    let rest =
      ap (decode_names (length es))
        (drop-append 64 (encode_name e) (encode_names es) (length-encode_name e v.0))
      ∙ decode_names-encode es v.1 in
    λ i. first i ∷ rest i

AllStored-set :
    (es : List NameEntry) (i : ℕ) (e : NameEntry)
    → IsStored e
    → AllStored es
    → AllStored (set es i e)
AllStored-set [] i e v w = tt
AllStored-set (x ∷ xs) zero e v w = (v, w.1)
AllStored-set (x ∷ xs) (suc i) e v w = (w.0, AllStored-set xs i e v w.1)

module _ {F : Type 0} (c : FlashCtl F) (laws : IsFlash c) where
  -- A flush that succeeds has erased and written the page.
  flush-steps :
      (t : NameTable F) {t' : NameTable F}
      → flush_name_table c t ≡ (true, t')
      → let f1 = (erase_page c name_table_addr t.flash).1 in
        let page = splice (replicate page_size 255) 0 (encode_names t.names) in
        (erase_page c name_table_addr t.flash ≡ (true, f1))
        × (write_flash c name_table_addr page f1 ≡ (true, t'.flash))
        × (t'.names ≡ t.names)
  unfolding flush_name_table
  flush-steps t {t'} r =
      let (erased, f1) = erase_page c name_table_addr t.flash in
      let page = splice (replicate page_size 255) 0 (encode_names t.names) in
      let (written, f2) = write_flash c name_table_addr page f1 in
      elim (Bool-cases erased) [
        | inr bad ↦
            let made : flush_name_table c t ≡ (false, record t { flash = f1 }) =
              simp (flush_name_table, bad) in
            absurd (true≢false (ap (λ (x : Bool × NameTable F). x.0) (sym r ∙ made)))
        | inl clean ↦ elim (Bool-cases written) [
          | inr bad ↦
              let made : flush_name_table c t ≡ (false, record t { flash = f2 }) =
                simp (flush_name_table, clean, bad) in
              absurd (true≢false (ap (λ (x : Bool × NameTable F). x.0) (sym r ∙ made)))
          | inl full ↦
              let made : flush_name_table c t ≡ (true, record t { flash = f2 }) =
                simp (flush_name_table, clean, full) in
              let same = ap (λ (x : Bool × NameTable F). x.1) (sym r ∙ made) in
              (
                ap (λ (b : Bool). (b, f1)) clean,
                ap₂ (λ (b : Bool) (f : F). (b, f)) full
                    (sym (ap (λ (x : NameTable F). x.flash) same)),
                ap (λ (x : NameTable F). x.names) same,
              )
        ]
      ]

  flush-load :
      (t later : NameTable F) {t' : NameTable F}
      → AllStored t.names
      → length t.names ≡ max_slots
      → flush_name_table c t ≡ (true, t')
      → later.flash ≡ t'.flash
      → (load_name_table c later).names ≡ t.names
  unfolding load_name_table
  flush-load t later {t'} v n r same =
      let (clean, full, _) = flush-steps t r in
      let p = encode_names t.names in
      let size = length-encode_names t.names v in
      let split : splice (replicate 1024 255) 0 p ≡ p ++ replicate 512 255 =
        ap (λ (k : ℕ). p ++ drop k (replicate 1024 255)) {x = 0 + length p} {y = 512}
          (omega (arith, n, size)) in
      let sized : length (splice (replicate 1024 255) 0 p) ≡ 1024 =
        ap length split ∙ length-append p (replicate 512 255) ∙ omega (arith, n, size) in
      let got =
        erase_write-read_prefix c laws name_table_addr (splice (replicate 1024 255) 0 p) p
          (replicate 512 255) t.flash split refl (omega (arith, sized)) (omega (arith, sized)) clean
          full in
      let loaded : read_flash c later.flash name_table_addr 512 ≡ p =
        ap (λ (f : F). read_flash c f name_table_addr 512) same
        ∙ ap (λ (k : ℕ). read_flash c t'.flash name_table_addr k) {x = 512} {y = length p}
            (omega (arith, n, size))
        ∙ got in
      ap (decode_names 8) loaded
      ∙ ap (λ (k : ℕ). decode_names k p) {x = 8} {y = length t.names} (omega (arith, n))
      ∙ decode_names-encode t.names v

  -- On a flash that keeps its laws and a name table of eight entries that fit their 64 bytes, a
  -- `save_name_entry` of a name of 32 bytes and a group below 65536 that succeeds has set this
  -- entry, its name ended by a NUL, in RAM, and `load_name_table` on a later boot loads from the
  -- flash exactly the table that was in RAM.
  pub save_name_entry-load :
      (slot : ℕ) (name : Bytes) (group_id : ℕ) (t later : NameTable F) {t' : NameTable F}
      → AllStored t.names
      → length t.names ≡ max_slots
      → length name ≡ 32
      → group_id < 65536
      → save_name_entry c slot name group_id t ≡ (true, t')
      → later.flash ≡ t'.flash
      → (t'.names ≡ set t.names slot (new_name name group_id))
        × ((load_name_table c later).names ≡ t'.names)
  unfolding save_name_entry
  save_name_entry-load slot name group_id t later {t'} v n named low r same =
      let e = new_name name group_id in
      let t1 = record t { names = set t.names slot e } in
      let fits : IsStored e = record {
        name_fits = length-set name 31 0 ∙ named;
        group_fits = low;
        padded = refl;
      } in
      elim (Bool-cases (ltb slot max_slots)) [
        | inr bad ↦
            let made : save_name_entry c slot name group_id t ≡ (false, t) =
              simp (save_name_entry, bad) in
            absurd (true≢false (ap (λ (x : Bool × NameTable F). x.0) (sym r ∙ made)))
        | inl good ↦
            let made : save_name_entry c slot name group_id t ≡ flush_name_table c t1 =
              simp (save_name_entry, good) in
            let flushed = sym made ∙ r in
            let (_, _, kept) = flush-steps t1 flushed in
            (
              kept,
              flush-load t1 later (AllStored-set t.names slot e fits v)
                    (length-set t.names slot e ∙ n) flushed same
                  ∙ sym kept,
            )
      ]
