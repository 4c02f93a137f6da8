-- ===== src/Storage/Counter.antt =====
-- `counter` of firmware/src/storage.c signs what `verify_file_metadata` accepts.
use rutgers_2026_e_ctf_desig.Prelude.{
  ℕ, ◌+◌, ◌*◌, ◌%◌, ◌<◌, ◌^◌, ◌≡◌, refl, sym, ap, ◌∙◌, Bool, true, false, true≢false, none, some,
  Option-cases, Bool-cases, inl, inr, [], ◌∷◌, length-drop, ◌++◌, arith, Bytes, bytes_eq,
  bytes_eq_refl, byte_at, u32, le16, le32, load16-append, load32-append, splice, ltb, ltb→lt, ◌==◌,
  ==_iff, if◌then◌else◌, length, length-append, length-take, take, drop, take_all, get_or-append_ge,
  get_or-append_lt,
}
use rutgers_2026_e_ctf_desig.Flash.{
  FlashCtl, IsFlash, page_size, erase_page, write_flash, read_flash,
}
use rutgers_2026_e_ctf_desig.Flash.Write.{
  write_flash-IsPut, erase_page_lem, read_flash_eq, length-read_flash,
}
use rutgers_2026_e_ctf_desig.Crypto.{RootSecret, crypto_hmac_sha256}
use rutgers_2026_e_ctf_desig.SecureDesign.{get_root_secret}
use rutgers_2026_e_ctf_desig.Security.Attempts.{hmac_sized}
use rutgers_2026_e_ctf_desig.BlobStore.{FatEntry, decode_entry}
use rutgers_2026_e_ctf_desig.Storage.{
  FatExt, get_fat_entry, encode_ext, decode_ext, ext_size, app2_base_address, fat_base_address,
  build_hmac_msg, derive_group_auth_key, metadata_hmac_of, rewrite_page, ext_at, counter,
  verify_file_metadata,
}

-- The fields have the sizes of their C types.
pub record IsExt (e : FatExt) : Type 0 where
  pub addr_fits : e.file_addr < 2 ^ 32
  pub group_fits : e.group_id < 2 ^ 16
  pub perm_fits : e.perm_group < 2 ^ 16
  pub counter_fits : e.counter < 2 ^ 32
  pub hmac_sized : length e.metadata_hmac ≡ 32

decode_ext-encode : (e : FatExt) → IsExt e → decode_ext (encode_ext e) ≡ e
decode_ext-encode e v = λ i. record {
  file_addr = load32-append [] e.file_addr after_addr 0 refl v.addr_fits i;
  group_id = load16-append (le32 e.file_addr) e.group_id after_group 4 refl v.group_fits i;
  perm_group =
      load16-append (le32 e.file_addr ++ le16 e.group_id) e.perm_group flags 6 refl v.perm_fits i;
  read = e.read;
  write = e.write;
  receive = e.receive;
  perm_padding = e.perm_padding;
  counter =
      load32-append
        (le32 e.file_addr
          ++ (le16 e.group_id
              ++ (le16 e.perm_group ++ (e.read ∷ e.write ∷ e.receive ∷ e.perm_padding ∷ []))))
        e.counter e.metadata_hmac 12 refl v.counter_fits i;
  metadata_hmac = take_all 32 e.metadata_hmac (omega (arith, v.hmac_sized)) i;
}
  where
    flags : Bytes
    flags = e.read ∷ e.write ∷ e.receive ∷ e.perm_padding ∷ (le32 e.counter ++ e.metadata_hmac)

    after_group : Bytes
    after_group = le16 e.perm_group ++ flags

    after_addr : Bytes
    after_addr = le16 e.group_id ++ after_group

-- The bytes of a splice.
byte_at-splice :
    (dst : Bytes) (at : ℕ) (src : Bytes) (i : ℕ)
    → at < length dst
    → i < length src
    → byte_at (splice dst at src) (at + i) ≡ byte_at src i
byte_at-splice dst at src i within l =
    let after = drop (at + length src) dst in
    get_or-append_ge (at + i) i (take at dst) (src ++ after) 0
      (omega (arith, within, length-take at dst))
    ∙ get_or-append_lt src after i 0 l

length-splice :
    (dst : Bytes) (at : ℕ) (src : Bytes)
    → at + length src < length dst + 1
    → length (splice dst at src) ≡ length dst
length-splice dst at src h =
    let after = drop (at + length src) dst in
    omega (
      arith,
      h,
      length-append (take at dst) (src ++ after),
      length-append src after,
      length-take at dst,
      length-drop (at + length src) dst,
    )

module _ {F : Type 0} (c : FlashCtl F) (laws : IsFlash c) where
  -- A page that is rewritten on a flash that does not fail.
  rewrite_page-read :
      (a at : ℕ) (old d : Bytes) (f : F)
      → (erase_page c a f).0 ≡ true
      → (write_flash c a (splice old at d) (erase_page c a f).1).0 ≡ true
      → a % page_size ≡ 0
      → a + 1024 < 2 ^ 32
      → length old ≡ 1024
      → at + length d < 1025
      → at < 1024
      → read_flash c (rewrite_page c a (splice old at d) f) (a + at) (length d) ≡ d
  unfolding rewrite_page
  rewrite_page-read a at old d f erases writes aligned low size inside within =
      let page = splice old at d in
      let f1 = (erase_page c a f).1 in
      let g = (write_flash c a page f1).1 in
      let sized = length-splice old at d (omega (arith, size, inside)) in
      let clean = erase_page_lem c laws a f aligned (ap (λ (b : Bool). (b, f1)) erases) in
      let put =
        write_flash-IsPut c laws a page f1 (omega arith) (omega (arith, sized, size, low))
          (λ i l. clean.0 i (omega (arith, sized, size))) (ap (λ (b : Bool). (b, g)) writes) in
      read_flash_eq c laws g (a + at) d λ i l.
        ap (c.byte g) {x = a + at + i} {y = a + (at + i)} (omega arith)
        ∙ put.inside (at + i) (omega (arith, sized, size, inside))
        ∙ byte_at-splice old at d i (omega (arith, size, within)) l

  -- An element of the metadata that was put into its page.
  ext_at-rewrite :
      (index : ℕ) (old : Bytes) (e : FatExt) (f : F)
      → let page = splice old (index * ext_size) (encode_ext e) in
        (erase_page c app2_base_address f).0 ≡ true
        → (write_flash c app2_base_address page (erase_page c app2_base_address f).1).0 ≡ true
        → index < 8
        → length old ≡ 1024
        → IsExt e
        → ext_at c (rewrite_page c app2_base_address page f) index ≡ e
  unfolding ext_at
  ext_at-rewrite index old e f erases writes below size fits =
      let page = splice old (index * ext_size) (encode_ext e) in
      let g = rewrite_page c app2_base_address page f in
      let got =
        rewrite_page-read app2_base_address (index * ext_size) old (encode_ext e) f erases writes
          refl (omega arith) size (omega (arith, below, fits.hmac_sized)) (omega (arith, below)) in
      let sized =
        ap (λ (n : ℕ). read_flash c g (app2_base_address + index * 48) n) {x = 48}
          {y = length (encode_ext e)} (omega (arith, fits.hmac_sized)) in
      ap decode_ext (sized ∙ got) ∙ decode_ext-encode e fits

  verify-accepts :
      (index : ℕ) (entry : FatEntry) (key : Bytes) (f : F) (e : FatExt)
      → ltb index 8 ≡ true
      → ext_at c f index ≡ e
      → e.file_addr ≡ entry.flash_addr
      → crypto_hmac_sha256 key (build_hmac_msg entry.uuid e) 32 ≡ some e.metadata_hmac
      → verify_file_metadata c index entry key f ≡ true
  unfolding verify_file_metadata
  verify-accepts index entry key f e low current same signed =
      let placed = (==_iff e.file_addr entry.flash_addr).1 same in
      let equal = bytes_eq_refl e.metadata_hmac in
      let compared : FatExt → Bool = λ x.
        elim (crypto_hmac_sha256 key (build_hmac_msg entry.uuid x) 32) [
          | none ↦ false
          | some mac ↦ bytes_eq mac x.metadata_hmac
        ] in
      let checked : FatExt → Bool = λ x.
        if ltb index 8
        then (if x.file_addr == entry.flash_addr then compared x else false)
        else false in
      ap checked current ∙ simp (low, placed, signed, equal)

  -- On a flash that keeps its laws and whose calls succeed, let the metadata of an index have
  -- fields of the sizes of their types and the address of the FAT entry of this index, and let
  -- the root secret and the key of its group be derivable. After a `counter` that returns 0,
  -- `verify_file_metadata` accepts this entry with this key, and the counter has gone up by one
  -- modulo 2^32.
  pub counter-verify :
      (global_secrets : Bytes) (index : ℕ) (entry : FatEntry) (f : F) {f' : F} {root : RootSecret}
      {key : Bytes}
      → let before =
          decode_ext (drop (index * ext_size) (read_flash c f app2_base_address page_size)) in
        IsExt before
        → ((a : ℕ) (f : F) → (erase_page c a f).0 ≡ true)
        → ((a : ℕ) (d : Bytes) (f : F) → (write_flash c a d f).0 ≡ true)
        → get_root_secret global_secrets ≡ some root
        → derive_group_auth_key root before.group_id ≡ some key
        → get_fat_entry c index entry f ≡ entry
        → before.file_addr ≡ entry.flash_addr
        → counter c global_secrets index f ≡ (true, f')
        → (verify_file_metadata c index entry key f' ≡ true)
          × ((ext_at c f' index).counter ≡ u32 (before.counter + 1))
  unfolding counter get_fat_entry metadata_hmac_of build_hmac_msg
  counter-verify global_secrets index entry f {f'} {root} {key} v erases writes has_root has_key
        read_entry placed r =
      let old = read_flash c f app2_base_address page_size in
      let before = decode_ext (drop (index * ext_size) old) in
      let raised = record before { counter = u32 (before.counter + 1) } in
      let uuid = (decode_entry (read_flash c f (fat_base_address + index * 24) 24)).uuid in
      elim (Bool-cases (ltb index 8)) [
        | inr bad ↦
            let made : counter c global_secrets index f ≡ (false, f) = simp (counter, bad) in
            absurd (true≢false (ap (λ (t : Bool × F). t.0) (sym r ∙ made)))
        | inl low ↦ elim (Option-cases (metadata_hmac_of global_secrets uuid raised)) [
          | inl failed ↦
              let made : counter c global_secrets index f ≡ (false, f) =
                simp (counter, low, failed) in
              absurd (true≢false (ap (λ (t : Bool × F). t.0) (sym r ∙ made)))
          | inr (mac, signed) ↦
              let e = record raised { metadata_hmac = mac } in
              let page = splice old (index * ext_size) (encode_ext e) in
              let made : counter c global_secrets index f
                  ≡ (true, rewrite_page c app2_base_address page f) =
                simp (counter, low, signed) in
              let same = ap (λ (t : Bool × F). t.1) (sym made ∙ r) in
              let opened : metadata_hmac_of global_secrets uuid raised
                  ≡ crypto_hmac_sha256 key (build_hmac_msg uuid raised) 32 =
                simp (metadata_hmac_of, has_root, has_key) in
              let mac_made = sym opened ∙ signed in
              let fits : IsExt e = record {
                addr_fits = v.addr_fits;
                group_fits = v.group_fits;
                perm_fits = v.perm_fits;
                counter_fits = omega arith;
                hmac_sized = (hmac_sized key (build_hmac_msg uuid raised) mac_made).0;
              } in
              let below = ltb→lt index 8 low in
              let current : ext_at c f' index ≡ e =
                ap (λ (g : F). ext_at c g index) (sym same)
                ∙ ext_at-rewrite index old e f (erases app2_base_address f)
                    (writes app2_base_address page (erase_page c app2_base_address f).1) below
                    (length-read_flash c laws f app2_base_address page_size) fits in
              let read_back : get_fat_entry c index entry f
                  ≡ decode_entry (read_flash c f (fat_base_address + index * 24) 24) =
                simp (get_fat_entry, low) in
              let same_uuid : uuid ≡ entry.uuid =
                ap (λ (x : FatEntry). x.uuid) (sym read_back ∙ read_entry) in
              (
                verify-accepts index entry key f' e low current placed (
                    ap (λ (u : Bytes). crypto_hmac_sha256 key (build_hmac_msg u e) 32)
                      (sym same_uuid)
                    ∙ mac_made),
                ap (λ (x : FatExt). x.counter) current,
              )
        ]
      ]
