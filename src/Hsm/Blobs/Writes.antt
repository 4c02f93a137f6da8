-- ===== src/Hsm/Blobs/Writes.antt =====
-- The FAT keeps its form under `blob_write` of firmware/src/secure_blob_store.c.
use rutgers_2026_e_ctf_desig.Prelude.{
  ℕ, ◌-◌, u16, ◌+◌, ◌<◌, ◌≡◌, refl, Option, some, Bytes, arith, ltb, if_keeps, option_keeps, length,
}
use mathlib.Core.Path.{subst}
use mathlib.Core.Option.{some-injective, none-ne-some}
use rutgers_2026_e_ctf_desig.Flash.{FlashCtl, write_flash}
use rutgers_2026_e_ctf_desig.SecureDesign.{get_root_secret, generate_nonce}
use rutgers_2026_e_ctf_desig.Crypto.{Aes, crypto_hmac_sha256, hmac_size, gcm_nonce_size}
use rutgers_2026_e_ctf_desig.BlobStore.{
  BlobStatus, after_ok, invalid_argument, crypto_error, BlobHeader, Store, max_slots,
  find_write_slot, blob_slot_base, tags_offset, derive_file_key, encode_header, header_size,
  build_aad, erase_slot_pages,
}
use rutgers_2026_e_ctf_desig.Sha256.{Ctx, ctx_init, ctx_final, blank}
use rutgers_2026_e_ctf_desig.BlobStore.Write.{
  blob_write, seal_record, write_record, write_chunks, new_header,
}
use rutgers_2026_e_ctf_desig.BlobStore.Written.{find_write_slot-lt}
use rutgers_2026_e_ctf_desig.Hsm.Blobs.{
  IsTable, IsTable-same, Kept, sum_keeps, after_ok-Kept, commit-Kept,
}

module _ {F C : Type 0} (c : FlashCtl F) (aes : Aes C) where
  seal_record-Kept :
      (slot : ℕ) (master uuid : Bytes) (h : BlobHeader) (ctx : Ctx) (s : Store F)
      → slot < max_slots
      → length uuid ≡ 16
      → IsTable s
      → Kept (seal_record c aes slot master uuid h ctx s)
  unfolding seal_record
  seal_record-Kept slot master uuid h ctx s low u t =
      option_keeps Kept (crypto_hmac_sha256 master (ctx_final ctx) hmac_size) (record { table = t })
        λ tag _.
          let written =
            write_flash c (blob_slot_base slot) (encode_header (record h { blob_tag = tag }))
              s.flash in
          let s1 = record s { flash = written.1 } in
          let t1 = IsTable-same s s1 refl t in
          if_keeps Kept written.0
            (λ _.
              commit-Kept c slot
                (record {
                  uuid = uuid;
                  length = u16 (header_size + h.plaintext_len);
                  padding = 0;
                  flash_addr = blob_slot_base slot;
                })
                s1
                (record {
                  uuid = u;
                  length_ = omega arith;
                  padding = omega arith;
                  flash_addr = omega arith;
                })
                t1)
            (λ _. record { table = t1 })

  write_record-Kept :
      (slot : ℕ) (master data_ uuid : Bytes) (h : BlobHeader) (s : Store F)
      → slot < max_slots
      → length uuid ≡ 16
      → IsTable s
      → Kept (write_record c aes slot master data_ uuid h s)
  unfolding write_record
  write_record-Kept slot master data_ uuid h s low u t =
      let aad = build_aad h in
      let erased = erase_slot_pages c slot s.flash in
      let s1 = record s { aad = aad; flash = erased.1 } in
      let chunks =
        write_chunks c aes (length data_) (blob_slot_base slot) master h.nonce aad data_ 0 0
          (ctx_init blank) erased.1 in
      let s2 = record s1 { flash = chunks.1 } in
      let t1 = IsTable-same s s1 refl t in
      let t2 = IsTable-same s s2 refl t in
      let sealed = seal_record c aes slot master uuid h chunks.0.1 s2 in
      after_ok-Kept erased.0 s1 (after_ok chunks.0.0 s2 sealed) t1 (
        after_ok-Kept chunks.0.0 s2 sealed t2
          (seal_record-Kept slot master uuid h chunks.0.1 s2 low u t2))

  -- The store behind a write, if the TRNG delivered.
  pub record Written (r : Option (BlobStatus × Store F)) : Type 0 where
    pub table : (rc : BlobStatus) (s : Store F) → r ≡ some (rc, s) → IsTable s

  done-Written : (rc : BlobStatus) (s : Store F) → IsTable s → Written (some (rc, s))
  done-Written rc s t = record {
    table = λ rc' s' e.
        subst (λ (r : BlobStatus × Store F). IsTable r.1) (some-injective (rc, s) (rc', s') e) t;
  }

  pub blob_write-Written :
      (global_secrets : Bytes) (slot : ℕ) (data_ uuid pin_hash : Bytes) (mask : ℕ) (s : Store F)
      → length uuid ≡ 16
      → IsTable s
      → Written (blob_write c aes global_secrets slot data_ uuid pin_hash mask s)
  unfolding blob_write
  blob_write-Written global_secrets slot data_ uuid pin_hash mask s u t =
      let len = length data_ in
      if_keeps Written (ltb (tags_offset - header_size) len)
        (λ _. done-Written invalid_argument s t)
        (λ _.
          if_keeps Written (ltb 0xFFFF (header_size + len)) (λ _. done-Written invalid_argument s t)
            (λ _.
              sum_keeps Written (find_write_slot slot s.fat) (λ rc _. done-Written rc s t)
                λ resolved found.
                  option_keeps Written (get_root_secret global_secrets)
                    (done-Written crypto_error s t)
                    λ root _.
                      option_keeps Written (derive_file_key root mask)
                        (done-Written crypto_error s t)
                        λ master _.
                          option_keeps Written (generate_nonce s.trng gcm_nonce_size)
                            (record { table = λ rc s' e. absurd (none-ne-some (rc, s') e) })
                            λ (drawn, cs) _.
                              let s1 = record s { trng = cs } in
                              let t1 = IsTable-same s s1 refl t in
                              option_keeps Written drawn (done-Written crypto_error s1 t1)
                                λ nonce _.
                                  let h = new_header resolved len mask pin_hash nonce in
                                  let low = find_write_slot-lt slot s.fat t.sized found in
                                  let r = write_record c aes resolved master data_ uuid h s1 in
                                  done-Written r.0 r.1
                                    (write_record-Kept resolved master data_ uuid h s1 low u
                                      t1).table))
