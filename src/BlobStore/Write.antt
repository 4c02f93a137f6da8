-- ===== src/BlobStore/Write.antt =====
-- `blob_write` of firmware/src/secure_blob_store.c.
use rutgers_2026_e_ctf_desig.Prelude.{
  ℕ, zero, suc, ◌+◌, ◌-◌, ◌*◌, inl, inr, Option, none, some, [], ◌∷◌, Bytes, u16, ltb,
  if◌then◌else◌, length, take, drop, replicate,
}
use rutgers_2026_e_ctf_desig.Sha256.{Ctx, ctx_init, ctx_update, ctx_final, blank}
use rutgers_2026_e_ctf_desig.Flash.{FlashCtl, write_flash}
use rutgers_2026_e_ctf_desig.Crypto.{
  Aes, aes_gcm_encrypt, crypto_hmac_sha256, gcm_tag_size, hmac_size, gcm_nonce_size,
}
use rutgers_2026_e_ctf_desig.SecureDesign.{get_root_secret, generate_nonce}
use rutgers_2026_e_ctf_desig.BlobStore.{
  BlobStatus, after_ok, blob_ok, invalid_argument, io_error, crypto_error, BlobHeader, FatEntry,
  Store, encode_header, header_size, tags_offset, chunk_bytes, blob_magic, blob_slot_base,
  find_write_slot, build_aad, derive_file_key, chunk_key, erase_slot_pages, commit_fat_entry,
}

-- The header that `blob_write` fills, up to its tag.
abbrev pub new_header : ℕ → ℕ → ℕ → Bytes → Bytes → BlobHeader
new_header slot len group_mask owner_pin_hash nonce = record {
  magic = blob_magic;
  version = 1;
  slot = slot;
  plaintext_len = len;
  group_mask = group_mask;
  owner_pin_hash = owner_pin_hash;
  nonce = nonce;
  blob_tag = replicate 32 255;
  reserved = replicate 4 255;
}

module _ {F C : Type 0} (c : FlashCtl F) (aes : Aes C) where
  -- The loop of `blob_write`, on fuel: each round stores a chunk and its tag.
  unfoldable pub write_chunks :
      ℕ → ℕ → Bytes → Bytes → Bytes → Bytes → ℕ → ℕ → Ctx → F → (BlobStatus × Ctx) × F
  write_chunks zero base master nonce aad data_ processed idx ctx f = ((blob_ok, ctx), f)
  write_chunks (suc fuel) base master nonce aad [] processed idx ctx f = ((blob_ok, ctx), f)
  write_chunks (suc fuel) base master nonce aad (b ∷ bs) processed idx ctx f =
      let piece = take chunk_bytes (b ∷ bs) in
      elim (aes_gcm_encrypt aes (chunk_key master idx) nonce aad piece gcm_tag_size) [
        | none ↦ ((crypto_error, ctx), f)
        | some (ct, tag) ↦
            let ctx1 = ctx_update ctx tag in
            let (stored, f1) = write_flash c (base + header_size + processed) ct f in
            let (tagged, f2) = write_flash c (base + tags_offset + idx * gcm_tag_size) tag f1 in
            let rest =
              write_chunks fuel base master nonce aad (drop chunk_bytes (b ∷ bs))
                (processed + length piece) (idx + 1) ctx1 f2 in
            if stored
            then (if tagged then rest else ((io_error, ctx1), f2))
            else ((io_error, ctx1), f1)
      ]

  -- `blob_write` behind the loop: the blob's tag, the header and the FAT entry.
  unfoldable pub seal_record : ℕ → Bytes → Bytes → BlobHeader → Ctx → Store F → BlobStatus × Store F
  seal_record slot master uuid h ctx s =
      let base = blob_slot_base slot in
      elim (crypto_hmac_sha256 master (ctx_final ctx) hmac_size) [
        | none ↦ (crypto_error, s)
        | some tag ↦
            let (written, f1) =
              write_flash c base (encode_header (record h { blob_tag = tag })) s.flash in
            let s1 = record s { flash = f1 } in
            let entry : FatEntry = record {
              uuid = uuid;
              length = u16 (header_size + h.plaintext_len);
              padding = 0;
              flash_addr = base;
            } in
            if written then commit_fat_entry c slot entry s1 else (io_error, s1)
      ]

  -- `blob_write` behind the nonce.
  unfoldable pub write_record :
      ℕ → Bytes → Bytes → Bytes → BlobHeader → Store F → BlobStatus × Store F
  write_record slot master data_ uuid h s0 =
      let aad = build_aad h in
      let (rc, f1) = erase_slot_pages c slot s0.flash in
      let s1 = record s0 { aad = aad; flash = f1 } in
      let ((done, ctx), f2) =
        write_chunks (length data_) (blob_slot_base slot) master h.nonce aad data_ 0 0
          (ctx_init blank) f1 in
      let s2 = record s1 { flash = f2 } in
      let sealed = seal_record slot master uuid h ctx s2 in after_ok rc s1 (after_ok done s2 sealed)

  -- `blob_write`; `none` is a TRNG that delivers no more. The tests on `SIZE_MAX` hold on a machine
  -- of 32 bits.
  unfoldable pub blob_write :
      Bytes → ℕ → Bytes → Bytes → Bytes → ℕ → Store F → Option (BlobStatus × Store F)
  blob_write global_secrets slot data_ uuid owner_pin_hash group_mask s =
      let len = length data_ in
      if ltb (tags_offset - header_size) len
      then some (invalid_argument, s)
      else if ltb 0xFFFF (header_size + len)
      then some (invalid_argument, s)
      else elim (find_write_slot slot s.fat) [
        | inl rc ↦ some (rc, s)
        | inr resolved ↦ elim (get_root_secret global_secrets) [
          | none ↦ some (crypto_error, s)
          | some root ↦ elim (derive_file_key root group_mask) [
            | none ↦ some (crypto_error, s)
            | some master ↦ elim (generate_nonce s.trng gcm_nonce_size) [
              | none ↦ none
              | some (drawn, cs) ↦
                  let s1 = record s { trng = cs } in
                  elim drawn [
                    | none ↦ some (crypto_error, s1)
                    | some nonce ↦ some (
                        write_record resolved master data_ uuid
                          (new_header resolved len group_mask owner_pin_hash nonce) s1)
                  ]
            ]
          ]
        ]
      ]
