-- ===== src/Tests/Blobs.antt =====
-- The blob store on the ideal peripherals.
use rutgers_2026_e_ctf_desig.Prelude.{
  ℕ, ◌≡◌, refl, true, false, Option, none, some, [], ◌∷◌, arith, Bytes, replicate, set, get_or, ◌≢◌,
  inr,
}
use rutgers_2026_e_ctf_desig.Sha256.{blank}
use rutgers_2026_e_ctf_desig.Trng.{ready, trng_read_bytes}
use rutgers_2026_e_ctf_desig.SecureDesign.{get_root_secret, generate_nonce}
use rutgers_2026_e_ctf_desig.Crypto.{
  root_secret_from_global_secrets, derive_file_enc_key, aes_gcm_encrypt, derive_chunk_key,
  crypto_hmac_sha256,
}
use rutgers_2026_e_ctf_desig.Sha256.Compress.{compress}
use rutgers_2026_e_ctf_desig.Sha256.Hmac.{hmac_sha256_raw}
use rutgers_2026_e_ctf_desig.Sha256.Hkdf.{hkdf_expand_sha256}
use rutgers_2026_e_ctf_desig.Flash.{read_flash, erase_page, write_flash}
use rutgers_2026_e_ctf_desig.BlobStore.Codec.{IsFat, IsEntry}
use rutgers_2026_e_ctf_desig.BlobStore.Read.{
  blob_read_init_internal, open_read, owner, blob_read_all, blob_read_all_group_mask,
}
use rutgers_2026_e_ctf_desig.BlobStore.Fat.{commit-init}
use rutgers_2026_e_ctf_desig.BlobStore.Access.{blob_delete-not_found, opened-IsAllowed, IsAllowed}
use rutgers_2026_e_ctf_desig.BlobStore.RoundTrip.{blob_write-read}
use rutgers_2026_e_ctf_desig.BlobStore.{
  BlobStatus, blob_ok, not_found, blob_delete, blob_store_init, load_header, entry_ok, header_ok,
  after_ok_inner, Store, ReadState, blank_entry, FatEntry, find_write_slot, after_ok,
  erase_slot_pages, commit_fat_entry, derive_file_key, chunk_key, erase_pages, first_empty,
}
use rutgers_2026_e_ctf_desig.BlobStore.Write.{blob_write, write_record, write_chunks, seal_record}
use rutgers_2026_e_ctf_desig.Tests.Ideal.{
  ideal_flash, ideal_flash-IsFlash, ideal_aes, ideal_aes-IsGcm, erased,
}

abbrev pub secrets : Bytes
secrets = replicate 129 7

abbrev pub idle : ReadState
idle = record {
  flash_addr = 0;
  processed = 0;
  total_len = 0;
  nonce = [];
  master_key = [];
  expected_blob_tag = [];
  sha_ctx = blank;
}

abbrev pub empty_store : Store (ℕ → ℕ)
empty_store = record {
  fat = replicate 8 blank_entry;
  initialized = true;
  aad = [];
  reading = idle;
  trng = ready 1 ∷ ready 2 ∷ ready 3 ∷ [];
  flash = erased;
}

abbrev pub note : Bytes
note = 104 ∷ 105 ∷ []

abbrev written : Option (BlobStatus × Store (ℕ → ℕ))
written =
    blob_write ideal_flash ideal_aes secrets 255 note (replicate 16 1) (replicate 32 9) 1
      empty_store

abbrev stored : Store (ℕ → ℕ)
stored = elim written [ none ↦ empty_store | some r ↦ r.1 ]

written_ok : written ≡ some (blob_ok, stored)
unfolding blob_write write_record write_chunks seal_record find_write_slot first_empty after_ok
    erase_slot_pages erase_pages commit_fat_entry derive_file_key get_root_secret
    root_secret_from_global_secrets derive_file_enc_key generate_nonce trng_read_bytes erase_page
    aes_gcm_encrypt chunk_key derive_chunk_key hkdf_expand_sha256 compress write_flash
    crypto_hmac_sha256 hmac_sha256_raw
written_ok = refl

blank-IsEntry : IsEntry blank_entry
blank-IsEntry = record {
  uuid = refl;
  length_ = omega arith;
  padding = omega arith;
  flash_addr = omega arith;
}

pub empty-IsFat : IsFat empty_store.fat
unfolding IsFat
empty-IsFat = let b = blank-IsEntry in (b, (b, (b, (b, (b, (b, (b, (b, tt))))))))

-- Another boot on the flash that was written.
abbrev rebooted : Store (ℕ → ℕ)
rebooted = record empty_store { fat = stored.fat; flash = stored.flash }

blob_write-read_example :
    (n : ℕ) × (find_write_slot 255 empty_store.fat ≡ inr n)
    × ((blob_read_all ideal_flash ideal_aes secrets n (replicate 32 9) 1 10 rebooted).0
        ≡ record { status = blob_ok; out = note; out_len = 2 })
    × ((blob_read_all_group_mask ideal_flash ideal_aes secrets n 1 10 rebooted).0
        ≡ record { status = blob_ok; out = note; out_len = 2 })
blob_write-read_example =
    blob_write-read ideal_flash ideal_aes ideal_flash-IsFlash ideal_aes-IsGcm secrets 255 note
      (replicate 16 1) (replicate 32 9) 1 1 10 empty_store rebooted empty-IsFat refl refl refl
      (omega arith) (omega arith) refl written_ok refl refl refl

-- A blob of 3 bytes in slot 2, as the FAT shows it.
abbrev entry : FatEntry
entry = record { uuid = replicate 16 5; length = 99; padding = 0; flash_addr = 0x28000 }

pub entry-IsEntry : IsEntry entry
entry-IsEntry = record {
  uuid = refl;
  length_ = omega arith;
  padding = omega arith;
  flash_addr = omega arith;
}

abbrev committed : Store (ℕ → ℕ)
committed = (commit_fat_entry ideal_flash 2 entry empty_store).1

committed_ok : commit_fat_entry ideal_flash 2 entry empty_store ≡ (blob_ok, committed)
unfolding commit_fat_entry erase_page write_flash
committed_ok = refl

commit-init_example :
    (committed.fat ≡ set empty_store.fat 2 entry)
    × (blob_store_init ideal_flash (record committed { fat = []; initialized = false })
        ≡ (blob_ok, record committed { initialized = true }))
commit-init_example =
    commit-init ideal_flash ideal_flash-IsFlash 2 entry empty_store
      (record committed { fat = []; initialized = false }) empty-IsFat refl entry-IsEntry
      committed_ok refl refl

abbrev pub one_blob : Store (ℕ → ℕ)
one_blob = record empty_store { fat = set empty_store.fat 2 entry }

abbrev deleted : Store (ℕ → ℕ)
deleted = (blob_delete ideal_flash 2 one_blob).1

deleted_ok : blob_delete ideal_flash 2 one_blob ≡ (blob_ok, deleted)
unfolding blob_delete erase_slot_pages erase_pages after_ok commit_fat_entry erase_page write_flash
deleted_ok = refl

blob_delete-not_found_example :
    ((load_header ideal_flash 2 deleted).0 ≡ not_found)
    × ((j : ℕ) → j ≢ 2 → get_or deleted.fat j blank_entry ≡ get_or one_blob.fat j blank_entry)
blob_delete-not_found_example =
    blob_delete-not_found ideal_flash ideal_flash-IsFlash 2 one_blob refl deleted_ok

abbrev opened : (BlobStatus × ℕ) × Store (ℕ → ℕ)
opened = blob_read_init_internal ideal_flash secrets 0 (owner (replicate 32 9)) 1 rebooted

opened_ok : opened ≡ ((blob_ok, 2), opened.1)
unfolding blob_read_init_internal load_header read_flash after_ok_inner entry_ok header_ok open_read
    blob_write write_record write_chunks seal_record find_write_slot first_empty after_ok
    erase_slot_pages erase_pages commit_fat_entry derive_file_key get_root_secret
    root_secret_from_global_secrets derive_file_enc_key generate_nonce trng_read_bytes erase_page
    aes_gcm_encrypt chunk_key derive_chunk_key hkdf_expand_sha256 compress write_flash
    crypto_hmac_sha256 hmac_sha256_raw
opened_ok = refl

opened-IsAllowed_example : IsAllowed ideal_flash 0 (owner (replicate 32 9)) 1 rebooted
opened-IsAllowed_example =
    opened-IsAllowed ideal_flash secrets 0 (owner (replicate 32 9)) 1 rebooted opened.1 2 opened_ok
