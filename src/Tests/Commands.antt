-- ===== src/Tests/Commands.antt =====
-- The handlers on the ideal peripherals.
use rutgers_2026_e_ctf_desig.Prelude.{
  ℕ, ◌≡◌, ◌≢◌, refl, ap, true, false, true≢false, Bool, Option, none, some, [], ◌∷◌, ◌++◌, arith,
  Bytes, replicate, set, byte_at, le16, ◌==◌, sym, length, ◌∙◌,
}
use rutgers_2026_e_ctf_desig.Trng.{trng_read_bytes}
use rutgers_2026_e_ctf_desig.SecureDesign.{get_root_secret, generate_nonce, clear_replay_cache}
use rutgers_2026_e_ctf_desig.Crypto.{
  root_secret_from_global_secrets, derive_file_enc_key, aes_gcm_encrypt, derive_chunk_key,
  crypto_hmac_sha256, derive_pin_mac_key, diff_bytes,
}
use rutgers_2026_e_ctf_desig.Sha256.Compress.{compress}
use rutgers_2026_e_ctf_desig.Sha256.Hmac.{hmac_sha256_raw}
use rutgers_2026_e_ctf_desig.Sha256.Hkdf.{hkdf_expand_sha256}
use rutgers_2026_e_ctf_desig.Flash.{erase_page, write_flash}
use rutgers_2026_e_ctf_desig.Messaging.{write_packet}
use rutgers_2026_e_ctf_desig.Messaging.Msg
use rutgers_2026_e_ctf_desig.Security.{
  Secrets, perm_read, compute_pin_hash, check_pin, validate_permission, get_pin_hash, pin_is_locked,
  permission_scan,
}
use rutgers_2026_e_ctf_desig.Security.Attempts.{IsValid, compute_pin_hash_sized}
use rutgers_2026_e_ctf_desig.BlobStore.{
  find_write_slot, after_ok, erase_slot_pages, commit_fat_entry, derive_file_key, chunk_key,
  erase_pages, first_empty,
}
use rutgers_2026_e_ctf_desig.BlobStore.Write.{blob_write, write_record, write_chunks, seal_record}
use rutgers_2026_e_ctf_desig.Names.{
  blank_name, slot_occupied, save_name_entry, flush_name_table, new_name,
}
use rutgers_2026_e_ctf_desig.Device.{
  Device, Ret, success, failure, packet_status, Run, go, stop, hang, chars, to_host, fail, require,
  need, answer, on_pins, on_names, on_store_trng,
}
use rutgers_2026_e_ctf_desig.Commands.{pin_gate}
use rutgers_2026_e_ctf_desig.Commands.Files.{list, read, write, store_blob}
use rutgers_2026_e_ctf_desig.Commands.Gate.{read_file, gated-refuses, told, attempted, pins_of}
use rutgers_2026_e_ctf_desig.Commands.Listing.{
  AllNames, IsName, decode_list, metadata_where, list-decode,
}
use rutgers_2026_e_ctf_desig.Commands.RoundTrip.{write-read}
use rutgers_2026_e_ctf_desig.Commands.Reading.{IsPermitted, read-IsPermitted}
use rutgers_2026_e_ctf_desig.Tests.Ideal.{
  ideal_flash, ideal_flash-IsFlash, ideal_aes, ideal_aes-IsGcm, erased,
}
use rutgers_2026_e_ctf_desig.Tests.Blobs.{one_blob, empty_store, note, empty-IsFat}

abbrev pub pin : Bytes
pin = 49 ∷ 50 ∷ 51 ∷ 52 ∷ 53 ∷ 54 ∷ []

abbrev wrong_pin : Bytes
wrong_pin = 54 ∷ 53 ∷ 52 ∷ 51 ∷ 50 ∷ 49 ∷ []

abbrev pub secrets : Secrets
secrets = record {
  global_secrets = replicate 129 7;
  hsm_pin = pin ++ (0 ∷ []);
  permissions = record { group_id = 5; read = true; write = true; receive = true } ∷ [];
}

abbrev hash_of : Bytes → Bytes
hash_of p = elim (compute_pin_hash secrets p) [ none ↦ [] | some h ↦ h ]

pub pin_ok : compute_pin_hash secrets pin ≡ some (hash_of pin)
unfolding compute_pin_hash get_root_secret root_secret_from_global_secrets derive_pin_mac_key
    crypto_hmac_sha256
pin_ok = refl

abbrev pub fresh : Device (ℕ → ℕ)
fresh = record {
  pins = record {
    pin_hash = hash_of pin;
    fail_count = 0;
    initialized = true;
    delays = 0;
    flash = erased;
  };
  store = empty_store;
  names = replicate 8 blank_name;
  replay = clear_replay_cache;
  control = record { rx = []; tx = [] };
  transfer = record { rx = []; tx = [] };
}

fresh-IsValid : IsValid (pins_of fresh)
fresh-IsValid =
    let sized = compute_pin_hash_sized secrets pin pin_ok in
    record { sized = sized.0; bytes = sized.1; ready = refl }

-- Whether the first byte of a hash is that of the right PIN's.
abbrev like_pin : Option Bytes → Bool
like_pin none = false
like_pin (some h) = byte_at h 0 == byte_at (hash_of pin) 0

like : like_pin (some (hash_of pin)) ≡ true
unfolding compute_pin_hash get_root_secret root_secret_from_global_secrets derive_pin_mac_key
    crypto_hmac_sha256 hmac_sha256_raw compress
like = refl

unlike : like_pin (compute_pin_hash secrets wrong_pin) ≡ false
unfolding compute_pin_hash get_root_secret root_secret_from_global_secrets derive_pin_mac_key
    crypto_hmac_sha256 hmac_sha256_raw compress
unlike = refl

wrong : compute_pin_hash secrets wrong_pin ≢ some (hash_of pin)
wrong e = true≢false (sym like ∙ (sym (ap like_pin e) ∙ unlike))

gated-refuses_example :
    read ideal_flash ideal_aes secrets (wrong_pin ++ (0 ∷ [])) fresh
    ≡ stop failure (
        told ideal_flash secrets
          (chars "Invalid pin\n")
          (attempted ideal_flash secrets wrong_pin fresh))
gated-refuses_example =
    gated-refuses ideal_flash ideal_aes secrets read_file (wrong_pin ++ (0 ∷ [])) fresh
      (omega arith) fresh-IsValid wrong

abbrev pub name : Bytes
name = 97 ∷ replicate 31 0

-- A file for slot 0 and group 5.
abbrev command : Bytes
command = pin ++ (0 ∷ (le16 5 ++ (name ++ (replicate 16 1 ++ (le16 2 ++ note)))))

abbrev pub device_of : Run (ℕ → ℕ) Ret → Device (ℕ → ℕ)
device_of (go r d) = d
device_of (stop r d) = d
device_of hang = fresh

abbrev pub written : Device (ℕ → ℕ)
written = device_of (write ideal_flash ideal_aes secrets command fresh)

written_ok : write ideal_flash ideal_aes secrets command fresh ≡ go success written
unfolding write store_blob on_pins on_names on_store_trng require need answer to_host fail pin_gate
    pin_is_locked check_pin diff_bytes compute_pin_hash get_pin_hash validate_permission
    permission_scan save_name_entry flush_name_table blob_write write_record write_chunks
    seal_record find_write_slot first_empty after_ok erase_slot_pages erase_pages commit_fat_entry
    derive_file_key get_root_secret derive_pin_mac_key root_secret_from_global_secrets
    derive_file_enc_key generate_nonce trng_read_bytes erase_page aes_gcm_encrypt chunk_key
    derive_chunk_key hkdf_expand_sha256 compress write_flash crypto_hmac_sha256 hmac_sha256_raw
written_ok = refl

-- The same device at another boot, asked for slot 0.
abbrev request : Bytes
request = pin ++ (0 ∷ [])

abbrev later : Device (ℕ → ℕ)
later = record written { replay = clear_replay_cache }

writable : validate_permission secrets 5 perm_read ≡ true
unfolding validate_permission permission_scan
writable = refl

reading_idle : length later.store.reading.sha_ctx.buf ≡ 64
unfolding write store_blob on_pins on_names on_store_trng require need answer to_host fail pin_gate
    pin_is_locked check_pin diff_bytes compute_pin_hash get_pin_hash validate_permission
    permission_scan save_name_entry flush_name_table blob_write write_record write_chunks
    seal_record find_write_slot first_empty after_ok erase_slot_pages erase_pages commit_fat_entry
    derive_file_key get_root_secret derive_pin_mac_key root_secret_from_global_secrets
    derive_file_enc_key generate_nonce trng_read_bytes erase_page aes_gcm_encrypt chunk_key
    derive_chunk_key hkdf_expand_sha256 compress write_flash crypto_hmac_sha256 hmac_sha256_raw
reading_idle = refl

write-read_example :
    let sent = write_packet Msg.read (set name 31 0 ++ note) later.control in
    (e' : Device (ℕ → ℕ)) × (read ideal_flash ideal_aes secrets request later
      ≡ go (packet_status sent.0) e')
    × (e'.control ≡ sent.1)
write-read_example =
    write-read ideal_flash ideal_aes ideal_flash-IsFlash ideal_aes-IsGcm secrets command request
      fresh later fresh-IsValid empty-IsFat refl refl (omega arith) writable refl written_ok refl
      refl refl refl reading_idle (omega arith) refl refl

read-IsPermitted_example : IsPermitted ideal_flash ideal_aes secrets request later
read-IsPermitted_example =
    read-IsPermitted ideal_flash ideal_aes secrets request later
      (write-read ideal_flash ideal_aes ideal_flash-IsFlash ideal_aes-IsGcm secrets command request
        fresh later fresh-IsValid empty-IsFat refl refl (omega arith) writable refl written_ok refl
        refl refl refl reading_idle (omega arith) refl refl).1

-- A device with a name for slot 2.
abbrev pub shelf : Device (ℕ → ℕ)
shelf = record fresh { store = one_blob; names = set (replicate 8 blank_name) 2 (new_name name 5) }

shelf-All : AllNames shelf.names
shelf-All =
    let b : IsName blank_name = record { group_fits = omega arith; name_fits = refl } in
    (b, (b, (record { group_fits = omega arith; name_fits = refl }, (b, (b, (b, (b, (b, tt))))))))

-- A list for the host, which is asked with the right PIN.
listed_ok :
    list ideal_flash secrets pin shelf ≡ go success (device_of (list ideal_flash secrets pin shelf))
unfolding list require pin_gate pin_is_locked on_pins check_pin diff_bytes compute_pin_hash answer
    to_host fail crypto_hmac_sha256 derive_pin_mac_key compress hmac_sha256_raw get_root_secret
    root_secret_from_global_secrets
listed_ok = refl

list-decode_example :
    ((check_pin ideal_flash secrets pin (pins_of shelf)).0 ≡ true)
    × (response : Bytes) × (device_of (list ideal_flash secrets pin shelf)
        ≡ record (attempted ideal_flash secrets pin shelf) {
          control = (write_packet Msg.list_files response shelf.control).1;
        })
    × (decode_list response
        ≡ metadata_where (slot_occupied shelf.names shelf.store.fat) shelf.names)
list-decode_example = list-decode ideal_flash secrets pin shelf shelf-All listed_ok
