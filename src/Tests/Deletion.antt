-- ===== src/Tests/Deletion.antt =====
-- A deletion on the ideal peripherals.
use rutgers_2026_e_ctf_desig.Prelude.{ℕ, ◌≡◌, ◌≢◌, refl, true, false, [], ◌∷◌, ◌++◌, Bytes}
use rutgers_2026_e_ctf_desig.Sha256.Compress.{compress}
use rutgers_2026_e_ctf_desig.Sha256.Hmac.{hmac_sha256_raw}
use rutgers_2026_e_ctf_desig.Flash.{erase_page, write_flash}
use rutgers_2026_e_ctf_desig.Crypto.{
  root_secret_from_global_secrets, derive_pin_mac_key, crypto_hmac_sha256, diff_bytes,
}
use rutgers_2026_e_ctf_desig.SecureDesign.{get_root_secret}
use rutgers_2026_e_ctf_desig.Security.{check_pin, compute_pin_hash, pin_is_locked}
use rutgers_2026_e_ctf_desig.BlobStore.{
  blob_delete, erase_slot_pages, erase_pages, after_ok, commit_fat_entry,
}
use rutgers_2026_e_ctf_desig.Names.{name_at, slot_occupied, clear_name_entry, flush_name_table}
use rutgers_2026_e_ctf_desig.Device.{
  Device, success, go, on_pins, on_names, on_store, require, answer, to_host, fail,
}
use rutgers_2026_e_ctf_desig.Commands.{occupied, pin_gate}
use rutgers_2026_e_ctf_desig.Commands.Files.{delete_file}
use rutgers_2026_e_ctf_desig.Commands.Deleting.{delete_file-frees}
use rutgers_2026_e_ctf_desig.Tests.Ideal.{ideal_flash, ideal_flash-IsFlash}
use rutgers_2026_e_ctf_desig.Tests.Commands.{secrets, pin, shelf, device_of}

abbrev order : Bytes
order = pin ++ (2 ∷ [])

abbrev emptied : Device (ℕ → ℕ)
emptied = device_of (delete_file ideal_flash secrets order shelf)

emptied_ok : delete_file ideal_flash secrets order shelf ≡ go success emptied
unfolding delete_file require pin_gate pin_is_locked on_pins check_pin diff_bytes compute_pin_hash
    slot_occupied on_store blob_delete erase_slot_pages erase_pages after_ok commit_fat_entry
    on_names clear_name_entry flush_name_table answer to_host fail erase_page write_flash
    crypto_hmac_sha256 derive_pin_mac_key compress hmac_sha256_raw get_root_secret
    root_secret_from_global_secrets
emptied_ok = refl

delete_file-frees_example :
    (occupied 2 shelf ≡ true)
    × (occupied 2 emptied ≡ false)
    × ((j : ℕ)
        → j ≢ 2
        → (occupied j emptied ≡ occupied j shelf)
          × (name_at emptied.names j ≡ name_at shelf.names j))
delete_file-frees_example =
    delete_file-frees ideal_flash ideal_flash-IsFlash secrets order shelf refl emptied_ok
