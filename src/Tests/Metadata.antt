-- ===== src/Tests/Metadata.antt =====
-- The metadata of firmware/src/storage.c on the ideal flash.
use rutgers_2026_e_ctf_desig.Prelude.{
  ℕ, zero, suc, ◌+◌, ◌*◌, ◌≡◌, refl, true, none, some, [], ◌∷◌, arith, Bytes, length, drop, u32,
}
use rutgers_2026_e_ctf_desig.Sha256.Compress.{compress}
use rutgers_2026_e_ctf_desig.Sha256.Hmac.{hmac_sha256_raw}
use rutgers_2026_e_ctf_desig.Sha256.Hkdf.{hkdf_expand_sha256}
use rutgers_2026_e_ctf_desig.Flash.{page_size, read_flash, write_flash, write_loop, chunk_size}
use rutgers_2026_e_ctf_desig.Crypto.{
  RootSecret, root_secret_from_global_secrets, derive_xfer_root_key, crypto_hmac_sha256,
}
use rutgers_2026_e_ctf_desig.SecureDesign.{get_root_secret}
use rutgers_2026_e_ctf_desig.BlobStore.{blank_entry}
use rutgers_2026_e_ctf_desig.Storage.{
  FatExt, decode_ext, ext_size, app2_base_address, ext_at, get_fat_entry, build_hmac_msg,
  derive_group_auth_key, metadata_hmac_of, counter, verify_file_metadata,
}
use rutgers_2026_e_ctf_desig.Storage.Counter.{IsExt, counter-verify}
use rutgers_2026_e_ctf_desig.Tests.Ideal.{ideal_flash, ideal_flash-IsFlash, erased}
use rutgers_2026_e_ctf_desig.Tests.Commands.{secrets}
use rutgers_2026_e_ctf_desig.Tests.Rounds.{ideal_erases}

-- The metadata of slot 2 on an erased flash: its counter wraps to 0.
abbrev root_of_device : RootSecret
root_of_device = elim (get_root_secret secrets.global_secrets) [
  | none ↦ record { k_master = [] }
  | some r ↦ r
]

has_root : get_root_secret secrets.global_secrets ≡ some root_of_device
unfolding get_root_secret root_secret_from_global_secrets
has_root = refl

abbrev group_key : Bytes
group_key = elim (derive_group_auth_key root_of_device 65535) [ none ↦ [] | some k ↦ k ]

abbrev before : FatExt
before =
    decode_ext (drop (2 * ext_size) (read_flash ideal_flash erased app2_base_address page_size))

before-IsExt : IsExt before
unfolding read_flash
before-IsExt = record {
  addr_fits = omega arith;
  group_fits = omega arith;
  perm_fits = omega arith;
  counter_fits = omega arith;
  hmac_sized = refl;
}

has_key : derive_group_auth_key root_of_device before.group_id ≡ some group_key
unfolding derive_group_auth_key derive_xfer_root_key get_root_secret root_secret_from_global_secrets
    read_flash hkdf_expand_sha256 compress
has_key = refl

blank_read : get_fat_entry ideal_flash 2 blank_entry erased ≡ blank_entry
unfolding get_fat_entry read_flash
blank_read = refl

same_address : before.file_addr ≡ blank_entry.flash_addr
unfolding read_flash
same_address = refl

abbrev counted : ℕ → ℕ
counted = (counter ideal_flash secrets.global_secrets 2 erased).1

counted_ok : counter ideal_flash secrets.global_secrets 2 erased ≡ (true, counted)
unfolding counter metadata_hmac_of derive_group_auth_key build_hmac_msg crypto_hmac_sha256
    derive_xfer_root_key get_root_secret root_secret_from_global_secrets hkdf_expand_sha256 compress
    hmac_sha256_raw
counted_ok = refl

writes_all : (n a : ℕ) (d : Bytes) (f : ℕ → ℕ) → (write_loop ideal_flash n a d f).0 ≡ true
unfolding write_loop chunk_size
writes_all zero a d f = refl
writes_all (suc n) a [] f = refl
writes_all (suc n) a (b ∷ bs) f = writes_all n _ _ _

ideal_writes : (a : ℕ) (d : Bytes) (f : ℕ → ℕ) → (write_flash ideal_flash a d f).0 ≡ true
unfolding write_flash
ideal_writes a d f = writes_all (length d) a d f

counter-verify_example :
    (verify_file_metadata ideal_flash 2 blank_entry group_key counted ≡ true)
    × ((ext_at ideal_flash counted 2).counter ≡ u32 (before.counter + 1))
counter-verify_example =
    counter-verify ideal_flash ideal_flash-IsFlash secrets.global_secrets 2 blank_entry erased
      before-IsExt ideal_erases ideal_writes has_root has_key blank_read same_address counted_ok
