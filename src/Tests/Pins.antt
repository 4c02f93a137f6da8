-- ===== src/Tests/Pins.antt =====
-- The PIN on the ideal flash.
use rutgers_2026_e_ctf_desig.Prelude.{
  ℕ, ◌≡◌, ◌↔◌, refl, true, false, none, some, [], ◌∷◌, ◌++◌, arith, Bytes, take, replicate,
}
use rutgers_2026_e_ctf_desig.Sha256.Compress.{compress}
use rutgers_2026_e_ctf_desig.Sha256.Hmac.{hmac_sha256_raw}
use rutgers_2026_e_ctf_desig.Crypto.{
  root_secret_from_global_secrets, derive_pin_mac_key, crypto_hmac_sha256,
}
use rutgers_2026_e_ctf_desig.SecureDesign.{get_root_secret}
use rutgers_2026_e_ctf_desig.Flash.{erase_page, write_flash, read_flash}
use rutgers_2026_e_ctf_desig.Security.{
  Secrets, perm_read, PinState, compute_pin_hash, write_pin_state, load_pin_state, pin_init,
  hash_is_blank, check_pin, provisioned_len, pin_max_len, pin_change, pin_length,
  validate_permission,
}
use rutgers_2026_e_ctf_desig.Security.Attempts.{
  IsValid, IsAttempt, compute_pin_hash_sized, check_pin_iff, check_pin-IsAttempt, attempts,
  attempts-check_pin,
}
use rutgers_2026_e_ctf_desig.Security.Change.{pin_change-check_pin}
use rutgers_2026_e_ctf_desig.Security.Persist.{pin_init-write, pin_init-check_pin}
use rutgers_2026_e_ctf_desig.Security.Permissions.{IsGranted, validate_permission_iff}
use rutgers_2026_e_ctf_desig.Tests.Ideal.{ideal_flash, ideal_flash-IsFlash, erased}

abbrev pin : Bytes
pin = 49 ∷ 50 ∷ 51 ∷ 52 ∷ 53 ∷ 54 ∷ []

abbrev other_pin : Bytes
other_pin = 54 ∷ 53 ∷ 52 ∷ 51 ∷ 50 ∷ 49 ∷ []

abbrev device : Secrets
device = record {
  global_secrets = replicate 129 7;
  hsm_pin = pin ++ (0 ∷ []);
  permissions = record { group_id = 5; read = true; write = false; receive = true } ∷ [];
}

abbrev hash_of : Bytes → Bytes
hash_of p = elim (compute_pin_hash device p) [ none ↦ [] | some h ↦ h ]

pin_ok : compute_pin_hash device pin ≡ some (hash_of pin)
unfolding compute_pin_hash get_root_secret root_secret_from_global_secrets derive_pin_mac_key
    crypto_hmac_sha256
pin_ok = refl

other_ok : compute_pin_hash device other_pin ≡ some (hash_of other_pin)
unfolding compute_pin_hash get_root_secret root_secret_from_global_secrets derive_pin_mac_key
    crypto_hmac_sha256
other_ok = refl

abbrev with_pin : PinState (ℕ → ℕ)
with_pin = record {
  pin_hash = hash_of pin;
  fail_count = 2;
  initialized = true;
  delays = 0;
  flash = erased;
}

with_pin-IsValid : IsValid with_pin
with_pin-IsValid =
    let sized = compute_pin_hash_sized device pin pin_ok in
    record { sized = sized.0; bytes = sized.1; ready = refl }

check_pin_iff_example :
    ((check_pin ideal_flash device pin with_pin).0 ≡ true)
    ↔ (compute_pin_hash device (take pin_length pin) ≡ some with_pin.pin_hash)
check_pin_iff_example = check_pin_iff ideal_flash device pin with_pin with_pin-IsValid

attempts-check_pin_example :
    (check_pin ideal_flash device pin
      (attempts ideal_flash device (other_pin ∷ other_pin ∷ other_pin ∷ []) with_pin)).0
    ≡ true
attempts-check_pin_example =
    attempts-check_pin ideal_flash device (other_pin ∷ other_pin ∷ other_pin ∷ []) pin with_pin
      with_pin-IsValid pin_ok

check_pin-IsAttempt_example :
    let (accepted, s') = check_pin ideal_flash device other_pin with_pin in
    IsAttempt ideal_flash device with_pin s' accepted
check_pin-IsAttempt_example =
    check_pin-IsAttempt ideal_flash device other_pin with_pin with_pin-IsValid other_ok

pin_change-check_pin_example :
    let s' = (pin_change ideal_flash device pin other_pin with_pin).1 in
    (s'.fail_count ≡ 0)
    × (((check_pin ideal_flash device other_pin s').0 ≡ true)
        ↔ (compute_pin_hash device (take pin_length other_pin) ≡ compute_pin_hash device other_pin))
pin_change-check_pin_example =
    pin_change-check_pin ideal_flash device pin other_pin other_pin with_pin with_pin-IsValid refl
      refl pin_ok other_ok

abbrev saved : PinState (ℕ → ℕ)
saved = (write_pin_state ideal_flash with_pin).1

saved_ok : write_pin_state ideal_flash with_pin ≡ (true, saved)
unfolding write_pin_state erase_page write_flash compute_pin_hash get_root_secret
    root_secret_from_global_secrets derive_pin_mac_key crypto_hmac_sha256 hmac_sha256_raw compress
saved_ok = refl

not_blank : hash_is_blank (hash_of pin) ≡ false
unfolding hash_is_blank compute_pin_hash get_root_secret root_secret_from_global_secrets
    derive_pin_mac_key crypto_hmac_sha256 hmac_sha256_raw compress
not_blank = refl

abbrev off : PinState (ℕ → ℕ)
off = record { pin_hash = []; fail_count = 0; initialized = false; delays = 0; flash = saved.flash }

pin_init-write_example :
    pin_init ideal_flash device off
    ≡ (true, record off { pin_hash = hash_of pin; fail_count = 2; initialized = true })
pin_init-write_example =
    pin_init-write ideal_flash device with_pin off ideal_flash-IsFlash with_pin-IsValid.sized
      (omega arith) not_blank saved_ok refl

abbrev factory : PinState (ℕ → ℕ)
factory = record { pin_hash = []; fail_count = 0; initialized = false; delays = 0; flash = erased }

abbrev booted : PinState (ℕ → ℕ)
booted = (pin_init ideal_flash device factory).1

booted_ok : pin_init ideal_flash device factory ≡ (true, booted)
unfolding pin_init load_pin_state read_flash hash_is_blank write_pin_state erase_page write_flash
    compute_pin_hash get_root_secret root_secret_from_global_secrets derive_pin_mac_key
    crypto_hmac_sha256 hmac_sha256_raw compress
booted_ok = refl

blank_page : hash_is_blank (take 32 (read_flash ideal_flash erased 0x3A800 1024)) ≡ true
unfolding hash_is_blank read_flash
blank_page = refl

six : provisioned_len pin_max_len device.hsm_pin ≡ pin_length
unfolding provisioned_len
six = refl

pin_init-check_pin_example :
    IsValid booted
    × (booted.fail_count ≡ 0)
    × (((check_pin ideal_flash device pin booted).0 ≡ true) ↔ (
        compute_pin_hash device (take pin_length pin)
        ≡ compute_pin_hash device (take pin_length device.hsm_pin)))
pin_init-check_pin_example =
    pin_init-check_pin ideal_flash device pin factory blank_page six booted_ok

validate_permission_iff_example :
    (validate_permission device 5 perm_read ≡ true) ↔ IsGranted device.permissions 5 perm_read
validate_permission_iff_example = validate_permission_iff device 5 perm_read
