-- ===== src/Security.antt =====
-- firmware/src/security.c: the PIN state in RAM and flash, and the provisioned permissions. What
-- the build generates into secrets.h is the parameter `Secrets`.
pub mod Attempts
pub mod Repeat
pub mod Persist
pub mod Change
pub mod Permissions
use rutgers_2026_e_ctf_desig.Prelude.{
  ℕ, zero, suc, ◌+◌, ◌-◌, Bool, true, false, ◌&&◌, not, Option, none, some, List, [], ◌∷◌, Bytes,
  byte_at, u32, le32, load32, splice, ltb, ◌==◌, if◌then◌else◌, length, take, drop, replicate,
}
use rutgers_2026_e_ctf_desig.Flash.{FlashCtl, erase_page, read_flash, write_flash}
use rutgers_2026_e_ctf_desig.Crypto.{
  RootSecret, derive_pin_mac_key, crypto_hmac_sha256, diff_bytes, derived_key_size,
}
use rutgers_2026_e_ctf_desig.SecureDesign.{get_root_secret}

-- `group_permission_t`
pub record GroupPermission : Type 0 where
  pub group_id : ℕ
  pub read : Bool
  pub write : Bool
  pub receive : Bool

-- secrets.h: `GLOBAL_SECRETS`, the characters of `HSM_PIN`, and `global_permissions[MAX_PERMS]`.
pub record Secrets : Type 0 where
  pub global_secrets : Bytes
  pub hsm_pin : Bytes
  pub permissions : List GroupPermission

-- `permission_enum_t`
pub data Permission : Type 0 where
  perm_read perm_write perm_receive : Permission

abbrev pub granted : Permission → GroupPermission → Bool
granted perm_read e = e.read
granted perm_write e = e.write
granted perm_receive e = e.receive

unfoldable pub permission_scan : List GroupPermission → ℕ → Permission → Bool
permission_scan [] group_id perm = false
permission_scan (e ∷ es) group_id perm =
    let rest = permission_scan es group_id perm in
    if e.group_id == group_id then granted perm e else rest

-- `validate_permission`
unfoldable pub validate_permission : Secrets → ℕ → Permission → Bool
unfolding permission_scan
validate_permission secrets group_id perm = permission_scan secrets.permissions group_id perm

abbrev pub pin_state_flash_addr : ℕ
pin_state_flash_addr = 0x3A800

abbrev pub pin_length : ℕ
pin_length = 6

abbrev pub pin_max_len : ℕ
pin_max_len = 20

-- `g_pin_hash`, `g_fail_count` and `g_initialized`, and the flash. `delays` counts the runs of
-- `fail_delay`, which only waits.
pub record PinState (F : Type 0) : Type 0 where
  pub pin_hash : Bytes
  pub fail_count : ℕ
  pub initialized : Bool
  pub delays : ℕ
  pub flash : F

-- `compute_pin_hash`
unfoldable pub compute_pin_hash : Secrets → Bytes → Option Bytes
compute_pin_hash secrets pin = elim (get_root_secret secrets.global_secrets) [
  | none ↦ none
  | some root ↦ elim (derive_pin_mac_key root derived_key_size) [
    | none ↦ none
    | some k_pin ↦ crypto_hmac_sha256 k_pin pin 32
  ]
]

-- `get_pin_hash`
unfoldable pub get_pin_hash : Secrets → Bytes → Option Bytes
get_pin_hash secrets pin =
    if ltb (length pin) pin_length
    then none
    else if ltb pin_max_len (length pin)
    then none
    else compute_pin_hash secrets pin

-- The page that `write_pin_state` builds.
abbrev pub pin_page : Bytes → ℕ → Bytes
pin_page hash fail_count = splice (splice (replicate 1024 255) 0 hash) 32 (le32 fail_count)

-- `pin_hash_is_blank`
unfoldable pub hash_is_blank : Bytes → Bool
hash_is_blank [] = true
hash_is_blank (b ∷ bs) = let rest = hash_is_blank bs in if b == 255 then rest else false

-- The scan of `HSM_PIN` for its terminator, with the rounds that are left.
unfoldable pub provisioned_len : ℕ → Bytes → ℕ
provisioned_len zero p = 0
provisioned_len (suc n) [] = 0
provisioned_len (suc n) (b ∷ bs) = let rest = provisioned_len n bs in if b == 0 then 0 else suc rest

-- The two tests on a length in `pin_change`.
abbrev pub pin_len_ok : ℕ → Bool
pin_len_ok n = if ltb n pin_length then false else not (ltb pin_max_len n)

-- `pin_is_locked`
unfoldable pub pin_is_locked : Bool
pin_is_locked = false

module _ {F : Type 0} (c : FlashCtl F) where
  -- `write_pin_state`; the Boolean is a return of 0.
  unfoldable pub write_pin_state : PinState F → Bool × PinState F
  write_pin_state s =
      let page = pin_page s.pin_hash s.fail_count in
      let (erased, f1) = erase_page c pin_state_flash_addr s.flash in
      let (written, f2) = write_flash c pin_state_flash_addr page f1 in
      if erased
      then (if written then (true, record s { flash = f2 }) else (false, record s { flash = f2 }))
      else (false, record s { flash = f1 })

  -- `load_pin_state`. The bytes of the counter do not overlap, so `|` is a sum.
  unfoldable pub load_pin_state : PinState F → PinState F
  load_pin_state s =
      let page = read_flash c s.flash pin_state_flash_addr 1024 in
      let count = load32 page 32 in
      record s { pin_hash = take 32 page; fail_count = if count == 0xFFFFFFFF then 0 else count }

  -- What a wrong PIN costs: the counter in RAM and flash, and the delay.
  unfoldable pub count_failure : PinState F → PinState F
  unfolding write_pin_state
  count_failure s =
      let s1 = (write_pin_state (record s { fail_count = u32 (s.fail_count + 1) })).1 in
      record s1 { delays = s1.delays + 1 }

module _ {F : Type 0} (c : FlashCtl F) (secrets : Secrets) where
  -- `pin_init` behind its load.
  pin_provision : PinState F → Bool × PinState F
  unfolding hash_is_blank provisioned_len write_pin_state
  pin_provision s =
      let plen = provisioned_len pin_max_len secrets.hsm_pin in
      if hash_is_blank s.pin_hash
      then if ltb plen pin_length
        then (false, s)
        else elim (compute_pin_hash secrets (take plen secrets.hsm_pin)) [
          | none ↦ (false, s)
          | some h ↦
              let (written, s1) = write_pin_state c (record s { pin_hash = h; fail_count = 0 }) in
              if written then (true, record s1 { initialized = true }) else (false, s1)
        ]
      else (true, record s { initialized = true })

  -- `pin_init`
  unfoldable pub pin_init : PinState F → Bool × PinState F
  unfolding load_pin_state pin_provision
  pin_init s = pin_provision (load_pin_state c s)

  -- `check_pin`. The differences are collected as in `hmac_verify_digest`.
  unfoldable pub check_pin : Bytes → PinState F → Bool × PinState F
  unfolding write_pin_state count_failure
  check_pin pin s =
      if s.initialized
      then elim (compute_pin_hash secrets (take pin_length pin)) [
        | none ↦ (false, s)
        | some candidate ↦
            if diff_bytes 0 candidate s.pin_hash == 0
            then if s.fail_count == 0
              then (true, s)
              else (true, (write_pin_state c (record s { fail_count = 0 })).1)
            else (false, count_failure c s)
      ]
      else (false, s)

  -- `pin_change`; the Boolean is a return of 0.
  unfoldable pub pin_change : Bytes → Bytes → PinState F → Bool × PinState F
  unfolding write_pin_state count_failure
  pin_change old_pin new_pin s =
      if s.initialized
      then if pin_len_ok (length old_pin)
        then if pin_len_ok (length new_pin)
          then elim (compute_pin_hash secrets old_pin) [
            | none ↦ (false, s)
            | some candidate ↦
                if diff_bytes 0 candidate s.pin_hash == 0
                then elim (compute_pin_hash secrets new_pin) [
                  | none ↦ (false, s)
                  | some h ↦ write_pin_state c (record s { pin_hash = h; fail_count = 0 })
                ]
                else (false, count_failure c s)
          ]
          else (false, s)
        else (false, s)
      else (false, s)
