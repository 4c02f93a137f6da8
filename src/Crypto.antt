-- ===== src/Crypto.antt =====
-- firmware/src/secure_crypto.c: key derivation, the AES-GCM wrappers over wolfSSL, and the HMAC
-- signatures. An output buffer is a result, `none` is `false`, and static scratch is a local value.
pub mod Sign
pub mod Gcm
use rutgers_2026_e_ctf_desig.Prelude.{
  ℕ, zero, suc, ◌+◌, ◌*◌, ◌/◌, ◌%◌, ◌^◌, bit_or, bit_xor, Bool, true, false, Option, none, some, [],
  ◌∷◌, ◌++◌, ◌≡◌, Bytes, byte_at, u8, ltb, ◌==◌, if◌then◌else◌, length, take, drop, replicate, le32,
}
use mathlib.Core.Option
use rutgers_2026_e_ctf_desig.Sha256.{sha256_raw}
use rutgers_2026_e_ctf_desig.Sha256.Hmac.{hmac_sha256_raw}
use rutgers_2026_e_ctf_desig.Sha256.Hkdf.{hkdf_extract_sha256, hkdf_expand_sha256}

abbrev pub derived_key_size : ℕ
derived_key_size = 32

abbrev pub gcm_tag_size : ℕ
gcm_tag_size = 16

abbrev pub gcm_nonce_size : ℕ
gcm_nonce_size = 12

abbrev pub hmac_size : ℕ
hmac_size = 32

abbrev label_group_root : Bytes
label_group_root = b'g' ∷ b'r' ∷ b'o' ∷ b'u' ∷ b'p' ∷ b'_' ∷ b'r' ∷ b'o' ∷ b'o' ∷ b't' ∷ []

abbrev label_file_enc : Bytes
label_file_enc = b'f' ∷ b'i' ∷ b'l' ∷ b'e' ∷ b'_' ∷ b'e' ∷ b'n' ∷ b'c' ∷ b'_' ∷ b'v' ∷ b'1' ∷ []

abbrev label_xfer_root : Bytes
label_xfer_root =
    b'x' ∷ b'f' ∷ b'e' ∷ b'r' ∷ b'_' ∷ b'r' ∷ b'o' ∷ b'o' ∷ b't' ∷ b'_' ∷ b'v' ∷ b'1' ∷ []

abbrev label_pin_mac : Bytes
label_pin_mac = b'p' ∷ b'i' ∷ b'n' ∷ b'_' ∷ b'm' ∷ b'a' ∷ b'c' ∷ b'_' ∷ b'v' ∷ b'1' ∷ []

abbrev label_writer_seed : Bytes
label_writer_seed =
    b'w' ∷ b'r' ∷ b'i' ∷ b't' ∷ b'e' ∷ b'r' ∷ b'_' ∷ b's' ∷ b'i' ∷ b'g' ∷ b'n' ∷ b'_' ∷ b's' ∷ b'e'
    ∷ b'e' ∷ b'd' ∷ b'_' ∷ b'v' ∷ b'1' ∷ []

abbrev label_recv_seed : Bytes
label_recv_seed =
    b'r' ∷ b'e' ∷ b'c' ∷ b'v' ∷ b'_' ∷ b's' ∷ b'i' ∷ b'g' ∷ b'n' ∷ b'_' ∷ b's' ∷ b'e' ∷ b'e' ∷ b'd'
    ∷ b'_' ∷ b'v' ∷ b'1' ∷ []

abbrev label_blob_chunk : Bytes
label_blob_chunk =
    b'b' ∷ b'l' ∷ b'o' ∷ b'b' ∷ b'_' ∷ b'c' ∷ b'h' ∷ b'u' ∷ b'n' ∷ b'k' ∷ b'_' ∷ b'v' ∷ b'1' ∷ []

-- wolfSSL, on a context `C`: `wc_AesGcmSetKey`; `wc_AesGcmEncrypt` of a plaintext under an IV and
-- associated data, to the ciphertext and the tag; `wc_AesGcmDecrypt` of a ciphertext under an IV,
-- a tag and associated data. `none` is a return code other than 0.
pub record Aes (C : Type 0) : Type 0 where
  pub set_key : Bytes → Option C
  pub encrypt : C → Bytes → Bytes → Bytes → Option (Bytes × Bytes)
  pub decrypt : C → Bytes → Bytes → Bytes → Bytes → Option Bytes

-- What wolfSSL documents of AES-GCM: the ciphertext is as long as the plaintext, the tag has the
-- size that is asked for, and what was encrypted decrypts under the same key, IV and data.
pub record IsGcm {C : Type 0} (aes : Aes C) : Type 0 where
  pub sizes :
      (k : C) (pt iv aad ct tag : Bytes)
      → aes.encrypt k pt iv aad ≡ some (ct, tag)
      → (length ct ≡ length pt) × (length tag ≡ gcm_tag_size)
  pub opens :
      (k : C) (pt iv aad ct tag : Bytes)
      → aes.encrypt k pt iv aad ≡ some (ct, tag)
      → aes.decrypt k ct iv tag aad ≡ some pt

-- `secure_crypto_root_secret_t`
pub record RootSecret : Type 0 where
  pub k_master : Bytes

-- `secure_crypto_ecc_material_t`
pub record Material : Type 0 where
  pub sign_key : Bytes

-- `derive_key`
derive_key : Bytes → Bytes → ℕ → Option Bytes
derive_key master label out_len =
    if out_len == 0
    then none
    else some (hkdf_expand_sha256 (hkdf_extract_sha256 [] master) label out_len)

-- `hmac_sha256`
hmac_sha256 : Bytes → Bytes → Option Bytes
hmac_sha256 key msg = some (hmac_sha256_raw key msg)

-- `derive_group_key`
derive_group_key : RootSecret → ℕ → Option Bytes
derive_group_key root group_id =
    let salt : Bytes = group_id % 256 ∷ group_id / 256 % 256 ∷ [] in
    some (
      hkdf_expand_sha256 (hkdf_extract_sha256 salt root.k_master) label_group_root derived_key_size)

-- `derive_group_subkey`
derive_group_subkey : RootSecret → ℕ → Bytes → ℕ → Option Bytes
unfolding derive_key derive_group_key
derive_group_subkey root group_id label out_len =
    if out_len == 0 then none else elim (derive_group_key root group_id) [
      | none ↦ none
      | some key ↦ derive_key key label out_len
    ]

-- `secure_crypto_root_secret_from_global_secrets`: K_master lies behind the ECC key pair.
unfoldable pub root_secret_from_global_secrets : Bytes → Option RootSecret
root_secret_from_global_secrets secrets =
    if ltb (length secrets) 129
    then none
    else some (record { k_master = take derived_key_size (drop 97 secrets) })

-- `secure_crypto_derive_file_enc_key`
unfoldable pub derive_file_enc_key : RootSecret → ℕ → ℕ → Option Bytes
unfolding derive_group_subkey
derive_file_enc_key root group_id out_len =
    if out_len == 0 then none else derive_group_subkey root group_id label_file_enc out_len

-- `secure_crypto_derive_xfer_root_key`
unfoldable pub derive_xfer_root_key : RootSecret → ℕ → ℕ → Option Bytes
unfolding derive_group_subkey
derive_xfer_root_key root group_id out_len =
    if out_len == 0 then none else derive_group_subkey root group_id label_xfer_root out_len

-- `secure_crypto_derive_pin_mac_key`
unfoldable pub derive_pin_mac_key : RootSecret → ℕ → Option Bytes
unfolding hmac_sha256
derive_pin_mac_key root out_len =
    if out_len == hmac_size then hmac_sha256 root.k_master label_pin_mac else none

-- `secure_crypto_derive_writer_seed`
derive_writer_seed : RootSecret → ℕ → ℕ → Option Bytes
unfolding derive_group_subkey
derive_writer_seed root group_id out_len =
    if out_len == 0 then none else derive_group_subkey root group_id label_writer_seed out_len

-- `secure_crypto_derive_recv_seed`
derive_recv_seed : RootSecret → ℕ → ℕ → Option Bytes
unfolding derive_group_subkey
derive_recv_seed root group_id out_len =
    if out_len == 0 then none else derive_group_subkey root group_id label_recv_seed out_len

-- `secure_crypto_derive_writer_keypair`
derive_writer_keypair : RootSecret → ℕ → Option Material
unfolding derive_writer_seed
derive_writer_keypair root group_id =
    Option.map (λ k. record { sign_key = k }) (derive_writer_seed root group_id derived_key_size)

-- `secure_crypto_derive_recv_keypair`
derive_recv_keypair : RootSecret → ℕ → Option Material
unfolding derive_recv_seed
derive_recv_keypair root group_id =
    Option.map (λ k. record { sign_key = k }) (derive_recv_seed root group_id derived_key_size)

-- `secure_crypto_sha256`
unfoldable pub crypto_sha256 : Bytes → ℕ → Option Bytes
crypto_sha256 message digest_len = if digest_len == 32 then some (sha256_raw message) else none

-- `secure_crypto_hmac_sha256`
unfoldable pub crypto_hmac_sha256 : Bytes → Bytes → ℕ → Option Bytes
unfolding hmac_sha256
crypto_hmac_sha256 key message mac_len =
    if mac_len == hmac_size then hmac_sha256 key message else none

-- `secure_crypto_derive_chunk_key`
unfoldable pub derive_chunk_key : Bytes → ℕ → ℕ → Option Bytes
derive_chunk_key master_key chunk_idx out_len =
    if out_len == 0
    then none
    else some (hkdf_expand_sha256 master_key (label_blob_chunk ++ le32 chunk_idx) out_len)

module _ {C : Type 0} (aes : Aes C) where
  -- `aes_gcm_encrypt`
  gcm_encrypt : Bytes → Bytes → Bytes → Bytes → Option (Bytes × Bytes)
  gcm_encrypt key iv aad pt = elim (aes.set_key key) [
    | none ↦ none
    | some k ↦ aes.encrypt k pt iv aad
  ]

  -- `aes_gcm_decrypt`; on a failure the output is cleared.
  gcm_decrypt : Bytes → Bytes → Bytes → Bytes → Bytes → Option Bytes
  gcm_decrypt key iv aad ct tag = elim (aes.set_key key) [
    | none ↦ none
    | some k ↦ aes.decrypt k ct iv tag aad
  ]

  -- `secure_crypto_aes_gcm_encrypt`: the ciphertext and the tag.
  unfoldable pub aes_gcm_encrypt : Bytes → Bytes → Bytes → Bytes → ℕ → Option (Bytes × Bytes)
  unfolding gcm_encrypt
  aes_gcm_encrypt key nonce aad pt tag_len =
      if length key == derived_key_size
      then if length nonce == gcm_nonce_size
        then (if tag_len == gcm_tag_size then gcm_encrypt key nonce aad pt else none)
        else none
      else none

  -- `secure_crypto_aes_gcm_decrypt`
  unfoldable pub aes_gcm_decrypt : Bytes → Bytes → Bytes → Bytes → Bytes → ℕ → Option Bytes
  unfolding gcm_decrypt
  aes_gcm_decrypt key nonce aad ct tag pt_out_len =
      if length key == derived_key_size
      then if length nonce == gcm_nonce_size
        then if length tag == gcm_tag_size
          then (if ltb pt_out_len (length ct) then none else gcm_decrypt key nonce aad ct tag)
          else none
        else none
      else none

-- `hmac_sign_digest`, into a buffer of `room` bytes.
sign_digest : Material → Bytes → ℕ → Option Bytes
unfolding hmac_sha256
sign_digest material digest room =
    if ltb room 32 then none else hmac_sha256 material.sign_key digest

-- The loop that collects the differences: `diff |= expected[i] ^ signature[i]`.
unfoldable pub diff_bytes : ℕ → Bytes → Bytes → ℕ
diff_bytes diff [] ys = diff
diff_bytes diff (x ∷ xs) [] = diff
diff_bytes diff (x ∷ xs) (y ∷ ys) = diff_bytes (bit_or diff (u8 (bit_xor x y))) xs ys

-- `hmac_verify_digest`
verify_digest : Material → Bytes → Bytes → Bool
unfolding hmac_sha256 diff_bytes
verify_digest material digest signature =
    if length signature == 32
    then elim (hmac_sha256 material.sign_key digest) [
      | none ↦ false
      | some mac ↦ diff_bytes 0 mac signature == 0
    ]
    else false

-- `secure_crypto_writer_sign`
unfoldable pub writer_sign : RootSecret → ℕ → Bytes → ℕ → Option Bytes
unfolding derive_writer_keypair sign_digest
writer_sign root group_id message room = elim (derive_writer_keypair root group_id) [
  | none ↦ none
  | some material ↦ sign_digest material (sha256_raw message) room
]

-- `secure_crypto_writer_verify`
unfoldable pub writer_verify : RootSecret → ℕ → Bytes → Bytes → Bool
unfolding derive_writer_keypair verify_digest
writer_verify root group_id message signature = elim (derive_writer_keypair root group_id) [
  | none ↦ false
  | some material ↦ verify_digest material (sha256_raw message) signature
]

-- `secure_crypto_receive_proof_sign`
unfoldable pub receive_proof_sign : RootSecret → ℕ → Bytes → ℕ → Option Bytes
unfolding derive_recv_keypair sign_digest
receive_proof_sign root group_id message room = elim (derive_recv_keypair root group_id) [
  | none ↦ none
  | some material ↦ sign_digest material (sha256_raw message) room
]

-- `secure_crypto_receive_proof_verify`
unfoldable pub receive_proof_verify : RootSecret → ℕ → Bytes → Bytes → Bool
unfolding derive_recv_keypair verify_digest
receive_proof_verify root group_id message signature = elim (derive_recv_keypair root group_id) [
  | none ↦ false
  | some material ↦ verify_digest material (sha256_raw message) signature
]
