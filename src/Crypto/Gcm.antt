-- ===== src/Crypto/Gcm.antt =====
-- The AES-GCM wrappers of firmware/src/secure_crypto.c.
use rutgers_2026_e_ctf_desig.Prelude.{
  ℕ, ◌≤◌, ◌≡◌, sym, ◌∙◌, true, false, some, arith, Bytes, ltb, le→ltb, ◌==◌, ==_iff, length,
  Bool-cases, Option-cases, inl, inr,
}
use mathlib.Core.Option.{none-ne-some}
use rutgers_2026_e_ctf_desig.Crypto.{
  Aes, IsGcm, gcm_encrypt, gcm_decrypt, aes_gcm_encrypt, aes_gcm_decrypt, gcm_tag_size,
  gcm_nonce_size, derived_key_size,
}

module _ {C : Type 0} (aes : Aes C) (laws : IsGcm aes) where
  -- A success had arguments of the right sizes.
  encrypt-guards :
      (key nonce aad pt : Bytes) (tag_len : ℕ) {r : Bytes × Bytes}
      → aes_gcm_encrypt aes key nonce aad pt tag_len ≡ some r
      → ((length key == derived_key_size) ≡ true)
        × ((length nonce == gcm_nonce_size) ≡ true)
        × ((tag_len == gcm_tag_size) ≡ true)
        × (gcm_encrypt aes key nonce aad pt ≡ some r)
  unfolding aes_gcm_encrypt
  encrypt-guards key nonce aad pt tag_len {r} e =
      elim (Bool-cases (length key == derived_key_size)) [
        | inr bad ↦ absurd (none-ne-some r (sym (simp (aes_gcm_encrypt, bad)) ∙ e))
        | inl key_ok ↦ elim (Bool-cases (length nonce == gcm_nonce_size)) [
          | inr bad ↦ absurd (none-ne-some r (sym (simp (aes_gcm_encrypt, key_ok, bad)) ∙ e))
          | inl nonce_ok ↦ elim (Bool-cases (tag_len == gcm_tag_size)) [
            | inr bad ↦
                absurd (none-ne-some r (sym (simp (aes_gcm_encrypt, key_ok, nonce_ok, bad)) ∙ e))
            | inl tag_ok ↦ (
              key_ok,
              nonce_ok,
              tag_ok,
              sym (simp (aes_gcm_encrypt, key_ok, nonce_ok, tag_ok)) ∙ e,
            )
          ]
        ]
      ]

  -- The context that was used.
  gcm_encrypt-context :
      (key iv aad pt : Bytes) {r : Bytes × Bytes}
      → gcm_encrypt aes key iv aad pt ≡ some r
      → (k : C) × (aes.set_key key ≡ some k) × (aes.encrypt k pt iv aad ≡ some r)
  unfolding gcm_encrypt
  gcm_encrypt-context key iv aad pt {r} e = elim (Option-cases (aes.set_key key)) [
    | inl bad ↦ absurd (none-ne-some r (sym (simp (gcm_encrypt, bad)) ∙ e))
    | inr (k, set) ↦ (k, set, sym (simp (gcm_encrypt, set)) ∙ e)
  ]

  -- What was encrypted has the sizes of its parts, and is decrypted where it fits.
  pub aes_gcm_encrypt-decrypt :
      (key nonce aad pt : Bytes) (tag_len room : ℕ) {ct tag : Bytes}
      → aes_gcm_encrypt aes key nonce aad pt tag_len ≡ some (ct, tag)
      → length pt ≤ room
      → (length ct ≡ length pt)
        × (length tag ≡ gcm_tag_size)
        × (aes_gcm_decrypt aes key nonce aad ct tag room ≡ some pt)
  unfolding aes_gcm_decrypt gcm_decrypt
  aes_gcm_encrypt-decrypt key nonce aad pt tag_len room {ct} {tag} e fits =
      let (key_ok, nonce_ok, tag_ok, enc) = encrypt-guards key nonce aad pt tag_len e in
      let (k, set, made) = gcm_encrypt-context key nonce aad pt enc in
      let (ct_size, tag_size) = laws.sizes k pt nonce aad ct tag made in
      let opened = laws.opens k pt nonce aad ct tag made in
      let tag_fits : (length tag == gcm_tag_size) ≡ true = (==_iff (length tag) 16).1 tag_size in
      let room_ok : ltb room (length ct) ≡ false =
        le→ltb room (length ct) (omega (arith, ct_size)) in
      (
        ct_size,
        tag_size,
        simp (aes_gcm_decrypt, gcm_decrypt, key_ok, nonce_ok, tag_fits, room_ok, set, opened),
      )
