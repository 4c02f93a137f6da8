-- ===== src/Crypto/Sign.antt =====
-- The signatures of firmware/src/secure_crypto.c: the verifier accepts the signer's tag and no other.
use rutgers_2026_e_ctf_desig.Prelude.{
  ℕ, ◌≡◌, ◌↔◌, refl, sym, ap, ap₂, ◌∙◌, true, some, [], ◌∷◌, arith, Bytes, IsBytes, u8, bit_or,
  bit_xor, ◌==◌, ==_iff, Bool-cases, inl, inr, length,
}
use mathlib.Core.Bool.{false≢true}
use mathlib.Core.Path.{subst}
use rutgers_2026_e_ctf_desig.Prelude.Bits.{bit_or-zero, bit_xor-zero, bit_xor_self, bit_xor-lt}
use rutgers_2026_e_ctf_desig.Sha256.Hmac.{
  hmac_sha256_raw, length-hmac_sha256_raw, hmac_sha256_raw-IsBytes,
}
use rutgers_2026_e_ctf_desig.Crypto.{
  RootSecret, Material, diff_bytes, sign_digest, verify_digest, writer_sign, writer_verify,
  receive_proof_sign, receive_proof_verify,
}

diff_bytes_self : (xs : Bytes) → diff_bytes 0 xs xs ≡ 0
unfolding diff_bytes
diff_bytes_self [] = refl
diff_bytes_self (x ∷ xs) =
    ap (λ (d : ℕ). diff_bytes (bit_or 0 (u8 d)) xs xs) (bit_xor_self x) ∙ diff_bytes_self xs

-- The collected difference of two byte strings of one length is zero only if they are equal.
pub diff_bytes-zero :
    (d : ℕ) (xs ys : Bytes)
    → IsBytes xs
    → IsBytes ys
    → length xs ≡ length ys
    → diff_bytes d xs ys ≡ 0
    → (d ≡ 0) × (xs ≡ ys)
unfolding diff_bytes
diff_bytes-zero d [] [] bx by e h = (h, refl)
diff_bytes-zero d [] (y ∷ ys) bx by e h = absurd (omega arith)
diff_bytes-zero d (x ∷ xs) [] bx by e h = absurd (omega arith)
diff_bytes-zero d (x ∷ xs) (y ∷ ys) bx by e h =
    let ih = diff_bytes-zero (bit_or d (u8 (bit_xor x y))) xs ys bx.1 by.1 (omega arith) h in
    let zeros = bit_or-zero d (u8 (bit_xor x y)) ih.0 in
    let same : x ≡ y = bit_xor-zero x y (omega (arith, zeros.1, bit_xor-lt 8 x y bx.0 by.0)) in
    (zeros.0, ap₂ ◌∷◌ same ih.1)

pub diff_bytes_iff :
    (xs ys : Bytes)
    → IsBytes xs
    → IsBytes ys
    → length xs ≡ length ys
    → ((diff_bytes 0 xs ys == 0) ≡ true) ↔ (xs ≡ ys)
diff_bytes_iff xs ys bx by e = (
  λ h. (diff_bytes-zero 0 xs ys bx by e ((==_iff (diff_bytes 0 xs ys) 0).0 h)).1,
  λ h.
      (==_iff (diff_bytes 0 xs ys) 0).1
        (ap (λ (z : Bytes). diff_bytes 0 xs z) (sym h) ∙ diff_bytes_self xs),
)

verify_digest_iff :
    (m : Material) (digest signature : Bytes)
    → IsBytes signature
    → (verify_digest m digest signature ≡ true) ↔ (sign_digest m digest 32 ≡ some signature)
unfolding verify_digest sign_digest
verify_digest_iff m digest signature b = (
  λ h. elim (Bool-cases (length signature == 32)) [
    | inl fits ↦
        ap some ((same (length_mac ∙ sym ((==_iff (length signature) 32).0 fits))).0 (rw fits at h))
    | inr off ↦ absurd (false≢true (rw off at h))
  ],
  λ h.
      let e : mac ≡ signature = cc h in
      let fits : (length signature == 32) ≡ true =
        (==_iff (length signature) 32).1 (ap length (sym e) ∙ length_mac) in
      rw fits ((same (ap length e)).1 e),
)
  where
    mac : Bytes
    mac = hmac_sha256_raw m.sign_key digest

    length_mac : length mac ≡ 32
    length_mac = length-hmac_sha256_raw m.sign_key digest

    same :
        length mac ≡ length signature
        → ((diff_bytes 0 mac signature == 0) ≡ true) ↔ (mac ≡ signature)
    same = diff_bytes_iff mac signature (hmac_sha256_raw-IsBytes m.sign_key digest) b

-- For a signature of bytes, `secure_crypto_receive_proof_verify` accepts exactly what
-- `secure_crypto_receive_proof_sign` makes of the same message under the same root secret and
-- group.
pub receive_proof_verify_iff :
    (root : RootSecret) (group_id : ℕ) (message signature : Bytes)
    → IsBytes signature
    → (receive_proof_verify root group_id message signature ≡ true)
      ↔ (receive_proof_sign root group_id message 32 ≡ some signature)
unfolding receive_proof_verify receive_proof_sign
receive_proof_verify_iff root group_id message signature b = verify_digest_iff _ _ signature b

-- For a signature of bytes, `secure_crypto_writer_verify` accepts exactly what
-- `secure_crypto_writer_sign` makes of the same message under the same root secret and group.
pub writer_verify_iff :
    (root : RootSecret) (group_id : ℕ) (message signature : Bytes)
    → IsBytes signature
    → (writer_verify root group_id message signature ≡ true)
      ↔ (writer_sign root group_id message 32 ≡ some signature)
unfolding writer_verify writer_sign
writer_verify_iff root group_id message signature b = verify_digest_iff _ _ signature b

sign_digest-IsBytes :
    (m : Material) (digest : Bytes) {sig : Bytes} → sign_digest m digest 32 ≡ some sig → IsBytes sig
unfolding sign_digest
sign_digest-IsBytes m digest {sig} e =
    let same : hmac_sha256_raw m.sign_key digest ≡ sig = cc e in
    subst IsBytes same (hmac_sha256_raw-IsBytes m.sign_key digest)

-- What is signed is accepted.
pub receive_proof_sign-verify :
    (root : RootSecret) (group_id : ℕ) (message : Bytes) {sig : Bytes}
    → receive_proof_sign root group_id message 32 ≡ some sig
    → receive_proof_verify root group_id message sig ≡ true
unfolding receive_proof_verify receive_proof_sign
receive_proof_sign-verify root group_id message {sig} e =
    (verify_digest_iff _ _ sig (sign_digest-IsBytes _ _ e)).1 e
