-- ===== src/Tests/Hashes.antt =====
-- The digests and signatures on short inputs.
use rutgers_2026_e_ctf_desig.Prelude.{
  ◌≡◌, ◌↔◌, refl, true, some, [], ◌∷◌, arith, Bytes, replicate, take,
}
use rutgers_2026_e_ctf_desig.Sha256.{sha256_raw}
use rutgers_2026_e_ctf_desig.Sha256.Compress.{compress}
use rutgers_2026_e_ctf_desig.Sha256.Digest.{sha256, sha256_raw_lem}
use rutgers_2026_e_ctf_desig.Sha256.Hmac.{hmac, hmac_sha256_raw, hmac_sha256_raw_lem}
use rutgers_2026_e_ctf_desig.Sha256.Hkdf.{
  hkdf_extract, hkdf_ts, hkdf_extract_sha256, hkdf_expand_sha256, hkdf_extract_lem, hkdf_expand_lem,
}
use rutgers_2026_e_ctf_desig.Crypto.{
  RootSecret, writer_sign, writer_verify, receive_proof_sign, receive_proof_verify,
}
use rutgers_2026_e_ctf_desig.Crypto.Sign.{writer_verify_iff, receive_proof_verify_iff}

abbrev abc : Bytes
abc = 97 ∷ 98 ∷ 99 ∷ []

-- The first bytes of the digest that FIPS 180-4 gives for "abc".
sha256_abc : take 4 (sha256_raw abc) ≡ 0xba ∷ 0x78 ∷ 0x16 ∷ 0xbf ∷ []
unfolding sha256_raw compress
sha256_abc = refl

sha256_raw_lem_example : sha256_raw abc ≡ sha256 abc
sha256_raw_lem_example = sha256_raw_lem abc

hmac_sha256_raw_lem_example : hmac_sha256_raw abc abc ≡ hmac abc abc
hmac_sha256_raw_lem_example = hmac_sha256_raw_lem abc abc (omega arith)

hkdf_extract_lem_example : hkdf_extract_sha256 [] abc ≡ hkdf_extract [] abc
hkdf_extract_lem_example = hkdf_extract_lem [] abc tt

hkdf_expand_lem_example : hkdf_expand_sha256 abc abc 40 ≡ take 40 (hkdf_ts abc abc 0 2)
hkdf_expand_lem_example = hkdf_expand_lem abc abc 40 2 (omega arith) (omega arith) (omega arith)

abbrev root : RootSecret
root = record { k_master = replicate 32 7 }

writer_verify_iff_example :
    (writer_verify root 5 abc (0 ∷ []) ≡ true) ↔ (writer_sign root 5 abc 32 ≡ some (0 ∷ []))
writer_verify_iff_example = writer_verify_iff root 5 abc (0 ∷ []) (omega arith)

receive_proof_verify_iff_example :
    (receive_proof_verify root 5 abc (0 ∷ []) ≡ true)
    ↔ (receive_proof_sign root 5 abc 32 ≡ some (0 ∷ []))
receive_proof_verify_iff_example = receive_proof_verify_iff root 5 abc (0 ∷ []) (omega arith)
