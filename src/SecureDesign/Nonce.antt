-- ===== src/SecureDesign/Nonce.antt =====
-- What `security_generate_nonce` of firmware/src/secure_design.c draws.
use rutgers_2026_e_ctf_desig.Prelude.{
  ℕ, ◌≡◌, sym, ap, ◌∙◌, Option, none, some, List, Bytes, ◌==◌, Bool-cases, Option-cases, inl, inr,
  length,
}
use mathlib.Core.Option.{some-injective, none-ne-some}
use rutgers_2026_e_ctf_desig.Trng.{Capture, trng_read_bytes, trng_read_bytes-length}
use rutgers_2026_e_ctf_desig.SecureDesign.{generate_nonce}

-- A nonce has the length that was asked for.
pub generate_nonce-length :
    (cs cs' : List Capture) (n : ℕ) (nonce : Bytes)
    → generate_nonce cs n ≡ some (some nonce, cs')
    → length nonce ≡ n
unfolding generate_nonce
generate_nonce-length cs cs' n nonce e = elim (Bool-cases (n == 0)) [
  | inl zero_len ↦
      let r = some-injective (none, cs) (some nonce, cs') (sym (simp zero_len) ∙ e) in
      absurd (none-ne-some nonce (ap (λ (t : Option Bytes × List Capture). t.0) r))
  | inr some_len ↦ elim (Option-cases (trng_read_bytes cs n)) [
    | inl hangs ↦ absurd (none-ne-some (some nonce, cs') (sym (simp (some_len, hangs)) ∙ e))
    | inr ((b, cs1), drawn) ↦
        let r = some-injective (some b, cs1) (some nonce, cs') (sym (simp (some_len, drawn)) ∙ e) in
        let same = some-injective b nonce (ap (λ (t : Option Bytes × List Capture). t.0) r) in
        ap length (sym same) ∙ trng_read_bytes-length cs n drawn
  ]
]
