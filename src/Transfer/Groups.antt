-- ===== src/Transfer/Groups.antt =====
-- The groups of an interrogation (firmware/src/commands.c): what the asking module proves, and what
-- the other one lists for it.
use rutgers_2026_e_ctf_desig.Prelude.{
  ℕ, ◌+◌, ◌≤◌, ◌≡◌, refl, sym, ◌∙◌, Bool, true, false, none, some, List, [], ◌∷◌, ◌++◌, Bytes,
  arith, le16, lt→ltb, ◌==◌, Bool-cases, Option-cases, inl, inr, if◌then◌else◌, length,
}
use mathlib.Core.Option.{some-injective, none-ne-some}
use mathlib.Core.Path.{subst}
use rutgers_2026_e_ctf_desig.Crypto.{RootSecret, receive_proof_sign}
use rutgers_2026_e_ctf_desig.Crypto.Sign.{receive_proof_sign-verify}
use rutgers_2026_e_ctf_desig.Security.{GroupPermission}
use rutgers_2026_e_ctf_desig.Transfer.{GroupProof}
use rutgers_2026_e_ctf_desig.Transfer.Request.{sign_32, sign_groups}
use rutgers_2026_e_ctf_desig.Transfer.Listen.{proofs_ok, authorized}

-- Whether a permission of the list lets its group be received.
unfoldable pub receivable : List GroupPermission → ℕ → Bool
receivable [] group_id = false
receivable (e ∷ es) group_id =
    let rest = receivable es group_id in
    if e.receive then (if e.group_id == group_id then true else rest) else rest

sign_32-some :
    (root : RootSecret) (group_id : ℕ) (message : Bytes) {sig : Bytes}
    → sign_32 root group_id message ≡ some sig
    → receive_proof_sign root group_id message 32 ≡ some sig
unfolding sign_32
sign_32-some root group_id message {sig} e =
    elim (Option-cases (receive_proof_sign root group_id message 32)) [
      | inl failed ↦
          let bad : sign_32 root group_id message ≡ none = simp (sign_32, failed) in
          absurd (none-ne-some sig (sym bad ∙ e))
      | inr (s, signed) ↦ elim (Bool-cases (length s == 32)) [
        | inl sized ↦
            let good : sign_32 root group_id message ≡ some s = simp (sign_32, signed, sized) in
            signed ∙ (sym good ∙ e)
        | inr off ↦
            let bad : sign_32 root group_id message ≡ none = simp (sign_32, signed, off) in
            absurd (none-ne-some sig (sym bad ∙ e))
      ]
    ]

-- For at most eight permissions, what `interrogate` makes as proofs of a challenge passes the
-- signature test of `listen` for the same challenge and root secret, and lets `listen` show
-- exactly the groups that a permission lets the module receive.
pub sign_groups-proofs_ok :
    (root : RootSecret) (challenge : Bytes) (perms : List GroupPermission) (n : ℕ)
    {proofs : List GroupProof}
    → n + length perms ≤ 8
    → sign_groups root challenge perms n ≡ some proofs
    → (proofs_ok root challenge proofs ≡ true)
      × ((group_id : ℕ) → authorized proofs group_id ≡ receivable perms group_id)
unfolding sign_groups proofs_ok authorized receivable
sign_groups-proofs_ok root challenge [] n {proofs} h e =
    subst
      (λ (gs : List GroupProof).
        (proofs_ok root challenge gs ≡ true) × ((group_id : ℕ) → authorized gs group_id ≡ false))
      (some-injective [] proofs e) (refl, λ g. refl)
sign_groups-proofs_ok root challenge (p ∷ ps) n {proofs} h e =
    let message = challenge ++ le16 p.group_id in
    let room = lt→ltb n 8 (omega arith) in
    elim (Bool-cases p.receive) [
      | inr skipped ↦
          let (ok, same) =
            sign_groups-proofs_ok root challenge ps n {proofs = proofs} (omega arith)
              (sym (simp skipped) ∙ e) in
          (ok, λ g. simp skipped (same g))
      | inl granted ↦ elim (Option-cases (sign_32 root p.group_id message)) [
        | inl bad ↦ absurd (none-ne-some proofs (sym (simp (granted, room, bad)) ∙ e))
        | inr (sig, signed) ↦ elim (Option-cases (sign_groups root challenge ps (n + 1))) [
          | inl bad ↦ absurd (none-ne-some proofs (sym (simp (granted, room, signed, bad)) ∙ e))
          | inr (gs, more) ↦
              let first : GroupProof = record { group_id = p.group_id; proof = sig } in
              let (ok, same) =
                sign_groups-proofs_ok root challenge ps (n + 1) {proofs = gs} (omega arith) more in
              let verified =
                receive_proof_sign-verify root p.group_id message
                  (sign_32-some root p.group_id message signed) in
              let built : some (first ∷ gs) ≡ some proofs =
                sym (simp (granted, room, signed, more)) ∙ e in
              subst
                (λ (t : List GroupProof).
                  (proofs_ok root challenge t ≡ true)
                  × ((group_id : ℕ) → authorized t group_id ≡ receivable (p ∷ ps) group_id))
                (some-injective (first ∷ gs) proofs built)
                (simp verified ok, λ g. simp (granted, same g))
        ]
      ]
    ]
