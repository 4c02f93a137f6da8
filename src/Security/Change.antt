-- ===== src/Security/Change.antt =====
-- What `pin_change` of firmware/src/security.c does.
use rutgers_2026_e_ctf_desig.Prelude.{
  ◌≡◌, ◌≢◌, ◌↔◌, ◌⊎◌, refl, sym, ap, ◌∙◌, true, false, true≢false, some, Bytes, ◌==◌, length, take,
  Bool-cases, inl, inr,
}
use rutgers_2026_e_ctf_desig.Flash.{FlashCtl}
use rutgers_2026_e_ctf_desig.Crypto.{diff_bytes}
use rutgers_2026_e_ctf_desig.Security.{
  Secrets, PinState, compute_pin_hash, write_pin_state, count_failure, check_pin, pin_change,
  pin_length, pin_len_ok,
}
use rutgers_2026_e_ctf_desig.Security.Attempts.{
  IsValid, same_hash, write_pin_state-IsSameRam, check_pin_iff, compute_pin_hash_sized,
}

module _ {F : Type 0} (c : FlashCtl F) (secrets : Secrets) where
  -- The branches of `pin_change` behind its guards.
  pin_change-bad_length :
      (old new : Bytes) (s : PinState F)
      → (pin_len_ok (length old) ≡ false) ⊎ (pin_len_ok (length new) ≡ false)
      → pin_change c secrets old new s ≡ (false, s)
  unfolding pin_change
  pin_change-bad_length old new s bad = elim (Bool-cases s.initialized) [
    | inr off ↦ simp off
    | inl on ↦ elim (Bool-cases (pin_len_ok (length old))) [
      | inr short ↦ simp (on, short)
      | inl fits ↦ elim bad [
        | inl e ↦ absurd (true≢false (sym fits ∙ e))
        | inr e ↦ simp (on, fits, e)
      ]
    ]
  ]

  pin_change-wrong :
      (old new : Bytes) (s : PinState F) {h : Bytes}
      → IsValid s
      → pin_len_ok (length old) ≡ true
      → pin_len_ok (length new) ≡ true
      → compute_pin_hash secrets old ≡ some h
      → h ≢ s.pin_hash
      → pin_change c secrets old new s ≡ (false, count_failure c s)
  unfolding pin_change
  pin_change-wrong old new s {h} v fits_old fits_new has ne =
      elim (Bool-cases (diff_bytes 0 h s.pin_hash == 0)) [
        | inl same ↦ absurd (ne ((same_hash c secrets old s v has).0 same))
        | inr other ↦ simp (v.ready, fits_old, fits_new, has, other)
      ]

  pin_change-right :
      (old new : Bytes) (s : PinState F) {h : Bytes}
      → IsValid s
      → pin_len_ok (length old) ≡ true
      → pin_len_ok (length new) ≡ true
      → compute_pin_hash secrets old ≡ some s.pin_hash
      → compute_pin_hash secrets new ≡ some h
      → pin_change c secrets old new s
        ≡ write_pin_state c (record s { pin_hash = h; fail_count = 0 })
  unfolding pin_change
  pin_change-right old new s v fits_old fits_new has has_new =
      let same = (same_hash c secrets old s v has).1 refl in
      simp (v.ready, fits_old, fits_new, has, same, has_new)

  -- On an initialised PIN state with a hash of 32 bytes, after a `pin_change` with two PINs of
  -- allowed length whose hashes can be computed and of which the old one has the stored hash,
  -- whether or not the flash took it, the counter is 0 and `check_pin` accepts exactly the PINs
  -- whose first six bytes have the hash of the whole new PIN.
  pub pin_change-check_pin :
      (old new pin : Bytes) (s : PinState F) {h : Bytes}
      → IsValid s
      → pin_len_ok (length old) ≡ true
      → pin_len_ok (length new) ≡ true
      → compute_pin_hash secrets old ≡ some s.pin_hash
      → compute_pin_hash secrets new ≡ some h
      → let s' = (pin_change c secrets old new s).1 in
        (s'.fail_count ≡ 0)
        × (((check_pin c secrets pin s').0 ≡ true)
            ↔ (compute_pin_hash secrets (take pin_length pin) ≡ compute_pin_hash secrets new))
  pin_change-check_pin old new pin s {h} v fits_old fits_new has has_new =
      let changed = pin_change-right old new s v fits_old fits_new has has_new in
      let filled = record s { pin_hash = h; fail_count = 0 } in
      let kept = write_pin_state-IsSameRam c filled in
      let s1 = (write_pin_state c filled).1 in
      let (sized, bytes) = compute_pin_hash_sized secrets new (has_new ∙ ap some (sym kept.hash)) in
      let v1 : IsValid s1 = record { sized = sized; bytes = bytes; ready = kept.ready ∙ v.ready } in
      let iff = check_pin_iff c secrets pin s1 v1 in
      simp changed (
        kept.count,
        (
          λ e. iff.0 e ∙ ap some kept.hash ∙ sym has_new,
          λ e. iff.1 (e ∙ has_new ∙ ap some (sym kept.hash)),
        ),
      )
