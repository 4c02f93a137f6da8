-- ===== src/Security/Repeat.antt =====
-- `check_pin` of firmware/src/security.c behind an accepted attempt.
use rutgers_2026_e_ctf_desig.Prelude.{◌≡◌, refl, ◌∙◌, true, some, Bytes, ==_iff, take}
use rutgers_2026_e_ctf_desig.Flash.{FlashCtl}
use rutgers_2026_e_ctf_desig.Security.{Secrets, PinState, check_pin, compute_pin_hash, pin_length}
use rutgers_2026_e_ctf_desig.Security.Attempts.{
  IsValid, check_pin_iff, check_pin-IsValid, check_pin-IsAttempt, check_pin-right, same_hash,
}

module _ {F : Type 0} (c : FlashCtl F) (secrets : Secrets) where
  -- What an accepted attempt leaves.
  pub record IsAccepted (pin : Bytes) (s s' : PinState F) : Type 0 where
    pub right : compute_pin_hash secrets (take pin_length pin) ≡ some s.pin_hash
    pub valid : IsValid s'
    pub same : s'.pin_hash ≡ s.pin_hash
    pub clear : s'.fail_count ≡ 0

  pub check_pin-IsAccepted :
      (pin : Bytes) (s : PinState F)
      → IsValid s
      → (check_pin c secrets pin s).0 ≡ true
      → IsAccepted pin s (check_pin c secrets pin s).1
  check_pin-IsAccepted pin s v good =
      let right = (check_pin_iff c secrets pin s v).0 good in
      let kept = check_pin-IsValid c secrets pin s v in
      record {
        right = right;
        valid = kept.0;
        same = kept.1;
        clear = ((check_pin-IsAttempt c secrets pin s v right).cleared good).0;
      }

  -- Where nothing was counted, the right PIN changes nothing.
  pub check_pin_idle :
      (pin : Bytes) (s : PinState F)
      → IsValid s
      → compute_pin_hash secrets (take pin_length pin) ≡ some s.pin_hash
      → s.fail_count ≡ 0
      → check_pin c secrets pin s ≡ (true, s)
  check_pin_idle pin s v right none_failed =
      let compared = (same_hash c secrets (take pin_length pin) s v right).1 refl in
      let idle = (==_iff s.fail_count 0).1 none_failed in
      check_pin-right c secrets pin s v.ready right compared ∙ simp idle
