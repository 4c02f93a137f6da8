-- ===== src/Security/Attempts.antt =====
-- What `check_pin` and `pin_change` of firmware/src/security.c accept, and what an attempt costs.
use rutgers_2026_e_ctf_desig.Prelude.{
  ℕ, ◌+◌, ◌≡◌, ◌↔◌, ◌≢◌, ◌⊎◌, refl, sym, ap, ◌∙◌, u32, ==_iff, ◌+◌, Bool, true, false, none, some,
  List, [], ◌∷◌, arith, Bytes, IsBytes, ◌==◌, ==_iff, if◌then◌else◌, length, take, Bool-cases,
  Option-cases, inl, inr, true≢false, false≢true,
}
use mathlib.Core.Path.{subst}
use mathlib.Core.Option.{none-ne-some, some-injective}
use rutgers_2026_e_ctf_desig.Flash.{FlashCtl, erase_page, write_flash}
use rutgers_2026_e_ctf_desig.Sha256.Hmac.{
  hmac_sha256_raw, length-hmac_sha256_raw, hmac_sha256_raw-IsBytes,
}
use rutgers_2026_e_ctf_desig.Crypto.{diff_bytes, crypto_hmac_sha256, derive_pin_mac_key}
use rutgers_2026_e_ctf_desig.SecureDesign.{get_root_secret}
use rutgers_2026_e_ctf_desig.Crypto.Sign.{diff_bytes_iff}
use rutgers_2026_e_ctf_desig.Security.{
  Secrets, PinState, compute_pin_hash, write_pin_state, count_failure, check_pin, pin_length,
  pin_page, pin_state_flash_addr,
}

-- The stored hash has the form of a digest.
pub record IsValid {F : Type 0} (s : PinState F) : Type 0 where
  pub sized : length s.pin_hash ≡ 32
  pub bytes : IsBytes s.pin_hash
  pub ready : s.initialized ≡ true

pub hmac_sized :
    (key msg : Bytes) {h : Bytes}
    → crypto_hmac_sha256 key msg 32 ≡ some h
    → (length h ≡ 32) × IsBytes h
unfolding crypto_hmac_sha256
hmac_sized key msg {h} e =
    let same : hmac_sha256_raw key msg ≡ h = ground arith in
    (
      ap length (sym same) ∙ length-hmac_sha256_raw key msg,
      subst IsBytes same (hmac_sha256_raw-IsBytes key msg),
    )

-- Every hash that is computed has that form.
pub compute_pin_hash_sized :
    (secrets : Secrets) (pin : Bytes) {h : Bytes}
    → compute_pin_hash secrets pin ≡ some h
    → (length h ≡ 32) × IsBytes h
unfolding compute_pin_hash
compute_pin_hash_sized secrets pin {h} e =
    elim (Option-cases (get_root_secret secrets.global_secrets)) [
      | inl no_root ↦ absurd (none-ne-some h (rw (compute_pin_hash, no_root) at e))
      | inr (root, has_root) ↦ elim (Option-cases (derive_pin_mac_key root 32)) [
        | inl no_key ↦ absurd (none-ne-some h (rw (compute_pin_hash, has_root, no_key) at e))
        | inr (k, has_key) ↦ hmac_sized k pin (rw (compute_pin_hash, has_root, has_key) at e)
      ]
    ]

-- What `write_pin_state` keeps.
pub record IsSameRam {F : Type 0} (s s' : PinState F) : Type 0 where
  pub hash : s'.pin_hash ≡ s.pin_hash
  pub count : s'.fail_count ≡ s.fail_count
  pub ready : s'.initialized ≡ s.initialized
  pub delays : s'.delays ≡ s.delays

module _ {F : Type 0} (c : FlashCtl F) where
  pub write_pin_state-IsSameRam : (s : PinState F) → IsSameRam s (write_pin_state c s).1
  unfolding write_pin_state
  write_pin_state-IsSameRam s =
      let (erased, f1) = erase_page c pin_state_flash_addr s.flash in
      let (written, f2) =
        write_flash c pin_state_flash_addr (pin_page s.pin_hash s.fail_count) f1 in
      elim (Bool-cases erased) [
        | inl good ↦ elim (Bool-cases written) [
          | inl full ↦
              rw (good, full) (record { hash = refl; count = refl; ready = refl; delays = refl })
          | inr part ↦
              rw (good, part) (record { hash = refl; count = refl; ready = refl; delays = refl })
        ]
        | inr bad ↦ rw bad (record { hash = refl; count = refl; ready = refl; delays = refl })
      ]

module _ {F : Type 0} (c : FlashCtl F) (secrets : Secrets) where
  -- The comparison finds the hashes equal exactly when they are.
  pub same_hash :
      (pin : Bytes) (s : PinState F) {h : Bytes}
      → IsValid s
      → compute_pin_hash secrets pin ≡ some h
      → ((diff_bytes 0 h s.pin_hash == 0) ≡ true) ↔ (h ≡ s.pin_hash)
  same_hash pin s {h} v e =
      let sized = compute_pin_hash_sized secrets pin e in
      diff_bytes_iff h s.pin_hash sized.1 v.bytes (sized.0 ∙ sym v.sized)

  -- The state behind an accepted PIN.
  abbrev pub count_cleared : PinState F → PinState F
  count_cleared s =
      if s.fail_count == 0 then s else (write_pin_state c (record s { fail_count = 0 })).1

  -- The branches of `check_pin`.
  check_pin-no_hash :
      (pin : Bytes) (s : PinState F)
      → compute_pin_hash secrets (take pin_length pin) ≡ none
      → check_pin c secrets pin s ≡ (false, s)
  unfolding check_pin
  check_pin-no_hash pin s e = elim (Bool-cases s.initialized) [
    | inl t ↦ simp (t, e)
    | inr t ↦ simp t
  ]

  pub check_pin-right :
      (pin : Bytes) (s : PinState F) {h : Bytes}
      → s.initialized ≡ true
      → compute_pin_hash secrets (take pin_length pin) ≡ some h
      → (diff_bytes 0 h s.pin_hash == 0) ≡ true
      → check_pin c secrets pin s ≡ (true, count_cleared s)
  unfolding check_pin
  check_pin-right pin s i e d = elim (Bool-cases (s.fail_count == 0)) [
    | inl t ↦ simp (i, e, d, t)
    | inr t ↦ simp (i, e, d, t)
  ]

  check_pin-wrong :
      (pin : Bytes) (s : PinState F) {h : Bytes}
      → s.initialized ≡ true
      → compute_pin_hash secrets (take pin_length pin) ≡ some h
      → (diff_bytes 0 h s.pin_hash == 0) ≡ false
      → check_pin c secrets pin s ≡ (false, count_failure c s)
  unfolding check_pin
  check_pin-wrong pin s i e d = simp (i, e, d)

  -- The branches by the decision of the comparison.
  Outcome : Bytes → PinState F → Type 0
  Outcome pin s =
      let r = check_pin c secrets pin s in
      ((compute_pin_hash secrets (take pin_length pin) ≡ some s.pin_hash)
        × (r ≡ (true, count_cleared s)))
      ⊎ ((compute_pin_hash secrets (take pin_length pin) ≢ some s.pin_hash) × (r.0 ≡ false))

  check_pin-Outcome : (pin : Bytes) (s : PinState F) → IsValid s → Outcome pin s
  unfolding Outcome
  check_pin-Outcome pin s v =
      let e = compute_pin_hash secrets (take pin_length pin) in
      elim (Option-cases e) [
        | inl none_h ↦ inr (
          λ h. none-ne-some s.pin_hash (sym none_h ∙ h),
          ap (λ (r : Bool × PinState F). r.0) (check_pin-no_hash pin s none_h),
        )
        | inr (h, has) ↦ elim (Bool-cases (diff_bytes 0 h s.pin_hash == 0)) [
          | inl same ↦
              let eq = (same_hash (take pin_length pin) s v has).0 same in
              inl (has ∙ ap some eq, check_pin-right pin s v.ready has same)
          | inr other ↦ inr (
            λ h'. true≢false (
                sym (
                  (same_hash (take pin_length pin) s v has).1
                    (some-injective h s.pin_hash (sym has ∙ h')))
                ∙ other),
            ap (λ (r : Bool × PinState F). r.0) (check_pin-wrong pin s v.ready has other),
          )
        ]
      ]

  -- On a PIN state that is initialised and holds a hash of 32 bytes, `check_pin` returns true
  -- exactly when the MAC of the first six bytes of the PIN can be computed and is the stored
  -- hash.
  pub check_pin_iff :
      (pin : Bytes) (s : PinState F)
      → IsValid s
      → ((check_pin c secrets pin s).0 ≡ true)
        ↔ (compute_pin_hash secrets (take pin_length pin) ≡ some s.pin_hash)
  unfolding Outcome
  check_pin_iff pin s v = elim (check_pin-Outcome pin s v) [
    | inl (eq, r) ↦ (λ t. eq, λ e. ap (λ (r : Bool × PinState F). r.0) r)
    | inr (ne, r) ↦ (λ t. absurd (true≢false (sym t ∙ r)), λ e. absurd (ne e))
  ]

  -- What an attempt is to the PIN state: the stored hash stays. The right PIN clears the counter
  -- and costs no delay; a wrong one that can be hashed costs one, and counts, up to the wrap.
  pub record IsAttempt (s s' : PinState F) (accepted : Bool) : Type 0 where
    pub kept_hash : s'.pin_hash ≡ s.pin_hash
    pub still_ready : s'.initialized ≡ s.initialized
    pub cleared : accepted ≡ true → (s'.fail_count ≡ 0) × (s'.delays ≡ s.delays)
    pub counted :
        accepted ≡ false → (s'.fail_count ≡ u32 (s.fail_count + 1)) × (s'.delays ≡ s.delays + 1)

  count_failure-IsAttempt : (s : PinState F) → IsAttempt s (count_failure c s) false
  unfolding count_failure
  count_failure-IsAttempt s =
      let k = write_pin_state-IsSameRam c (record s { fail_count = u32 (s.fail_count + 1) }) in
      record {
        kept_hash = k.hash;
        still_ready = k.ready;
        cleared = λ e. absurd (false≢true e);
        counted = λ e. (k.count, ap (λ (n : ℕ). n + 1) k.delays);
      }

  count_cleared-IsAttempt : (s : PinState F) → IsAttempt s (count_cleared s) true
  count_cleared-IsAttempt s = elim (Bool-cases (s.fail_count == 0)) [
    | inl z ↦ simp z (record {
      kept_hash = refl;
      still_ready = refl;
      cleared = λ e. ((==_iff s.fail_count 0).0 z, refl);
      counted = λ e. absurd (true≢false e);
    })
    | inr nz ↦
        let k = write_pin_state-IsSameRam c (record s { fail_count = 0 }) in
        simp nz (record {
          kept_hash = k.hash;
          still_ready = k.ready;
          cleared = λ e. (k.count, k.delays);
          counted = λ e. absurd (true≢false e);
        })
  ]

  -- On an initialised PIN state with a hash of 32 bytes, an attempt with a PIN that can be hashed
  -- keeps the stored hash; if it is accepted the counter becomes 0 and there is no delay, and if
  -- it is not the counter goes up by one modulo 2^32 and there is one delay more, also where the
  -- flash fails.
  pub check_pin-IsAttempt :
      (pin : Bytes) (s : PinState F) {h : Bytes}
      → IsValid s
      → compute_pin_hash secrets (take pin_length pin) ≡ some h
      → let (accepted, s') = check_pin c secrets pin s in IsAttempt s s' accepted
  check_pin-IsAttempt pin s {h} v has = elim (Bool-cases (diff_bytes 0 h s.pin_hash == 0)) [
    | inl same ↦ simp (check_pin-right pin s v.ready has same) (count_cleared-IsAttempt s)
    | inr other ↦ simp (check_pin-wrong pin s v.ready has other) (count_failure-IsAttempt s)
  ]

  -- Attempts one after the other.
  pub attempts : List Bytes → PinState F → PinState F
  attempts [] s = s
  attempts (pin ∷ pins) s = attempts pins (check_pin c secrets pin s).1

  pub check_pin-IsValid :
      (pin : Bytes) (s : PinState F)
      → IsValid s
      → let s' = (check_pin c secrets pin s).1 in IsValid s' × (s'.pin_hash ≡ s.pin_hash)
  check_pin-IsValid pin s v = elim (Option-cases (compute_pin_hash secrets (take pin_length pin))) [
    | inl none_h ↦ simp (check_pin-no_hash pin s none_h) (v, refl)
    | inr (h, has) ↦
        let a = check_pin-IsAttempt pin s v has in
        (
          record {
            sized = ap length a.kept_hash ∙ v.sized;
            bytes = subst IsBytes (sym a.kept_hash) v.bytes;
            ready = a.still_ready ∙ v.ready;
          },
          a.kept_hash,
        )
  ]

  attempts-IsValid :
      (pins : List Bytes) (s : PinState F)
      → IsValid s
      → IsValid (attempts pins s) × ((attempts pins s).pin_hash ≡ s.pin_hash)
  unfolding attempts
  attempts-IsValid [] s v = (v, refl)
  attempts-IsValid (pin ∷ pins) s v =
      let s' = (check_pin c secrets pin s).1 in
      let first = check_pin-IsValid pin s v in
      let rest = attempts-IsValid pins s' first.0 in (rest.0, rest.1 ∙ first.1)

  -- On an initialised PIN state with a hash of 32 bytes, after any sequence of attempts, right or
  -- wrong, `check_pin` still accepts a PIN whose first six bytes have the stored hash: the
  -- counter never locks the device.
  pub attempts-check_pin :
      (pins : List Bytes) (pin : Bytes) (s : PinState F)
      → IsValid s
      → compute_pin_hash secrets (take pin_length pin) ≡ some s.pin_hash
      → (check_pin c secrets pin (attempts pins s)).0 ≡ true
  attempts-check_pin pins pin s v right =
      let after = attempts-IsValid pins s v in
      (check_pin_iff pin (attempts pins s) after.0).1 (right ∙ ap some (sym after.1))
