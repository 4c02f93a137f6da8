-- ===== src/Security/Persist.antt =====
-- The PIN state of firmware/src/security.c over a power cycle: what `write_pin_state` puts in the
-- flash, `pin_init` finds there.
use rutgers_2026_e_ctf_desig.Prelude.{
  ℕ, ◌+◌, ◌≤◌, ◌<◌, ◌^◌, ◌≡◌, ◌↔◌, refl, sym, ap, ◌∙◌, Bool, true, false, some, ◌++◌, arith, Bytes,
  le32, load32, splice, ltb, ◌==◌, length, take, drop, replicate, Bool-cases, true≢false, ltb→le,
  Option-cases, inl, inr, length-append, take-append, drop-append_ge, load32-append, ap₂,
}
use rutgers_2026_e_ctf_desig.Flash.{FlashCtl, IsFlash, erase_page, write_flash, read_flash}
use rutgers_2026_e_ctf_desig.Flash.Page.{erase_write-read}
use rutgers_2026_e_ctf_desig.Security.{
  Secrets, PinState, compute_pin_hash, write_pin_state, load_pin_state, pin_init, check_pin,
  pin_page, pin_state_flash_addr, hash_is_blank, pin_max_len, pin_length, provisioned_len,
  pin_provision,
}
use rutgers_2026_e_ctf_desig.Security.Attempts.{
  IsValid, compute_pin_hash_sized, write_pin_state-IsSameRam, check_pin_iff,
}

pin_page_lem :
    (h : Bytes) (n : ℕ) → length h ≡ 32 → pin_page h n ≡ h ++ (le32 n ++ replicate 988 255)
pin_page_lem h n e =
    ap₂ (λ (x y : Bytes). x ++ (le32 n ++ y)) (ap (take 32) first ∙ take-append 32 h blank e)
      (ap (drop 36) first ∙ drop-append_ge 36 4 h blank (omega (arith, e)))
  where
    blank : Bytes
    blank = replicate 992 255

    first : splice (replicate 1024 255) 0 h ≡ h ++ blank
    first =
        ap (λ (k : ℕ). h ++ drop k (replicate 1024 255)) {x = 0 + length h} {y = 32}
          (omega (arith, e))

length-pin_page : (h : Bytes) (n : ℕ) → length h ≡ 32 → length (pin_page h n) ≡ 1024
length-pin_page h n e =
    ap length (pin_page_lem h n e)
    ∙ length-append h (le32 n ++ replicate 988 255)
    ∙ ap (λ (k : ℕ). k + 992) e

load32-pin_page : (h : Bytes) (n : ℕ) → length h ≡ 32 → n < 2 ^ 32 → load32 (pin_page h n) 32 ≡ n
load32-pin_page h n e l =
    ap (λ (b : Bytes). load32 b 32) (pin_page_lem h n e)
    ∙ load32-append h n (replicate 988 255) 32 e l

module _ {F : Type 0} (c : FlashCtl F) (laws : IsFlash c) where
  write_pin_state-steps :
      (s : PinState F) {s' : PinState F}
      → write_pin_state c s ≡ (true, s')
      → let f1 = (erase_page c pin_state_flash_addr s.flash).1 in
        (erase_page c pin_state_flash_addr s.flash ≡ (true, f1))
        × (write_flash c pin_state_flash_addr (pin_page s.pin_hash s.fail_count) f1
            ≡ (true, s'.flash))
  unfolding write_pin_state
  write_pin_state-steps s w = ground arith

  -- The page that a successful `write_pin_state` leaves.
  write_pin_state-page :
      (s : PinState F) {s' : PinState F}
      → length s.pin_hash ≡ 32
      → write_pin_state c s ≡ (true, s')
      → read_flash c s'.flash pin_state_flash_addr 1024 ≡ pin_page s.pin_hash s.fail_count
  write_pin_state-page s {s'} e w =
      let d = pin_page s.pin_hash s.fail_count in
      let n = length-pin_page s.pin_hash s.fail_count e in
      let (erased, written) = write_pin_state-steps s w in
      ap (read_flash c s'.flash pin_state_flash_addr) (sym n)
      ∙ erase_write-read c laws pin_state_flash_addr d s.flash refl (omega (arith, n))
          (omega (arith, n)) erased written

  -- After a power cycle the load finds the hash and the counter that were written.
  pub load_pin_state-write :
      (s r : PinState F) {s' : PinState F}
      → length s.pin_hash ≡ 32
      → s.fail_count < 0xFFFFFFFF
      → write_pin_state c s ≡ (true, s')
      → r.flash ≡ s'.flash
      → load_pin_state c r ≡ record r { pin_hash = s.pin_hash; fail_count = s.fail_count }
  unfolding load_pin_state
  load_pin_state-write s r {s'} e l w same =
      let page = pin_page s.pin_hash s.fail_count in
      let found =
        ap (λ (f : F). read_flash c f pin_state_flash_addr 1024) same
        ∙ write_pin_state-page s e w in
      let hash =
        ap (take 32) (pin_page_lem s.pin_hash s.fail_count e)
        ∙ take-append 32 s.pin_hash (le32 s.fail_count ++ replicate 988 255) e in
      let count = load32-pin_page s.pin_hash s.fail_count e (omega arith) in
      let programmed : (s.fail_count == 0xFFFFFFFF) ≡ false = ground arith in
      simp (found, hash, count, programmed)

module _ {F : Type 0} (c : FlashCtl F) (secrets : Secrets) where
  -- A device that has been provisioned keeps what it has loaded.
  pin_provision-stored :
      (s : PinState F)
      → hash_is_blank s.pin_hash ≡ false
      → pin_provision c secrets s ≡ (true, record s { initialized = true })
  unfolding pin_provision
  pin_provision-stored s p = simp p

  -- A first boot that succeeds has stored the hash of the provisioned PIN.
  pin_provision-blank :
      (s : PinState F) {s' : PinState F}
      → hash_is_blank s.pin_hash ≡ true
      → pin_provision c secrets s ≡ (true, s')
      → let n = provisioned_len pin_max_len secrets.hsm_pin in
        (pin_length ≤ n)
        × (compute_pin_hash secrets (take n secrets.hsm_pin) ≡ some s'.pin_hash)
        × (s'.fail_count ≡ 0)
        × (s'.initialized ≡ true)
  unfolding pin_provision
  pin_provision-blank s {s'} blank i =
      let n = provisioned_len pin_max_len secrets.hsm_pin in
      let hash = compute_pin_hash secrets (take n secrets.hsm_pin) in
      let refused = λ (e : pin_provision c secrets s ≡ (false, s)).
        true≢false (ap (λ (r : Bool × PinState F). r.0) (sym i ∙ e)) in
      elim (Bool-cases (ltb n pin_length)) [
        | inl short ↦ absurd (refused (simp (blank, short)))
        | inr fits ↦ elim (Option-cases hash) [
          | inl none_h ↦ absurd (refused (simp (blank, fits, none_h)))
          | inr (h, has) ↦
              let filled = record s { pin_hash = h; fail_count = 0 } in
              let kept = write_pin_state-IsSameRam c filled in
              let (written, s1) = write_pin_state c filled in
              elim (Bool-cases written) [
                | inl good ↦
                    let done : (true, record s1 { initialized = true }) ≡ (true, s') =
                      sym (simp (blank, fits, has, good)) ∙ i in
                    (
                      ltb→le n pin_length fits,
                      has
                          ∙ ap some (sym kept.hash)
                          ∙ ap (λ (r : Bool × PinState F). some r.1.pin_hash) done,
                      sym (ap (λ (r : Bool × PinState F). r.1.fail_count) done) ∙ kept.count,
                      sym (ap (λ (r : Bool × PinState F). r.1.initialized) done),
                    )
                | inr bad ↦
                    let failed : pin_provision c secrets s ≡ (false, s1) =
                      simp (blank, fits, has, bad) in
                    absurd (true≢false (ap (λ (r : Bool × PinState F). r.0) (sym i ∙ failed)))
              ]
        ]
      ]

  -- On a flash that keeps its laws, after a `write_pin_state` that succeeded with a hash of 32
  -- bytes that is not all 0xFF and a counter below 0xFFFFFFFF, a `pin_init` on that flash
  -- succeeds with this hash and this counter, whatever was in RAM.
  pub pin_init-write :
      (s r : PinState F) {s' : PinState F}
      → IsFlash c
      → length s.pin_hash ≡ 32
      → s.fail_count < 0xFFFFFFFF
      → hash_is_blank s.pin_hash ≡ false
      → write_pin_state c s ≡ (true, s')
      → r.flash ≡ s'.flash
      → pin_init c secrets r
        ≡ (true, record r { pin_hash = s.pin_hash; fail_count = s.fail_count; initialized = true })
  unfolding pin_init
  pin_init-write s r laws e l p w same =
      ap (pin_provision c secrets) (load_pin_state-write c laws s r e l w same)
      ∙ pin_provision-stored (record r { pin_hash = s.pin_hash; fail_count = s.fail_count }) p

  -- Where the stored hash reads as blank and HSM_PIN has six characters, a `pin_init` that
  -- succeeds leaves an initialised state with the counter at 0, in which `check_pin` accepts
  -- exactly the PINs whose first six bytes have the hash of HSM_PIN.
  pub pin_init-check_pin :
      (pin : Bytes) (r : PinState F) {s : PinState F}
      → hash_is_blank (take 32 (read_flash c r.flash pin_state_flash_addr 1024)) ≡ true
      → provisioned_len pin_max_len secrets.hsm_pin ≡ pin_length
      → pin_init c secrets r ≡ (true, s)
      → IsValid s
        × (s.fail_count ≡ 0)
        × (((check_pin c secrets pin s).0 ≡ true) ↔ (
            compute_pin_hash secrets (take pin_length pin)
            ≡ compute_pin_hash secrets (take pin_length secrets.hsm_pin)))
  unfolding pin_init load_pin_state
  pin_init-check_pin pin r {s} blank six i =
      let (_, has, zero_count, ready) = pin_provision-blank (load_pin_state c r) blank i in
      let has' =
        ap (λ (n : ℕ). compute_pin_hash secrets (take n secrets.hsm_pin)) (sym six) ∙ has in
      let (sized, bytes) = compute_pin_hash_sized secrets (take pin_length secrets.hsm_pin) has' in
      let v : IsValid s = record { sized = sized; bytes = bytes; ready = ready } in
      let iff = check_pin_iff c secrets pin s v in
      (v, zero_count, (λ e. iff.0 e ∙ sym has', λ e. iff.1 (e ∙ has')))
