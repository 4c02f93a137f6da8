-- ===== src/Hsm/Pins.antt =====
-- The PIN state and the replay cache keep their sizes (firmware/src/security.c and secure_design.c).
use rutgers_2026_e_ctf_desig.Prelude.{
  refl, ◌+◌, ◌<◌, ◌^◌, ◌≡◌, ap, ◌∙◌, Bool, true, arith, Bytes, u32, ◌==◌, if_keeps, option_keeps,
  length, take, length-set, Bool-cases, inl, inr,
}
use rutgers_2026_e_ctf_desig.Flash.{FlashCtl}
use rutgers_2026_e_ctf_desig.Crypto.{diff_bytes}
use rutgers_2026_e_ctf_desig.Security.{
  Secrets, PinState, compute_pin_hash, write_pin_state, count_failure, check_pin, pin_change,
  pin_length, pin_len_ok,
}
use rutgers_2026_e_ctf_desig.Security.Attempts.{write_pin_state-IsSameRam, compute_pin_hash_sized}
use rutgers_2026_e_ctf_desig.SecureDesign.{
  Token, ReplayCache, cache_size, seen, check_and_update_replay,
}

-- The hash has 32 bytes, and the counter is a word.
pub record IsPins {F : Type 0} (s : PinState F) : Type 0 where
  pub sized : length s.pin_hash ≡ 32
  pub counted : s.fail_count < 2 ^ 32

module _ {F : Type 0} (c : FlashCtl F) where
  write_pin_state-IsPins : (s : PinState F) → IsPins s → IsPins (write_pin_state c s).1
  write_pin_state-IsPins s v =
      let k = write_pin_state-IsSameRam c s in
      record { sized = ap length k.hash ∙ v.sized; counted = omega (arith, k.count, v.counted) }

  count_failure-IsPins : (s : PinState F) → IsPins s → IsPins (count_failure c s)
  unfolding count_failure
  count_failure-IsPins s v =
      let s0 = record s { fail_count = u32 (s.fail_count + 1) } in
      let k = write_pin_state-IsPins s0 (record { sized = v.sized; counted = omega arith }) in
      record { sized = k.sized; counted = k.counted }

module _ {F : Type 0} (c : FlashCtl F) (secrets : Secrets) where
  abbrev Kept : Bool × PinState F → Type 0
  Kept r = IsPins r.1

  pub check_pin-IsPins :
      (pin : Bytes) (s : PinState F) → IsPins s → IsPins (check_pin c secrets pin s).1
  unfolding check_pin
  check_pin-IsPins pin s v =
      if_keeps Kept s.initialized
        (λ _. option_keeps Kept (compute_pin_hash secrets (take pin_length pin)) v λ h _.
          if_keeps Kept (diff_bytes 0 h s.pin_hash == 0)
            (λ _.
              if_keeps Kept (s.fail_count == 0) (λ _. v)
                (λ _.
                  write_pin_state-IsPins c (record s { fail_count = 0 })
                    (record { sized = v.sized; counted = omega arith })))
            (λ _. count_failure-IsPins c s v))
        (λ _. v)

  count_failure-hash : (s : PinState F) → (count_failure c s).pin_hash ≡ s.pin_hash
  unfolding count_failure
  count_failure-hash s =
      (write_pin_state-IsSameRam c (record s { fail_count = u32 (s.fail_count + 1) })).hash

  -- An attempt keeps the stored hash, whatever comes of it.
  pub check_pin-hash :
      (pin : Bytes) (s : PinState F) → (check_pin c secrets pin s).1.pin_hash ≡ s.pin_hash
  unfolding check_pin
  check_pin-hash pin s =
      let same = λ (r : Bool × PinState F). r.1.pin_hash ≡ s.pin_hash in
      if_keeps same s.initialized
        (λ _. option_keeps same (compute_pin_hash secrets (take pin_length pin)) refl λ h _.
          if_keeps same (diff_bytes 0 h s.pin_hash == 0)
            (λ _.
              if_keeps same (s.fail_count == 0) (λ _. refl)
                (λ _. (write_pin_state-IsSameRam c (record s { fail_count = 0 })).hash))
            (λ _. count_failure-hash s))
        (λ _. refl)

  pub pin_change-IsPins :
      (old new : Bytes) (s : PinState F) → IsPins s → IsPins (pin_change c secrets old new s).1
  unfolding pin_change
  pin_change-IsPins old new s v =
      if_keeps Kept s.initialized
        (λ _.
          if_keeps Kept (pin_len_ok (length old))
            (λ _.
              if_keeps Kept (pin_len_ok (length new))
                (λ _. option_keeps Kept (compute_pin_hash secrets old) v λ h _.
                  if_keeps Kept (diff_bytes 0 h s.pin_hash == 0)
                    (λ _. option_keeps Kept (compute_pin_hash secrets new) v λ h' has.
                      write_pin_state-IsPins c (record s { pin_hash = h'; fail_count = 0 })
                        (record {
                          sized = (compute_pin_hash_sized secrets new has).0;
                          counted = omega arith;
                        }))
                    (λ _. count_failure-IsPins c s v))
                (λ _. v))
            (λ _. v))
        (λ _. v)

-- The ring has eight entries, and its cursor is in it.
pub record IsRing (r : ReplayCache) : Type 0 where
  pub sized : length r.entries ≡ cache_size
  pub within : r.next < cache_size

pub check_and_update_replay-IsRing :
    (t : Token) (r : ReplayCache) → IsRing r → IsRing (check_and_update_replay t r).1
unfolding check_and_update_replay
check_and_update_replay-IsRing t r v = elim (Bool-cases (seen t r.entries)) [
  | inl old ↦ simp old v
  | inr new ↦ simp new (record {
    sized = length-set r.entries r.next (record { token = t; valid = true }) ∙ v.sized;
    within = omega arith;
  })
]
