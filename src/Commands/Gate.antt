-- ===== src/Commands/Gate.antt =====
-- The PIN gate of firmware/src/commands.c in front of its handlers.

use rutgers_2026_e_ctf_desig.Messaging.Msg
use rutgers_2026_e_ctf_desig.Prelude.{
  ℕ, ◌≤◌, ◌≡◌, ◌≢◌, sym, ap, ◌∙◌, true, false, some, Bytes, arith, le→ltb, length, take, take_all,
  length-take, Bool-cases, inl, inr,
}
use rutgers_2026_e_ctf_desig.Flash.{FlashCtl}
use rutgers_2026_e_ctf_desig.Crypto.{Aes}
use rutgers_2026_e_ctf_desig.Messaging.{write_packet}
use rutgers_2026_e_ctf_desig.Security.{Secrets, PinState, check_pin, compute_pin_hash, pin_length}
use rutgers_2026_e_ctf_desig.Security.Attempts.{IsValid, check_pin_iff}
use rutgers_2026_e_ctf_desig.Device.{
  Device, Ret, failure, Run, go, stop, Cmd, and_then, chars, require, fail, print_error, on_pins,
}
use rutgers_2026_e_ctf_desig.Device.Rules.{stop-ne-go}
use rutgers_2026_e_ctf_desig.Commands.{pin_gate, pin_of}
use rutgers_2026_e_ctf_desig.Commands.Files.{list, read, write, delete_file}
use rutgers_2026_e_ctf_desig.Transfer.Request.{receive, interrogate}

-- The handlers behind the gate.
pub data Gated : Type 0 where
  list_files read_file write_file delete receive_file interrogate_peer : Gated

-- The length of the packet, below which a handler refuses it.
abbrev pub min_len : Gated → ℕ
min_len list_files = 6
min_len read_file = 7
min_len write_file = 59
min_len delete = 7
min_len receive_file = 8
min_len interrogate_peer = 6

abbrev pub pins_of : {F : Type 0} → Device F → PinState F
pins_of d = record d.pins { flash = d.store.flash }

module _ {F C : Type 0} (c : FlashCtl F) (aes : Aes C) (secrets : Secrets) where
  abbrev pub gated : Gated → Bytes → Cmd F Ret
  gated list_files = list c secrets
  gated read_file = read c aes secrets
  gated write_file = write c aes secrets
  gated delete = delete_file c secrets
  gated receive_file = receive c aes secrets
  gated interrogate_peer = interrogate c secrets

module _ {F : Type 0} (c : FlashCtl F) (secrets : Secrets) where
  -- The device behind an attempt with a PIN.
  abbrev pub attempted : Bytes → Device F → Device F
  attempted pin d =
      let p = (check_pin c secrets pin (pins_of d)).1 in
      record d { pins = p; store = record d.store { flash = p.flash } }

  -- The device that has told the host of an error.
  abbrev pub told : Bytes → Device F → Device F
  told msg d = record d { control = (write_packet Msg.error msg d.control).1 }

  pub pin_gate-accepts :
      (pin : Bytes) (d : Device F)
      → (check_pin c secrets pin (pins_of d)).0 ≡ true
      → pin_gate c secrets pin d ≡ go tt (attempted pin d)
  unfolding pin_gate require on_pins
  pin_gate-accepts pin d e = simp e

  pub pin_gate-refuses :
      (pin : Bytes) (d : Device F)
      → (check_pin c secrets pin (pins_of d)).0 ≡ false
      → pin_gate c secrets pin d ≡ stop failure (told (chars "Invalid pin\n") (attempted pin d))
  unfolding pin_gate require on_pins fail print_error
  pin_gate-refuses pin d e = simp e

  -- The rest behind a gate that let the run through.
  pub pin_gate-go :
      {A : Type 0} (pin : Bytes) (k : Unit {0} → Cmd F A) (d : Device F) {a : A} {d' : Device F}
      → and_then (pin_gate c secrets pin d) k ≡ go a d'
      → ((check_pin c secrets pin (pins_of d)).0 ≡ true) × (k tt (attempted pin d) ≡ go a d')
  pin_gate-go pin k d e = elim (Bool-cases (check_pin c secrets pin (pins_of d)).0) [
    | inl good ↦
        (good, ap (λ (r : Run F (Unit {0})). and_then r k) (sym (pin_gate-accepts pin d good)) ∙ e)
    | inr bad ↦
        absurd
          (stop-ne-go (ap (λ (r : Run F (Unit {0})). and_then r k) (pin_gate-refuses pin d bad)) e)
  ]

module _ {F C : Type 0} (c : FlashCtl F) (aes : Aes C) (secrets : Secrets) where
  gated-gate :
      (k : Gated) (body : Bytes) (d : Device F)
      → min_len k ≤ length body
      → (check_pin c secrets (pin_of body) (pins_of d)).0 ≡ false
      → gated c aes secrets k body d
        ≡ stop failure
            (told c secrets (chars "Invalid pin\n") (attempted c secrets (pin_of body) d))
  unfolding list read write delete_file receive interrogate require
  gated-gate list_files body d h bad =
      simp (le→ltb (length body) 6 h, pin_gate-refuses c secrets (pin_of body) d bad)
  gated-gate read_file body d h bad =
      simp (le→ltb (length body) 7 h, pin_gate-refuses c secrets (pin_of body) d bad)
  gated-gate write_file body d h bad =
      simp (le→ltb (length body) 59 h, pin_gate-refuses c secrets (pin_of body) d bad)
  gated-gate delete body d h bad =
      simp (le→ltb (length body) 7 h, pin_gate-refuses c secrets (pin_of body) d bad)
  gated-gate receive_file body d h bad =
      simp (le→ltb (length body) 8 h, pin_gate-refuses c secrets (pin_of body) d bad)
  gated-gate interrogate_peer body d h bad =
      simp (le→ltb (length body) 6 h, pin_gate-refuses c secrets (pin_of body) d bad)

  -- On an initialised PIN state with a hash of 32 bytes, each of the handlers list, read, write,
  -- delete_file, receive and interrogate, given a packet that is long enough and starts with a
  -- PIN whose hash is not the stored one, does nothing but count the attempt and tell the host of
  -- an invalid PIN, and returns -1.
  pub gated-refuses :
      (k : Gated) (body : Bytes) (d : Device F)
      → min_len k ≤ length body
      → IsValid (pins_of d)
      → compute_pin_hash secrets (take pin_length body) ≢ some d.pins.pin_hash
      → gated c aes secrets k body d
        ≡ stop failure
            (told c secrets (chars "Invalid pin\n") (attempted c secrets (pin_of body) d))
  gated-refuses k body d h v wrong =
      let accepted = (check_pin c secrets (pin_of body) (pins_of d)).0 in
      elim (Bool-cases accepted) [
        | inr bad ↦ gated-gate k body d h bad
        | inl good ↦
            let same = take_all 6 (take 6 body) (omega (arith, length-take 6 body)) in
            absurd (
              wrong (
                ap (compute_pin_hash secrets) (sym same)
                ∙ (check_pin_iff c secrets (pin_of body) (pins_of d) v).0 good))
      ]
