-- ===== src/Hsm/Invariant.antt =====
-- The form of the device over the rounds of the main loop of firmware/src/HSM.c.
use rutgers_2026_e_ctf_desig.Prelude.{
  ℕ, ◌≡◌, refl, false≢true, true, false, Bool, List, Bytes, IsBytes, ◌==◌, if_keeps,
}
use mathlib.Core.Path.{subst}
use rutgers_2026_e_ctf_desig.Flash.{FlashCtl}
use rutgers_2026_e_ctf_desig.Crypto.{Aes}
use rutgers_2026_e_ctf_desig.Trng.{Capture}
use rutgers_2026_e_ctf_desig.Messaging.Msg
use rutgers_2026_e_ctf_desig.Messaging.{
  MsgStatus, msg_ok, msg_timeout, msg_no_ack, msg_bad_len, msg_too_long, Port, read_packet,
}
use rutgers_2026_e_ctf_desig.Messaging.Sizes.{read_packet-IsBytes}
use rutgers_2026_e_ctf_desig.Security.{Secrets}
use rutgers_2026_e_ctf_desig.Device.{Device, Run, go, stop, hang, print_error}
use rutgers_2026_e_ctf_desig.Hsm.{
  Round, runs, overrun, overruns, max_msg_size, read_error, ignore_result, dispatch, dispatch_debug,
  main_round,
}
use rutgers_2026_e_ctf_desig.Hsm.Blobs.{IsTable-same}
use rutgers_2026_e_ctf_desig.Hsm.Steps.{IsSound, Ends, Any, print_error-Ends}
use rutgers_2026_e_ctf_desig.Hsm.Handlers.{
  list-Ends, read-Ends, write-Ends, delete_file-Ends, change_pin-Ends, boot_flag-Ends, digest-Ends,
  echo-Ends,
}
use rutgers_2026_e_ctf_desig.Hsm.Exchange.{receive-Ends, interrogate-Ends, listen-Ends}

ignore_result-Ends :
    {F A : Type 0} {H : Bytes → Type 0} (r : Run F A) → Ends H Any r → Ends H Any (ignore_result r)
unfolding ignore_result
ignore_result-Ends (go a d) e = record { holds = (tt, e.holds.1) }
ignore_result-Ends (stop r d) e = record { holds = (tt, e.holds) }
ignore_result-Ends hang e = record { holds = tt }

module _ {F C : Type 0} (H : Bytes → Type 0) (c : FlashCtl F) (aes : Aes C)
    (secrets : Secrets) where
  abbrev Fine : Run F (Unit {0}) → Type 0
  Fine r = Ends H Any r

  dispatch_debug-Ends :
      (any : (h : Bytes) → H h) (cmd : ℕ) (body : Bytes) (d : Device F)
      → IsSound H d
      → Fine (dispatch_debug c aes secrets cmd body d)
  unfolding dispatch_debug
  dispatch_debug-Ends any cmd body d v =
      if_keeps Fine (cmd == Msg.delete_file)
        (λ _. ignore_result-Ends _ (delete_file-Ends c secrets body d v))
        (λ _.
          if_keeps Fine (cmd == Msg.change_pin)
            (λ _. ignore_result-Ends _ (change_pin-Ends c secrets any body d v))
            (λ _.
              if_keeps Fine (cmd == Msg.boot_flag)
                (λ _. ignore_result-Ends _ (boot_flag-Ends c secrets body d v))
                (λ _.
                  if_keeps Fine (cmd == Msg.digest)
                    (λ _. ignore_result-Ends _ (digest-Ends c aes secrets body d v))
                    (λ _.
                      if_keeps Fine (cmd == Msg.echo)
                        (λ _. ignore_result-Ends _ (echo-Ends body d v))
                        (λ _. print_error-Ends _ d v)))))

  dispatch-Ends :
      (debug_build : Bool) (free : debug_build ≡ true → (h : Bytes) → H h) (cmd : ℕ) (body : Bytes)
      (d : Device F)
      → IsBytes body
      → IsSound H d
      → Fine (dispatch c aes secrets debug_build cmd body d)
  unfolding dispatch
  dispatch-Ends debug_build free cmd body d bytes v =
      if_keeps Fine (cmd == Msg.list_files)
        (λ _. ignore_result-Ends _ (list-Ends c secrets body d v))
        (λ _.
          if_keeps Fine (cmd == Msg.read)
            (λ _. ignore_result-Ends _ (read-Ends c aes secrets body d v))
            (λ _.
              if_keeps Fine (cmd == Msg.write)
                (λ _. ignore_result-Ends _ (write-Ends c aes secrets body d bytes v))
                (λ _.
                  if_keeps Fine (cmd == Msg.receive)
                    (λ _. ignore_result-Ends _ (receive-Ends c aes secrets body d v))
                    (λ _.
                      if_keeps Fine (cmd == Msg.interrogate)
                        (λ _. ignore_result-Ends _ (interrogate-Ends c secrets body d v))
                        (λ _.
                          if_keeps Fine (cmd == Msg.listen)
                            (λ _. ignore_result-Ends _ (listen-Ends c aes secrets d v))
                            (λ _.
                              if_keeps Fine debug_build
                                (λ on. dispatch_debug-Ends (free on) cmd body d v)
                                (λ _. print_error-Ends _ d v)))))))

  -- What a round that does not overrun the buffer has run.
  abbrev FineRound : Round F → Type 0
  FineRound (runs r) = Fine r
  FineRound overrun = Unit

  main_round-Ends :
      (debug_build : Bool) (free : debug_build ≡ true → (h : Bytes) → H h) (d : Device F)
      → IsSound H d
      → FineRound (main_round c aes secrets debug_build d)
  unfolding main_round
  main_round-Ends debug_build free d v =
      let ((rc, got), p) = read_packet 0 d.control in
      let d1 = record d { control = p } in
      let v1 : IsSound H d1 = record {
        pins = v.pins;
        table = v.table;
        shelf = v.shelf;
        ring = v.ring;
        hash = v.hash;
      } in
      if_keeps FineRound (overruns max_msg_size d.control) (λ _. tt)
        (λ _. cases rc d1 v1 (read_packet-IsBytes 0 d.control))
    where
      cases :
          (rc : MsgStatus) (d1 : Device F)
          → IsSound H d1
          → IsBytes (read_packet 0 d.control).0.1.body
          → let got = (read_packet 0 d.control).0.1 in
            Fine (elim rc [
              | msg_ok ↦ dispatch c aes secrets debug_build got.cmd got.body d1
              | other ↦ print_error (read_error other) d1
            ])
      cases msg_ok d1 v1 b =
          let got = (read_packet 0 d.control).0.1 in
          dispatch-Ends debug_build free got.cmd got.body d1 b v1
      cases msg_timeout d1 v1 b = print_error-Ends _ d1 v1
      cases msg_no_ack d1 v1 b = print_error-Ends _ d1 v1
      cases msg_bad_len d1 v1 b = print_error-Ends _ d1 v1
      cases msg_too_long d1 v1 b = print_error-Ends _ d1 v1

module _ {F C : Type 0} (c : FlashCtl F) (aes : Aes C) (secrets : Secrets) where
  -- What rounds of the loop that stay inside `uart_buf` make of a device, while the lines bring and
  -- take bytes and the TRNG delivers.
  pub data IsReached (debug_build : Bool) (d : Device F) : Device F → Type 0 where
    start : IsReached debug_build d d
    next_round :
        {e e' : Device F}
        → IsReached debug_build d e
        → main_round c aes secrets debug_build e ≡ runs (go tt e')
        → IsReached debug_build d e'
    meanwhile :
        {e : Device F} (control transfer : Port) (captures : List Capture)
        → IsReached debug_build d e
        → IsReached debug_build d (record e {
          control = control;
          transfer = transfer;
          store = record e.store { trng = captures };
        })

  -- A condition on the PIN hash holds on, if a debug build has none.
  reached-keeps :
      {H : Bytes → Type 0} (debug_build : Bool) (free : debug_build ≡ true → (h : Bytes) → H h)
      (d e : Device F)
      → IsSound H d
      → IsReached debug_build d e
      → IsSound H e
  reached-keeps debug_build free d e v start = v
  reached-keeps {H = H} debug_build free d e v (next_round {e = e0} r step) =
      let w =
        main_round-Ends H c aes secrets debug_build free e0
          (reached-keeps debug_build free d e0 v r) in
      (subst (λ (r : Round F). FineRound H c aes secrets r) step w).holds.1
  reached-keeps debug_build free d e v (meanwhile {e = e0} control transfer captures r) =
      let w = reached-keeps debug_build free d e0 v r in
      record {
        pins = w.pins;
        table = IsTable-same e0.store (record e0.store { trng = captures }) refl w.table;
        shelf = w.shelf;
        ring = w.ring;
        hash = w.hash;
      }

  -- The rounds of the main loop, in a debug or a release build, none of which stores a body of
  -- more than 8251 bytes in `uart_buf`, with whatever else comes on both lines and from the TRNG
  -- between and in them, keep the form of the device: a PIN hash of 32 bytes and a counter of 32
  -- bits, eight FAT entries and eight name entries that fit their fields, and a replay cache of
  -- eight with its cursor inside.
  pub reached-IsSound :
      (debug_build : Bool) (d e : Device F)
      → IsSound Any d
      → IsReached debug_build d e
      → IsSound Any e
  reached-IsSound debug_build d e v r = reached-keeps debug_build (λ _ _. tt) d e v r

  -- In a release build, no sequence of rounds of the main loop, none of which stores a body of
  -- more than 8251 bytes in `uart_buf`, changes the PIN hash of a device that has the form that
  -- the rounds keep, whatever else comes on both lines and from the TRNG.
  pub release-keeps_pin :
      (d e : Device F) → IsSound Any d → IsReached false d e → e.pins.pin_hash ≡ d.pins.pin_hash
  release-keeps_pin d e v r =
      let w : IsSound (λ (h : Bytes). h ≡ d.pins.pin_hash) d = record {
        pins = v.pins;
        table = v.table;
        shelf = v.shelf;
        ring = v.ring;
        hash = refl;
      } in
      (reached-keeps false (λ on. absurd (false≢true on)) d e w r).hash
