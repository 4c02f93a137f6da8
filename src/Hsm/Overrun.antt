-- ===== src/Hsm/Overrun.antt =====
-- The packets that a round of the main loop of firmware/src/HSM.c takes, and `uart_buf`.
use rutgers_2026_e_ctf_desig.Prelude.{
  ℕ, zero, suc, ◌+◌, ◌*◌, ◌/◌, ◌%◌, ◌≤◌, ◌<◌, ◌^◌, ◌≡◌, refl, ap, ◌∙◌, Bool, true, ◌&&◌, Option,
  List, [], ◌∷◌, ◌++◌, arith, Bytes, IsBytes, u16, ltb, length, if◌then◌else◌, inl, inr, Bool-cases,
  ltb→lt,
}
use rutgers_2026_e_ctf_desig.Flash.{FlashCtl}
use rutgers_2026_e_ctf_desig.Crypto.{Aes}
use rutgers_2026_e_ctf_desig.Security.{Secrets}
use rutgers_2026_e_ctf_desig.Messaging.{Port, sync, read_packet}
use rutgers_2026_e_ctf_desig.Messaging.Handshake.{wire, acks, blocks, frame}
use rutgers_2026_e_ctf_desig.Messaging.Receive.{IsNoise, sync-noise, read_packet-frame}
use rutgers_2026_e_ctf_desig.Device.{Device}
use rutgers_2026_e_ctf_desig.Hsm.{
  announced, arrives, overruns, max_msg_size, runs, overrun, dispatch, main_round,
}

-- Bytes on the line arrive.
arrives-wire :
    (n : ℕ) (bs : Bytes) (rest : List (Option ℕ))
    → n ≤ length bs
    → arrives n (wire bs ++ rest) ≡ true
unfolding arrives wire
arrives-wire zero bs rest h = refl
arrives-wire (suc n) [] rest h = absurd (omega arith)
arrives-wire (suc n) (b ∷ bs) rest h = arrives-wire n bs rest (omega arith)

announced-frame :
    (type_ : ℕ) (bs noise : Bytes) (rest : List (Option ℕ))
    → length bs < 2 ^ 16
    → IsNoise noise
    → announced (sync (wire noise ++ (wire (frame type_ bs) ++ rest)))
      ≡ (length bs, wire bs ++ rest)
unfolding announced wire
announced-frame type_ bs noise rest l n =
    let counted : u16 (length bs % 256 + length bs / 256 % 256 * 256) ≡ length bs = omega arith in
    ap announced (sync-noise noise _ n) ∙ ap (λ (m : ℕ). (m, wire bs ++ rest)) counted

-- A packet overruns a buffer that is shorter than its body.
overruns-frame :
    (size type_ : ℕ) (bs noise : Bytes) (rest : List (Option ℕ)) (p : Port)
    → length bs < 2 ^ 16
    → IsNoise noise
    → p.rx ≡ wire noise ++ (wire (frame type_ bs) ++ rest)
    → overruns size p ≡ ltb size (length bs)
unfolding overruns
overruns-frame size type_ bs noise rest p l n line =
    ap (λ (rx : List (Option ℕ)). in_body (announced (sync rx))) line
    ∙ ap in_body (announced-frame type_ bs noise rest l n)
    ∙ all_arrive
  where
    in_body : ℕ × List (Option ℕ) → Bool
    in_body (len, body) = ltb size len && arrives (size + 1) body

    all_arrive :
        (ltb size (length bs) && arrives (size + 1) (wire bs ++ rest)) ≡ ltb size (length bs)
    all_arrive = elim (Bool-cases (ltb size (length bs))) [
      | inl long ↦
          let whole =
            arrives-wire (size + 1) bs rest (omega (arith, ltb→lt size (length bs) long)) in
          simp (long, whole)
      | inr short ↦ simp short
    ]

module _ {F C : Type 0} (c : FlashCtl F) (aes : Aes C) (secrets : Secrets) where
  -- For a packet of a type below 256 with at most 65535 bytes, behind any noise without the magic
  -- byte, a round of the main loop overruns `uart_buf` exactly if the packet has more than 8251
  -- bytes; else it runs the handlers on its type and all of its bytes, with the packet taken from
  -- the line and one ACK sent for the header and for each block.
  pub main_round-frame :
      (debug_build : Bool) (d : Device F) (type_ : ℕ) (bs noise : Bytes) (rest : List (Option ℕ))
      → type_ < 256
      → length bs < 2 ^ 16
      → IsBytes bs
      → IsNoise noise
      → d.control.rx ≡ wire noise ++ (wire (frame type_ bs) ++ rest)
      → main_round c aes secrets debug_build d ≡ (
          if ltb max_msg_size (length bs)
          then overrun
          else runs (
              dispatch c aes secrets debug_build type_ bs (record d {
                control = record {
                  rx = rest;
                  tx = d.control.tx ++ acks (suc (blocks (length bs)));
                };
              })))
  unfolding main_round overruns
  main_round-frame debug_build d type_ bs noise rest t l v n line =
      let over = overruns-frame max_msg_size type_ bs noise rest d.control l n line in
      let got =
        ap (λ (rx : List (Option ℕ)). read_packet 0 (record { rx = rx; tx = d.control.tx })) line
        ∙ read_packet-frame 0 type_ bs noise rest d.control.tx t l v n (inl refl) in
      elim (Bool-cases (ltb max_msg_size (length bs))) [
        | inl long ↦ simp (main_round, over, long)
        | inr fits ↦ simp (main_round, over, fits, got)
      ]
