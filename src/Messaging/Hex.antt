-- ===== src/Messaging/Hex.antt =====
-- What `write_hex` of firmware/src/host_messaging.c sends, and the ACKs that it awaits.
use rutgers_2026_e_ctf_desig.Prelude.{
  ℕ, zero, suc, ◌+◌, ◌*◌, ◌/◌, ◌%◌, ◌≤◌, ◌≡◌, refl, sym, ap, ◌∙◌, true, false, Option, List, [],
  ◌∷◌, ◌++◌, append-nil, append_assoc, arith, Bytes, ltb, ◌==◌, length, Bool-cases, inl, inr,
}
use rutgers_2026_e_ctf_desig.Messaging.{
  MsgStatus, msg_ok, Port, hex_char, write_nibbles, write_hex, needs_ack, header,
}
use rutgers_2026_e_ctf_desig.Messaging.Handshake.{wire, acks}

-- The two digits of every byte.
pub hex : Bytes → Bytes
hex [] = []
hex (b ∷ bs) = hex_char (b / 16 % 16) ∷ hex_char (b % 16) ∷ hex bs

pub length-hex : (bs : Bytes) → length (hex bs) ≡ length bs * 2
unfolding hex
length-hex [] = refl
length-hex (b ∷ bs) = omega (arith, length-hex bs)

-- A status and port with what was sent.
done : List (Option ℕ) → Bytes → MsgStatus × Port
done rest tx = (msg_ok, record { rx = rest; tx = tx })

digits : ℕ → Bytes
digits b = hex_char (b / 16 % 16) ∷ hex_char (b % 16) ∷ []

nibbles-full :
    (b : ℕ) (bs : Bytes) (pos k : ℕ) (rest : List (Option ℕ)) (tx : Bytes)
    → (pos + 2 == 256) ≡ true
    → write_nibbles (b ∷ bs) pos true (record { rx = wire (acks (suc k)) ++ rest; tx = tx })
      ≡ write_nibbles bs 0 true (record { rx = wire (acks k) ++ rest; tx = tx ++ digits b })
unfolding write_nibbles digits acks wire
nibbles-full b bs pos k rest tx full = simp (write_nibbles, full)

nibbles-within :
    (b : ℕ) (bs : Bytes) (pos : ℕ) (rx : List (Option ℕ)) (tx : Bytes)
    → (pos + 2 == 256) ≡ false
    → write_nibbles (b ∷ bs) pos true (record { rx = rx; tx = tx })
      ≡ write_nibbles bs (pos + 2) true (record { rx = rx; tx = tx ++ digits b })
unfolding write_nibbles digits
nibbles-within b bs pos rx tx within = simp (write_nibbles, within)

write_nibbles-acks :
    (bs : Bytes) (pos k : ℕ) (rest : List (Option ℕ)) (tx : Bytes)
    → pos + 2 ≤ 256
    → pos % 2 ≡ 0
    → k ≡ (pos + length bs * 2) / 256
    → write_nibbles bs pos true (record { rx = wire (acks k) ++ rest; tx = tx })
      ≡ (msg_ok, record { rx = rest; tx = tx ++ hex bs })
unfolding write_nibbles hex digits acks wire done
write_nibbles-acks [] pos zero rest tx h e c =
    ap (λ (t : Bytes). (msg_ok, record { rx = rest; tx = t })) (sym (append-nil tx))
write_nibbles-acks [] pos (suc k) rest tx h e c = absurd (omega arith)
write_nibbles-acks (b ∷ bs) pos zero rest tx h e c =
    let within : (pos + 2 == 256) ≡ false = ground arith in
    nibbles-within b bs pos rest tx within
    ∙ write_nibbles-acks bs (pos + 2) 0 rest (tx ++ digits b) (omega arith) (omega arith)
        (omega arith)
    ∙ ap (λ (t : Bytes). (msg_ok, record { rx = rest; tx = t }))
        (append_assoc tx (digits b) (hex bs))
write_nibbles-acks (b ∷ bs) pos (suc k) rest tx h e c =
    let out : done rest ((tx ++ digits b) ++ hex bs) ≡ done rest (tx ++ hex (b ∷ bs)) =
      ap (done rest) (append_assoc tx (digits b) (hex bs)) in
    elim (Bool-cases (pos + 2 == 256)) [
      | inl full ↦
          nibbles-full b bs pos k rest tx full
          ∙ write_nibbles-acks bs 0 k rest (tx ++ digits b) (omega arith) refl (ground arith)
          ∙ out
      | inr within ↦
          nibbles-within b bs pos (wire (acks (suc k)) ++ rest) tx within
          ∙ write_nibbles-acks bs (pos + 2) (suc k) rest (tx ++ digits b) (ground arith)
              (omega arith) (omega arith)
          ∙ out
    ]

-- For an acknowledged type and at most 32767 bytes, `write_hex` sends the header and two digits a
-- byte, and takes one ACK for the header and one for each full block of 256 digits, none for a
-- last block that is not full.
pub write_hex-acks :
    (type_ : ℕ) (bs : Bytes) (rest : List (Option ℕ)) (tx : Bytes)
    → needs_ack type_ ≡ true
    → length bs ≤ 0x7FFF
    → write_hex type_ bs (record { rx = wire (acks (suc (length bs * 2 / 256))) ++ rest; tx = tx })
      ≡ (msg_ok, record { rx = rest; tx = tx ++ (header type_ (length bs * 2) ++ hex bs) })
unfolding write_hex acks wire
write_hex-acks type_ bs rest tx n short =
    let head = header type_ (length bs * 2) in
    let fits : ltb 0x7FFF (length bs) ≡ false = ground arith in
    let body =
      write_nibbles-acks bs 0 (length bs * 2 / 256) rest (tx ++ head) (omega arith) refl
        (omega arith) in
    simp (write_hex, fits, n, body)
      (ap (λ (t : Bytes). (msg_ok, record { rx = rest; tx = t })) (append_assoc tx head (hex bs)))
