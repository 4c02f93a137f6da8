-- ===== src/Messaging/Receive.antt =====
-- What `read_packet` of firmware/src/host_messaging.c makes of a packet that `write_packet` sent.
use rutgers_2026_e_ctf_desig.Prelude.{
  ℕ, suc, ◌+◌, ◌*◌, ◌/◌, ◌%◌, ◌≤◌, ◌<◌, ◌^◌, ◌≡◌, ◌≢◌, ◌⊎◌, refl, ap, ap₂, ◌∙◌, Bool, true, false,
  not, ◌&&◌, Option, some, List, [], ◌∷◌, ◌++◌, append_assoc, arith, Bytes, IsBytes, u8, u16, ltb,
  ◌==◌, length,
}
use rutgers_2026_e_ctf_desig.Messaging.{
  MsgStatus, msg_ok, msg_bad_len, Port, Packet, write_packet, write_ack, needs_ack, header, sync,
  read_body, read_packet, read_header, msg_magic,
}
use rutgers_2026_e_ctf_desig.Messaging.Handshake.{
  wire, acks, blocks, frame, ack_bytes, write_ack-send, read_blocks-wire, write_packet-acks,
}

-- Bytes that `read_packet` drains: none is the magic byte.
unfoldable pub IsNoise : Bytes → Type 0
IsNoise [] = Unit {0}
IsNoise (b ∷ bs) = ((u8 b == msg_magic) ≡ false) × IsNoise bs

pub sync-noise :
    (noise : Bytes) (rest : List (Option ℕ))
    → IsNoise noise
    → sync (wire noise ++ (some msg_magic ∷ rest)) ≡ (true, rest)
unfolding sync wire IsNoise
sync-noise [] rest n = refl
sync-noise (b ∷ bs) rest n = let skip = n.0 in let ih = sync-noise bs rest n.1 in simp (skip, ih)

-- The limit lets a length through.
abbrev pub Fits : ℕ → ℕ → Type 0
Fits limit len = (limit ≡ 0) ⊎ (len ≤ limit)

read_body-Fits :
    (limit cmd : ℕ) (bs : Bytes) (rest : List (Option ℕ)) (tx : Bytes)
    → Fits limit (length bs)
    → IsBytes bs
    → read_body limit cmd (length bs) (record { rx = wire bs ++ rest; tx = tx }) ≡ (
      (msg_ok, record { cmd = cmd; body = bs }),
      record { rx = rest; tx = tx ++ acks (blocks (length bs)) },
    )
unfolding read_body
read_body-Fits limit cmd bs rest tx fits v =
    let body = read_blocks-wire (length bs) (blocks (length bs)) bs rest tx (omega arith) refl v in
    let through : (not (limit == 0) && ltb limit (length bs)) ≡ false = ground (arith, fits) in
    simp (read_body, through, body)

read_body-long :
    (limit cmd len : ℕ) (p : Port)
    → limit ≢ 0
    → limit < len
    → read_body limit cmd len p ≡ ((msg_bad_len, record { cmd = cmd; body = [] }), p)
unfolding read_body
read_body-long limit cmd len p nz long =
    let refused : (not (limit == 0) && ltb limit len) ≡ true = ground arith in
    simp (read_body, refused)

wire-frame :
    (type_ : ℕ) (bs : Bytes) (rest : List (Option ℕ))
    → wire (frame type_ bs) ++ rest ≡ wire (header type_ (length bs)) ++ (wire bs ++ rest)
unfolding wire
wire-frame type_ bs rest = refl

-- The header is read and acknowledged; the length is what the sender counted.
read_packet-header :
    (limit type_ len : ℕ) (noise : Bytes) (rest : List (Option ℕ)) (tx : Bytes)
    → type_ < 256
    → len < 2 ^ 16
    → IsNoise noise
    → read_packet limit (record { rx = wire noise ++ (wire (header type_ len) ++ rest); tx = tx })
      ≡ read_body limit type_ len (record { rx = rest; tx = tx ++ ack_bytes })
unfolding read_packet read_header wire
read_packet-header limit type_ len noise rest tx t l n =
    let whole : u8 type_ ≡ type_ = omega arith in
    let counted : u16 (len % 256 + len / 256 % 256 * 256) ≡ len = omega arith in
    let found =
      sync-noise noise (some (u8 type_) ∷ some (len % 256) ∷ some (len / 256 % 256) ∷ rest) n in
    ap (λ (r : Bool × List (Option ℕ)). read_header limit r tx) found
    ∙ ap₂ (λ (c m : ℕ). read_body limit c m (write_ack (record { rx = rest; tx = tx }))) whole
        counted
    ∙ ap (read_body limit type_ len) (write_ack-send (record { rx = rest; tx = tx }))

pub read_packet-frame :
    (limit type_ : ℕ) (bs noise : Bytes) (rest : List (Option ℕ)) (tx : Bytes)
    → type_ < 256
    → length bs < 2 ^ 16
    → IsBytes bs
    → IsNoise noise
    → Fits limit (length bs)
    → read_packet limit (record { rx = wire noise ++ (wire (frame type_ bs) ++ rest); tx = tx }) ≡ (
      (msg_ok, record { cmd = type_; body = bs }),
      record { rx = rest; tx = tx ++ acks (suc (blocks (length bs))) },
    )
unfolding acks
read_packet-frame limit type_ bs noise rest tx t l v n fits =
    let line =
      λ (r : List (Option ℕ)). read_packet limit (record { rx = wire noise ++ r; tx = tx }) in
    ap line (wire-frame type_ bs rest)
    ∙ read_packet-header limit type_ (length bs) noise (wire bs ++ rest) tx t l n
    ∙ read_body-Fits limit type_ bs rest (tx ++ ack_bytes) fits v
    ∙ ap
        (λ (o : Bytes). ((msg_ok, record { cmd = type_; body = bs }), record { rx = rest; tx = o }))
        (append_assoc tx ack_bytes (acks (blocks (length bs))))

-- A packet that is longer than a limit other than 0 makes `read_packet` return MSG_BAD_LEN behind
-- any noise without the magic byte: only the header is acknowledged, and the whole body stays on
-- the line.
pub read_packet-long :
    (limit type_ : ℕ) (bs noise : Bytes) (rest : List (Option ℕ)) (tx : Bytes)
    → type_ < 256
    → length bs < 2 ^ 16
    → IsNoise noise
    → limit ≢ 0
    → limit < length bs
    → read_packet limit (record { rx = wire noise ++ (wire (frame type_ bs) ++ rest); tx = tx }) ≡ (
      (msg_bad_len, record { cmd = type_; body = [] }),
      record { rx = wire bs ++ rest; tx = tx ++ ack_bytes },
    )
read_packet-long limit type_ bs noise rest tx t l n nz long =
    let line =
      λ (r : List (Option ℕ)). read_packet limit (record { rx = wire noise ++ r; tx = tx }) in
    ap line (wire-frame type_ bs rest)
    ∙ read_packet-header limit type_ (length bs) noise (wire bs ++ rest) tx t l n
    ∙ read_body-long limit type_ (length bs) (record { rx = wire bs ++ rest; tx = tx ++ ack_bytes })
        nz long

-- A packet of an acknowledged type below 256 with at most 65535 bytes, within the reader's limit
-- or with no limit, that `write_packet` puts on the line is read by `read_packet` with its type
-- and body and nothing of what follows; and the ACKs that the reader sends are exactly those with
-- which the writer ends in success.
pub write_packet-read_packet :
    (limit type_ : ℕ) (bs : Bytes) (rest more : List (Option ℕ))
    → type_ < 256
    → needs_ack type_ ≡ true
    → length bs < 2 ^ 16
    → IsBytes bs
    → Fits limit (length bs)
    → let got = read_packet limit (record { rx = wire (frame type_ bs) ++ more; tx = [] }) in
      (got.0 ≡ (msg_ok, record { cmd = type_; body = bs }))
      × (got.1.rx ≡ more)
      × (write_packet type_ bs (record { rx = wire got.1.tx ++ rest; tx = [] })
          ≡ (msg_ok, record { rx = rest; tx = frame type_ bs }))
unfolding wire IsNoise
write_packet-read_packet limit type_ bs rest more t a l v fits =
    let r = read_packet-frame limit type_ bs [] more [] t l v tt fits in
    (
      ap (λ (x : (MsgStatus × Packet) × Port). x.0) r,
      ap (λ (x : (MsgStatus × Packet) × Port). x.1.rx) r,
      ap
            (λ (x : (MsgStatus × Packet) × Port).
              write_packet type_ bs (record { rx = wire x.1.tx ++ rest; tx = [] }))
            r
          ∙ write_packet-acks type_ bs rest [] a,
    )
