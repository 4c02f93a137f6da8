-- ===== src/Messaging.antt =====
-- firmware/src/host_messaging.c: framed packets on a UART, with an ACK for every block.
pub mod Msg
pub mod Handshake
pub mod Receive
pub mod Hex
pub mod Sizes
use rutgers_2026_e_ctf_desig.Messaging.Msg
use rutgers_2026_e_ctf_desig.Prelude.{
  ℕ, zero, suc, ◌+◌, ◌-◌, ◌*◌, ◌/◌, ◌%◌, Bool, true, false, not, ◌&&◌, ◌||◌, Option, none, some,
  List, [], ◌∷◌, ◌++◌, Bytes, u8, u16, le16, ltb, ◌==◌, if◌then◌else◌, length, take, drop,
}

-- `msg_status_t`
pub data MsgStatus : Type 0 where
  msg_ok msg_timeout msg_no_ack msg_bad_len msg_too_long : MsgStatus

abbrev pub msg_magic : ℕ
msg_magic = 0x25

-- One UART: what each coming `uart_readbyte_timeout` returns, `none` for a wait that has elapsed,
-- and the bytes that were written. On the control UART, whose reads wait without end, no `none`
-- stands in the list, and its end is a read that does not return.
pub record Port : Type 0 where
  pub rx : List (Option ℕ)
  pub tx : Bytes

abbrev pub read_byte : Port → Option ℕ × Port
read_byte p = elim p.rx [ [] ↦ (none, p) | b ∷ bs ↦ (b, record p { rx = bs }) ]

abbrev pub send : Bytes → Port → Port
send bs p = record p { tx = p.tx ++ bs }

-- `build_packet`; nonce and tag are 16 bytes.
unfoldable pub build_packet : ℕ → Bytes → Bytes → Bytes → Bytes
build_packet opcode nonce ciphertext tag =
    msg_magic
    ∷ opcode
    ∷ (le16 (u16 (16 + length ciphertext + 16)) ++ (nonce ++ (ciphertext ++ tag)))

-- `await_ack`
unfoldable pub await_ack : Port → MsgStatus × Port
await_ack p =
    let (b0, p0) = read_byte p in
    let (b1, p1) = read_byte p0 in
    let (b2, p2) = read_byte p1 in
    let (b3, p3) = read_byte p2 in
    elim b0 [
      | none ↦ (msg_timeout, p0)
      | some m ↦
          if u8 m == msg_magic
          then elim b1 [
            | none ↦ (msg_timeout, p1)
            | some t ↦
                if u8 t == Msg.ack
                then elim b2 [
                  | none ↦ (msg_timeout, p2)
                  | some _ ↦ elim b3 [ none ↦ (msg_timeout, p3) | some _ ↦ (msg_ok, p3) ]
                ]
                else (msg_no_ack, p1)
          ]
          else (msg_no_ack, p0)
    ]

-- `await_ack` where an ACK is due.
abbrev pub ack_if : Bool → Port → MsgStatus × Port
ack_if should_ack p = if should_ack then await_ack p else (msg_ok, p)

-- The loop of `write_bytes`, on fuel: each round writes a block.
unfoldable pub write_blocks : ℕ → Bytes → Bool → Port → MsgStatus × Port
unfolding await_ack
write_blocks zero data_ should_ack p = (msg_ok, p)
write_blocks (suc fuel) [] should_ack p = (msg_ok, p)
write_blocks (suc fuel) (b ∷ bs) should_ack p =
    let (rc, p1) = ack_if should_ack (send (take 256 (b ∷ bs)) p) in
    let rest = write_blocks fuel (drop 256 (b ∷ bs)) should_ack p1 in
    elim rc [ msg_ok ↦ rest | other ↦ (other, p1) ]

-- `write_bytes`
unfoldable pub write_bytes : Bytes → Bool → Port → MsgStatus × Port
unfolding write_blocks
write_bytes buf should_ack p = write_blocks (length buf) buf should_ack p

-- Whether the peer acknowledges a packet.
unfoldable pub needs_ack : ℕ → Bool
needs_ack type_ = not (type_ == Msg.ack || (type_ == Msg.debug || type_ == Msg.error))

-- `msg_header_t`
abbrev pub header : ℕ → ℕ → Bytes
header type_ len = msg_magic ∷ u8 type_ ∷ le16 len

-- `write_header`
unfoldable pub write_header : ℕ → ℕ → Port → MsgStatus × Port
unfolding await_ack
write_header type_ len p = ack_if (needs_ack type_) (send (header type_ len) p)

-- `write_packet`, of a buffer with `len` bytes.
unfoldable pub write_packet : ℕ → Bytes → Port → MsgStatus × Port
write_packet type_ buf p =
    let (rc, p1) = write_header type_ (length buf) p in
    let body = write_bytes buf (needs_ack type_) p1 in
    elim rc [ msg_ok ↦ (if ltb 0 (length buf) then body else (msg_ok, p1)) | other ↦ (other, p1) ]

-- The macro `write_ack`.
abbrev pub write_ack : Port → Port
write_ack p = (write_packet Msg.ack [] p).1

-- A packet that was received.
pub record Packet : Type 0 where
  pub cmd : ℕ
  pub body : Bytes

-- The loop that drains bytes up to the magic byte; the Boolean is whether it came.
unfoldable pub sync : List (Option ℕ) → Bool × List (Option ℕ)
sync [] = (false, [])
sync (none ∷ bs) = (false, bs)
sync (some b ∷ bs) = let rest = sync bs in if u8 b == msg_magic then (true, bs) else rest

-- The inner loop of a block, with the bytes that are left.
unfoldable pub read_block : ℕ → Port → Option Bytes × Port
read_block zero p = (some [], p)
read_block (suc n) p =
    let (b, p1) = read_byte p in
    let (bs, p2) = read_block n p1 in
    elim b [
      | none ↦ (none, p1)
      | some x ↦ (elim bs [ none ↦ none | some xs ↦ some (u8 x ∷ xs) ], p2)
    ]

-- The bytes that the next block takes.
unfoldable pub block_size : ℕ → ℕ
block_size remaining = if ltb remaining 256 then remaining else 256

-- A block in front of the others.
unfoldable pub join_block : Bytes → Option Bytes × Port → Option Bytes × Port
join_block xs (rest, p) = (elim rest [ none ↦ none | some ys ↦ some (xs ++ ys) ], p)

-- The loop over the body, on fuel: each round reads a block and acknowledges it.
unfoldable pub read_blocks : ℕ → ℕ → Port → Option Bytes × Port
read_blocks zero remaining p = (some [], p)
read_blocks (suc fuel) zero p = (some [], p)
read_blocks (suc fuel) (suc k) p =
    let n = block_size (suc k) in
    let (block, p1) = read_block n p in
    let rest = read_blocks fuel (suc k - n) (write_ack p1) in
    elim block [ none ↦ (none, p1) | some xs ↦ join_block xs rest ]

-- `read_packet` behind the header: `limit` is `*len` on entry. What the out-parameters hold when
-- the status is not `MSG_OK` is not kept, since no caller reads it.
read_body : ℕ → ℕ → ℕ → Port → (MsgStatus × Packet) × Port
read_body limit cmd len p =
    let none_read : Packet = record { cmd = cmd; body = [] } in
    let (body, p1) = read_blocks len len p in
    if not (limit == 0) && ltb limit len then ((msg_bad_len, none_read), p) else elim body [
      | none ↦ ((msg_timeout, none_read), p1)
      | some bs ↦ ((msg_ok, record { cmd = cmd; body = bs }), p1)
    ]

-- `read_packet` behind the drain, whose result is given, up to the ACK of the header.
read_header : ℕ → Bool × List (Option ℕ) → Bytes → (MsgStatus × Packet) × Port
read_header limit (found, bs) tx =
    let failed : MsgStatus × Packet = (msg_timeout, record { cmd = 0; body = [] }) in
    let p0 : Port = record { rx = bs; tx = tx } in
    let (cmd, p1) = read_byte p0 in
    let (lo, p2) = read_byte p1 in
    let (hi, p3) = read_byte p2 in
    if found
    then elim cmd [
      | none ↦ (failed, p1)
      | some t ↦ elim lo [
        | none ↦ (failed, p3)
        | some l ↦ elim hi [
          | none ↦ (failed, p3)
          | some h ↦ read_body limit t (u16 (l + h * 256)) (write_ack p3)
        ]
      ]
    ]
    else (failed, p0)

-- `read_packet`, and `read_packet_timeout`, which only waits another time for the magic byte.
unfoldable pub read_packet : ℕ → Port → (MsgStatus × Packet) × Port
unfolding sync read_body read_header
read_packet limit p = read_header limit (sync p.rx) p.tx

abbrev hex_char : ℕ → ℕ
hex_char n = if ltb n 10 then 48 + n else 87 + n

-- The loop of `write_hex`, with the place in the block.
write_nibbles : Bytes → ℕ → Bool → Port → MsgStatus × Port
unfolding await_ack
write_nibbles [] block_pos should_ack p = (msg_ok, p)
write_nibbles (b ∷ bs) block_pos should_ack p =
    let full = block_pos + 2 == 256 in
    let p1 = send (hex_char (b / 16 % 16) ∷ hex_char (b % 16) ∷ []) p in
    let (rc, p2) = if full then ack_if should_ack p1 else (msg_ok, p1) in
    let rest = write_nibbles bs (if full then 0 else block_pos + 2) should_ack p2 in
    elim rc [ msg_ok ↦ rest | other ↦ (other, p2) ]

-- `write_hex`; `msg_too_long` is its return of -1.
unfoldable pub write_hex : ℕ → Bytes → Port → MsgStatus × Port
unfolding await_ack write_nibbles
write_hex type_ buf p =
    let (rc, p1) = ack_if (needs_ack type_) (send (header type_ (length buf * 2)) p) in
    let body = write_nibbles buf 0 (needs_ack type_) p1 in
    if ltb 0x7FFF (length buf)
    then (msg_too_long, p)
    else elim rc [ msg_ok ↦ body | other ↦ (other, p1) ]
