-- ===== src/Messaging/Sizes.antt =====
-- What `read_packet` of firmware/src/host_messaging.c gives is bytes.
use rutgers_2026_e_ctf_desig.Prelude.{
  ℕ, zero, suc, ◌-◌, ◌+◌, ◌*◌, ◌<◌, ◌≡◌, Option, none, some, [], ◌∷◌, ◌++◌, arith, Bytes, IsBytes,
  byte_at, u8, u16, ltb, not, ◌&&◌, ◌==◌, if_keeps, option_keeps,
}
use mathlib.Core.Path.{subst}
use mathlib.Core.Option.{some-injective, none-ne-some}
use rutgers_2026_e_ctf_desig.Sha256.Hmac.{IsBytes-append}
use rutgers_2026_e_ctf_desig.Messaging.{
  MsgStatus, Packet, Port, read_byte, read_block, block_size, join_block, read_blocks, write_ack,
  read_body, read_header, sync, read_packet,
}

-- What was received, if anything, is bytes.
record Received (r : Option Bytes × Port) : Type 0 where
  bytes : (bs : Bytes) → r.0 ≡ some bs → IsBytes bs

nothing-Received : (p : Port) → Received (none, p)
nothing-Received p = record { bytes = λ bs e. absurd (none-ne-some bs e) }

some-Received : (bs : Bytes) (p : Port) → IsBytes bs → Received (some bs, p)
some-Received bs p v = record { bytes = λ xs e. subst IsBytes (some-injective bs xs e) v }

read_block-Received : (n : ℕ) (p : Port) → Received (read_block n p)
unfolding read_block
read_block-Received zero p = some-Received [] p tt
read_block-Received (suc n) p =
    let (b, p1) = read_byte p in
    let (bs, p2) = read_block n p1 in
    let rest = read_block-Received n p1 in
    option_keeps Received b (nothing-Received p1) λ x _.
      option_keeps (λ (o : Option Bytes). Received (o, p2)) bs (nothing-Received p2)
        λ xs e. some-Received (u8 x ∷ xs) p2 (omega arith, rest.bytes xs e)

join_block-Received :
    (xs : Bytes) (r : Option Bytes × Port) → IsBytes xs → Received r → Received (join_block xs r)
unfolding join_block
join_block-Received xs (rest, p) v w =
    option_keeps (λ (o : Option Bytes). Received (o, p)) rest (nothing-Received p)
      λ ys e. some-Received (xs ++ ys) p (IsBytes-append xs ys v (w.bytes ys e))

read_blocks-Received : (fuel n : ℕ) (p : Port) → Received (read_blocks fuel n p)
unfolding read_blocks
read_blocks-Received zero n p = some-Received [] p tt
read_blocks-Received (suc fuel) zero p = some-Received [] p tt
read_blocks-Received (suc fuel) (suc k) p =
    let n = block_size (suc k) in
    let block = read_block n p in
    option_keeps Received block.0 (nothing-Received block.1) λ xs e.
      join_block-Received xs (read_blocks fuel (suc k - n) (write_ack block.1))
        ((read_block-Received n p).bytes xs e)
        (read_blocks-Received fuel (suc k - n) (write_ack block.1))

abbrev AllBytes : (MsgStatus × Packet) × Port → Type 0
AllBytes r = IsBytes r.0.1.body

read_body-IsBytes : (limit cmd len : ℕ) (p : Port) → IsBytes (read_body limit cmd len p).0.1.body
unfolding read_body
read_body-IsBytes limit cmd len p =
    let (body, p1) = read_blocks len len p in
    if_keeps AllBytes (not (limit == 0) && ltb limit len) (λ _. tt)
      (λ _. option_keeps AllBytes body tt λ bs e. (read_blocks-Received len len p).bytes bs e)

pub read_packet-IsBytes : (limit : ℕ) (p : Port) → IsBytes (read_packet limit p).0.1.body
unfolding read_packet read_header
read_packet-IsBytes limit p =
    let (found, bs) = sync p.rx in
    let (cmd, p1) = read_byte (record { rx = bs; tx = p.tx }) in
    let (lo, p2) = read_byte p1 in
    let (hi, p3) = read_byte p2 in
    if_keeps AllBytes found
      (λ _. option_keeps AllBytes cmd tt λ t _. option_keeps AllBytes lo tt λ l _.
        option_keeps AllBytes hi tt
          λ h _. read_body-IsBytes limit t (u16 (l + h * 256)) (write_ack p3))
      (λ _. tt)

pub byte_at-lt : (bs : Bytes) (i : ℕ) → IsBytes bs → byte_at bs i < 256
byte_at-lt [] i v = omega arith
byte_at-lt (b ∷ bs) zero v = v.0
byte_at-lt (b ∷ bs) (suc i) v = byte_at-lt bs i v.1
