-- ===== src/Messaging/Handshake.antt =====
-- Both ends of a packet of firmware/src/host_messaging.c: what `write_packet` sends and awaits, and
-- what `read_packet` takes and acknowledges.
use rutgers_2026_e_ctf_desig.Prelude.{
  ℕ, zero, suc, ◌+◌, ◌-◌, ◌/◌, ◌≤◌, ◌<◌, ◌≡◌, refl, sym, ap, ap₂, ◌∙◌, true, Option, some, List, [],
  ◌∷◌, ◌++◌, map, append-nil, append_assoc, arith, Bytes, IsBytes, u8, ltb, length, take, drop,
  length-drop, length-take, take-append-drop,
}
use rutgers_2026_e_ctf_desig.Messaging.{
  msg_ok, Port, send, await_ack, write_blocks, write_bytes, write_header, write_packet, write_ack,
  needs_ack, header, read_block, read_blocks, block_size, join_block,
}

-- Bytes as they arrive on the other end.
unfoldable pub wire : Bytes → List (Option ℕ)
wire bs = map some bs

-- The blocks that `n` bytes take.
abbrev pub blocks : ℕ → ℕ
blocks n = (n + 255) / 256

abbrev pub ack_bytes : Bytes
ack_bytes = header 0x41 0

-- `n` ACK packets.
unfoldable pub acks : ℕ → Bytes
acks zero = []
acks (suc n) = ack_bytes ++ acks n

-- An ACK that has arrived satisfies `await_ack`.
await_ack-acks :
    (rest : List (Option ℕ)) (tx : Bytes)
    → await_ack (record { rx = wire ack_bytes ++ rest; tx = tx })
      ≡ (msg_ok, record { rx = rest; tx = tx })
unfolding await_ack wire
await_ack-acks rest tx = refl

pub write_ack-send : (p : Port) → write_ack p ≡ send ack_bytes p
unfolding write_packet write_header needs_ack
write_ack-send p = refl

pub wire-append : (a b : Bytes) → wire (a ++ b) ≡ wire a ++ wire b
unfolding wire
wire-append [] b = refl
wire-append (x ∷ xs) b = ap (λ (l : List (Option ℕ)). some x ∷ l) (wire-append xs b)

wire-take-drop :
    (n : ℕ) (xs : Bytes) (rest : List (Option ℕ))
    → wire xs ++ rest ≡ wire (take n xs) ++ (wire (drop n xs) ++ rest)
wire-take-drop n xs rest =
    ap (λ (l : Bytes). wire l ++ rest) (sym (take-append-drop n xs))
    ∙ ap (λ (l : List (Option ℕ)). l ++ rest) (wire-append (take n xs) (drop n xs))
    ∙ append_assoc (wire (take n xs)) (wire (drop n xs)) rest

-- The writer's side of the body: every block is sent, and its ACK taken.
write_blocks-acks :
    (fuel k : ℕ) (bs : Bytes) (rest : List (Option ℕ)) (tx : Bytes)
    → length bs ≤ fuel
    → k ≡ blocks (length bs)
    → write_blocks fuel bs true (record { rx = wire (acks k) ++ rest; tx = tx })
      ≡ (msg_ok, record { rx = rest; tx = tx ++ bs })
unfolding write_blocks acks wire
write_blocks-acks zero zero [] rest tx h e =
    ap (λ (t : Bytes). (msg_ok, record { rx = rest; tx = t })) (sym (append-nil tx))
write_blocks-acks zero (suc k) [] rest tx h e = absurd (omega arith)
write_blocks-acks zero k (b ∷ bs) rest tx h e = absurd (omega arith)
write_blocks-acks (suc fuel) zero [] rest tx h e =
    ap (λ (t : Bytes). (msg_ok, record { rx = rest; tx = t })) (sym (append-nil tx))
write_blocks-acks (suc fuel) (suc k) [] rest tx h e = absurd (omega arith)
write_blocks-acks (suc fuel) zero (b ∷ bs) rest tx h e = absurd (omega arith)
write_blocks-acks (suc fuel) (suc k) (b ∷ bs) rest tx h e =
    let d : Bytes = b ∷ bs in
    let left = length-drop 256 d in
    let sent = tx ++ take 256 d in
    let ih =
      write_blocks-acks fuel k (drop 256 d) rest sent (omega (arith, left))
        (omega (arith, left, e)) in
    ih
    ∙ ap (λ (t : Bytes). (msg_ok, record { rx = rest; tx = t }))
        (append_assoc tx (take 256 d) (drop 256 d)
          ∙ ap (λ (t : Bytes). tx ++ t) (take-append-drop 256 d))

-- The frame of a packet on the line.
abbrev pub frame : ℕ → Bytes → Bytes
frame type_ bs = header type_ (length bs) ++ bs

write_header-acks :
    (type_ len k : ℕ) (rest : List (Option ℕ)) (tx : Bytes)
    → needs_ack type_ ≡ true
    → write_header type_ len (record { rx = wire (acks (suc k)) ++ rest; tx = tx })
      ≡ (msg_ok, record { rx = wire (acks k) ++ rest; tx = tx ++ header type_ len })
unfolding acks wire write_header
write_header-acks type_ len k rest tx n = simp (write_header, n)

write_packet-body :
    (type_ b : ℕ) (bs : Bytes) (p : Port) {p1 : Port}
    → needs_ack type_ ≡ true
    → write_header type_ (suc (length bs)) p ≡ (msg_ok, p1)
    → write_packet type_ (b ∷ bs) p ≡ write_bytes (b ∷ bs) true p1
unfolding write_packet
write_packet-body type_ b bs p n h =
    let long : ltb 0 (suc (length bs)) ≡ true = ground arith in simp (write_packet, h, n, long)

pub write_packet-acks :
    (type_ : ℕ) (bs : Bytes) (rest : List (Option ℕ)) (tx : Bytes)
    → needs_ack type_ ≡ true
    → write_packet type_ bs
        (record { rx = wire (acks (suc (blocks (length bs)))) ++ rest; tx = tx })
      ≡ (msg_ok, record { rx = rest; tx = tx ++ frame type_ bs })
unfolding write_bytes write_packet acks wire
write_packet-acks type_ [] rest tx n = simp (write_packet, write_header-acks type_ 0 0 rest tx n)
write_packet-acks type_ (b ∷ bs) rest tx n =
    let d : Bytes = b ∷ bs in
    let k = blocks (length d) in
    let head = header type_ (length d) in
    write_packet-body type_ b bs (record { rx = wire (acks (suc k)) ++ rest; tx = tx }) n
      (write_header-acks type_ (length d) k rest tx n)
    ∙ write_blocks-acks (length d) k d rest (tx ++ head) (omega arith) refl
    ∙ ap (λ (t : Bytes). (msg_ok, record { rx = rest; tx = t })) (append_assoc tx head d)

-- The reader's side.
read_block-wire :
    (n : ℕ) (xs : Bytes) (rest : List (Option ℕ)) (tx : Bytes)
    → length xs ≡ n
    → IsBytes xs
    → read_block n (record { rx = wire xs ++ rest; tx = tx })
      ≡ (some xs, record { rx = rest; tx = tx })
unfolding read_block wire
read_block-wire zero [] rest tx e v = refl
read_block-wire zero (x ∷ xs) rest tx e v = absurd (omega arith)
read_block-wire (suc n) [] rest tx e v = absurd (omega arith)
read_block-wire (suc n) (x ∷ xs) rest tx e v =
    let whole : u8 x ≡ x = omega (arith, v.0) in
    let ih = read_block-wire n xs rest tx (omega arith) v.1 in simp (ih, whole)

take-IsBytes : (n : ℕ) (xs : Bytes) → IsBytes xs → IsBytes (take n xs)
take-IsBytes zero xs v = tt
take-IsBytes (suc n) [] v = tt
take-IsBytes (suc n) (x ∷ xs) v = (v.0, take-IsBytes n xs v.1)

drop-IsBytes : (n : ℕ) (xs : Bytes) → IsBytes xs → IsBytes (drop n xs)
drop-IsBytes zero xs v = v
drop-IsBytes (suc n) [] v = tt
drop-IsBytes (suc n) (x ∷ xs) v = drop-IsBytes n xs v.1

block_size_lem :
    (k : ℕ)
    → let n = block_size (suc k) in
      (n ≤ suc k) × (0 < n) × (blocks (suc k) ≡ 1 + blocks (suc k - n))
unfolding block_size
block_size_lem k = ground arith

read_blocks-step :
    (fuel k : ℕ) (p : Port) {xs : Bytes} {p1 : Port}
    → read_block (block_size (suc k)) p ≡ (some xs, p1)
    → read_blocks (suc fuel) (suc k) p
      ≡ join_block xs (read_blocks fuel (suc k - block_size (suc k)) (send ack_bytes p1))
unfolding read_blocks
read_blocks-step fuel k p {xs} {p1} e = simp (read_blocks, e, write_ack-send p1)

pub read_blocks-wire :
    (fuel k : ℕ) (xs : Bytes) (rest : List (Option ℕ)) (tx : Bytes)
    → length xs ≤ fuel
    → k ≡ blocks (length xs)
    → IsBytes xs
    → read_blocks fuel (length xs) (record { rx = wire xs ++ rest; tx = tx })
      ≡ (some xs, record { rx = rest; tx = tx ++ acks k })
unfolding read_blocks join_block acks wire
read_blocks-wire zero zero [] rest tx h e v =
    ap (λ (t : Bytes). (some [], record { rx = rest; tx = t })) (sym (append-nil tx))
read_blocks-wire zero (suc k) [] rest tx h e v = absurd (omega arith)
read_blocks-wire zero k (b ∷ bs) rest tx h e v = absurd (omega arith)
read_blocks-wire (suc fuel) zero [] rest tx h e v =
    ap (λ (t : Bytes). (some [], record { rx = rest; tx = t })) (sym (append-nil tx))
read_blocks-wire (suc fuel) (suc k) [] rest tx h e v = absurd (omega arith)
read_blocks-wire (suc fuel) zero (b ∷ bs) rest tx h e v = absurd (omega arith)
read_blocks-wire (suc fuel) (suc k) (b ∷ bs) rest tx h e v =
    let d : Bytes = b ∷ bs in
    let n = block_size (length d) in
    let (le, pos, count) = block_size_lem (length bs) in
    let left = length-drop n d in
    let taken = length-take n d in
    let block =
      read_block-wire n (take n d) (wire (drop n d) ++ rest) tx (omega (arith, taken, le))
        (take-IsBytes n d v) in
    let ih =
      read_blocks-wire fuel k (drop n d) rest (tx ++ ack_bytes) (omega (arith, left, le, pos))
        (omega (arith, e, count, left)) (drop-IsBytes n d v) in
    let split =
      λ (r : List (Option ℕ)). read_blocks (suc fuel) (length d) (record { rx = r; tx = tx }) in
    let at_front : Port = record { rx = wire (take n d) ++ (wire (drop n d) ++ rest); tx = tx } in
    let behind : Port = record { rx = wire (drop n d) ++ rest; tx = tx ++ ack_bytes } in
    ap split (wire-take-drop n d rest)
    ∙ read_blocks-step fuel (length bs) at_front block
    ∙ ap (λ (m : ℕ). join_block (take n d) (read_blocks fuel m behind)) (sym left)
    ∙ ap (join_block (take n d)) ih
    ∙ ap₂ (λ (x t : Bytes). (some x, record { rx = rest; tx = t })) (take-append-drop n d)
        (append_assoc tx ack_bytes (acks k))
