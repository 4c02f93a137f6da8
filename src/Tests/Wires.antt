-- ===== src/Tests/Wires.antt =====
-- Packets between two ends.
use rutgers_2026_e_ctf_desig.Prelude.{◌≡◌, refl, true, none, some, [], ◌∷◌, ◌++◌, arith, Bytes, inr}
use rutgers_2026_e_ctf_desig.Messaging.{
  msg_ok, msg_bad_len, read_packet, write_packet, write_hex, needs_ack, header,
}
use rutgers_2026_e_ctf_desig.Messaging.Handshake.{wire, acks, frame, ack_bytes}
use rutgers_2026_e_ctf_desig.Messaging.Receive.{write_packet-read_packet, read_packet-long, IsNoise}
use rutgers_2026_e_ctf_desig.Messaging.Hex.{hex, write_hex-acks}

abbrev greeting : Bytes
greeting = 104 ∷ 105 ∷ []

list_needs_ack : needs_ack 0x4C ≡ true
unfolding needs_ack
list_needs_ack = refl

nothing-IsNoise : IsNoise []
unfolding IsNoise
nothing-IsNoise = tt

write_packet-read_packet_example :
    let got = read_packet 8 (record { rx = wire (frame 0x4C greeting) ++ (none ∷ []); tx = [] }) in
    (got.0 ≡ (msg_ok, record { cmd = 0x4C; body = greeting }))
    × (got.1.rx ≡ none ∷ [])
    × (write_packet 0x4C greeting (record { rx = wire got.1.tx ++ []; tx = [] })
        ≡ (msg_ok, record { rx = []; tx = frame 0x4C greeting }))
write_packet-read_packet_example =
    write_packet-read_packet 8 0x4C greeting [] (none ∷ []) (omega arith) list_needs_ack
      (omega arith) (omega arith) (inr (omega arith))

read_packet-long_example :
    read_packet 1 (record { rx = wire [] ++ (wire (frame 0x4C greeting) ++ []); tx = [] }) ≡ (
      (msg_bad_len, record { cmd = 0x4C; body = [] }),
      record { rx = wire greeting ++ []; tx = [] ++ ack_bytes },
    )
read_packet-long_example =
    read_packet-long 1 0x4C greeting [] [] [] (omega arith) (omega arith) nothing-IsNoise
      (omega arith) (omega arith)

write_hex-acks_example :
    write_hex 0x4C greeting (record { rx = wire (acks 1) ++ (some 7 ∷ []); tx = [] })
    ≡ (msg_ok, record { rx = some 7 ∷ []; tx = [] ++ (header 0x4C 4 ++ hex greeting) })
write_hex-acks_example = write_hex-acks 0x4C greeting (some 7 ∷ []) [] list_needs_ack (omega arith)
