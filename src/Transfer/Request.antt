-- ===== src/Transfer/Request.antt =====
-- The handlers of firmware/src/commands.c that ask another module: receive and interrogate.

use rutgers_2026_e_ctf_desig.Messaging.Msg
use rutgers_2026_e_ctf_desig.Prelude.{
  ℕ, ◌+◌, Bool, true, false, not, ◌&&◌, Option, none, some, List, [], ◌∷◌, ◌++◌, Bytes, byte_at,
  le16, le32, ltb, ◌==◌, if◌then◌else◌, length, take,
}
use rutgers_2026_e_ctf_desig.Flash.{FlashCtl}
use rutgers_2026_e_ctf_desig.Crypto.{Aes, RootSecret, receive_proof_sign}
use rutgers_2026_e_ctf_desig.SecureDesign.{get_root_secret}
use rutgers_2026_e_ctf_desig.Security.{
  Secrets, GroupPermission, perm_receive, validate_permission, get_pin_hash, pin_length,
}
use rutgers_2026_e_ctf_desig.Messaging.{MsgStatus, msg_ok}
use rutgers_2026_e_ctf_desig.Device.{
  Ret, Cmd, ◌>>=◌, ◌>>◌, chars, require, need, answer, answer_status, to_peer, from_peer,
  draw_nonce,
}
use rutgers_2026_e_ctf_desig.Commands.{pin_of, pin_gate, max_contents_size}
use rutgers_2026_e_ctf_desig.Commands.Files.{store_blob}
use rutgers_2026_e_ctf_desig.Transfer.{
  ReceiveRequest, encode_request, ReceiveChallenge, decode_challenge, encode_proof,
  decode_interrogation, GroupProof, InterrogateProof, encode_interrogate_proof, ReceiveResponse,
  decode_response, response_size, max_perms,
}

-- `rc == MSG_OK`
abbrev pub is_sent : MsgStatus → Bool
is_sent msg_ok = true
is_sent _ = false

abbrev pub no_response : Bytes
no_response = chars "No response from target HSM\n"

-- What `receive` asks of the challenge, behind its type and length.
unfoldable pub challenge_ok : ReceiveRequest → ReceiveChallenge → Bool
challenge_ok request challenge =
    challenge.slot == request.slot && challenge.requester_nonce == request.requester_nonce

-- A signature of 32 bytes.
unfoldable pub sign_32 : RootSecret → ℕ → Bytes → Option Bytes
sign_32 root group_id message = elim (receive_proof_sign root group_id message 32) [
  | none ↦ none
  | some sig ↦ if length sig == 32 then some sig else none
]

-- The loop of `interrogate` over the permissions, with `proof_count`; `none` is a signature that
-- fails.
unfoldable pub sign_groups :
    RootSecret → Bytes → List GroupPermission → ℕ → Option (List GroupProof)
unfolding sign_32
sign_groups root challenge [] n = some []
sign_groups root challenge (e ∷ es) n =
    let skipped = sign_groups root challenge es n in
    let signed : Option (List GroupProof) =
      elim (sign_32 root e.group_id (challenge ++ le16 e.group_id)) [
        | none ↦ none
        | some sig ↦ elim (sign_groups root challenge es (n + 1)) [
          | none ↦ none
          | some gs ↦ some (record { group_id = e.group_id; proof = sig } ∷ gs)
        ]
      ] in
    if e.receive then (if ltb n max_perms then signed else some []) else skipped

module _ {F C : Type 0} (c : FlashCtl F) (aes : Aes C) (secrets : Secrets) where
  -- `store_received_blob`
  unfoldable pub store_received_blob : ℕ → ReceiveResponse → Bytes → Cmd F (Unit {0})
  unfolding store_blob
  store_received_blob slot r pin = do
    require (not (ltb max_contents_size r.contents_len)) (chars "Transfer payload too large\n")
    require (validate_permission secrets r.group_id perm_receive) (chars "Invalid permission\n")
    pin_hash ← need (get_pin_hash secrets (take pin_length pin)) (chars "Crypto error\n")
    store_blob c aes secrets slot r.name r.group_id r.contents r.uuid pin_hash

  -- `receive`
  unfoldable pub receive : Bytes → Cmd F Ret
  unfolding store_received_blob sign_32
  receive body = do
    require (not (ltb (length body) 8)) (chars "Packet too short\n")
    let pin = pin_of body
    pin_gate c secrets pin
    drawn ← draw_nonce
    nonce ← need drawn (chars "Nonce generation failed\n")
    let request : ReceiveRequest = record { slot = byte_at body 6; requester_nonce = nonce }
    asked ← to_peer Msg.receive (encode_request request)
    require (is_sent asked) no_response
    (rc, got) ← from_peer 11
    require (is_sent rc) no_response
    require (not (got.cmd == Msg.error)) (chars "Could not import file\n")
    let challenge = decode_challenge got.body
    require (got.cmd == Msg.receive && (length got.body == 11 && challenge_ok request challenge))
        (chars "Opcode mismatch\n")
    require (validate_permission secrets challenge.group_id perm_receive)
        (chars "Invalid permission\n")
    root ← need (get_root_secret secrets.global_secrets) (chars "Crypto error\n")
    sig ← need (sign_32 root challenge.group_id got.body) (chars "Crypto error\n")
    proved ← to_peer Msg.receive (encode_proof (record { challenge = challenge; proof = sig }))
    require (is_sent proved) no_response
    (rc2, file) ← from_peer response_size
    require (is_sent rc2) no_response
    require (not (file.cmd == Msg.error)) (chars "Could not import file\n")
    require (file.cmd == Msg.receive && length file.body == response_size)
        (chars "Opcode mismatch\n")
    store_received_blob (byte_at body 7) (decode_response file.body) pin
    answer Msg.receive []

module _ {F : Type 0} (c : FlashCtl F) (secrets : Secrets) where
  -- `interrogate`. 284 is `sizeof(list_response_t)`.
  unfoldable pub interrogate : Bytes → Cmd F Ret
  unfolding sign_groups
  interrogate body = do
    require (not (ltb (length body) 6)) (chars "Packet too short\n")
    pin_gate c secrets (pin_of body)
    drawn ← draw_nonce
    nonce ← need drawn (chars "Nonce generation failed\n")
    asked ← to_peer Msg.interrogate (le32 nonce)
    require (is_sent asked) no_response
    (rc, got) ← from_peer 8
    require (is_sent rc) no_response
    let challenge = decode_interrogation got.body
    require
        (got.cmd == Msg.interrogate && (length got.body == 8 && challenge.requester_nonce == nonce))
        (chars "Opcode mismatch\n")
    root ← need (get_root_secret secrets.global_secrets) (chars "Crypto error\n")
    proofs ← need (sign_groups root got.body secrets.permissions 0) (chars "Crypto error\n")
    let proof : InterrogateProof = record {
      requester_nonce = challenge.requester_nonce;
      target_nonce = challenge.target_nonce;
      proofs = proofs;
    }
    proved ← to_peer Msg.interrogate (encode_interrogate_proof proof)
    require (is_sent proved) no_response
    (rc2, files) ← from_peer 284
    require (is_sent rc2) no_response
    require (files.cmd == Msg.interrogate && not (ltb 284 (length files.body)))
        (chars "Opcode mismatch\n")
    answer_status Msg.interrogate files.body
