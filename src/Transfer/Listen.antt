-- ===== src/Transfer/Listen.antt =====
-- `listen` of firmware/src/commands.c, which answers another module.

use rutgers_2026_e_ctf_desig.Messaging.Msg
use rutgers_2026_e_ctf_desig.Prelude.{
  ℕ, zero, suc, ◌+◌, Bool, true, false, not, ◌&&◌, Option, none, some, List, [], ◌∷◌, ◌++◌, Bytes,
  le16, u16, load32, ltb, ◌==◌, if◌then◌else◌, length, set, get_or,
}
use rutgers_2026_e_ctf_desig.Flash.{FlashCtl}
use rutgers_2026_e_ctf_desig.Crypto.{Aes, RootSecret, receive_proof_verify}
use rutgers_2026_e_ctf_desig.SecureDesign.{get_root_secret}
use rutgers_2026_e_ctf_desig.Security.{Secrets}
use rutgers_2026_e_ctf_desig.Messaging.{MsgStatus, Packet}
use rutgers_2026_e_ctf_desig.BlobStore.{FatEntry, blank_entry, max_slots}
use rutgers_2026_e_ctf_desig.BlobStore.Read.{WholeRead, blob_read_all_group_mask}
use rutgers_2026_e_ctf_desig.Names.{NameEntry, name_at, slot_occupied}
use rutgers_2026_e_ctf_desig.Device.{
  Ret, failure, Cmd, ◌>>=◌, ◌>>◌, pure, returning, gets, chars, fail, require, answer, to_peer,
  from_peer, draw_nonce, on_store, on_replay,
}
use rutgers_2026_e_ctf_desig.Commands.{
  FileMetadata, metadata_of, encode_list, is_stored, occupied, max_contents_size, max_file_count,
}
use rutgers_2026_e_ctf_desig.Transfer.{
  decode_request, ReceiveChallenge, encode_challenge, decode_proof, InterrogateChallenge,
  encode_interrogation, GroupProof, decode_interrogate_proof, proof_count, ReceiveResponse,
  encode_response, max_perms, interrogate_proof_size,
}
use rutgers_2026_e_ctf_desig.Transfer.Request.{is_sent}

-- The loop over the proofs: whether each is a signature of the challenge and its group.
unfoldable pub proofs_ok : RootSecret → Bytes → List GroupProof → Bool
proofs_ok root challenge [] = true
proofs_ok root challenge (g ∷ gs) =
    let rest = proofs_ok root challenge gs in
    if receive_proof_verify root g.group_id (challenge ++ le16 g.group_id) g.proof
    then rest
    else false

-- The inner loop of the listing: whether a proof is of the group.
unfoldable pub authorized : List GroupProof → ℕ → Bool
authorized [] group_id = false
authorized (g ∷ gs) group_id =
    let rest = authorized gs group_id in if g.group_id == group_id then true else rest

-- The loop of the listing, over the slots that are left, with `n_files`.
unfoldable pub filtered_from :
    List GroupProof → List NameEntry → List FatEntry → ℕ → ℕ → ℕ → List FileMetadata
filtered_from proofs names fat zero slot n = []
filtered_from proofs names fat (suc k) slot n =
    let with_slot = metadata_of names slot ∷ filtered_from proofs names fat k (slot + 1) (n + 1) in
    let without = filtered_from proofs names fat k (slot + 1) n in
    if slot_occupied names fat slot && ltb n max_file_count
    then (if authorized proofs (name_at names slot).group_id then with_slot else without)
    else without

-- What `listen` asks of an interrogation's proof, in front of the signatures.
unfoldable pub interrogate_proof_ok : InterrogateChallenge → MsgStatus × Packet → Bool
interrogate_proof_ok challenge (rc, got) =
    let p = decode_interrogate_proof got.body in
    is_sent rc
    && (got.cmd == Msg.interrogate
        && (length got.body == interrogate_proof_size
            && (not (ltb max_perms (proof_count got.body))
                && (p.requester_nonce == challenge.requester_nonce
                    && p.target_nonce == challenge.target_nonce))))

-- What it asks of a transfer's proof, in front of the signature.
unfoldable pub receive_proof_ok : ReceiveChallenge → MsgStatus × Packet → Bool
receive_proof_ok challenge (rc, got) =
    let p = (decode_proof got.body).challenge in
    is_sent rc
    && (got.cmd == Msg.receive
        && (length got.body == 43
            && (p.slot == challenge.slot
                && (p.group_id == challenge.group_id
                    && (p.requester_nonce == challenge.requester_nonce
                        && p.target_nonce == challenge.target_nonce)))))

-- The response to a transfer.
abbrev pub response_of : NameEntry → FatEntry → WholeRead → ReceiveResponse
response_of e f whole = record {
  uuid = f.uuid;
  group_id = e.group_id;
  name = set e.name 31 0;
  contents_len = u16 whole.out_len;
  contents = whole.out;
}

module _ {F : Type 0} where
  -- `write_packet(TRANSFER_INTERFACE, ERROR_MSG, msg, ...); return -1;`
  unfoldable pub deny : {A : Type 0} → Bytes → Cmd F A
  unfolding to_peer
  deny msg = do _ ← to_peer Msg.error msg; returning failure

  -- The same with an error for the host.
  unfoldable pub deny_and_tell : {A : Type 0} → Bytes → Bytes → Cmd F A
  unfolding to_peer fail
  deny_and_tell msg note = do _ ← to_peer Msg.error msg; fail note

  -- The same where a test does not hold.
  unfoldable pub unless : Bool → Cmd F (Unit {0}) → Cmd F (Unit {0})
  unless b otherwise = if b then pure tt else otherwise

  -- The value of a call that may fail, or a denial.
  unfoldable pub need_or : {A : Type 0} → Option A → Cmd F A → Cmd F A
  need_or o otherwise = elim o [ none ↦ otherwise | some a ↦ pure a ]

abbrev pub interrogate_denied : Bytes
interrogate_denied = chars "Interrogate denied"

abbrev pub import_denied : Bytes
import_denied = chars "Could not import file"

module _ {F : Type 0} (secrets : Secrets) where
  -- The case of an interrogation behind its nonce: the challenge, the proofs and the listing.
  unfoldable pub serve_list : ℕ → ℕ → Cmd F (Unit {0})
  serve_list requester_nonce nonce = do
    let challenge : InterrogateChallenge = record {
      requester_nonce = requester_nonce;
      target_nonce = nonce;
    }
    sent ← to_peer Msg.interrogate (encode_interrogation challenge)
    unless (is_sent sent) (returning failure)
    (rc, got) ← from_peer interrogate_proof_size
    unless (interrogate_proof_ok challenge (rc, got)) (deny interrogate_denied)
    root ← need_or (get_root_secret secrets.global_secrets) (deny interrogate_denied)
    let proofs = (decode_interrogate_proof got.body).proofs
    unless (proofs_ok root (encode_interrogation challenge) proofs) (deny interrogate_denied)
    fresh ← on_replay (record {
      nr = challenge.requester_nonce;
      nt = challenge.target_nonce;
      group_id = 0;
      op = Msg.interrogate;
    })
    unless fresh (deny interrogate_denied)
    files ← gets (λ d. filtered_from proofs d.names d.store.fat max_slots 0 0)
    done ← to_peer Msg.interrogate (encode_list files)
    unless (is_sent done) (fail (chars "Transfer write failed\n"))

  -- The case of an interrogation.
  unfoldable pub listen_interrogate : Bytes → Cmd F (Unit {0})
  unfolding serve_list
  listen_interrogate request = do
    unless (length request == 4) (deny interrogate_denied)
    drawn ← draw_nonce
    nonce ← need_or drawn (deny interrogate_denied)
    serve_list (load32 request 0) nonce

module _ {F C : Type 0} (c : FlashCtl F) (aes : Aes C) (secrets : Secrets) where
  -- The case of a transfer behind its nonce: the challenge, the proof and the file.
  unfoldable pub serve_file : ℕ → ℕ → NameEntry → ℕ → Cmd F (Unit {0})
  serve_file slot requester_nonce entry nonce = do
    let challenge : ReceiveChallenge = record {
      slot = slot;
      group_id = entry.group_id;
      requester_nonce = requester_nonce;
      target_nonce = nonce;
    }
    sent ← to_peer Msg.receive (encode_challenge challenge)
    unless (is_sent sent) (fail (chars "Transfer write failed\n"))
    (rc, got) ← from_peer 43
    unless (receive_proof_ok challenge (rc, got)) (deny import_denied)
    root ← need_or (get_root_secret secrets.global_secrets) (deny import_denied)
    let p = decode_proof got.body
    unless (receive_proof_verify root p.challenge.group_id (encode_challenge challenge) p.proof)
        (deny import_denied)
    fresh ← on_replay (record {
      nr = p.challenge.requester_nonce;
      nt = p.challenge.target_nonce;
      group_id = p.challenge.group_id;
      op = Msg.receive;
    })
    unless fresh (deny import_denied)
    fat_entry ← gets (λ d. get_or d.store.fat slot blank_entry)
    whole ← on_store (
        blob_read_all_group_mask c aes secrets.global_secrets slot entry.group_id max_contents_size)
    unless (is_stored whole.status) (deny_and_tell import_denied (chars "Failed to read file\n"))
    unless (not (ltb max_contents_size whole.out_len))
        (deny_and_tell import_denied (chars "Transfer payload too large\n"))
    done ← to_peer Msg.receive (encode_response (response_of entry fat_entry whole))
    unless (is_sent done) (fail (chars "Transfer write failed\n"))

  -- The case of a transfer.
  unfoldable pub listen_receive : Bytes → Cmd F (Unit {0})
  unfolding serve_file
  listen_receive body = do
    unless (length body == 5) (deny import_denied)
    let request = decode_request body
    found ← gets (occupied request.slot)
    unless found (deny_and_tell import_denied (chars "File not found\n"))
    entry ← gets (λ d. name_at d.names request.slot)
    drawn ← draw_nonce
    nonce ← need_or drawn (deny import_denied)
    serve_file request.slot request.requester_nonce entry nonce

  -- `listen`, which takes no body.
  unfoldable pub listen : Cmd F Ret
  unfolding listen_interrogate listen_receive
  listen = do
    (rc, got) ← from_peer interrogate_proof_size
    require (is_sent rc) (chars "No request on transfer UART\n")
    if got.cmd == Msg.interrogate
        then listen_interrogate secrets got.body
        else if got.cmd == Msg.receive
        then listen_receive got.body
        else fail (chars "Bad message type")
    answer Msg.listen []
