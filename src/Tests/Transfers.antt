-- ===== src/Tests/Transfers.antt =====
-- Transfers and interrogations between two modules, on the ideal peripherals.
use rutgers_2026_e_ctf_desig.Prelude.{
  ℕ, ◌≡◌, refl, true, false, false≢true, Option, none, some, List, [], ◌∷◌, ◌++◌, arith, Bytes,
  replicate, set, byte_at, le32, load32, ltb, if◌then◌else◌, ◌-◌,
}
use rutgers_2026_e_ctf_desig.Trng.{Capture, ready, trng_read_bytes, read_from}
use rutgers_2026_e_ctf_desig.SecureDesign.{
  get_root_secret, generate_nonce, clear_replay_cache, check_and_update_replay,
}
use rutgers_2026_e_ctf_desig.Crypto.{
  RootSecret, root_secret_from_global_secrets, derive_file_enc_key, crypto_hmac_sha256, diff_bytes,
  receive_proof_sign, receive_proof_verify,
}
use rutgers_2026_e_ctf_desig.Sha256.{ctx_init, ctx_final, ctx_update, sha256_raw, blank}
use rutgers_2026_e_ctf_desig.Sha256.Compress.{compress}
use rutgers_2026_e_ctf_desig.Sha256.Hmac.{hmac_sha256_raw, hmac_final, hmac_init, hmac_update}
use rutgers_2026_e_ctf_desig.Sha256.Hkdf.{hkdf_expand_sha256, hkdf_extract_sha256}
use rutgers_2026_e_ctf_desig.Flash.{read_flash}
use rutgers_2026_e_ctf_desig.Messaging.{
  write_packet, read_packet, write_blocks, read_blocks, read_block, block_size, join_block, sync,
  await_ack, write_bytes, write_header, needs_ack,
}
use rutgers_2026_e_ctf_desig.Messaging.Handshake.{wire, acks, frame}
use rutgers_2026_e_ctf_desig.Messaging.Msg
use rutgers_2026_e_ctf_desig.Security.{GroupPermission}
use rutgers_2026_e_ctf_desig.BlobStore.{
  BlobHeader, blob_ok, FatEntry, blank_entry, encode_header, build_aad, load_header, after_ok_inner,
  entry_ok, header_ok, derive_file_key,
}
use rutgers_2026_e_ctf_desig.BlobStore.Read.{
  blob_read_all_group_mask, blob_read_init_internal, open_read, read_whole, blob_read_finish,
  blob_read_chunk,
}
use rutgers_2026_e_ctf_desig.Names.{new_name, blank_name, slot_occupied}
use rutgers_2026_e_ctf_desig.Device.{
  Device, Run, go, stop, hang, to_peer, from_peer, fail, print_error, draw_nonce, on_store,
  on_replay,
}
use rutgers_2026_e_ctf_desig.Device.Rules.{went_on}
use rutgers_2026_e_ctf_desig.Transfer.{
  GroupProof, encode_interrogate_proof, ReceiveChallenge, encode_challenge, encode_proof,
}
use rutgers_2026_e_ctf_desig.Transfer.Request.{sign_32, sign_groups}
use rutgers_2026_e_ctf_desig.Transfer.Listen.{
  listen_interrogate, serve_list, interrogate_proof_ok, proofs_ok, authorized, filtered_from,
  listen_receive, serve_file, receive_proof_ok, deny, deny_and_tell, unless, need_or,
}
use rutgers_2026_e_ctf_desig.Transfer.Groups.{receivable, sign_groups-proofs_ok}
use rutgers_2026_e_ctf_desig.Transfer.Listed.{IsListed, listen_interrogate-IsListed}
use rutgers_2026_e_ctf_desig.Commands.Listing.{AllNames, IsName}
use rutgers_2026_e_ctf_desig.Transfer.Serving.{IsServed, listen_receive-IsServed, challenge_of}
use rutgers_2026_e_ctf_desig.Tests.Ideal.{ideal_flash, ideal_aes}
use rutgers_2026_e_ctf_desig.Tests.Commands.{secrets, fresh, name}

abbrev root : RootSecret
root = elim (get_root_secret secrets.global_secrets) [
  | none ↦ record { k_master = [] }
  | some r ↦ r
]

abbrev bytes_of : Option Bytes → Bytes
bytes_of none = []
bytes_of (some b) = b

-- An empty file of group 5 in slot 0, as the flash shows it.
abbrev stored_header : BlobHeader
stored_header = record {
  magic = 0x53425331;
  version = 1;
  slot = 0;
  plaintext_len = 0;
  group_mask = 5;
  owner_pin_hash = replicate 32 9;
  nonce = replicate 12 3;
  blob_tag =
      bytes_of
        (crypto_hmac_sha256 (bytes_of (derive_file_key root 5)) (ctx_final (ctx_init blank)) 32);
  reserved = replicate 4 0;
}

abbrev flash : ℕ → ℕ
flash x = if ltb x 0x22060 then byte_at (encode_header stored_header) (x - 0x22000) else 255

abbrev entry : FatEntry
entry = record { uuid = replicate 16 5; length = 96; padding = 0; flash_addr = 0x22000 }

abbrev pub holder : Device (ℕ → ℕ)
holder = record fresh {
  names = set (replicate 8 blank_name) 0 (new_name name 5);
  store = record fresh.store {
    fat = set (replicate 8 blank_entry) 0 entry;
    flash = flash;
    trng = ready 77 ∷ [];
  };
}

header_loaded : load_header ideal_flash 0 holder.store ≡ (blob_ok, stored_header)
unfolding load_header read_flash entry_ok header_ok crypto_hmac_sha256 derive_file_key
    derive_file_enc_key hkdf_expand_sha256 compress hmac_sha256_raw get_root_secret
    root_secret_from_global_secrets
header_loaded = refl

abbrev challenge : ReceiveChallenge
challenge = record { slot = 0; group_id = 5; requester_nonce = 9; target_nonce = 77 }

-- What the asking module puts on the line: an ACK for the challenge, its proof, and the ACKs for the
-- file.
abbrev proof : Bytes
proof = encode_proof (record {
  challenge = challenge;
  proof = bytes_of (receive_proof_sign root 5 (encode_challenge challenge) 32);
})

abbrev asked : Device (ℕ → ℕ)
asked = record holder {
  transfer = record {
    rx = wire (acks 2) ++ (wire (frame Msg.receive proof) ++ wire (acks 34));
    tx = [];
  };
}

abbrev pub device_of : Run (ℕ → ℕ) (Unit {0}) → Device (ℕ → ℕ)
device_of (go r d) = d
device_of (stop r d) = d
device_of hang = fresh

abbrev served : Device (ℕ → ℕ)
served = device_of (listen_receive ideal_flash ideal_aes secrets (0 ∷ le32 9) asked)

-- A run that went on ends as its device says.
pub ends : (r : Run (ℕ → ℕ) (Unit {0})) → went_on r ≡ true → r ≡ go tt (device_of r)
ends (go r d) e = refl
ends (stop r d) e = absurd (false≢true e)
ends hang e = absurd (false≢true e)

served_goes : went_on (listen_receive ideal_flash ideal_aes secrets (0 ∷ le32 9) asked) ≡ true
unfolding listen_receive serve_file receive_proof_ok deny deny_and_tell unless need_or to_peer
    from_peer fail print_error draw_nonce on_store on_replay slot_occupied generate_nonce
    trng_read_bytes check_and_update_replay write_packet read_packet wire acks write_blocks
    read_blocks read_block block_size join_block sync await_ack write_bytes write_header needs_ack
    blob_read_all_group_mask blob_read_init_internal open_read after_ok_inner read_whole
    blob_read_finish blob_read_chunk load_header read_flash entry_ok header_ok crypto_hmac_sha256
    derive_file_key derive_file_enc_key hkdf_expand_sha256 compress hmac_sha256_raw get_root_secret
    root_secret_from_global_secrets receive_proof_sign receive_proof_verify diff_bytes
    clear_replay_cache hkdf_extract_sha256 hmac_final hmac_init hmac_update ctx_final ctx_init
    ctx_update sha256_raw read_from build_aad
served_goes = refl

listen_receive-IsServed_example :
    (nonce : Bytes) × (cs : List Capture) × (generate_nonce asked.store.trng 4
      ≡ some (some nonce, cs))
    × (slot_occupied asked.names asked.store.fat 0 ≡ true)
    × IsServed ideal_flash ideal_aes secrets
        (challenge_of (0 ∷ le32 9) nonce asked)
        (record asked { store = record asked.store { trng = cs } })
listen_receive-IsServed_example =
    listen_receive-IsServed ideal_flash ideal_aes secrets (0 ∷ le32 9) asked
      (ends (listen_receive ideal_flash ideal_aes secrets (0 ∷ le32 9) asked) served_goes)

abbrev perms : List GroupPermission
perms =
    record { group_id = 5; read = true; write = true; receive = true }
    ∷ record { group_id = 6; read = true; write = true; receive = false }
    ∷ []

abbrev proofs : List GroupProof
proofs = elim (sign_groups root (le32 9 ++ le32 77) perms 0) [ none ↦ [] | some gs ↦ gs ]

proofs_signed : sign_groups root (le32 9 ++ le32 77) perms 0 ≡ some proofs
unfolding sign_groups sign_32 receive_proof_sign crypto_hmac_sha256 hkdf_expand_sha256
    hkdf_extract_sha256 compress hmac_sha256_raw hmac_final hmac_init hmac_update ctx_final ctx_init
    ctx_update sha256_raw get_root_secret root_secret_from_global_secrets
proofs_signed = refl

sign_groups-proofs_ok_example :
    (proofs_ok root (le32 9 ++ le32 77) proofs ≡ true)
    × ((group_id : ℕ) → authorized proofs group_id ≡ receivable perms group_id)
sign_groups-proofs_ok_example =
    sign_groups-proofs_ok root (le32 9 ++ le32 77) perms 0 (omega arith) proofs_signed

-- The same module, asked for a list.
abbrev queried : Device (ℕ → ℕ)
queried = record holder {
  transfer = record {
    rx =
        wire (acks 2)
        ++ (wire (
              frame Msg.interrogate (
                encode_interrogate_proof
                  (record { requester_nonce = 9; target_nonce = 77; proofs = proofs })))
            ++ wire (acks 2));
    tx = [];
  };
}

pub holder-All : AllNames holder.names
holder-All =
    let b : IsName blank_name = record { group_fits = omega arith; name_fits = refl } in
    (record { group_fits = omega arith; name_fits = refl }, (b, (b, (b, (b, (b, (b, (b, tt))))))))

listed_goes : went_on (listen_interrogate secrets (le32 9) queried) ≡ true
unfolding listen_interrogate serve_list interrogate_proof_ok proofs_ok authorized filtered_from
    sign_groups sign_32 deny unless need_or to_peer from_peer fail print_error draw_nonce on_replay
    slot_occupied generate_nonce trng_read_bytes check_and_update_replay write_packet read_packet
    wire acks write_blocks read_blocks read_block block_size join_block sync await_ack write_bytes
    write_header needs_ack crypto_hmac_sha256 hkdf_expand_sha256 compress hmac_sha256_raw
    get_root_secret root_secret_from_global_secrets receive_proof_sign receive_proof_verify
    diff_bytes clear_replay_cache hkdf_extract_sha256 hmac_final hmac_init hmac_update ctx_final
    ctx_init ctx_update sha256_raw read_from
listed_goes = refl

listen_interrogate-IsListed_example :
    (nonce : Bytes) × (cs : List Capture) × (generate_nonce queried.store.trng 4
      ≡ some (some nonce, cs))
    × IsListed secrets
        (record { requester_nonce = load32 (le32 9) 0; target_nonce = load32 nonce 0 })
        (record queried { store = record queried.store { trng = cs } })
        (device_of (listen_interrogate secrets (le32 9) queried))
listen_interrogate-IsListed_example =
    listen_interrogate-IsListed secrets (le32 9) queried holder-All
      (ends (listen_interrogate secrets (le32 9) queried) listed_goes)
