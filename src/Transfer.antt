-- ===== src/Transfer.antt =====
-- The messages between two modules: the structures of firmware/inc/commands.h and the file of
-- firmware/inc/filesystem.h, byte by byte.
pub mod Request
pub mod Listen
pub mod Serving
pub mod Groups
pub mod Listed
pub mod Fits
use Prim.Native.String
use Prim.Native.String.{String}
use rutgers_2026_e_ctf_desig.Prelude.{
  ℕ, zero, suc, ◌+◌, ◌-◌, ◌*◌, List, [], ◌∷◌, ◌++◌, Bytes, byte_at, le16, le32, load16, load32,
  length, take, drop, replicate,
}

-- `MAX_PERMS`
abbrev pub max_perms : ℕ
max_perms = 8

-- `receive_request_t`
pub record ReceiveRequest : Type 0 where
  pub slot : ℕ
  pub requester_nonce : ℕ

abbrev pub encode_request : ReceiveRequest → Bytes
encode_request r = r.slot ∷ le32 r.requester_nonce

abbrev pub decode_request : Bytes → ReceiveRequest
decode_request b = record { slot = byte_at b 0; requester_nonce = load32 b 1 }

-- `receive_challenge_t`
pub record ReceiveChallenge : Type 0 where
  pub slot : ℕ
  pub group_id : ℕ
  pub requester_nonce : ℕ
  pub target_nonce : ℕ

abbrev pub encode_challenge : ReceiveChallenge → Bytes
encode_challenge r = r.slot ∷ (le16 r.group_id ++ (le32 r.requester_nonce ++ le32 r.target_nonce))

abbrev pub decode_challenge : Bytes → ReceiveChallenge
decode_challenge b = record {
  slot = byte_at b 0;
  group_id = load16 b 1;
  requester_nonce = load32 b 3;
  target_nonce = load32 b 7;
}

-- `receive_proof_t`: the fields of the challenge, and the proof.
pub record ReceiveProof : Type 0 where
  pub challenge : ReceiveChallenge
  pub proof : Bytes

abbrev pub encode_proof : ReceiveProof → Bytes
encode_proof p = encode_challenge p.challenge ++ p.proof

abbrev pub decode_proof : Bytes → ReceiveProof
decode_proof b = record { challenge = decode_challenge b; proof = take 32 (drop 11 b) }

-- `interrogate_challenge_t`
pub record InterrogateChallenge : Type 0 where
  pub requester_nonce : ℕ
  pub target_nonce : ℕ

abbrev pub encode_interrogation : InterrogateChallenge → Bytes
encode_interrogation r = le32 r.requester_nonce ++ le32 r.target_nonce

abbrev pub decode_interrogation : Bytes → InterrogateChallenge
decode_interrogation b = record { requester_nonce = load32 b 0; target_nonce = load32 b 4 }

-- `interrogate_group_proof_t`
pub record GroupProof : Type 0 where
  pub group_id : ℕ
  pub proof : Bytes

abbrev pub encode_group_proof : GroupProof → Bytes
encode_group_proof g = le16 g.group_id ++ g.proof

abbrev pub encode_group_proofs : List GroupProof → Bytes
encode_group_proofs [] = []
encode_group_proofs (g ∷ gs) = encode_group_proof g ++ encode_group_proofs gs

abbrev pub decode_group_proofs : ℕ → Bytes → List GroupProof
decode_group_proofs zero b = []
decode_group_proofs (suc n) b =
    record { group_id = load16 b 0; proof = take 32 (drop 2 b) } ∷ decode_group_proofs n (drop 34 b)

-- `interrogate_proof_t`, of 281 bytes: the entries behind the count are zero.
abbrev pub interrogate_proof_size : ℕ
interrogate_proof_size = 281

pub record InterrogateProof : Type 0 where
  pub requester_nonce : ℕ
  pub target_nonce : ℕ
  pub proofs : List GroupProof

abbrev pub encode_interrogate_proof : InterrogateProof → Bytes
encode_interrogate_proof p =
    le32 p.requester_nonce
    ++ (le32 p.target_nonce
        ++ (length p.proofs
            ∷ (encode_group_proofs p.proofs ++ replicate (34 * (max_perms - length p.proofs)) 0)))

-- `proof_count`, and the entries below it.
abbrev pub proof_count : Bytes → ℕ
proof_count b = byte_at b 8

abbrev pub decode_interrogate_proof : Bytes → InterrogateProof
decode_interrogate_proof b = record {
  requester_nonce = load32 b 0;
  target_nonce = load32 b 4;
  proofs = decode_group_proofs (proof_count b) (drop 9 b);
}

abbrev pub file_in_use : ℕ
file_in_use = 0xDEADBEEF

-- The fields of `receive_response_t` that the modules set and read; `in_use` is set only, and nonce
-- and tag of `file_t` stay zero.
pub record ReceiveResponse : Type 0 where
  pub uuid : Bytes
  pub group_id : ℕ
  pub name : Bytes
  pub contents_len : ℕ
  pub contents : Bytes

-- `sizeof(receive_response_t)`
abbrev pub response_size : ℕ
response_size = 8276

abbrev pub encode_response : ReceiveResponse → Bytes
encode_response r =
    r.uuid
    ++ (le32 file_in_use
        ++ (le16 r.group_id
            ++ (r.name
                ++ (le16 r.contents_len
                    ++ (replicate 28 0
                        ++ (r.contents ++ replicate (8192 - length r.contents) 0))))))

-- `contents` is cut to `contents_len` bytes, which the reader compares to the size of its buffer.
abbrev pub decode_response : Bytes → ReceiveResponse
decode_response b = record {
  uuid = take 16 b;
  group_id = load16 b 20;
  name = take 32 (drop 22 b);
  contents_len = load16 b 54;
  contents = take (load16 b 54) (drop 84 b);
}
