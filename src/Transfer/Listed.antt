-- ===== src/Transfer/Listed.antt =====
-- What `listen` of firmware/src/commands.c lists for another module.
use rutgers_2026_e_ctf_desig.Messaging.Msg
use rutgers_2026_e_ctf_desig.Prelude.{
  ℕ, zero, suc, ◌+◌, ◌≤◌, ◌≡◌, refl, sym, ap, ◌∙◌, Bool, true, true≢false, ◌&&◌, Option, none, some,
  List, [], ◌∷◌, map, Bytes, arith, le16, load32, ◌++◌, lt→ltb, ◌==◌, ==_iff, Bool-cases, inl, inr,
  length,
}
use mathlib.Core.Path.{subst}
use mathlib.Core.List.{Memᴰ}
use mathlib.Core.List.Memᴰ.{head, tail}
use rutgers_2026_e_ctf_desig.Crypto.{RootSecret, receive_proof_verify}
use rutgers_2026_e_ctf_desig.Trng.{Capture}
use rutgers_2026_e_ctf_desig.SecureDesign.{get_root_secret, generate_nonce, check_and_update_replay}
use rutgers_2026_e_ctf_desig.Security.{Secrets}
use rutgers_2026_e_ctf_desig.Messaging.{Packet, Port, read_packet, write_packet}
use rutgers_2026_e_ctf_desig.BlobStore.{FatEntry, max_slots}
use rutgers_2026_e_ctf_desig.Names.{NameEntry, name_at, slot_occupied}
use rutgers_2026_e_ctf_desig.Device.{Device, go, ◌>>=◌, to_peer, from_peer, on_replay, fail}
use rutgers_2026_e_ctf_desig.Device.Rules.{went_on, nonce_of, draw_nonce-go}
use rutgers_2026_e_ctf_desig.Commands.{FileMetadata, encode_list, metadata_of}
use rutgers_2026_e_ctf_desig.Commands.Listing.{
  slots_where, metadata_where, AllNames, decode_list, decode_list-encode, length-slots,
  length-metadata, metadata-All,
}
use rutgers_2026_e_ctf_desig.Transfer.{
  GroupProof, InterrogateChallenge, encode_interrogation, decode_interrogate_proof,
  interrogate_proof_size,
}
use rutgers_2026_e_ctf_desig.Transfer.Request.{is_sent}
use rutgers_2026_e_ctf_desig.Transfer.Listen.{
  proofs_ok, authorized, filtered_from, interrogate_proof_ok, serve_list, listen_interrogate, deny,
  need_or, interrogate_denied,
}
use rutgers_2026_e_ctf_desig.Transfer.Serving.{and-true, unless-go, unless-end, need_or-go}

-- Whether a slot is listed for the proofs.
abbrev pub listed : List GroupProof → List NameEntry → List FatEntry → ℕ → Bool
listed proofs names fat slot =
    slot_occupied names fat slot && authorized proofs (name_at names slot).group_id

pub filtered_from_lem :
    (proofs : List GroupProof) (names : List NameEntry) (fat : List FatEntry) (k slot n : ℕ)
    → n + k ≤ 8
    → filtered_from proofs names fat k slot n
      ≡ map (metadata_of names) (slots_where (listed proofs names fat) k slot)
unfolding filtered_from slots_where
filtered_from_lem proofs names fat zero slot n h = refl
filtered_from_lem proofs names fat (suc k) slot n h =
    let room = lt→ltb n 8 (omega arith) in
    elim (Bool-cases (slot_occupied names fat slot)) [
      | inr empty ↦
          simp (room, empty) (filtered_from_lem proofs names fat k (slot + 1) n (omega arith))
      | inl full ↦ elim (Bool-cases (authorized proofs (name_at names slot).group_id)) [
        | inl open_group ↦
            simp (room, full, open_group)
              (ap (λ (r : List FileMetadata). metadata_of names slot ∷ r)
                (filtered_from_lem proofs names fat k (slot + 1) (n + 1) (omega arith)))
        | inr closed ↦
            simp (room, full, closed)
              (filtered_from_lem proofs names fat k (slot + 1) n (omega arith))
      ]
    ]

-- Whether a proof is of this challenge and its own group.
abbrev Verifies : RootSecret → Bytes → GroupProof → Type 0
Verifies root challenge g =
    receive_proof_verify root g.group_id (challenge ++ le16 g.group_id) g.proof ≡ true

proofs_ok-both :
    (root : RootSecret) (challenge : Bytes) (g : GroupProof) (gs : List GroupProof)
    → proofs_ok root challenge (g ∷ gs) ≡ true
    → Verifies root challenge g × (proofs_ok root challenge gs ≡ true)
unfolding proofs_ok
proofs_ok-both root challenge g gs good = ground arith

proofs_ok-Verifies :
    (root : RootSecret) (challenge : Bytes) (proofs : List GroupProof)
    → proofs_ok root challenge proofs ≡ true
    → (g : GroupProof) → Memᴰ g proofs
    → Verifies root challenge g
proofs_ok-Verifies root challenge [] good x among = elim among [ ]
proofs_ok-Verifies root challenge (g ∷ gs) good x (head same) =
    subst (λ (y : GroupProof). Verifies root challenge y) (sym same)
      (proofs_ok-both root challenge g gs good).0
proofs_ok-Verifies root challenge (g ∷ gs) good x (tail among) =
    proofs_ok-Verifies root challenge gs (proofs_ok-both root challenge g gs good).1 x among

-- An authorized group is the group of one of the proofs.
authorized-Mem :
    (proofs : List GroupProof) (group_id : ℕ)
    → authorized proofs group_id ≡ true
    → (g : GroupProof) × Memᴰ g proofs × (g.group_id ≡ group_id)
unfolding authorized
authorized-Mem [] group_id open_group = absurd (true≢false (sym open_group))
authorized-Mem (g ∷ gs) group_id open_group = elim (Bool-cases (g.group_id == group_id)) [
  | inl same ↦ (g, head refl, (==_iff g.group_id group_id).0 same)
  | inr other ↦
      let (x, among, of_group) = authorized-Mem gs group_id (sym (simp other) ∙ open_group) in
      (x, tail among, of_group)
]

-- The packet that answers the challenge of an interrogation, and its proofs.
abbrev pub proof_packet : {F : Type 0} → InterrogateChallenge → Device F → Packet
proof_packet challenge d =
    let sent = write_packet Msg.interrogate (encode_interrogation challenge) d.transfer in
    (read_packet interrogate_proof_size sent.1).0.1

abbrev pub proofs_of : {F : Type 0} → InterrogateChallenge → Device F → List GroupProof
proofs_of challenge d = (decode_interrogate_proof (proof_packet challenge d).body).proofs

module _ {F : Type 0} (secrets : Secrets) where
  -- An interrogation that was answered: each of the peer's proofs is of its group and this challenge,
  -- which was not seen before, and the answer says what the slots hold whose group one of them has.
  pub record IsListed (challenge : InterrogateChallenge) (d d' : Device F) : Type 0 where
    pub root : RootSecret
    pub response : Bytes
    pub line : Port
    pub has_root : get_root_secret secrets.global_secrets ≡ some root
    pub fresh :
        (check_and_update_replay
          (record {
            nr = challenge.requester_nonce;
            nt = challenge.target_nonce;
            group_id = 0;
            op = Msg.interrogate;
          })
          d.replay).0
        ≡ true
    pub answered : d'.transfer ≡ (write_packet Msg.interrogate response line).1
    pub says :
        decode_list response
        ≡ metadata_where (listed (proofs_of challenge d) d.names d.store.fat) d.names
    pub verified :
        (g : GroupProof)
        → Memᴰ g (proofs_of challenge d)
        → receive_proof_verify root g.group_id
            (encode_interrogation challenge ++ le16 g.group_id)
            g.proof
          ≡ true
    pub proved :
        (slot : ℕ)
        → listed (proofs_of challenge d) d.names d.store.fat slot ≡ true
        → (g : GroupProof) × Memᴰ g (proofs_of challenge d)
          × (g.group_id ≡ (name_at d.names slot).group_id)

  serve_list-IsListed :
      (requester_nonce nonce : ℕ) (d : Device F) {d' : Device F}
      → AllNames d.names
      → serve_list secrets requester_nonce nonce d ≡ go tt d'
      → IsListed (record { requester_nonce = requester_nonce; target_nonce = nonce }) d d'
  unfolding serve_list deny to_peer from_peer on_replay fail
  serve_list-IsListed requester_nonce nonce d {d'} v r =
      let ch : InterrogateChallenge = record {
        requester_nonce = requester_nonce;
        target_nonce = nonce;
      } in
      let sent = write_packet Msg.interrogate (encode_interrogation ch) d.transfer in
      let d1 = record d { transfer = sent.1 } in
      let got = read_packet interrogate_proof_size sent.1 in
      let d2 = record d { transfer = got.1 } in
      let proofs = proofs_of ch d in
      let (_, r1) = unless-go (is_sent sent.0) _ _ d1 r refl in
      let (_, r2) = unless-go (interrogate_proof_ok ch got.0) _ _ d2 r1 refl in
      let (root, has_root, r3) =
        need_or-go (get_root_secret secrets.global_secrets) _ _ d2 r2 refl in
      let (good, r4) = unless-go (proofs_ok root (encode_interrogation ch) proofs) _ _ d2 r3 refl in
      let replay =
        check_and_update_replay
          (record { nr = requester_nonce; nt = nonce; group_id = 0; op = Msg.interrogate })
          d.replay in
      let d3 = record d2 { replay = replay.1 } in
      let (fresh, r5) = unless-go replay.0 _ _ d3 r4 refl in
      let files = filtered_from proofs d.names d.store.fat max_slots 0 0 in
      let out = write_packet Msg.interrogate (encode_list files) got.1 in
      let slots = slots_where (listed proofs d.names d.store.fat) max_slots 0 in
      record {
        root = root;
        response = encode_list files;
        line = got.1;
        has_root = has_root;
        fresh = fresh;
        answered =
            ap (λ (t : Device F). t.transfer)
              (sym (unless-end (is_sent out.0) _ (record d3 { transfer = out.1 }) r5 refl));
        says =
            ap (λ (t : List FileMetadata). decode_list (encode_list t))
              (filtered_from_lem proofs d.names d.store.fat 8 0 0 (omega arith))
            ∙ decode_list-encode (map (metadata_of d.names) slots)
                (omega (
                  arith,
                  length-metadata d.names slots,
                  length-slots (listed proofs d.names d.store.fat) 8 0,
                ))
                (metadata-All d.names slots v);
        verified = proofs_ok-Verifies root (encode_interrogation ch) proofs good;
        proved = λ slot l.
            authorized-Mem proofs (name_at d.names slot).group_id
              (and-true (slot_occupied d.names d.store.fat slot) _ l).1;
      }

  -- Where `listen` goes through an interrogation, with names of 32 bytes and groups below 65536,
  -- it has drawn a nonce that is not in the replay cache; what it sends decodes to the metadata
  -- of exactly the occupied slots whose group is one of the peer's proofs, in the order of the
  -- slots, and each of the peer's proofs verifies for its group and the challenge with this
  -- nonce.
  pub listen_interrogate-IsListed :
      (request : Bytes) (d : Device F) {d' : Device F}
      → AllNames d.names
      → listen_interrogate secrets request d ≡ go tt d'
      → (nonce : Bytes) × (cs : List Capture) × (generate_nonce d.store.trng 4
          ≡ some (some nonce, cs))
        × IsListed
            (record { requester_nonce = load32 request 0; target_nonce = load32 nonce 0 })
            (record d { store = record d.store { trng = cs } })
            d'
  unfolding listen_interrogate deny to_peer need_or
  listen_interrogate-IsListed request d {d'} v r =
      let (_, r1) = unless-go (length request == 4) _ _ d r refl in
      let (drawn, cs, made, r2) =
        draw_nonce-go
          (λ drawn.
            need_or drawn (deny interrogate_denied) >>= serve_list secrets (load32 request 0))
          d r1 in
      cases drawn cs made r2
    where
      cases :
          (drawn : Option Bytes) (cs : List Capture)
          → generate_nonce d.store.trng 4 ≡ some (drawn, cs)
          → ((need_or (nonce_of drawn) (deny interrogate_denied)
                >>= serve_list secrets (load32 request 0))
              (record d { store = record d.store { trng = cs } }))
            ≡ go tt d'
          → (nonce : Bytes) × (cs : List Capture) × (generate_nonce d.store.trng 4
              ≡ some (some nonce, cs))
            × IsListed
                (record { requester_nonce = load32 request 0; target_nonce = load32 nonce 0 })
                (record d { store = record d.store { trng = cs } })
                d'
      cases none cs made r2 = absurd (true≢false (ap went_on (sym r2)))
      cases (some nonce) cs made r2 = (
        nonce,
        cs,
        made,
        serve_list-IsListed (load32 request 0) (load32 nonce 0)
            (record d { store = record d.store { trng = cs } }) v r2,
      )
