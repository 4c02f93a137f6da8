-- ===== src/Transfer/Serving.antt =====
-- Whom `listen` of firmware/src/commands.c serves.
use rutgers_2026_e_ctf_desig.Messaging.Msg
use rutgers_2026_e_ctf_desig.Prelude.{
  ℕ, ◌≡◌, refl, sym, ap, ◌∙◌, Bool, true, false, true≢false, false≢true, ◌&&◌, Option, none, some,
  List, Bytes, load32, ◌==◌, ==_iff, length, bit_and,
}
use rutgers_2026_e_ctf_desig.Flash.{FlashCtl}
use rutgers_2026_e_ctf_desig.Crypto.{Aes, RootSecret, receive_proof_verify}
use rutgers_2026_e_ctf_desig.Trng.{Capture}
use rutgers_2026_e_ctf_desig.SecureDesign.{
  Token, get_root_secret, generate_nonce, check_and_update_replay,
}
use rutgers_2026_e_ctf_desig.Security.{Secrets}
use rutgers_2026_e_ctf_desig.Messaging.{MsgStatus, Packet, read_packet, write_packet}
use rutgers_2026_e_ctf_desig.BlobStore.{BlobStatus, blob_ok, BlobHeader, load_header}
use rutgers_2026_e_ctf_desig.BlobStore.Access.{opened-IsAllowed}
use rutgers_2026_e_ctf_desig.BlobStore.Read.{
  any_owner, blob_read_all_group_mask, blob_read_init_internal,
}
use rutgers_2026_e_ctf_desig.Names.{NameEntry, name_at}
use rutgers_2026_e_ctf_desig.Device.{
  Device, go, Cmd, and_then, ◌>>=◌, to_peer, from_peer, on_store, on_replay, fail,
}
use rutgers_2026_e_ctf_desig.Device.Rules.{went_on, go-same, nonce_of, draw_nonce-go}
use rutgers_2026_e_ctf_desig.Commands.{occupied, is_stored, max_contents_size}
use rutgers_2026_e_ctf_desig.Commands.Reading.{read_whole-opened}
use rutgers_2026_e_ctf_desig.Transfer.{
  decode_request, ReceiveChallenge, encode_challenge, decode_proof,
}
use rutgers_2026_e_ctf_desig.Transfer.Request.{is_sent}
use rutgers_2026_e_ctf_desig.Transfer.Listen.{
  listen_receive, serve_file, receive_proof_ok, unless, need_or, deny, deny_and_tell, import_denied,
}

module _ {F : Type 0} where
  -- A test at the end of a run.
  pub unless-end :
      (b : Bool) (otherwise : Cmd F (Unit {0})) (d : Device F) {d' : Device F}
      → unless b otherwise d ≡ go tt d'
      → went_on (otherwise d) ≡ false
      → d ≡ d'
  unfolding unless
  unless-end true otherwise d e denied = go-same e
  unless-end false otherwise d e denied = absurd (true≢false (ap went_on (sym e) ∙ denied))

module _ {F A : Type 0} where
  -- A test that a run passed, where the other branch returns.
  pub unless-go :
      (b : Bool) (otherwise : Cmd F (Unit {0})) (k : Unit {0} → Cmd F A) (d : Device F) {a : A}
      {d' : Device F}
      → and_then (unless b otherwise d) k ≡ go a d'
      → went_on (and_then (otherwise d) k) ≡ false
      → (b ≡ true) × (k tt d ≡ go a d')
  unfolding unless
  unless-go true otherwise k d e denied = (refl, e)
  unless-go false otherwise k d e denied = absurd (true≢false (ap went_on (sym e) ∙ denied))

  pub need_or-go :
      {B : Type 0} (o : Option B) (otherwise : Cmd F B) (k : B → Cmd F A) (d : Device F) {a : A}
      {d' : Device F}
      → and_then (need_or o otherwise d) k ≡ go a d'
      → went_on (and_then (otherwise d) k) ≡ false
      → (b : B) × (o ≡ some b) × (k b d ≡ go a d')
  unfolding need_or
  need_or-go none otherwise k d e denied = absurd (true≢false (ap went_on (sym e) ∙ denied))
  need_or-go (some b) otherwise k d e denied = (b, refl, e)

-- A conjunction that holds.
pub and-true : (a b : Bool) → (a && b) ≡ true → (a ≡ true) × (b ≡ true)
and-true true b e = (refl, e)
and-true false b e = absurd (false≢true e)

-- A proof that fits a challenge repeats its fields.
receive_proof_ok-same :
    (challenge : ReceiveChallenge) (rc : MsgStatus) (got : Packet)
    → receive_proof_ok challenge (rc, got) ≡ true
    → (decode_proof got.body).challenge ≡ challenge
unfolding receive_proof_ok
receive_proof_ok-same challenge rc got e =
    let p = (decode_proof got.body).challenge in
    let (_, e1) = and-true (is_sent rc) _ e in
    let (_, e2) = and-true (got.cmd == Msg.receive) _ e1 in
    let (_, e3) = and-true (length got.body == 43) _ e2 in
    let (slot, e4) = and-true (p.slot == challenge.slot) _ e3 in
    let (group, e5) = and-true (p.group_id == challenge.group_id) _ e4 in
    let (nr, nt) = and-true (p.requester_nonce == challenge.requester_nonce) _ e5 in
    let same_slot = (==_iff p.slot challenge.slot).0 slot in
    let same_group = (==_iff p.group_id challenge.group_id).0 group in
    let same_nr = (==_iff p.requester_nonce challenge.requester_nonce).0 nr in
    let same_nt = (==_iff p.target_nonce challenge.target_nonce).0 nt in
    λ i. record {
      slot = same_slot i;
      group_id = same_group i;
      requester_nonce = same_nr i;
      target_nonce = same_nt i;
    }

-- The challenge that `listen` makes.
abbrev made_of : ℕ → ℕ → NameEntry → ℕ → ReceiveChallenge
made_of slot requester_nonce entry nonce = record {
  slot = slot;
  group_id = entry.group_id;
  requester_nonce = requester_nonce;
  target_nonce = nonce;
}

abbrev pub challenge_of : {F : Type 0} → Bytes → Bytes → Device F → ReceiveChallenge
challenge_of body nonce d =
    let request = decode_request body in
    made_of request.slot request.requester_nonce (name_at d.names request.slot) (load32 nonce 0)

-- What the replay cache tells it by.
abbrev pub token_of : ReceiveChallenge → Token
token_of challenge = record {
  nr = challenge.requester_nonce;
  nt = challenge.target_nonce;
  group_id = challenge.group_id;
  op = Msg.receive;
}

-- The packet that answers it.
abbrev pub reply_to : {F : Type 0} → ReceiveChallenge → Device F → Packet
reply_to challenge d =
    (read_packet 43 (write_packet Msg.receive (encode_challenge challenge) d.transfer).1).0.1

module _ {F C : Type 0} (c : FlashCtl F) (aes : Aes C) (secrets : Secrets) where
  -- What a module had shown that was sent the file of a challenge.
  pub record IsServed (challenge : ReceiveChallenge) (d : Device F) : Type 0 where
    pub root : RootSecret
    pub header : BlobHeader
    pub has_root : get_root_secret secrets.global_secrets ≡ some root
    pub verified :
        receive_proof_verify root challenge.group_id
          (encode_challenge challenge)
          (decode_proof (reply_to challenge d).body).proof
        ≡ true
    pub fresh : (check_and_update_replay (token_of challenge) d.replay).0 ≡ true
    pub loaded : load_header c challenge.slot d.store ≡ (blob_ok, header)
    pub shared : (bit_and challenge.group_id header.group_mask == 0) ≡ false

  serve_file-IsServed :
      (slot requester_nonce nonce : ℕ) (entry : NameEntry) (d : Device F) {d' : Device F}
      → serve_file c aes secrets slot requester_nonce entry nonce d ≡ go tt d'
      → IsServed (made_of slot requester_nonce entry nonce) d
  unfolding serve_file deny deny_and_tell to_peer from_peer on_store on_replay fail
      blob_read_all_group_mask
  serve_file-IsServed slot requester_nonce nonce entry d r =
      let ch = made_of slot requester_nonce entry nonce in
      let sent = write_packet Msg.receive (encode_challenge ch) d.transfer in
      let d1 = record d { transfer = sent.1 } in
      let got = read_packet 43 sent.1 in
      let d2 = record d { transfer = got.1 } in
      let (_, r1) = unless-go (is_sent sent.0) _ _ d1 r refl in
      let (matches, r2) = unless-go (receive_proof_ok ch got.0) _ _ d2 r1 refl in
      let (root, has_root, r3) =
        need_or-go (get_root_secret secrets.global_secrets) _ _ d2 r2 refl in
      let p = decode_proof got.0.1.body in
      let (verified, r4) =
        unless-go (receive_proof_verify root p.challenge.group_id (encode_challenge ch) p.proof) _ _
          d2 r3 refl in
      let replay = check_and_update_replay (token_of p.challenge) d.replay in
      let d3 = record d2 { replay = replay.1 } in
      let (fresh, r5) = unless-go replay.0 _ _ d3 r4 refl in
      let ((rc, len), s2) =
        blob_read_init_internal c secrets.global_secrets slot any_owner entry.group_id d.store in
      let whole =
        blob_read_all_group_mask c aes secrets.global_secrets slot entry.group_id max_contents_size
          d.store in
      let (good, _) =
        unless-go (is_stored whole.0.status) _ _ (record d3 { store = whole.1 }) r5 refl in
      let opened = read_whole-opened c aes max_contents_size len rc s2 good in
      let a =
        opened-IsAllowed c secrets.global_secrets slot any_owner entry.group_id d.store s2 len
          (ap (λ (t : BlobStatus). ((t, len), s2)) opened) in
      let same = receive_proof_ok-same ch got.0.0 got.0.1 matches in
      record {
        root = root;
        header = a.header;
        has_root = has_root;
        verified =
            ap
              (λ (t : ReceiveChallenge).
                receive_proof_verify root t.group_id (encode_challenge ch) p.proof)
              (sym same)
            ∙ verified;
        fresh =
            ap (λ (t : ReceiveChallenge). (check_and_update_replay (token_of t) d.replay).0)
              (sym same)
            ∙ fresh;
        loaded = a.loaded;
        shared = a.shared;
      }

  -- Where `listen` goes through a transfer, it has drawn a nonce and the slot is occupied; the
  -- peer's answer to the challenge with this nonce has a proof that verifies for the group of the
  -- file under the root secret, the challenge is not in the replay cache, and the header of the
  -- slot loads and shares a bit with the group.
  pub listen_receive-IsServed :
      (body : Bytes) (d : Device F) {d' : Device F}
      → listen_receive c aes secrets body d ≡ go tt d'
      → (nonce : Bytes) × (cs : List Capture) × (generate_nonce d.store.trng 4
          ≡ some (some nonce, cs))
        × (occupied (decode_request body).slot d ≡ true)
        × IsServed (challenge_of body nonce d) (record d { store = record d.store { trng = cs } })
  unfolding listen_receive deny deny_and_tell to_peer fail need_or
  listen_receive-IsServed body d {d'} r =
      let request = decode_request body in
      let entry = name_at d.names request.slot in
      let (_, r1) = unless-go (length body == 5) _ _ d r refl in
      let (found, r2) = unless-go (occupied request.slot d) _ _ d r1 refl in
      let (drawn, cs, made, r3) =
        draw_nonce-go
          (λ drawn.
            need_or drawn (deny import_denied)
            >>= serve_file c aes secrets request.slot request.requester_nonce entry)
          d r2 in
      cases found drawn cs made r3
    where
      cases :
          occupied (decode_request body).slot d ≡ true
          → (drawn : Option Bytes) (cs : List Capture)
          → generate_nonce d.store.trng 4 ≡ some (drawn, cs)
          → ((need_or (nonce_of drawn) (deny import_denied)
                >>= serve_file c aes secrets
                    (decode_request body).slot
                    (decode_request body).requester_nonce
                    (name_at d.names (decode_request body).slot))
              (record d { store = record d.store { trng = cs } }))
            ≡ go tt d'
          → (nonce : Bytes) × (cs : List Capture) × (generate_nonce d.store.trng 4
              ≡ some (some nonce, cs))
            × (occupied (decode_request body).slot d ≡ true)
            × IsServed
                (challenge_of body nonce d)
                (record d { store = record d.store { trng = cs } })
      cases found none cs made r3 = absurd (true≢false (ap went_on (sym r3)))
      cases found (some nonce) cs made r3 =
          let request = decode_request body in
          (
            nonce,
            cs,
            made,
            found,
            serve_file-IsServed request.slot request.requester_nonce (load32 nonce 0)
                (name_at d.names request.slot) (record d { store = record d.store { trng = cs } })
                r3,
          )
