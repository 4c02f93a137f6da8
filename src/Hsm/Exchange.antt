-- ===== src/Hsm/Exchange.antt =====
-- The handlers of firmware/src/commands.c that talk to another module keep the form of the device.
use rutgers_2026_e_ctf_desig.Prelude.{
  ℕ, ◌<◌, ◌≡◌, Bool, true, false, Option, none, some, arith, Bytes, byte_at, load32, ◌==◌, ==_iff,
  if_keeps, length,
}
use rutgers_2026_e_ctf_desig.Flash.{FlashCtl}
use rutgers_2026_e_ctf_desig.Crypto.{Aes}
use rutgers_2026_e_ctf_desig.Messaging.Msg
use rutgers_2026_e_ctf_desig.Security.{Secrets}
use rutgers_2026_e_ctf_desig.Names.{NameEntry, name_at}
use rutgers_2026_e_ctf_desig.Device.{Device, Cmd}
use rutgers_2026_e_ctf_desig.Commands.{pin_of}
use rutgers_2026_e_ctf_desig.Transfer.{
  ReceiveResponse, decode_response, response_size, decode_request,
}
use rutgers_2026_e_ctf_desig.Transfer.Request.{store_received_blob, receive, interrogate}
use rutgers_2026_e_ctf_desig.Transfer.Listen.{
  deny, deny_and_tell, unless, need_or, serve_list, listen_interrogate, serve_file, listen_receive,
  listen,
}
use rutgers_2026_e_ctf_desig.Transfer.Serving.{and-true}
use rutgers_2026_e_ctf_desig.Hsm.Blobs.Reads.{blob_read_all_group_mask-IsTable}
use rutgers_2026_e_ctf_desig.Hsm.Handlers.{load16-lt, sized_at, pin_gate-Ends, store_blob-Ends}
use rutgers_2026_e_ctf_desig.Hsm.Steps.{
  IsSound, Ends, Any, and_then-Ends, go-Ends, stop-Ends, fail-Ends, require-Ends, need-Ends,
  answer-Ends, answer_status-Ends, to_peer-Ends, from_peer-Ends,
}
use rutgers_2026_e_ctf_desig.Hsm.Steps.State.{draw_nonce-Ends, on_store-Ends, on_replay-Ends}

module _ {F : Type 0} {H : Bytes → Type 0} where
  deny-Ends :
      {A : Type 0} (P : A → Type 0) (msg : Bytes) (d : Device F)
      → IsSound H d
      → Ends H P (deny msg d)
  unfolding deny
  deny-Ends P msg d v = record { holds = (to_peer-Ends Msg.error msg d v).holds.1 }

  deny_and_tell-Ends :
      {A : Type 0} (P : A → Type 0) (msg note : Bytes) (d : Device F)
      → IsSound H d
      → Ends H P (deny_and_tell msg note d)
  unfolding deny_and_tell
  deny_and_tell-Ends P msg note d v = record {
    holds = (fail-Ends P note _ (to_peer-Ends Msg.error msg d v).holds.1).holds;
  }

  unless-Ends :
      (b : Bool) (otherwise : Cmd F (Unit {0})) (d : Device F)
      → ((d : Device F) → IsSound H d → Ends H Any (otherwise d))
      → IsSound H d
      → Ends H Any (unless b otherwise d)
  unfolding unless
  unless-Ends true otherwise d k v = go-Ends Any tt d tt v
  unless-Ends false otherwise d k v = k d v

  need_or-Ends :
      {A : Type 0} (o : Option A) (otherwise : Cmd F A) (d : Device F)
      → ((d : Device F) → IsSound H d → Ends H Any (otherwise d))
      → IsSound H d
      → Ends H Any (need_or o otherwise d)
  unfolding need_or
  need_or-Ends none otherwise d k v = k d v
  need_or-Ends (some a) otherwise d k v = go-Ends Any a d tt v

module _ {F C : Type 0} {H : Bytes → Type 0} (c : FlashCtl F) (aes : Aes C)
    (secrets : Secrets) where
  store_received_blob-Ends :
      (slot : ℕ) (r : ReceiveResponse) (pin : Bytes) (d : Device F)
      → length r.name ≡ 32
      → r.group_id < 65536
      → length r.uuid ≡ 16
      → IsSound H d
      → Ends H Any (store_received_blob c aes secrets slot r pin d)
  unfolding store_received_blob
  store_received_blob-Ends slot r pin d named low u v =
      and_then-Ends (require-Ends _ _ d v) λ _ d1 _ v1.
        and_then-Ends (require-Ends _ _ d1 v1) λ _ d2 _ v2.
          and_then-Ends (need-Ends _ _ d2 v2) λ pin_hash d3 _ v3.
            store_blob-Ends c aes secrets slot r.name r.group_id r.contents r.uuid pin_hash d3 named
              low u v3

  pub receive-Ends :
      (body : Bytes) (d : Device F) → IsSound H d → Ends H Any (receive c aes secrets body d)
  unfolding receive
  receive-Ends body d v = and_then-Ends (require-Ends _ _ d v) λ _ d1 _ v1.
      and_then-Ends (pin_gate-Ends c secrets (pin_of body) d1 v1) λ _ d2 _ v2.
        and_then-Ends (draw_nonce-Ends d2 v2) λ _ d3 _ v3.
          and_then-Ends (need-Ends _ _ d3 v3) λ _ d4 _ v4.
            and_then-Ends (to_peer-Ends _ _ d4 v4) λ _ d5 _ v5.
              and_then-Ends (require-Ends _ _ d5 v5) λ _ d6 _ v6.
                and_then-Ends (from_peer-Ends 11 d6 v6) λ (rc, got) d7 _ v7.
                  and_then-Ends (require-Ends _ _ d7 v7) λ _ d8 _ v8.
                    and_then-Ends (require-Ends _ _ d8 v8) λ _ d9 _ v9.
                      and_then-Ends (require-Ends _ _ d9 v9) λ _ d10 _ v10.
                        and_then-Ends (require-Ends _ _ d10 v10) λ _ d11 _ v11.
                          and_then-Ends (need-Ends _ _ d11 v11) λ _ d12 _ v12.
                            and_then-Ends (need-Ends _ _ d12 v12) λ _ d13 _ v13.
                              and_then-Ends (to_peer-Ends _ _ d13 v13) λ _ d14 _ v14.
                                and_then-Ends (require-Ends _ _ d14 v14) λ _ d15 _ v15.
                                  and_then-Ends (from_peer-Ends response_size d15 v15)
                                    λ (rc2, file) d16 bytes v16.
                                      and_then-Ends (require-Ends _ _ d16 v16) λ _ d17 _ v17.
                                        and_then-Ends (require-Ends _ _ d17 v17) λ _ d18 _ v18.
                                          and_then-Ends (require-Ends _ _ d18 v18)
                                            λ _ d19 whole v19.
                                              let sized =
                                                (==_iff (length file.body) response_size).0
                                                  (and-true (file.cmd == Msg.receive) _ whole).1 in
                                              and_then-Ends
                                                (store_received_blob-Ends (byte_at body 7)
                                                  (decode_response file.body) (pin_of body) d19
                                                  (sized_at 32 22 file.body (omega (arith, sized)))
                                                  (load16-lt file.body 20 bytes)
                                                  (sized_at 16 0 file.body (omega (arith, sized)))
                                                  v19)
                                                λ _ d20 _ v20. answer-Ends _ _ d20 v20

module _ {F : Type 0} {H : Bytes → Type 0} (c : FlashCtl F) (secrets : Secrets) where
  pub interrogate-Ends :
      (body : Bytes) (d : Device F) → IsSound H d → Ends H Any (interrogate c secrets body d)
  unfolding interrogate
  interrogate-Ends body d v = and_then-Ends (require-Ends _ _ d v) λ _ d1 _ v1.
      and_then-Ends (pin_gate-Ends c secrets (pin_of body) d1 v1) λ _ d2 _ v2.
        and_then-Ends (draw_nonce-Ends d2 v2) λ _ d3 _ v3.
          and_then-Ends (need-Ends _ _ d3 v3) λ _ d4 _ v4.
            and_then-Ends (to_peer-Ends _ _ d4 v4) λ _ d5 _ v5.
              and_then-Ends (require-Ends _ _ d5 v5) λ _ d6 _ v6.
                and_then-Ends (from_peer-Ends 8 d6 v6) λ _ d7 _ v7.
                  and_then-Ends (require-Ends _ _ d7 v7) λ _ d8 _ v8.
                    and_then-Ends (require-Ends _ _ d8 v8) λ _ d9 _ v9.
                      and_then-Ends (need-Ends _ _ d9 v9) λ _ d10 _ v10.
                        and_then-Ends (need-Ends _ _ d10 v10) λ _ d11 _ v11.
                          and_then-Ends (to_peer-Ends _ _ d11 v11) λ _ d12 _ v12.
                            and_then-Ends (require-Ends _ _ d12 v12) λ _ d13 _ v13.
                              and_then-Ends (from_peer-Ends 284 d13 v13) λ _ d14 _ v14.
                                and_then-Ends (require-Ends _ _ d14 v14) λ _ d15 _ v15.
                                  and_then-Ends (require-Ends _ _ d15 v15)
                                    λ _ d16 _ v16. answer_status-Ends _ _ d16 v16

module _ {F : Type 0} {H : Bytes → Type 0} (secrets : Secrets) where
  serve_list-Ends :
      (requester_nonce nonce : ℕ) (d : Device F)
      → IsSound H d
      → Ends H Any (serve_list secrets requester_nonce nonce d)
  unfolding serve_list
  serve_list-Ends requester_nonce nonce d v = and_then-Ends (to_peer-Ends _ _ d v) λ _ d1 _ v1.
      and_then-Ends (unless-Ends _ _ d1 (λ e w. stop-Ends Any _ e w) v1) λ _ d2 _ v2.
        and_then-Ends (from_peer-Ends _ d2 v2) λ _ d3 _ v3.
          and_then-Ends (unless-Ends _ _ d3 (λ e w. deny-Ends Any _ e w) v3) λ _ d4 _ v4.
            and_then-Ends (need_or-Ends _ _ d4 (λ e w. deny-Ends Any _ e w) v4) λ _ d5 _ v5.
              and_then-Ends (unless-Ends _ _ d5 (λ e w. deny-Ends Any _ e w) v5) λ _ d6 _ v6.
                and_then-Ends (on_replay-Ends _ d6 v6) λ _ d7 _ v7.
                  and_then-Ends (unless-Ends _ _ d7 (λ e w. deny-Ends Any _ e w) v7) λ _ d8 _ v8.
                    and_then-Ends (to_peer-Ends _ _ d8 v8)
                      λ _ d9 _ v9. unless-Ends _ _ d9 (λ e w. fail-Ends Any _ e w) v9

  listen_interrogate-Ends :
      (request : Bytes) (d : Device F)
      → IsSound H d
      → Ends H Any (listen_interrogate secrets request d)
  unfolding listen_interrogate
  listen_interrogate-Ends request d v =
      and_then-Ends (unless-Ends _ _ d (λ e w. deny-Ends Any _ e w) v) λ _ d1 _ v1.
        and_then-Ends (draw_nonce-Ends d1 v1) λ _ d2 _ v2.
          and_then-Ends (need_or-Ends _ _ d2 (λ e w. deny-Ends Any _ e w) v2)
            λ nonce d3 _ v3. serve_list-Ends (load32 request 0) nonce d3 v3

module _ {F C : Type 0} {H : Bytes → Type 0} (c : FlashCtl F) (aes : Aes C)
    (secrets : Secrets) where
  serve_file-Ends :
      (slot requester_nonce : ℕ) (entry : NameEntry) (nonce : ℕ) (d : Device F)
      → IsSound H d
      → Ends H Any (serve_file c aes secrets slot requester_nonce entry nonce d)
  unfolding serve_file
  serve_file-Ends slot requester_nonce entry nonce d v =
      and_then-Ends (to_peer-Ends _ _ d v) λ _ d1 _ v1.
        and_then-Ends (unless-Ends _ _ d1 (λ e w. fail-Ends Any _ e w) v1) λ _ d2 _ v2.
          and_then-Ends (from_peer-Ends _ d2 v2) λ _ d3 _ v3.
            and_then-Ends (unless-Ends _ _ d3 (λ e w. deny-Ends Any _ e w) v3) λ _ d4 _ v4.
              and_then-Ends (need_or-Ends _ _ d4 (λ e w. deny-Ends Any _ e w) v4) λ _ d5 _ v5.
                and_then-Ends (unless-Ends _ _ d5 (λ e w. deny-Ends Any _ e w) v5) λ _ d6 _ v6.
                  and_then-Ends (on_replay-Ends _ d6 v6) λ _ d7 _ v7.
                    and_then-Ends (unless-Ends _ _ d7 (λ e w. deny-Ends Any _ e w) v7) λ _ d8 _ v8.
                      and_then-Ends
                        (on_store-Ends _ d8
                          (blob_read_all_group_mask-IsTable c aes secrets.global_secrets slot
                            entry.group_id 8192)
                          v8)
                        λ _ d9 _ v9.
                          and_then-Ends
                            (unless-Ends _ _ d9 (λ e w. deny_and_tell-Ends Any _ _ e w) v9)
                            λ _ d10 _ v10.
                              and_then-Ends
                                (unless-Ends _ _ d10 (λ e w. deny_and_tell-Ends Any _ _ e w) v10)
                                λ _ d11 _ v11.
                                  and_then-Ends (to_peer-Ends _ _ d11 v11) λ _ d12 _ v12.
                                    unless-Ends _ _ d12 (λ e w. fail-Ends Any _ e w) v12

  listen_receive-Ends :
      (body : Bytes) (d : Device F) → IsSound H d → Ends H Any (listen_receive c aes secrets body d)
  unfolding listen_receive
  listen_receive-Ends body d v =
      and_then-Ends (unless-Ends _ _ d (λ e w. deny-Ends Any _ e w) v) λ _ d1 _ v1.
        and_then-Ends (unless-Ends _ _ d1 (λ e w. deny_and_tell-Ends Any _ _ e w) v1) λ _ d2 _ v2.
          and_then-Ends (draw_nonce-Ends d2 v2) λ _ d3 _ v3.
            and_then-Ends (need_or-Ends _ _ d3 (λ e w. deny-Ends Any _ e w) v3) λ nonce d4 _ v4.
              let request = decode_request body in
              serve_file-Ends request.slot request.requester_nonce (name_at d2.names request.slot)
                nonce d4 v4

  pub listen-Ends : (d : Device F) → IsSound H d → Ends H Any (listen c aes secrets d)
  unfolding listen
  listen-Ends d v = and_then-Ends (from_peer-Ends _ d v) λ (rc, got) d1 _ v1.
      and_then-Ends (require-Ends _ _ d1 v1) λ _ d2 _ v2.
        let case = λ (m : Cmd F (Unit {0})). Ends H Any (m d2) in
        and_then-Ends
          (if_keeps case (got.cmd == Msg.interrogate)
            (λ _. listen_interrogate-Ends secrets got.body d2 v2)
            (λ _.
              if_keeps case (got.cmd == Msg.receive) (λ _. listen_receive-Ends got.body d2 v2)
                (λ _. fail-Ends Any _ d2 v2)))
          λ _ d3 _ v3. answer-Ends _ _ d3 v3
