-- ===== src/Hsm/Blobs/Reads.antt =====
-- The FAT keeps its form under the reads of firmware/src/secure_blob_store.c.
use rutgers_2026_e_ctf_desig.Prelude.{
  ℕ, ◌+◌, refl, [], Bytes, ltb, if◌then◌else◌, if_keeps, option_keeps, bit_and, bytes_eq, ◌==◌,
}
use rutgers_2026_e_ctf_desig.Flash.{FlashCtl}
use rutgers_2026_e_ctf_desig.SecureDesign.{get_root_secret}
use rutgers_2026_e_ctf_desig.Crypto.{Aes, crypto_hmac_sha256, hmac_size}
use rutgers_2026_e_ctf_desig.BlobStore.{
  BlobStatus, blob_ok, permission_denied, bad_len, Store, slot_is_valid, load_header,
  derive_file_key,
}
use rutgers_2026_e_ctf_desig.Sha256.{ctx_final}
use rutgers_2026_e_ctf_desig.BlobStore.Read.{
  owner, any_owner, owner_ok, Reader, open_read, blob_read_init_internal, blob_read_init,
  blob_read_chunk, blob_read_finish, read_whole, blob_read_all, blob_read_all_group_mask,
}
use rutgers_2026_e_ctf_desig.Hsm.Blobs.{
  IsTable, IsTable-same, Kept, status_keeps, after_ok_inner-Kept,
}

module _ {F C : Type 0} (c : FlashCtl F) (aes : Aes C) where
  read_init-Kept :
      (global_secrets : Bytes) (slot : ℕ) (reader : Reader) (mask : ℕ) (s : Store F)
      → IsTable s
      → Kept (blob_read_init_internal c global_secrets slot reader mask s)
  unfolding blob_read_init_internal open_read
  read_init-Kept global_secrets slot reader mask s t =
      let (rc, h) = load_header c slot s in
      let same : Kept ((permission_denied, 0), s) = record { table = t } in
      if_keeps Kept (slot_is_valid slot)
        (λ _. after_ok_inner-Kept rc s _ t (
          if_keeps Kept (bit_and mask h.group_mask == 0) (λ _. same)
            (λ _.
              if_keeps Kept (owner_ok reader h)
                (λ _.
                  option_keeps Kept (get_root_secret global_secrets) (record { table = t })
                    λ root _.
                      option_keeps Kept (derive_file_key root h.group_mask) (record { table = t })
                        λ master _. record { table = IsTable-same s _ refl t })
                (λ _. same))))
        (λ _. record { table = t })

  chunk-Kept : (len : ℕ) (s : Store F) → IsTable s → Kept (blob_read_chunk c aes len s)
  unfolding blob_read_chunk
  chunk-Kept len s t =
      if_keeps Kept (ltb s.reading.total_len (s.reading.processed + len))
        (λ _. record { table = t }) (λ _. record { table = IsTable-same s _ refl t })

  finish-Kept : (s : Store F) → IsTable s → Kept (blob_read_finish s)
  unfolding blob_read_finish
  finish-Kept s t =
      let r = s.reading in
      option_keeps Kept (crypto_hmac_sha256 r.master_key (ctx_final r.sha_ctx) hmac_size)
        (record { table = IsTable-same s _ refl t })
        λ tag _.
          if_keeps Kept (bytes_eq tag r.expected_blob_tag)
            (λ _. record { table = IsTable-same s _ refl t })
            (λ _. record { table = IsTable-same s _ refl t })

  read_whole-Kept :
      (room : ℕ) (opened : (BlobStatus × ℕ) × Store F)
      → IsTable opened.1
      → Kept (read_whole c aes room opened)
  unfolding read_whole
  read_whole-Kept room ((rc, len), s) t =
      let ((read, out), s1) = blob_read_chunk c aes len s in
      let t1 = (chunk-Kept len s t).table in
      let read_all = if ltb 0 len then s1 else s in
      let (done, s2) = blob_read_finish read_all in
      let t2 = (finish-Kept read_all (if_keeps IsTable (ltb 0 len) (λ _. t1) (λ _. t))).table in
      let pt : Bytes = if ltb 0 len then out else [] in
      let finished =
        status_keeps Kept done (record { status = blob_ok; out = pt; out_len = len }, s2)
          (λ other. (record { status = other; out = []; out_len = room }, s2))
          (record { table = t2 }) (λ other. record { table = t2 }) in
      status_keeps Kept rc
        (if ltb room len
          then (record { status = bad_len; out = []; out_len = len }, s)
          else if ltb 0 len
          then elim read [
            | blob_ok ↦ elim done [
              | blob_ok ↦ (record { status = blob_ok; out = pt; out_len = len }, s2)
              | other ↦ (record { status = other; out = []; out_len = room }, s2)
            ]
            | other ↦ (record { status = other; out = []; out_len = room }, s1)
          ]
          else elim done [
            | blob_ok ↦ (record { status = blob_ok; out = pt; out_len = len }, s2)
            | other ↦ (record { status = other; out = []; out_len = room }, s2)
          ])
        (λ other. (record { status = other; out = []; out_len = room }, s))
        (if_keeps Kept (ltb room len) (λ _. record { table = t })
          (λ _.
            if_keeps Kept (ltb 0 len)
              (λ _.
                status_keeps Kept read _
                  (λ other. (record { status = other; out = []; out_len = room }, s1)) finished
                  (λ other. record { table = t1 }))
              (λ _. finished)))
        (λ other. record { table = t })

  pub blob_read_all-IsTable :
      (global_secrets : Bytes) (slot : ℕ) (pin_hash : Bytes) (mask room : ℕ) (s : Store F)
      → IsTable s
      → IsTable (blob_read_all c aes global_secrets slot pin_hash mask room s).1
  unfolding blob_read_all blob_read_init
  blob_read_all-IsTable global_secrets slot pin_hash mask room s t =
      let opened = blob_read_init_internal c global_secrets slot (owner pin_hash) mask s in
      let t1 = (read_init-Kept global_secrets slot (owner pin_hash) mask s t).table in
      (read_whole-Kept room opened t1).table

  pub blob_read_all_group_mask-IsTable :
      (global_secrets : Bytes) (slot mask room : ℕ) (s : Store F)
      → IsTable s
      → IsTable (blob_read_all_group_mask c aes global_secrets slot mask room s).1
  unfolding blob_read_all_group_mask
  blob_read_all_group_mask-IsTable global_secrets slot mask room s t =
      let opened = blob_read_init_internal c global_secrets slot any_owner mask s in
      (read_whole-Kept room opened
        (read_init-Kept global_secrets slot any_owner mask s t).table).table
