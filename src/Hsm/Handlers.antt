-- ===== src/Hsm/Handlers.antt =====
-- The handlers of firmware/src/commands.c for the host keep the form of the device.
use rutgers_2026_e_ctf_desig.Prelude.{
  sym, ℕ, ◌+◌, ◌≤◌, ◌<◌, ◌≡◌, not-ltb→le, arith, Bytes, IsBytes, byte_at, load16, if_keeps, length,
  take, drop, length-take, length-drop,
}
use rutgers_2026_e_ctf_desig.Flash.{FlashCtl}
use rutgers_2026_e_ctf_desig.Crypto.{Aes}
use rutgers_2026_e_ctf_desig.Messaging.Sizes.{byte_at-lt}
use rutgers_2026_e_ctf_desig.Security.{Secrets, pin_length}
use rutgers_2026_e_ctf_desig.BlobStore.{blob_delete}
use rutgers_2026_e_ctf_desig.BlobStore.Write.{blob_write}
use rutgers_2026_e_ctf_desig.Names.{save_name_entry, clear_name_entry}
use rutgers_2026_e_ctf_desig.Device.{Device, Cmd}
use rutgers_2026_e_ctf_desig.Commands.{decode_write, is_stored, pin_of, pin_gate}
use rutgers_2026_e_ctf_desig.Commands.Files.{list, read, write, delete_file, store_blob}
use rutgers_2026_e_ctf_desig.Commands.Diagnostics.{change_pin, boot_flag, digest, echo}
use mathlib.Core.Path.{subst}
use rutgers_2026_e_ctf_desig.Hsm.Pins.{check_pin-hash, check_pin-IsPins, pin_change-IsPins}
use rutgers_2026_e_ctf_desig.Hsm.Blobs.{blob_delete-IsTable}
use rutgers_2026_e_ctf_desig.Hsm.Blobs.Reads.{
  blob_read_all-IsTable, blob_read_all_group_mask-IsTable,
}
use rutgers_2026_e_ctf_desig.Hsm.Blobs.Writes.{blob_write-Written}
use rutgers_2026_e_ctf_desig.Hsm.Shelf.{save_name_entry-IsShelf, clear_name_entry-IsShelf}
use rutgers_2026_e_ctf_desig.Hsm.Steps.{
  IsSound, Ends, Ends-Any, Any, and_then-Ends, go-Ends, fail-Ends, require-Ends, need-Ends,
  answer-Ends, answer_status-Ends,
}
use rutgers_2026_e_ctf_desig.Hsm.Steps.State.{
  on_pins-Ends, on_names-Ends, on_store-Ends, on_store_trng-Ends,
}

pub load16-lt : (b : Bytes) (i : ℕ) → IsBytes b → load16 b i < 65536
load16-lt b i v = omega (arith, byte_at-lt b i v, byte_at-lt b (i + 1) v)

module _ {F : Type 0} {H : Bytes → Type 0} (c : FlashCtl F) (secrets : Secrets) where
  pub pin_gate-Ends :
      (pin : Bytes) (d : Device F) → IsSound H d → Ends H Any (pin_gate c secrets pin d)
  unfolding pin_gate
  pin_gate-Ends pin d v = and_then-Ends (require-Ends _ _ d v) λ _ d1 _ v1.
      and_then-Ends
        (on_pins-Ends _ d1
          (λ p w same. (
            check_pin-IsPins c secrets pin p w,
            subst H (sym (check_pin-hash c secrets pin p)) same,
          ))
          v1)
        λ _ d2 _ v2. Ends-Any (require-Ends _ _ d2 v2)

  pub list-Ends : (body : Bytes) (d : Device F) → IsSound H d → Ends H Any (list c secrets body d)
  unfolding list
  list-Ends body d v = and_then-Ends (require-Ends _ _ d v) λ _ d1 _ v1.
      and_then-Ends (pin_gate-Ends (pin_of body) d1 v1) λ _ d2 _ v2. answer-Ends _ _ d2 v2

  pub delete_file-Ends :
      (body : Bytes) (d : Device F) → IsSound H d → Ends H Any (delete_file c secrets body d)
  unfolding delete_file
  delete_file-Ends body d v = and_then-Ends (require-Ends _ _ d v) λ _ d1 _ v1.
      and_then-Ends (pin_gate-Ends (pin_of body) d1 v1) λ _ d2 _ v2.
        and_then-Ends (require-Ends _ _ d2 v2) λ _ d3 _ v3.
          and_then-Ends
            (on_store-Ends (blob_delete c (byte_at body 6)) d3
              (blob_delete-IsTable c (byte_at body 6)) v3)
            λ _ d4 _ v4. and_then-Ends (require-Ends _ _ d4 v4) λ _ d5 _ v5.
              and_then-Ends
                (on_names-Ends (clear_name_entry c (byte_at body 6)) d5
                  (clear_name_entry-IsShelf c (byte_at body 6)) v5)
                λ _ d6 _ v6.
                  and_then-Ends (require-Ends _ _ d6 v6) λ _ d7 _ v7. answer-Ends _ _ d7 v7

  pub boot_flag-Ends :
      (body : Bytes) (d : Device F) → IsSound H d → Ends H Any (boot_flag c secrets body d)
  unfolding boot_flag
  boot_flag-Ends body d v = and_then-Ends (need-Ends _ _ d v) λ _ d1 _ v1. answer-Ends _ _ d1 v1

module _ {F : Type 0} {H : Bytes → Type 0} (c : FlashCtl F) (secrets : Secrets) where
  -- It may leave any hash.
  pub change_pin-Ends :
      (any : (h : Bytes) → H h) (body : Bytes) (d : Device F)
      → IsSound H d
      → Ends H Any (change_pin c secrets body d)
  unfolding change_pin
  change_pin-Ends any body d v = and_then-Ends (require-Ends _ _ d v) λ _ d1 _ v1.
      and_then-Ends (require-Ends _ _ d1 v1) λ _ d2 _ v2.
        and_then-Ends
          (on_pins-Ends _ d2
            (λ p w _. (
              pin_change-IsPins c secrets (take pin_length body) (take pin_length (drop 6 body)) p
                  w,
              any _,
            ))
            v2)
          λ _ d3 _ v3. and_then-Ends (require-Ends _ _ d3 v3) λ _ d4 _ v4. answer-Ends _ _ d4 v4

pub echo-Ends :
    {F : Type 0} {H : Bytes → Type 0} (body : Bytes) (d : Device F)
    → IsSound H d
    → Ends H Any (echo body d)
unfolding echo
echo-Ends body d v = answer-Ends _ _ d v

-- The fields of a write command that is long enough.
pub sized_at : (n i : ℕ) (b : Bytes) → n + i ≤ length b → length (take n (drop i b)) ≡ n
sized_at n i b h = omega (arith, h, length-take n (drop i b), length-drop i b)

module _ {F C : Type 0} {H : Bytes → Type 0} (c : FlashCtl F) (aes : Aes C)
    (secrets : Secrets) where
  pub store_blob-Ends :
      (slot : ℕ) (name : Bytes) (group_id : ℕ) (contents uuid pin_hash : Bytes) (d : Device F)
      → length name ≡ 32
      → group_id < 65536
      → length uuid ≡ 16
      → IsSound H d
      → Ends H Any (store_blob c aes secrets slot name group_id contents uuid pin_hash d)
  unfolding store_blob
  store_blob-Ends slot name group_id contents uuid pin_hash d named low u v =
      let op = blob_write c aes secrets.global_secrets slot contents uuid pin_hash group_id in
      and_then-Ends
        (on_names-Ends (save_name_entry c slot name group_id) d
          (λ t. save_name_entry-IsShelf c slot name group_id t named low) v)
        λ _ d1 _ v1. and_then-Ends (require-Ends _ _ d1 v1) λ _ d2 _ v2.
          and_then-Ends
            (on_store_trng-Ends op d2
              (λ s rc s' t e.
                (blob_write-Written c aes secrets.global_secrets slot contents uuid pin_hash
                    group_id s u t).table
                  rc s' e)
              v2)
            λ rc d3 _ v3.
              if_keeps (λ (m : Cmd F (Unit {0})). Ends H Any (m d3)) (is_stored rc)
                (λ _. go-Ends Any tt d3 tt v3)
                (λ _.
                  and_then-Ends
                    (on_names-Ends (clear_name_entry c slot) d3 (clear_name_entry-IsShelf c slot)
                      v3)
                    λ _ d4 _ v4. fail-Ends Any _ d4 v4)

  pub write-Ends :
      (body : Bytes) (d : Device F)
      → IsBytes body
      → IsSound H d
      → Ends H Any (write c aes secrets body d)
  unfolding write
  write-Ends body d bytes v =
      let cmd = decode_write body in
      and_then-Ends (require-Ends _ _ d v) λ _ d1 enough v1.
        and_then-Ends (pin_gate-Ends c secrets cmd.pin d1 v1) λ _ d2 _ v2.
          and_then-Ends (require-Ends _ _ d2 v2) λ _ d3 _ v3.
            and_then-Ends (require-Ends _ _ d3 v3) λ _ d4 _ v4.
              and_then-Ends (need-Ends _ _ d4 v4) λ pin_hash d5 _ v5.
                let long = not-ltb→le (length body) 59 enough in
                and_then-Ends
                  (store_blob-Ends cmd.slot cmd.name cmd.group_id cmd.contents cmd.uuid pin_hash d5
                    (sized_at 32 9 body (omega (arith, long))) (load16-lt body 7 bytes)
                    (sized_at 16 41 body (omega (arith, long))) v5)
                  λ _ d6 _ v6. answer-Ends _ _ d6 v6

  pub read-Ends :
      (body : Bytes) (d : Device F) → IsSound H d → Ends H Any (read c aes secrets body d)
  unfolding read
  read-Ends body d v =
      let slot = byte_at body 6 in
      and_then-Ends (require-Ends _ _ d v) λ _ d1 _ v1.
        and_then-Ends (pin_gate-Ends c secrets (pin_of body) d1 v1) λ _ d2 _ v2.
          and_then-Ends (require-Ends _ _ d2 v2) λ _ d3 _ v3.
            and_then-Ends (require-Ends _ _ d3 v3) λ _ d4 _ v4.
              and_then-Ends (need-Ends _ _ d4 v4) λ pin_hash d5 _ v5.
                and_then-Ends
                  (on_store-Ends _ d5
                    (blob_read_all-IsTable c aes secrets.global_secrets slot pin_hash 0xFFFFFFFF
                      8192)
                    v5)
                  λ _ d6 _ v6.
                    and_then-Ends (require-Ends _ _ d6 v6) λ _ d7 _ v7. answer_status-Ends _ _ d7 v7

  pub digest-Ends :
      (body : Bytes) (d : Device F) → IsSound H d → Ends H Any (digest c aes secrets body d)
  unfolding digest
  digest-Ends body d v =
      let slot = byte_at body 0 in
      and_then-Ends (require-Ends _ _ d v) λ _ d1 _ v1.
        and_then-Ends (need-Ends _ _ d1 v1) λ _ d2 _ v2.
          and_then-Ends
            (on_store-Ends _ d2
              (blob_read_all_group_mask-IsTable c aes secrets.global_secrets slot _ 8192) v2)
            λ _ d3 _ v3. and_then-Ends (require-Ends _ _ d3 v3) λ _ d4 _ v4.
              and_then-Ends (need-Ends _ _ d4 v4) λ _ d5 _ v5. answer_status-Ends _ _ d5 v5
