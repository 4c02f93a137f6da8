-- ===== src/Commands/Files.antt =====
-- The file handlers of firmware/src/commands.c: list, read, write and delete.

use rutgers_2026_e_ctf_desig.Messaging.Msg
use rutgers_2026_e_ctf_desig.Prelude.{
  ℕ, ◌-◌, not, [], ◌++◌, Bytes, byte_at, ltb, if◌then◌else◌, length, take,
}
use rutgers_2026_e_ctf_desig.Flash.{FlashCtl}
use rutgers_2026_e_ctf_desig.Crypto.{Aes}
use rutgers_2026_e_ctf_desig.Security.{
  Secrets, perm_read, perm_write, validate_permission, get_pin_hash, pin_length,
}
use rutgers_2026_e_ctf_desig.BlobStore.{blob_delete}
use rutgers_2026_e_ctf_desig.BlobStore.Write.{blob_write}
use rutgers_2026_e_ctf_desig.BlobStore.Read.{blob_read_all}
use rutgers_2026_e_ctf_desig.Names.{name_at, save_name_entry, clear_name_entry}
use rutgers_2026_e_ctf_desig.Device.{
  Ret, Cmd, ◌>>=◌, ◌>>◌, pure, gets, chars, fail, require, need, answer, answer_status, on_names,
  on_store, on_store_trng,
}
use rutgers_2026_e_ctf_desig.Commands.{
  decode_write, write_cmd_min_len, max_contents_size, is_stored, pin_of, occupied, pin_gate,
  encode_list, generate_list_files,
}

module _ {F C : Type 0} (c : FlashCtl F) (aes : Aes C) (secrets : Secrets) where
  -- What `write` and `store_received_blob` do behind their tests: the name, then the blob, and the
  -- name taken back where the blob is refused. Their copies for no contents pass a null pointer.
  unfoldable pub store_blob : ℕ → Bytes → ℕ → Bytes → Bytes → Bytes → Cmd F (Unit {0})
  store_blob slot name group_id contents uuid pin_hash = do
    named ← on_names (save_name_entry c slot name group_id)
    require named (chars "Name store failed\n")
    rc ←
        on_store_trng (blob_write c aes secrets.global_secrets slot contents uuid pin_hash group_id)
    if is_stored rc
        then pure tt
        else (do _ ← on_names (clear_name_entry c slot); fail (chars "Store failed\n"))

  -- `write`
  unfoldable pub write : Bytes → Cmd F Ret
  unfolding store_blob
  write body = do
    require (not (ltb (length body) write_cmd_min_len)) (chars "Packet too short\n")
    let cmd = decode_write body
    pin_gate c secrets cmd.pin
    require (validate_permission secrets cmd.group_id perm_write) (chars "Invalid permission\n")
    require (not (ltb (length body - write_cmd_min_len) cmd.contents_len))
        (chars "Packet too short for contents\n")
    pin_hash ← need (get_pin_hash secrets (take pin_length cmd.pin)) (chars "Crypto error\n")
    store_blob cmd.slot cmd.name cmd.group_id cmd.contents cmd.uuid pin_hash
    answer Msg.write []

  -- `read`. The group mask lets every group but 0 through.
  unfoldable pub read : Bytes → Cmd F Ret
  read body = do
    require (not (ltb (length body) 7)) (chars "Packet too short\n")
    let pin = pin_of body
    let slot = byte_at body 6
    pin_gate c secrets pin
    found ← gets (occupied slot)
    require found (chars "File not found\n")
    entry ← gets (λ d. name_at d.names slot)
    require (validate_permission secrets entry.group_id perm_read) (chars "Invalid permission\n")
    pin_hash ← need (get_pin_hash secrets (take pin_length pin)) (chars "Crypto error\n")
    whole ←
        on_store
          (blob_read_all c aes secrets.global_secrets slot pin_hash 0xFFFFFFFF max_contents_size)
    require (is_stored whole.status) (chars "Read failed\n")
    answer_status Msg.read (entry.name ++ whole.out)

module _ {F : Type 0} (c : FlashCtl F) (secrets : Secrets) where
  -- `list`
  unfoldable pub list : Bytes → Cmd F Ret
  list body = do
    require (not (ltb (length body) 6)) (chars "Packet too short\n")
    pin_gate c secrets (pin_of body)
    files ← gets (λ d. generate_list_files d.names d.store.fat)
    answer Msg.list_files (encode_list files)

  -- `delete_file`
  unfoldable pub delete_file : Bytes → Cmd F Ret
  delete_file body = do
    require (not (ltb (length body) 7)) (chars "Packet too short\n")
    let slot = byte_at body 6
    pin_gate c secrets (pin_of body)
    found ← gets (occupied slot)
    require found (chars "File not found\n")
    rc ← on_store (blob_delete c slot)
    require (is_stored rc) (chars "Delete failed\n")
    cleared ← on_names (clear_name_entry c slot)
    require cleared (chars "Name clear failed\n")
    answer Msg.delete_file []
