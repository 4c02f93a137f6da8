-- ===== src/Commands/Diagnostics.antt =====
-- The handlers of firmware/src/commands.c that a release leaves out: change_pin, boot_flag, digest
-- and echo.

use rutgers_2026_e_ctf_desig.Messaging.Msg
use rutgers_2026_e_ctf_desig.Prelude.{
  not, [], ◌++◌, Bytes, byte_at, ltb, if◌then◌else◌, length, take, drop,
}
use rutgers_2026_e_ctf_desig.Flash.{FlashCtl}
use rutgers_2026_e_ctf_desig.Crypto.{Aes, crypto_sha256}
use rutgers_2026_e_ctf_desig.Security.{Secrets, pin_is_locked, pin_length}
use rutgers_2026_e_ctf_desig.Security
use rutgers_2026_e_ctf_desig.BlobStore.Read.{blob_read_all_group_mask}
use rutgers_2026_e_ctf_desig.Names.{name_at}
use rutgers_2026_e_ctf_desig.Device.{
  Ret, Cmd, ◌>>=◌, ◌>>◌, gets, chars, require, need, answer, answer_status, on_pins, on_store,
}
use rutgers_2026_e_ctf_desig.Commands.{max_contents_size, is_stored, occupied, boot_hmac}

module _ {F : Type 0} (c : FlashCtl F) (secrets : Secrets) where
  -- `change_pin`
  unfoldable pub change_pin : Bytes → Cmd F Ret
  unfolding pin_is_locked
  change_pin body = do
    require (not (ltb (length body) 12)) (chars "Packet too short\n")
    require (not pin_is_locked) (chars "HSM locked\n")
    changed ←
        on_pins
          (Security.pin_change c secrets (take pin_length body) (take pin_length (drop 6 body)))
    require changed (if pin_is_locked then chars "HSM locked\n" else chars "Invalid pin\n")
    answer Msg.change_pin []

  -- `boot_flag`
  unfoldable pub boot_flag : Bytes → Cmd F Ret
  boot_flag body = do
    flag ← need (boot_hmac secrets.global_secrets) (chars "Crypto error\n")
    answer Msg.boot_flag flag

module _ {F C : Type 0} (c : FlashCtl F) (aes : Aes C) (secrets : Secrets) where
  -- `digest`. Without a body the slot is 0.
  unfoldable pub digest : Bytes → Cmd F Ret
  digest body = do
    let slot = byte_at body 0
    found ← gets (occupied slot)
    require found (chars "File not found\n")
    device_id ← need (boot_hmac secrets.global_secrets) (chars "Crypto error\n")
    mask ← gets (λ d. (name_at d.names slot).group_id)
    whole ←
        on_store (blob_read_all_group_mask c aes secrets.global_secrets slot mask max_contents_size)
    require (is_stored whole.status) (chars "Read failed\n")
    file_id ← need (crypto_sha256 whole.out 32) (chars "Crypto error\n")
    answer_status Msg.digest (take 16 device_id ++ take 16 file_id)

-- `echo`
unfoldable pub echo : {F : Type 0} → Bytes → Cmd F Ret
echo body = answer Msg.echo body
