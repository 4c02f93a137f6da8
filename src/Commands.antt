-- ===== src/Commands.antt =====
-- The handlers of firmware/src/commands.c for the host. A handler takes the bytes of a packet's
-- body, whose number is `pkt_len`; each tests it before it reads a field.
pub mod Files
pub mod Diagnostics
pub mod Gate
pub mod Listing
pub mod Reading
pub mod Writing
pub mod RoundTrip
pub mod Deleting
use Prim.Native.String
use Prim.Native.String.{String}
use rutgers_2026_e_ctf_desig.Messaging.Msg
use rutgers_2026_e_ctf_desig.Prelude.{
  ℕ, zero, suc, ◌+◌, ◌-◌, ◌*◌, Bool, true, false, not, Option, none, some, List, [], ◌∷◌, ◌++◌,
  Bytes, byte_at, le16, le32, load16, ltb, leb, ◌==◌, if◌then◌else◌, length, take, drop,
}
use rutgers_2026_e_ctf_desig.Flash.{FlashCtl}
use rutgers_2026_e_ctf_desig.Crypto.{Aes, crypto_hmac_sha256, crypto_sha256}
use rutgers_2026_e_ctf_desig.SecureDesign.{get_root_secret}
use rutgers_2026_e_ctf_desig.Security.{
  Secrets, Permission, perm_read, perm_write, perm_receive, validate_permission, get_pin_hash,
  pin_is_locked, check_pin, pin_length,
}
use rutgers_2026_e_ctf_desig.Security
use rutgers_2026_e_ctf_desig.BlobStore.{
  BlobStatus, blob_ok, FatEntry, max_slots, init_blob_store, blob_delete,
}
use rutgers_2026_e_ctf_desig.BlobStore.Write.{blob_write}
use rutgers_2026_e_ctf_desig.BlobStore.Read.{WholeRead, blob_read_all, blob_read_all_group_mask}
use rutgers_2026_e_ctf_desig.Names.{
  NameEntry, name_at, slot_occupied, load_name_table, save_name_entry, clear_name_entry,
}
use rutgers_2026_e_ctf_desig.Device.{
  Device, Ret, success, failure, Run, Cmd, and_then, ◌>>=◌, ◌>>◌, pure, returning, gets, chars,
  print_error, fail, require, need, answer, answer_status, on_pins, on_names, on_store,
  on_store_trng,
}

abbrev pub max_contents_size : ℕ
max_contents_size = 8192

abbrev pub max_file_count : ℕ
max_file_count = 8

-- `WRITE_CMD_MIN_LEN`: pin, slot, group, name, uuid and length.
abbrev pub write_cmd_min_len : ℕ
write_cmd_min_len = 59

-- `rc == SECURE_BLOB_STORE_OK`
abbrev pub is_stored : BlobStatus → Bool
is_stored blob_ok = true
is_stored _ = false

-- The fields of a packet: `pin_t pin` is first in all of them.
abbrev pub pin_of : Bytes → Bytes
pin_of body = take 6 body

-- `write_command_t`
pub record WriteCommand : Type 0 where
  pub pin : Bytes
  pub slot : ℕ
  pub group_id : ℕ
  pub name : Bytes
  pub uuid : Bytes
  pub contents_len : ℕ
  pub contents : Bytes

-- `contents` is cut to `contents_len` bytes, which the handler has compared to what it received.
abbrev pub decode_write : Bytes → WriteCommand
decode_write b = record {
  pin = take 6 b;
  slot = byte_at b 6;
  group_id = load16 b 7;
  name = take 32 (drop 9 b);
  uuid = take 16 (drop 41 b);
  contents_len = load16 b 57;
  contents = take (load16 b 57) (drop 59 b);
}

-- `file_metadata_t`
pub record FileMetadata : Type 0 where
  pub slot : ℕ
  pub group_id : ℕ
  pub name : Bytes

abbrev pub encode_metadata : FileMetadata → Bytes
encode_metadata m = m.slot ∷ (le16 m.group_id ++ m.name)

abbrev pub encode_metadatas : List FileMetadata → Bytes
encode_metadatas [] = []
encode_metadatas (m ∷ ms) = encode_metadata m ++ encode_metadatas ms

-- `list_response_t` up to `LIST_PKT_LEN`.
abbrev pub encode_list : List FileMetadata → Bytes
encode_list ms = le32 (length ms) ++ encode_metadatas ms

abbrev pub metadata_of : List NameEntry → ℕ → FileMetadata
metadata_of names slot =
    let e = name_at names slot in record { slot = slot; group_id = e.group_id; name = e.name }

-- The loop of `generate_list_files`, over the slots that are left, with `n_files`.
unfoldable pub list_from : List NameEntry → List FatEntry → ℕ → ℕ → ℕ → List FileMetadata
list_from names fat zero slot n = []
list_from names fat (suc k) slot n =
    let with_slot = metadata_of names slot ∷ list_from names fat k (slot + 1) (n + 1) in
    let without = list_from names fat k (slot + 1) n in
    if ltb n max_file_count
    then (if slot_occupied names fat slot then with_slot else without)
    else []

-- `generate_list_files`
unfoldable pub generate_list_files : List NameEntry → List FatEntry → List FileMetadata
generate_list_files names fat = list_from names fat max_slots 0 0

abbrev pub occupied : {F : Type 0} → ℕ → Device F → Bool
occupied slot d = slot_occupied d.names d.store.fat slot

-- The boot flag's label, without its NUL.
abbrev pub boot_label : Bytes
boot_label = chars "ectf_boot_flag_v1"

-- HMAC-SHA-256(K_master, label), as `boot_flag` and `digest` make it.
unfoldable pub boot_hmac : Bytes → Option Bytes
boot_hmac global_secrets = elim (get_root_secret global_secrets) [
  | none ↦ none
  | some root ↦ crypto_hmac_sha256 root.k_master boot_label 32
]

module _ {F : Type 0} (c : FlashCtl F) where
  -- `init_commands`. `blob_store_init` never fails.
  unfoldable pub init_commands : Cmd F Bool
  init_commands = do
    ready ← on_store (init_blob_store c)
    if ready then (do _ ← on_names (λ t. (tt, load_name_table c t)); pure true) else pure false

module _ {F : Type 0} (c : FlashCtl F) (secrets : Secrets) where
  -- `pin_gate`; a handler returns -1 where it does.
  unfoldable pub pin_gate : Bytes → Cmd F (Unit {0})
  unfolding pin_is_locked
  pin_gate pin = do
    require (not pin_is_locked) (chars "HSM locked\n")
    accepted ← on_pins (check_pin c secrets pin)
    require accepted (if pin_is_locked then chars "HSM locked\n" else chars "Invalid pin\n")
