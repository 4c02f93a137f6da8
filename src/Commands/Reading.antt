-- ===== src/Commands/Reading.antt =====
-- Whom the read handler of firmware/src/commands.c serves.

use rutgers_2026_e_ctf_desig.Messaging.Msg
use rutgers_2026_e_ctf_desig.Prelude.{
  ℕ, ◌≤◌, ◌≡◌, refl, sym, ap, ◌∙◌, true, some, Bytes, arith, byte_at, bytes_eq-true, ltb, le→ltb,
  ◌++◌, length, take, Bool-cases, inl, inr,
}
use mathlib.Core.Option.{none-ne-some}
use rutgers_2026_e_ctf_desig.Flash.{FlashCtl}
use rutgers_2026_e_ctf_desig.Crypto.{Aes}
use rutgers_2026_e_ctf_desig.Security.{
  Secrets, perm_read, validate_permission, get_pin_hash, compute_pin_hash, check_pin, pin_length,
  pin_max_len,
}
use rutgers_2026_e_ctf_desig.BlobStore.{
  BlobStatus, blob_ok, invalid_argument, invalid_slot, storage_full, not_found, permission_denied,
  buffer_too_small, io_error, crypto_error, corrupt, bad_len, Store, BlobHeader, load_header,
}
use rutgers_2026_e_ctf_desig.BlobStore.Access.{opened-IsAllowed}
use rutgers_2026_e_ctf_desig.BlobStore.Read.{
  owner, WholeRead, read_whole, blob_read_all, blob_read_init, blob_read_init_internal,
}
use rutgers_2026_e_ctf_desig.Messaging.{write_packet}
use rutgers_2026_e_ctf_desig.Names.{name_at}
use rutgers_2026_e_ctf_desig.Device.{
  Device, Ret, packet_status, go, require, need, to_host, on_store, answer_status,
}
use rutgers_2026_e_ctf_desig.Device.Rules.{require-go, need-go}
use rutgers_2026_e_ctf_desig.Commands.{pin_of, is_stored, occupied, max_contents_size, pin_gate}
use rutgers_2026_e_ctf_desig.Commands.Files.{read}
use rutgers_2026_e_ctf_desig.Commands.Gate.{pins_of, attempted, pin_gate-go}

pub is_stored-ok : (rc : BlobStatus) → is_stored rc ≡ true → rc ≡ blob_ok
is_stored-ok blob_ok e = refl
is_stored-ok invalid_argument e = cc
is_stored-ok invalid_slot e = cc
is_stored-ok storage_full e = cc
is_stored-ok not_found e = cc
is_stored-ok permission_denied e = cc
is_stored-ok buffer_too_small e = cc
is_stored-ok io_error e = cc
is_stored-ok crypto_error e = cc
is_stored-ok corrupt e = cc
is_stored-ok bad_len e = cc

pub get_pin_hash-some :
    (secrets : Secrets) (pin : Bytes) {h : Bytes}
    → get_pin_hash secrets pin ≡ some h
    → compute_pin_hash secrets pin ≡ some h
unfolding get_pin_hash
get_pin_hash-some secrets pin {h} e = elim (Bool-cases (ltb (length pin) pin_length)) [
  | inl short ↦ absurd (none-ne-some h (sym (simp short) ∙ e))
  | inr fits ↦ elim (Bool-cases (ltb pin_max_len (length pin))) [
    | inl long ↦ absurd (none-ne-some h (sym (simp (fits, long)) ∙ e))
    | inr low ↦ sym (simp (get_pin_hash, fits, low)) ∙ e
  ]
]

module _ {F C : Type 0} (c : FlashCtl F) (aes : Aes C) where
  -- A whole read that succeeds had been opened.
  pub read_whole-opened :
      (room len : ℕ) (opened : BlobStatus) (s : Store F)
      → is_stored (read_whole c aes room ((opened, len), s)).0.status ≡ true
      → opened ≡ blob_ok
  unfolding read_whole
  read_whole-opened room len blob_ok s e = refl
  read_whole-opened room len invalid_argument s e = cc
  read_whole-opened room len invalid_slot s e = cc
  read_whole-opened room len storage_full s e = cc
  read_whole-opened room len not_found s e = cc
  read_whole-opened room len permission_denied s e = cc
  read_whole-opened room len buffer_too_small s e = cc
  read_whole-opened room len io_error s e = cc
  read_whole-opened room len crypto_error s e = cc
  read_whole-opened room len corrupt s e = cc
  read_whole-opened room len bad_len s e = cc

module _ {F C : Type 0} (c : FlashCtl F) (aes : Aes C) (secrets : Secrets) where
  -- What a read that was answered had: its PIN, its slot, the permission, and the owner's hash.
  pub record IsPermitted (body : Bytes) (d : Device F) : Type 0 where
    pub header : BlobHeader
    pub pin_hash : Bytes
    pub sized : 7 ≤ length body
    pub accepted : (check_pin c secrets (pin_of body) (pins_of d)).0 ≡ true
    pub found : occupied (byte_at body 6) d ≡ true
    pub granted :
        validate_permission secrets (name_at d.names (byte_at body 6)).group_id perm_read ≡ true
    pub hashed : compute_pin_hash secrets (take pin_length (pin_of body)) ≡ some pin_hash
    pub loaded :
        load_header c (byte_at body 6) (attempted c secrets (pin_of body) d).store
        ≡ (blob_ok, header)
    pub owned : pin_hash ≡ header.owner_pin_hash

  -- Where the `read` handler goes through to its answer, the packet has a PIN that `check_pin`
  -- accepts, the slot is occupied, the module has the read permission for the group of its name
  -- entry, the slot's header loads, and its owner is the hash of the PIN.
  pub read-IsPermitted :
      (body : Bytes) (d : Device F) {ret : Ret} {d' : Device F}
      → read c aes secrets body d ≡ go ret d'
      → IsPermitted body d
  unfolding read on_store blob_read_all blob_read_init
  read-IsPermitted body d r =
      let (sized, r1) = require-go _ _ _ d r in
      let (accepted, r2) = pin_gate-go c secrets (pin_of body) _ d r1 in
      let d1 = attempted c secrets (pin_of body) d in
      let (found, r3) = require-go _ _ _ d1 r2 in
      let (granted, r4) = require-go _ _ _ d1 r3 in
      let (pin_hash, hashed, r5) = need-go _ _ _ d1 r4 in
      let s1 = d1.store in
      let slot = byte_at body 6 in
      let ((rc, len), s2) =
        blob_read_init_internal c secrets.global_secrets slot (owner pin_hash) 0xFFFFFFFF s1 in
      let whole =
        blob_read_all c aes secrets.global_secrets slot pin_hash 0xFFFFFFFF max_contents_size s1 in
      let (good, r6) =
        require-go (is_stored whole.0.status) _ _ (record d1 { store = whole.1 }) r5 in
      let opened = read_whole-opened c aes max_contents_size len rc s2 good in
      let a =
        opened-IsAllowed c secrets.global_secrets slot (owner pin_hash) 0xFFFFFFFF s1 s2 len
          (ap (λ (t : BlobStatus). ((t, len), s2)) opened) in
      record {
        header = a.header;
        pin_hash = pin_hash;
        sized = ground arith;
        accepted = accepted;
        found = found;
        granted = granted;
        hashed = get_pin_hash-some secrets (take pin_length (pin_of body)) hashed;
        loaded = a.loaded;
        owned = bytes_eq-true pin_hash a.header.owner_pin_hash a.owned;
      }

  -- The read handler where each of its steps succeeds.
  pub read-answers :
      (body : Bytes) (d d1 : Device F) {h : Bytes} {whole : WholeRead} {s1 : Store F}
      → 7 ≤ length body
      → pin_gate c secrets (pin_of body) d ≡ go tt d1
      → occupied (byte_at body 6) d1 ≡ true
      → validate_permission secrets (name_at d1.names (byte_at body 6)).group_id perm_read ≡ true
      → get_pin_hash secrets (take pin_length (pin_of body)) ≡ some h
      → blob_read_all c aes secrets.global_secrets
          (byte_at body 6)
          h
          0xFFFFFFFF
          max_contents_size
          d1.store
        ≡ (whole, s1)
      → is_stored whole.status ≡ true
      → let sent =
          write_packet Msg.read
            ((name_at d1.names (byte_at body 6)).name ++ whole.out)
            d1.control in
        read c aes secrets body d
        ≡ go (packet_status sent.0) (record d1 { store = s1; control = sent.1 })
  unfolding read require need on_store answer_status to_host
  read-answers body d d1 sized gate found granted hashed read_ok good =
      simp (le→ltb (length body) 7 sized, gate, found, granted, hashed, read_ok, good)
