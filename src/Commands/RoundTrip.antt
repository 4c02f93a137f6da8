-- ===== src/Commands/RoundTrip.antt =====
-- The write handler of firmware/src/commands.c, then the read handler: the host gets its file back.
use rutgers_2026_e_ctf_desig.Messaging.Msg
use rutgers_2026_e_ctf_desig.Prelude.{
  ℕ, ◌≤◌, ◌<◌, ◌≡◌, refl, sym, ap, ◌∙◌, bit_and, Bool, true, false, some, List, ◌++◌, Bytes,
  IsBytes, arith, byte_at, load16, lt→ltb, ◌==◌, Bool-cases, inl, inr, length, take, drop, set,
  length-take, length-drop, get_or-set_self,
}
use mathlib.Core.Path.{subst}
use rutgers_2026_e_ctf_desig.Flash.{FlashCtl, IsFlash}
use rutgers_2026_e_ctf_desig.Crypto.{Aes, IsGcm}
use rutgers_2026_e_ctf_desig.Messaging.{write_packet}
use rutgers_2026_e_ctf_desig.Security.{
  Secrets, PinState, perm_read, validate_permission, get_pin_hash, check_pin, pin_length,
}
use rutgers_2026_e_ctf_desig.Security.Attempts.{IsValid, compute_pin_hash_sized}
use rutgers_2026_e_ctf_desig.Security.Repeat.{check_pin-IsAccepted, check_pin_idle}
use rutgers_2026_e_ctf_desig.BlobStore.{
  BlobStatus, blob_ok, not_found, FatEntry, Store, BlobHeader, max_slots, find_write_slot,
  slot_is_empty, load_header,
}
use rutgers_2026_e_ctf_desig.BlobStore.Codec.{IsFat}
use rutgers_2026_e_ctf_desig.BlobStore.Status.{ok_clash}
use rutgers_2026_e_ctf_desig.BlobStore.Access.{opened-IsAllowed}
use rutgers_2026_e_ctf_desig.BlobStore.Read.{
  owner, WholeRead, blob_read_all, blob_read_init, blob_read_init_internal,
}
use rutgers_2026_e_ctf_desig.BlobStore.RoundTrip.{blob_write-read}
use rutgers_2026_e_ctf_desig.Names.{NameEntry, blank_name, new_name, name_at, slot_occupied}
use rutgers_2026_e_ctf_desig.Device.{Device, Ret, packet_status, go}
use rutgers_2026_e_ctf_desig.Commands.{
  WriteCommand, decode_write, write_cmd_min_len, max_contents_size, is_stored, pin_of, occupied,
  pin_gate,
}
use rutgers_2026_e_ctf_desig.Commands.Files.{read, write}
use rutgers_2026_e_ctf_desig.Commands.Gate.{pins_of, attempted, pin_gate-accepts}
use rutgers_2026_e_ctf_desig.Commands.Reading.{read-answers, read_whole-opened, get_pin_hash-some}
use rutgers_2026_e_ctf_desig.Commands.Writing.{IsKept, IsWriteDone, write-IsWriteDone}

find_write_slot_low :
    (slot : ℕ) (fat : List FatEntry) → slot < max_slots → find_write_slot slot fat ≡ inr slot
unfolding find_write_slot
find_write_slot_low slot fat low = ground arith

-- A slot whose header loads is not empty.
load_header-full :
    {F : Type 0} (c : FlashCtl F) (slot : ℕ) (s : Store F) {h : BlobHeader}
    → load_header c slot s ≡ (blob_ok, h)
    → slot < max_slots
    → slot_is_empty s.fat slot ≡ false
unfolding load_header
load_header-full c slot s e low = elim (Bool-cases (slot_is_empty s.fat slot)) [
  | inr full ↦ full
  | inl empty ↦ absurd (
      ok_clash not_found (load_header c slot s).1 refl e
        (simp (load_header, lt→ltb slot max_slots low, empty)))
]

length-uuid :
    (body : Bytes) → write_cmd_min_len ≤ length body → length (take 16 (drop 41 body)) ≡ 16
length-uuid body h = omega (arith, length-take 16 (drop 41 body), length-drop 41 body)

length-contents :
    (body : Bytes) → load16 body 57 ≤ 8192 → length (take (load16 body 57) (drop 59 body)) ≤ 8192
length-contents body h = omega (arith, length-take (load16 body 57) (drop 59 body))

module _ {F C : Type 0} (c : FlashCtl F) (aes : Aes C) (laws : IsFlash c) (gcm : IsGcm aes)
    (secrets : Secrets) where
  -- On a flash and an AES-GCM that keep their laws, an initialised PIN with a hash of 32 bytes, a
  -- FAT of eight well-formed entries and a name table of eight, let the `write` handler go
  -- through a packet with at most 8192 bytes of contents, for a group other than 0 that the
  -- module may read. Then, on any later device with the same PIN state, names, FAT and flash and
  -- a hash context with its buffer of 64 bytes, the `read` handler, given the same PIN and slot,
  -- goes through to its answer, which is the name, with a NUL as its last character, and the
  -- contents that were written.
  pub write-read :
      (body request : Bytes) (d e : Device F) {ret : Ret} {d' : Device F}
      → IsValid (pins_of d)
      → IsFat d.store.fat
      → length d.store.fat ≡ max_slots
      → length d.names ≡ max_slots
      → (decode_write body).contents_len ≤ max_contents_size
      → validate_permission secrets (decode_write body).group_id perm_read ≡ true
      → (bit_and 0xFFFFFFFF (decode_write body).group_id == 0) ≡ false
      → write c aes secrets body d ≡ go ret d'
      → e.pins ≡ d'.pins
      → e.names ≡ d'.names
      → e.store.fat ≡ d'.store.fat
      → e.store.flash ≡ d'.store.flash
      → length e.store.reading.sha_ctx.buf ≡ 64
      → 7 ≤ length request
      → pin_of request ≡ pin_of body
      → byte_at request 6 ≡ byte_at body 6
      → let cmd = decode_write body in
        let sent = write_packet Msg.read (set cmd.name 31 0 ++ cmd.contents) e.control in
        (e' : Device F) × (read c aes secrets request e ≡ go (packet_status sent.0) e')
        × (e'.control ≡ sent.1)
  unfolding blob_read_all blob_read_init slot_occupied
  write-read body request d e {ret} {d'} v fat fats names short readable shared done pins same_names
        same_fat same_flash buf sized same_pin same_slot =
      let request_pin = λ (t : Bytes). get_pin_hash secrets (take pin_length t) in
      let answered =
        read-answers c aes secrets request e e0 sized
          (ap (λ (t : Bytes). pin_gate c secrets t e) same_pin ∙ gate)
          (ap (λ (t : ℕ). occupied t e0) same_slot ∙ found)
          (ap (λ (t : ℕ). granted_read (name_at e.names t).group_id) same_slot
            ∙ ap (λ (t : NameEntry). granted_read t.group_id) entry
            ∙ readable)
          (ap request_pin same_pin ∙ w.hashed)
          (ap (λ (t : ℕ). read_at t) same_slot
            ∙ ap (λ (t : WholeRead). (t, (read_at cmd.slot).1)) stored_read)
          refl in
      let named : (name_at e.names (byte_at request 6)).name ≡ set cmd.name 31 0 =
        ap (λ (t : ℕ). (name_at e.names t).name) same_slot ∙ ap (λ (t : NameEntry). t.name) entry in
      let sent = λ (t : Bytes). write_packet Msg.read (t ++ cmd.contents) e.control in
      (
        record e0 { store = (read_at cmd.slot).1; control = (sent (set cmd.name 31 0)).1 },
        answered
            ∙ ap
                (λ (t : Bytes).
                  go (packet_status (sent t).0)
                    (record e0 { store = (read_at cmd.slot).1; control = (sent t).1 }))
                named,
        refl,
      )
    where
      cmd : WriteCommand
      cmd = decode_write body

      w : IsWriteDone c aes secrets body d d'
      w = write-IsWriteDone c aes secrets body d done

      k :
          IsKept c aes secrets cmd.slot cmd.name cmd.group_id cmd.contents cmd.uuid w.pin_hash
            (attempted c secrets cmd.pin d)
            w.kept_at
      k = w.kept

      p1 : PinState F
      p1 = (check_pin c secrets cmd.pin (pins_of d)).1

      final : d' ≡ record (attempted c secrets cmd.pin d) {
        names = k.table.names;
        store = k.store;
        control = w.answered.0;
      }
      final = w.answered.1 ∙ ap (λ (t : Device F). record t { control = w.answered.0 }) k.left

      pins_e : e.pins ≡ p1
      pins_e = pins ∙ ap (λ (t : Device F). t.pins) final

      idle : check_pin c secrets cmd.pin (pins_of e) ≡ (true, pins_of e)
      idle =
          let a = check_pin-IsAccepted c secrets cmd.pin (pins_of d) v w.accepted in
          let hash = ap (λ (t : PinState F). t.pin_hash) pins_e in
          let valid : IsValid (pins_of e) = record {
            sized = ap length hash ∙ a.valid.sized;
            bytes = subst IsBytes (sym hash) a.valid.bytes;
            ready = ap (λ (t : PinState F). t.initialized) pins_e ∙ a.valid.ready;
          } in
          check_pin_idle c secrets cmd.pin (pins_of e) valid
            (a.right ∙ ap some (sym (hash ∙ a.same)))
            (ap (λ (t : PinState F). t.fail_count) pins_e ∙ a.clear)

      -- The device behind the gate.
      e0 : Device F
      e0 = record e { pins = pins_of e }

      entry : name_at e.names cmd.slot ≡ new_name cmd.name cmd.group_id
      entry =
          ap (λ (t : List NameEntry). name_at t cmd.slot)
            (same_names ∙ ap (λ (t : Device F). t.names) final ∙ k.named)
          ∙ get_or-set_self d.names cmd.slot (new_name cmd.name cmd.group_id) blank_name
              (omega (arith, names, k.low))

      whole : WholeRead
      whole = record { status = blob_ok; out = cmd.contents; out_len = length cmd.contents }

      stored_read :
          (blob_read_all c aes secrets.global_secrets cmd.slot w.pin_hash 0xFFFFFFFF
            max_contents_size e.store).0
          ≡ whole
      stored_read =
          let (n, found, owned, _) =
            blob_write-read c aes laws gcm secrets.global_secrets cmd.slot cmd.contents cmd.uuid
              w.pin_hash cmd.group_id 0xFFFFFFFF max_contents_size
              (record d.store { flash = k.table.flash }) e.store fat fats (length-uuid body w.sized)
              (compute_pin_hash_sized secrets _
                (get_pin_hash-some secrets (take pin_length cmd.pin) w.hashed)).0
              (length-contents body short) (length-contents body short) shared k.written
              (same_fat ∙ ap (λ (t : Device F). t.store.fat) final)
              (same_flash ∙ ap (λ (t : Device F). t.store.flash) final) buf in
          let same : n ≡ cmd.slot =
            ground (arith, found, find_write_slot_low cmd.slot d.store.fat k.low) in
          ap
            (λ (t : ℕ).
              (blob_read_all c aes secrets.global_secrets t w.pin_hash 0xFFFFFFFF max_contents_size
                e.store).0)
            (sym same)
          ∙ owned

      read_at : ℕ → WholeRead × Store F
      read_at t =
          blob_read_all c aes secrets.global_secrets t w.pin_hash 0xFFFFFFFF max_contents_size
            e.store

      granted_read : ℕ → Bool
      granted_read t = validate_permission secrets t perm_read

      gate : pin_gate c secrets cmd.pin e ≡ go tt e0
      gate =
          pin_gate-accepts c secrets cmd.pin e (ap (λ (t : Bool × PinState F). t.0) idle)
          ∙ ap
              (λ (t : Bool × PinState F).
                go tt (record e { pins = t.1; store = record e.store { flash = t.1.flash } }))
              idle

      found : occupied cmd.slot e0 ≡ true
      found =
          let ((rc, len), s2) =
            blob_read_init_internal c secrets.global_secrets cmd.slot (owner w.pin_hash) 0xFFFFFFFF
              e.store in
          let good =
            read_whole-opened c aes max_contents_size len rc s2
              (ap (λ (t : WholeRead). is_stored t.status) stored_read) in
          let a =
            opened-IsAllowed c secrets.global_secrets cmd.slot (owner w.pin_hash) 0xFFFFFFFF e.store
              s2 len (ap (λ (t : BlobStatus). ((t, len), s2)) good) in
          let full = load_header-full c cmd.slot e.store a.loaded k.low in
          let in_use = ap (λ (t : NameEntry). t.in_use == 1) entry in
          simp (lt→ltb cmd.slot max_slots k.low, in_use, full)
