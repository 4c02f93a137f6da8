-- ===== src/Commands/Writing.antt =====
-- What the write handler of firmware/src/commands.c has done where it returns 0.

use rutgers_2026_e_ctf_desig.Messaging.Msg
use rutgers_2026_e_ctf_desig.Prelude.{
  ℕ, ◌≤◌, ◌<◌, ◌-◌, ◌≡◌, sym, ap, ◌∙◌, Bool, true, true≢false, some, [], Bytes, arith, ltb, ltb→lt,
  not-ltb→le, length, take, set, Bool-cases, inl, inr, if◌then◌else◌,
}
use rutgers_2026_e_ctf_desig.Flash.{FlashCtl}
use rutgers_2026_e_ctf_desig.Crypto.{Aes}
use rutgers_2026_e_ctf_desig.Security.{
  Secrets, perm_write, validate_permission, get_pin_hash, check_pin, pin_length,
}
use rutgers_2026_e_ctf_desig.Messaging.{Port, write_packet}
use rutgers_2026_e_ctf_desig.BlobStore.{BlobStatus, blob_ok, Store, max_slots}
use rutgers_2026_e_ctf_desig.BlobStore.Write.{blob_write}
use rutgers_2026_e_ctf_desig.Names.{
  NameTable, new_name, save_name_entry, clear_name_entry, flush_name_table,
}
use rutgers_2026_e_ctf_desig.Device.{
  Device, Ret, go, Cmd, and_then, ◌>>=◌, pure, fail, on_names, on_store_trng, answer, to_host,
  chars,
}
use rutgers_2026_e_ctf_desig.Device.Rules.{
  and_then-go, require-go, need-go, went_on, go-same, on_store_trng-go,
}
use rutgers_2026_e_ctf_desig.Commands.{decode_write, write_cmd_min_len, is_stored}
use rutgers_2026_e_ctf_desig.Commands.Files.{store_blob, write}
use rutgers_2026_e_ctf_desig.Commands.Gate.{pins_of, attempted, pin_gate-go}
use rutgers_2026_e_ctf_desig.Commands.Reading.{is_stored-ok}

module _ {F : Type 0} (c : FlashCtl F) where
  pub flush-names : (t : NameTable F) → (flush_name_table c t).1.names ≡ t.names
  unfolding flush_name_table
  flush-names t = ground arith

  pub save_name_entry-names :
      (slot : ℕ) (name : Bytes) (group_id : ℕ) (t : NameTable F)
      → (save_name_entry c slot name group_id t).0 ≡ true
      → (slot < max_slots)
        × ((save_name_entry c slot name group_id t).1.names
            ≡ set t.names slot (new_name name group_id))
  unfolding save_name_entry
  save_name_entry-names slot name group_id t good = elim (Bool-cases (ltb slot max_slots)) [
    | inr bad ↦ absurd (true≢false (sym good ∙ simp bad))
    | inl fits ↦ (
      ltb→lt slot max_slots fits,
      simp fits (flush-names (record t { names = set t.names slot (new_name name group_id) })),
    )
  ]

module _ {F C : Type 0} (c : FlashCtl F) (aes : Aes C) (secrets : Secrets) where
  -- A blob that was stored: its name is in the table, and `blob_write` has succeeded behind it.
  pub record IsKept (slot : ℕ) (name : Bytes) (group_id : ℕ) (contents uuid pin_hash : Bytes)
      (d d' : Device F) : Type 0 where
    pub table : NameTable F
    pub store : Store F
    pub low : slot < max_slots
    pub named : table.names ≡ set d.names slot (new_name name group_id)
    pub written :
        blob_write c aes secrets.global_secrets slot contents uuid pin_hash group_id
          (record d.store { flash = table.flash })
        ≡ some (blob_ok, store)
    pub left : d' ≡ record d { names = table.names; store = store }

  pub store_blob-go :
      {A : Type 0} (slot : ℕ) (name : Bytes) (group_id : ℕ) (contents uuid pin_hash : Bytes)
      (k : Unit {0} → Cmd F A) (d : Device F) {a : A} {d' : Device F}
      → and_then (store_blob c aes secrets slot name group_id contents uuid pin_hash d) k ≡ go a d'
      → (d1 : Device F) × IsKept slot name group_id contents uuid pin_hash d d1
        × (k tt d1 ≡ go a d')
  unfolding store_blob on_names fail
  store_blob-go {A} slot name group_id contents uuid pin_hash k d {a} {d'} r =
      let (u, d1, r1, r2) =
        and_then-go (store_blob c aes secrets slot name group_id contents uuid pin_hash d) k r in
      (d1, stored d1 r1, r2)
    where
      saved : Bool × NameTable F
      saved =
          save_name_entry c slot name group_id (record { names = d.names; flash = d.store.flash })

      s0 : Store F
      s0 = record d.store { flash = saved.1.flash }

      d0 : Device F
      d0 = record d { names = saved.1.names; store = s0 }

      -- The branch behind `blob_write`.
      finish : BlobStatus → Cmd F (Unit {0})
      finish rc =
          if is_stored rc
          then pure tt
          else (do _ ← on_names (clear_name_entry c slot); fail (chars "Store failed\n"))

      stored :
          (d1 : Device F)
          → store_blob c aes secrets slot name group_id contents uuid pin_hash d ≡ go tt d1
          → IsKept slot name group_id contents uuid pin_hash d d1
      stored d1 r1 =
          let (good, r3) = require-go saved.0 _ (λ _. on_store_trng _ >>= finish) d0 r1 in
          let table = save_name_entry-names c slot name group_id _ good in
          let (rc, s1, written, r4) =
            on_store_trng-go
              (blob_write c aes secrets.global_secrets slot contents uuid pin_hash group_id) finish
              d0 r3 in
          elim (Bool-cases (is_stored rc)) [
            | inr bad ↦ absurd (true≢false (ap went_on (sym r4) ∙ (simp bad)))
            | inl kept ↦ record {
              table = saved.1;
              store = s1;
              low = table.0;
              named = table.1;
              written = written ∙ ap (λ (t : BlobStatus). some (t, s1)) (is_stored-ok rc kept);
              left = go-same (sym r4 ∙ simp kept);
            }
          ]

  -- What `write` has done where it returns 0.
  pub record IsWriteDone (body : Bytes) (d d' : Device F) : Type 0 where
    pub pin_hash : Bytes
    pub kept_at : Device F
    pub sized : write_cmd_min_len ≤ length body
    pub accepted : (check_pin c secrets (decode_write body).pin (pins_of d)).0 ≡ true
    pub granted : validate_permission secrets (decode_write body).group_id perm_write ≡ true
    pub received : (decode_write body).contents_len ≤ length body - write_cmd_min_len
    pub hashed : get_pin_hash secrets (take pin_length (decode_write body).pin) ≡ some pin_hash
    pub kept :
        let cmd = decode_write body in
        IsKept cmd.slot cmd.name cmd.group_id cmd.contents cmd.uuid pin_hash
          (attempted c secrets cmd.pin d)
          kept_at
    pub answered : (p : Port) × (d' ≡ record kept_at { control = p })

  pub write-IsWriteDone :
      (body : Bytes) (d : Device F) {ret : Ret} {d' : Device F}
      → write c aes secrets body d ≡ go ret d'
      → IsWriteDone body d d'
  unfolding write answer to_host
  write-IsWriteDone body d r =
      let cmd = decode_write body in
      let (sized, r1) = require-go _ _ _ d r in
      let (accepted, r2) = pin_gate-go c secrets cmd.pin _ d r1 in
      let d1 = attempted c secrets cmd.pin d in
      let (granted, r3) = require-go _ _ _ d1 r2 in
      let (received, r4) = require-go _ _ _ d1 r3 in
      let (pin_hash, hashed, r5) = need-go _ _ _ d1 r4 in
      let (d2, kept, r6) =
        store_blob-go cmd.slot cmd.name cmd.group_id cmd.contents cmd.uuid pin_hash _ d1 r5 in
      record {
        pin_hash = pin_hash;
        kept_at = d2;
        sized = not-ltb→le (length body) write_cmd_min_len sized;
        accepted = accepted;
        granted = granted;
        received = not-ltb→le (length body - write_cmd_min_len) cmd.contents_len received;
        hashed = hashed;
        kept = kept;
        answered = ((write_packet Msg.write [] d2.control).1, sym (go-same r6));
      }
