-- ===== src/Hsm/Blobs.antt =====
-- The FAT keeps its form under the operations of firmware/src/secure_blob_store.c.
pub mod Reads
pub mod Writes
use rutgers_2026_e_ctf_desig.Prelude.{
  ℕ, ◌-◌, u16, ◌+◌, ◌<◌, ◌≡◌, refl, sym, ap, ◌∙◌, ◌⊎◌, inl, inr, Option, some, [], Bytes, arith,
  ltb, if◌then◌else◌, if_keeps, option_keeps, length, set, length-set, bit_and, bytes_eq, ◌==◌,
}
use mathlib.Core.Path.{subst}
use mathlib.Core.Option.{some-injective, none-ne-some}
use rutgers_2026_e_ctf_desig.Flash.{FlashCtl, erase_page, write_flash}
use rutgers_2026_e_ctf_desig.SecureDesign.{get_root_secret, generate_nonce}
use rutgers_2026_e_ctf_desig.Crypto.{Aes, crypto_hmac_sha256, hmac_size, gcm_nonce_size}
use rutgers_2026_e_ctf_desig.BlobStore.{
  BlobStatus, after_ok, after_ok_inner, blob_ok, invalid_argument, invalid_slot, storage_full,
  not_found, permission_denied, buffer_too_small, io_error, crypto_error, corrupt, bad_len,
  FatEntry, BlobHeader, Store, max_slots, blank_entry, commit_fat_entry, blob_delete,
  find_write_slot, blob_slot_base, slot_is_valid, slot_is_empty, fat_addr, fat_page, tags_offset,
  load_header, derive_file_key, encode_header, header_size, build_aad, erase_slot_pages,
}
use rutgers_2026_e_ctf_desig.Sha256.{Ctx, ctx_init, ctx_final, blank}
use rutgers_2026_e_ctf_desig.BlobStore.Codec.{IsEntry, IsFat}
use rutgers_2026_e_ctf_desig.BlobStore.Fat.{IsFat-set}
use rutgers_2026_e_ctf_desig.BlobStore.Write.{
  blob_write, seal_record, write_record, write_chunks, new_header,
}
use rutgers_2026_e_ctf_desig.BlobStore.Written.{find_write_slot-lt}
use rutgers_2026_e_ctf_desig.BlobStore.Read.{
  owner, any_owner, owner_ok, Reader, open_read, blob_read_init_internal, blob_read_init,
  blob_read_chunk, blob_read_finish, read_whole, blob_read_all, blob_read_all_group_mask,
}

-- A FAT of eight well-formed entries.
pub record IsTable {F : Type 0} (s : Store F) : Type 0 where
  pub entries : IsFat s.fat
  pub sized : length s.fat ≡ max_slots

-- A split on whether a status is a success.
pub status_keeps :
    {B : Type 0} (P : B → Type 0) (rc : BlobStatus) (a : B) (f : BlobStatus → B)
    → P a
    → ((other : BlobStatus) → P (f other))
    → P (elim rc [ blob_ok ↦ a | other ↦ f other ])
status_keeps P blob_ok a f p q = p
status_keeps P invalid_argument a f p q = q _
status_keeps P invalid_slot a f p q = q _
status_keeps P storage_full a f p q = q _
status_keeps P not_found a f p q = q _
status_keeps P permission_denied a f p q = q _
status_keeps P buffer_too_small a f p q = q _
status_keeps P io_error a f p q = q _
status_keeps P crypto_error a f p q = q _
status_keeps P corrupt a f p q = q _
status_keeps P bad_len a f p q = q _

pub sum_keeps :
    {A B C : Type 0} (P : C → Type 0) (o : A ⊎ B) {f : A → C} {g : B → C}
    → ((a : A) → o ≡ inl a → P (f a))
    → ((b : B) → o ≡ inr b → P (g b))
    → P (elim o [ inl a ↦ f a | inr b ↦ g b ])
sum_keeps P (inl a) p q = p a refl
sum_keeps P (inr b) p q = q b refl

module _ {F : Type 0} where
  IsTable-set :
      (s : Store F) (slot : ℕ) (e : FatEntry) (f : F)
      → IsEntry e
      → IsTable s
      → IsTable (record s { fat = set s.fat slot e; flash = f })
  IsTable-set s slot e f v t = record {
    entries = IsFat-set s.fat slot e t.entries v;
    sized = length-set s.fat slot e ∙ t.sized;
  }

  pub IsTable-same : (s s' : Store F) → s'.fat ≡ s.fat → IsTable s → IsTable s'
  IsTable-same s s' e t = record {
    entries = subst IsFat (sym e) t.entries;
    sized = ap length e ∙ t.sized;
  }

  pub record Kept {A : Type 0} (r : A × Store F) : Type 0 where
    pub table : IsTable r.1

  pub after_ok-Kept :
      (rc : BlobStatus) (s : Store F) (next : BlobStatus × Store F)
      → IsTable s
      → Kept next
      → Kept (after_ok rc s next)
  unfolding after_ok
  after_ok-Kept rc s next v w =
      status_keeps Kept rc next (λ other. (other, s)) w (λ other. record { table = v })

  pub after_ok_inner-Kept :
      (rc : BlobStatus) (s : Store F) (next : (BlobStatus × ℕ) × Store F)
      → IsTable s
      → Kept next
      → Kept (after_ok_inner rc 0 s next)
  unfolding after_ok_inner
  after_ok_inner-Kept rc s next v w =
      status_keeps Kept rc next (λ other. ((other, 0), s)) w (λ other. record { table = v })

module _ {F : Type 0} (c : FlashCtl F) where
  pub commit-Kept :
      (slot : ℕ) (e : FatEntry) (s : Store F)
      → IsEntry e
      → IsTable s
      → Kept (commit_fat_entry c slot e s)
  unfolding commit_fat_entry
  commit-Kept slot e s v t =
      let erased = erase_page c fat_addr s.flash in
      let written = write_flash c fat_addr (fat_page s.fat slot e) erased.1 in
      if_keeps Kept (slot_is_valid slot)
        (λ _.
          if_keeps Kept erased.0
            (λ _.
              if_keeps Kept written.0 (λ _. record { table = IsTable-set s slot e written.1 v t })
                (λ _. record { table = IsTable-same s (record s { flash = written.1 }) refl t }))
            (λ _. record { table = IsTable-same s (record s { flash = erased.1 }) refl t }))
        (λ _. record { table = t })

  blank-IsEntry : IsEntry blank_entry
  blank-IsEntry = record {
    uuid = refl;
    length_ = omega arith;
    padding = omega arith;
    flash_addr = omega arith;
  }

  blob_delete-Kept : (slot : ℕ) (s : Store F) → IsTable s → Kept (blob_delete c slot s)
  unfolding blob_delete
  blob_delete-Kept slot s t =
      let erased = erase_slot_pages c slot s.flash in
      let s1 = record s { flash = erased.1 } in
      let t1 = IsTable-same s s1 refl t in
      if_keeps Kept (slot_is_valid slot)
        (λ _.
          if_keeps Kept (slot_is_empty s.fat slot) (λ _. record { table = t })
            (λ _.
              after_ok-Kept erased.0 s1 (commit_fat_entry c slot blank_entry s1) t1
                (commit-Kept slot blank_entry s1 blank-IsEntry t1)))
        (λ _. record { table = t })

  pub blob_delete-IsTable : (slot : ℕ) (s : Store F) → IsTable s → IsTable (blob_delete c slot s).1
  blob_delete-IsTable slot s t = (blob_delete-Kept slot s t).table
