-- ===== src/BlobStore/Written.antt =====
-- What a `blob_write` of firmware/src/secure_blob_store.c that succeeds has gone through.
use rutgers_2026_e_ctf_desig.Prelude.{
  ℕ, ◌+◌, ◌≤◌, ◌<◌, ◌≡◌, ◌-◌, ◌⊎◌, refl, sym, ap, ◌∙◌, Bool, false, Option, none, some, List, [],
  ◌∷◌, arith, Bytes, ltb, ltb→lt, ltb→le, ◌==◌, Bool-cases, Option-cases, inl, inr, length,
}
use mathlib.Core.Option.{some-injective, none-ne-some}
use rutgers_2026_e_ctf_desig.Flash.{FlashCtl}
use rutgers_2026_e_ctf_desig.Crypto.{Aes, RootSecret, gcm_nonce_size}
use rutgers_2026_e_ctf_desig.Trng.{Capture}
use rutgers_2026_e_ctf_desig.SecureDesign.{get_root_secret, generate_nonce}
use rutgers_2026_e_ctf_desig.BlobStore.{
  BlobStatus, blob_ok, invalid_argument, crypto_error, FatEntry, Store, max_slots, auto_slot,
  find_write_slot, first_empty, slot_is_valid, empty_addr, derive_file_key, header_size,
  tags_offset,
}
use rutgers_2026_e_ctf_desig.BlobStore.Status.{ok_clash, is_ok}
use rutgers_2026_e_ctf_desig.BlobStore.Write.{new_header, write_record, blob_write}

slot_of : BlobStatus ⊎ ℕ → ℕ
slot_of (inl rc) = 0
slot_of (inr slot) = slot

first_empty-lt :
    (es : List FatEntry) (n : ℕ) {slot : ℕ}
    → first_empty es n ≡ some slot
    → (n ≤ slot) × (slot < n + length es)
unfolding first_empty
first_empty-lt [] n {slot} e = absurd (none-ne-some slot e)
first_empty-lt (x ∷ xs) n {slot} e = elim (Bool-cases (x.flash_addr == empty_addr)) [
  | inl free ↦
      let here : n ≡ slot = some-injective n slot (sym (simp free) ∙ e) in
      (omega (arith, here), omega (arith, here))
  | inr used ↦
      let later = first_empty-lt xs (n + 1) (sym (simp used) ∙ e) in
      (omega (arith, later.0), omega (arith, later.1))
]

Sum-cases : {A : Type 0} (x : A ⊎ ℕ) → ((a : A) × (x ≡ inl a)) ⊎ ((n : ℕ) × (x ≡ inr n))
Sum-cases (inl a) = inl (a, refl)
Sum-cases (inr n) = inr (n, refl)

succeeds : BlobStatus ⊎ ℕ → Bool
succeeds (inl rc) = is_ok rc
succeeds (inr slot) = false

-- Where no slot is found, the status is a failure.
find_write_slot-fails :
    (requested : ℕ) (fat : List FatEntry) → succeeds (find_write_slot requested fat) ≡ false
unfolding find_write_slot succeeds
find_write_slot-fails requested fat = elim (Bool-cases (requested == auto_slot)) [
  | inl auto ↦ elim (Option-cases (first_empty fat 0)) [
    | inl full ↦ simp (auto, full)
    | inr (s0, found) ↦ simp (auto, found)
  ]
  | inr named ↦ elim (Bool-cases (slot_is_valid requested)) [
    | inl valid ↦ simp (named, valid)
    | inr bad ↦ simp (named, bad)
  ]
]

-- The slot that a write resolves to is one of the eight.
pub find_write_slot-lt :
    (requested : ℕ) (fat : List FatEntry) {slot : ℕ}
    → length fat ≡ max_slots
    → find_write_slot requested fat ≡ inr slot
    → slot < max_slots
unfolding find_write_slot slot_of
find_write_slot-lt requested fat {slot} n e =
    let same : slot_of (find_write_slot requested fat) ≡ slot = ap slot_of e in
    omega (arith, same, within)
  where
    within : slot_of (find_write_slot requested fat) < max_slots
    within = elim (Bool-cases (requested == auto_slot)) [
      | inl auto ↦ elim (Option-cases (first_empty fat 0)) [
        | inl full ↦ simp (auto, full) (omega arith)
        | inr (s0, found) ↦ simp (auto, found) (omega (arith, (first_empty-lt fat 0 found).1, n))
      ]
      | inr named ↦ elim (Bool-cases (slot_is_valid requested)) [
        | inl valid ↦ simp (named, valid) (ltb→lt requested max_slots valid)
        | inr bad ↦ simp (named, bad) (omega arith)
      ]
    ]

module _ {F C : Type 0} (c : FlashCtl F) (aes : Aes C) where
  -- What a success came from.
  pub record IsWritten (secrets : Bytes) (slot : ℕ) (data_ uuid pin_hash : Bytes) (mask : ℕ)
      (s s' : Store F) : Type 0 where
    pub resolved : ℕ
    pub root : RootSecret
    pub master : Bytes
    pub nonce : Bytes
    pub trng : List Capture
    pub fits : length data_ ≤ tags_offset - header_size
    pub found : find_write_slot slot s.fat ≡ inr resolved
    pub has_root : get_root_secret secrets ≡ some root
    pub has_key : derive_file_key root mask ≡ some master
    pub drawn : generate_nonce s.trng gcm_nonce_size ≡ some (some nonce, trng)
    pub recorded :
        write_record c aes resolved master data_ uuid
          (new_header resolved (length data_) mask pin_hash nonce)
          (record s { trng = trng })
        ≡ (blob_ok, s')

  failed :
      {r : Option (BlobStatus × Store F)} {s' : Store F} (rc : BlobStatus) (x : Store F)
      → is_ok rc ≡ false
      → r ≡ some (blob_ok, s')
      → r ≡ some (rc, x)
      → ⊥
  failed {s' = s'} rc x bad good e =
      ok_clash rc x bad (some-injective (rc, x) (blob_ok, s') (sym e ∙ good)) refl

  pub blob_write-IsWritten :
      (secrets : Bytes) (slot : ℕ) (data_ uuid pin_hash : Bytes) (mask : ℕ) (s : Store F)
      {s' : Store F}
      → blob_write c aes secrets slot data_ uuid pin_hash mask s ≡ some (blob_ok, s')
      → IsWritten secrets slot data_ uuid pin_hash mask s s'
  unfolding blob_write succeeds
  blob_write-IsWritten secrets slot data_ uuid pin_hash mask s {s'} r =
      elim (Bool-cases (ltb (tags_offset - header_size) len)) [
        | inl long ↦ absurd (failed invalid_argument s refl r (simp (blob_write, long)))
        | inr fits ↦ elim (Bool-cases (ltb 0xFFFF (header_size + len))) [
          | inl long ↦ absurd (failed invalid_argument s refl r (simp (blob_write, fits, long)))
          | inr small ↦ elim (Sum-cases (find_write_slot slot s.fat)) [
            | inl (rc, none_free) ↦ absurd (
                failed rc s (sym (ap succeeds none_free) ∙ find_write_slot-fails slot s.fat) r
                  (simp (blob_write, fits, small, none_free)))
            | inr (n, found) ↦ with_slot n fits small found
          ]
        ]
      ]
    where
      len : ℕ
      len = length data_

      with_slot :
          (n : ℕ)
          → ltb (tags_offset - header_size) len ≡ false
          → ltb 0xFFFF (header_size + len) ≡ false
          → find_write_slot slot s.fat ≡ inr n
          → IsWritten secrets slot data_ uuid pin_hash mask s s'
      with_slot n fits small found = elim (Option-cases (get_root_secret secrets)) [
        | inl bad ↦
            absurd (failed crypto_error s refl r (simp (blob_write, fits, small, found, bad)))
        | inr (root, has_root) ↦ elim (Option-cases (derive_file_key root mask)) [
          | inl bad ↦
              absurd (
                failed crypto_error s refl r (simp (blob_write, fits, small, found, has_root, bad)))
          | inr (master, has_key) ↦ elim (Option-cases (generate_nonce s.trng gcm_nonce_size)) [
            | inl hangs ↦ absurd (
                none-ne-some (blob_ok, s')
                  (sym (simp (blob_write, fits, small, found, has_root, has_key, hangs)) ∙ r))
            | inr ((none, cs), drawn) ↦ absurd (
                failed crypto_error (record s { trng = cs }) refl r
                  (simp (blob_write, fits, small, found, has_root, has_key, drawn)))
            | inr ((some nonce, cs), drawn) ↦ record {
              resolved = n;
              root = root;
              master = master;
              nonce = nonce;
              trng = cs;
              fits = ltb→le (tags_offset - header_size) len fits;
              found = found;
              has_root = has_root;
              has_key = has_key;
              drawn = drawn;
              recorded =
                  some-injective
                    (write_record c aes n master data_ uuid (new_header n len mask pin_hash nonce)
                      (record s { trng = cs }))
                    (blob_ok, s')
                    (sym (simp (blob_write, fits, small, found, has_root, has_key, drawn)) ∙ r);
            }
          ]
        ]
      ]
