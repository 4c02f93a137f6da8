-- ===== src/BlobStore/Chunks.antt =====
-- The loop of `blob_write` in firmware/src/secure_blob_store.c: the chunks and tags that it leaves
-- in the slot.
use rutgers_2026_e_ctf_desig.Prelude.{
  ℕ, zero, suc, ◌+◌, ◌*◌, ◌/◌, ◌%◌, ◌⊎◌, ltb, ltb→lt, ltb→le, ◌≤◌, ◌<◌, ◌^◌, ◌≡◌, refl, sym, ap,
  ◌∙◌, Bool, true, some, List, [], ◌∷◌, arith, Bytes, byte_at, Bool-cases, Option-cases, inl, inr,
  length, take, drop, length-take, length-drop,
}
use rutgers_2026_e_ctf_desig.Sha256.{Ctx, ctx_update}
use rutgers_2026_e_ctf_desig.Flash.{FlashCtl, IsFlash, IsErased, Outside, flash_word, write_flash}
use rutgers_2026_e_ctf_desig.Flash.Write.{ecc_round, write_flash-IsPut}
use rutgers_2026_e_ctf_desig.Crypto.{Aes, IsGcm, aes_gcm_encrypt, gcm_tag_size}
use rutgers_2026_e_ctf_desig.Crypto.Gcm.{aes_gcm_encrypt-decrypt}
use rutgers_2026_e_ctf_desig.BlobStore.{
  BlobStatus, blob_ok, io_error, crypto_error, header_size, tags_offset, chunk_bytes, slot_size,
  chunk_key,
}
use rutgers_2026_e_ctf_desig.BlobStore.Write.{write_chunks}
use rutgers_2026_e_ctf_desig.BlobStore.Status.{inner_clash}

-- The chunks of `n` bytes.
abbrev pub chunk_count : ℕ → ℕ
chunk_count n = (n + 255) / 256

-- A hash state after the tags.
unfoldable pub absorb : Ctx → List Bytes → Ctx
absorb ctx [] = ctx
absorb ctx (t ∷ ts) = absorb (ctx_update ctx t) ts

module _ {F C : Type 0} (c : FlashCtl F) (aes : Aes C) where
  -- The bytes at an address.
  abbrev pub Reads : F → ℕ → Bytes → Type 0
  Reads f a d = (i : ℕ) → i < length d → c.byte f (a + i) ≡ byte_at d i

  -- In the slot at `base`, from an offset and a chunk number on, stand the chunks of the data with
  -- these tags.
  pub data Stored (f : F) (base : ℕ) (master nonce aad : Bytes)
      : Bytes → ℕ → ℕ → List Bytes → Type 0 where
    stored_nil : {p i : ℕ} → Stored f base master nonce aad [] p i []
    stored_cons :
        {p i : ℕ} {tags : List Bytes} (b : ℕ) (bs ct tag : Bytes)
        → aes_gcm_encrypt aes
            (chunk_key master i)
            nonce
            aad
            (take chunk_bytes (b ∷ bs))
            gcm_tag_size
          ≡ some (ct, tag)
        → Reads f (base + header_size + p) ct
        → Reads f (base + tags_offset + i * gcm_tag_size) tag
        → Stored f base master nonce aad
            (drop chunk_bytes (b ∷ bs))
            (p + length (take chunk_bytes (b ∷ bs)))
            (i + 1)
            tags
        → Stored f base master nonce aad (b ∷ bs) p i (tag ∷ tags)

  -- A round that comes to its end.
  write_chunks-step :
      (fuel base : ℕ) (master nonce aad : Bytes) (b : ℕ) (bs : Bytes) (p i : ℕ) (ctx : Ctx) (f : F)
      {out : Ctx} {g : F}
      → write_chunks c aes (suc fuel) base master nonce aad (b ∷ bs) p i ctx f ≡ ((blob_ok, out), g)
      → let piece = take chunk_bytes (b ∷ bs) in
        (ct : Bytes) × (tag : Bytes) × (f1 : F) × (f2 : F) × (aes_gcm_encrypt aes
            (chunk_key master i)
            nonce
            aad
            piece
            gcm_tag_size
          ≡ some (ct, tag))
        × (write_flash c (base + header_size + p) ct f ≡ (true, f1))
        × (write_flash c (base + tags_offset + i * gcm_tag_size) tag f1 ≡ (true, f2))
        × (write_chunks c aes fuel base master nonce aad
              (drop chunk_bytes (b ∷ bs))
              (p + length piece)
              (i + 1)
              (ctx_update ctx tag)
              f2
            ≡ ((blob_ok, out), g))
  unfolding write_chunks
  write_chunks-step fuel base master nonce aad b bs p i ctx f {out} {g} r =
      let piece = take chunk_bytes (b ∷ bs) in
      let enc = aes_gcm_encrypt aes (chunk_key master i) nonce aad piece gcm_tag_size in
      elim (Option-cases enc) [
        | inl bad ↦ absurd (inner_clash crypto_error ctx f refl r (simp (write_chunks, bad)))
        | inr ((ct, tag), made) ↦
            let (stored, f1) = write_flash c (base + header_size + p) ct f in
            let (tagged, f2) = write_flash c (base + tags_offset + i * gcm_tag_size) tag f1 in
            elim (Bool-cases stored) [
              | inr bad ↦ absurd (
                  inner_clash io_error (ctx_update ctx tag) f1 refl r
                    (simp (write_chunks, made, bad)))
              | inl good ↦ elim (Bool-cases tagged) [
                | inr bad ↦ absurd (
                    inner_clash io_error (ctx_update ctx tag) f2 refl r
                      (simp (write_chunks, made, good, bad)))
                | inl full ↦ (
                  ct,
                  tag,
                  f1,
                  f2,
                  made,
                  ap (λ (t : Bool). (t, f1)) good,
                  ap (λ (t : Bool). (t, f2)) full,
                  sym (simp (write_chunks, made, good, full)) ∙ r,
                )
              ]
            ]
      ]

module _ {F C : Type 0} (c : FlashCtl F) (aes : Aes C) (laws : IsFlash c) (gcm : IsGcm aes) where
  -- What a run of the loop may change: the rest of the data, and the rest of the tags.
  abbrev pub Untouched : ℕ → ℕ → ℕ → ℕ → F → F → Type 0
  Untouched base p i n f g =
      (x : ℕ)
      → Outside (base + header_size + p) (ecc_round n) x
      → Outside (base + tags_offset + i * gcm_tag_size) (chunk_count n * gcm_tag_size) x
      → c.byte g x ≡ c.byte f x

  none_left :
      (base : ℕ) (master nonce aad : Bytes) (p i : ℕ) (ctx : Ctx) (f : F) {out : Ctx} {g : F}
      → ◌≡◌ {A = (BlobStatus × Ctx) × F} ((blob_ok, ctx), f) ((blob_ok, out), g)
      → (tags : List Bytes) × Stored c aes g base master nonce aad [] p i tags
        × (out ≡ absorb ctx tags)
        × Untouched base p i 0 f g
  unfolding absorb
  none_left base master nonce aad p i ctx f {out} {g} r =
      let same = ap (λ (t : (BlobStatus × Ctx) × F). t.1) r in
      (
        [],
        stored_nil,
        ap (λ (t : (BlobStatus × Ctx) × F). t.0.1) (sym r),
        λ x od ot. ap (λ (k : F). c.byte k x) (sym same),
      )

  -- Chunks of 256 bytes keep the place at the start of a flash word, up to the end of the data.
  next_start :
      (p : ℕ) (d : Bytes)
      → p % flash_word ≡ 0
      → ((p + length (take chunk_bytes d)) % flash_word ≡ 0) ⊎ (length (drop chunk_bytes d) ≡ 0)
  next_start p d aligned =
      let taken = length-take chunk_bytes d in
      let left = length-drop chunk_bytes d in
      elim (Bool-cases (ltb (length d) 256)) [
        | inl short ↦ inr (omega (arith, left, ltb→lt (length d) 256 short))
        | inr long ↦ inl (omega (arith, taken, ltb→le (length d) 256 long))
      ]

  -- The loop on an erased slot, where the rest of the data and of the tags fits.
  pub write_chunks-Stored :
      (fuel base : ℕ) (master nonce aad data_ : Bytes) (p i : ℕ) (ctx : Ctx) (f : F) {out : Ctx}
      {g : F}
      → base % flash_word ≡ 0
      → (p % flash_word ≡ 0) ⊎ (length data_ ≡ 0)
      → length data_ ≤ fuel
      → base + slot_size < 2 ^ 32
      → header_size + p + ecc_round (length data_) ≤ tags_offset
      → i + chunk_count (length data_) ≤ 32
      → IsErased c f (base + header_size + p) (ecc_round (length data_))
      → IsErased c f
          (base + tags_offset + i * gcm_tag_size)
          (chunk_count (length data_) * gcm_tag_size)
      → write_chunks c aes fuel base master nonce aad data_ p i ctx f ≡ ((blob_ok, out), g)
      → (tags : List Bytes) × Stored c aes g base master nonce aad data_ p i tags
        × (out ≡ absorb ctx tags)
        × Untouched base p i (length data_) f g
  unfolding write_chunks absorb
  write_chunks-Stored zero base master nonce aad [] p i ctx f {out} {g} ba pa h low fd ft ed et r =
      none_left base master nonce aad p i ctx f r
  write_chunks-Stored zero base master nonce aad (b ∷ bs) p i ctx f ba pa h low fd ft ed et r =
      absurd (omega arith)
  write_chunks-Stored (suc fuel) base master nonce aad [] p i ctx f {out} {g} ba pa h low fd ft ed
        et r =
      none_left base master nonce aad p i ctx f r
  write_chunks-Stored (suc fuel) base master nonce aad (b ∷ bs) p i ctx f {out} {g} ba pa h low fd
        ft ed et r =
      let d : Bytes = b ∷ bs in
      let aligned : p % flash_word ≡ 0 = omega (arith, pa) in
      let piece = take chunk_bytes d in
      let n = length-take chunk_bytes d in
      let left = length-drop chunk_bytes d in
      let (ct, tag, f1, f2, made, stored, tagged, rest) =
        write_chunks-step c aes fuel base master nonce aad b bs p i ctx f r in
      let (ct_size, tag_size, _) =
        aes_gcm_encrypt-decrypt aes gcm (chunk_key master i) nonce aad piece gcm_tag_size 256 made
          (omega (arith, n)) in
      let put1 =
        write_flash-IsPut c laws (base + header_size + p) ct f (omega arith)
          (omega (arith, ct_size, n)) (λ j l. ed j (omega (arith, ct_size, n))) stored in
      let put2 =
        write_flash-IsPut c laws (base + tags_offset + i * gcm_tag_size) tag f1 (omega arith)
          (omega (arith, tag_size))
          (λ j l.
            put1.outside (base + tags_offset + i * gcm_tag_size + j)
              (inr (omega (arith, ct_size, n)))
            ∙ et j (omega (arith, tag_size)))
          tagged in
      let (tags, more, absorbed, kept) =
        write_chunks-Stored fuel base master nonce aad (drop chunk_bytes d) (p + length piece)
          (i + 1) (ctx_update ctx tag) f2 ba (next_start p d aligned) (omega (arith, left)) low
          (omega (arith, left, n)) (omega (arith, left))
          (λ j l.
            let x = base + header_size + (p + length piece) + j in
            put2.outside x (inl (omega (arith, n, left)))
            ∙ put1.outside x (inr (omega (arith, ct_size, n, left)))
            ∙ ap (c.byte f) {x = x} {y = base + header_size + p + (length piece + j)} (omega arith)
            ∙ ed (length piece + j) (omega (arith, n, left)))
          (λ j l.
            let x = base + tags_offset + (i + 1) * gcm_tag_size + j in
            put2.outside x (inr (omega (arith, tag_size)))
            ∙ put1.outside x (inr (omega (arith, ct_size, n)))
            ∙ ap (c.byte f) {x = x} {y = base + tags_offset + i * gcm_tag_size + (16 + j)}
                (omega arith)
            ∙ et (16 + j) (omega (arith, left)))
          rest in
      (
        tag ∷ tags,
        stored_cons {tags = tags} b bs ct tag made
            (λ j l.
              let x = base + header_size + p + j in
              kept x (inl (omega (arith, ct_size))) (inl (omega (arith, ct_size, n)))
              ∙ put2.outside x (inl (omega (arith, ct_size, n)))
              ∙ put1.inside j l)
            (λ j l.
              let x = base + tags_offset + i * gcm_tag_size + j in
              kept x (inr (omega (arith, n, left))) (inl (omega (arith, tag_size)))
              ∙ put2.inside j l)
            more,
        absorbed,
        λ x od ot.
            kept x (omega (arith, od, n, left)) (omega (arith, ot, left))
            ∙ put2.outside x (omega (arith, ot, tag_size))
            ∙ put1.outside x (omega (arith, od, ct_size, n)),
      )
