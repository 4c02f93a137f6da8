-- ===== src/BlobStore/Codec.antt =====
-- The header and the FAT of firmware/src/secure_blob_store.c: what was written is what is read.
use rutgers_2026_e_ctf_desig.Prelude.{
  ◌<◌, ◌^◌, ◌≡◌, refl, sym, ap, ap₂, ◌∙◌, List, [], ◌∷◌, ◌++◌, append_assoc, arith, Bytes, le16,
  le32, load16, load32, load16-append, load32-append, length, take, drop, length-append,
  take-append, drop-append, drop-append_ge, take_all,
}
use rutgers_2026_e_ctf_desig.BlobStore.{
  BlobHeader, FatEntry, encode_header, decode_header, encode_entry, decode_entry, encode_fat,
  decode_fat, header_size, fat_entry_size,
}

-- The fields of a header have the sizes of their C types.
pub record IsHeader (h : BlobHeader) : Type 0 where
  pub magic : h.magic < 2 ^ 32
  pub version : h.version < 2 ^ 16
  pub slot : h.slot < 2 ^ 16
  pub plaintext_len : h.plaintext_len < 2 ^ 32
  pub group_mask : h.group_mask < 2 ^ 32
  pub owner : length h.owner_pin_hash ≡ 32
  pub nonce : length h.nonce ≡ 12
  pub tag : length h.blob_tag ≡ 32
  pub reserved : length h.reserved ≡ 4

pub length-encode_header : (h : BlobHeader) → IsHeader h → length (encode_header h) ≡ header_size
length-encode_header h v = omega (
  arith,
  v.owner,
  v.nonce,
  v.tag,
  v.reserved,
  length-append h.owner_pin_hash (h.nonce ++ (h.blob_tag ++ h.reserved)),
  length-append h.nonce (h.blob_tag ++ h.reserved),
  length-append h.blob_tag h.reserved,
)

pub decode_header-encode : (h : BlobHeader) → IsHeader h → decode_header (encode_header h) ≡ h
decode_header-encode h v = λ i. record {
  magic = load32-append [] h.magic after_magic 0 refl v.magic i;
  version = load16-append (le32 h.magic) h.version after_version 4 refl v.version i;
  slot = load16-append (le32 h.magic ++ le16 h.version) h.slot after_slot 6 refl v.slot i;
  plaintext_len =
      load32-append (le32 h.magic ++ (le16 h.version ++ le16 h.slot)) h.plaintext_len after_len 8
        refl v.plaintext_len i;
  group_mask =
      load32-append (le32 h.magic ++ (le16 h.version ++ (le16 h.slot ++ le32 h.plaintext_len)))
        h.group_mask after_mask 12 refl v.group_mask i;
  owner_pin_hash = take-append 32 h.owner_pin_hash after_owner v.owner i;
  nonce =
      (ap (take 12) (drop-append 32 h.owner_pin_hash after_owner v.owner)
          ∙ take-append 12 h.nonce after_nonce v.nonce)
        i;
  blob_tag =
      (ap (take 32) (
            drop-append_ge 44 12 h.owner_pin_hash after_owner (omega (arith, v.owner))
            ∙ drop-append 12 h.nonce after_nonce v.nonce)
          ∙ take-append 32 h.blob_tag h.reserved v.tag)
        i;
  reserved =
      (ap (take 4) (
            drop-append_ge 76 44 h.owner_pin_hash after_owner (omega (arith, v.owner))
            ∙ drop-append_ge 44 32 h.nonce after_nonce (omega (arith, v.nonce))
            ∙ drop-append 32 h.blob_tag h.reserved v.tag)
          ∙ take_all 4 h.reserved (omega (arith, v.reserved)))
        i;
}
  where
    after_nonce : Bytes
    after_nonce = h.blob_tag ++ h.reserved

    after_owner : Bytes
    after_owner = h.nonce ++ after_nonce

    after_mask : Bytes
    after_mask = h.owner_pin_hash ++ after_owner

    after_len : Bytes
    after_len = le32 h.group_mask ++ after_mask

    after_slot : Bytes
    after_slot = le32 h.plaintext_len ++ after_len

    after_version : Bytes
    after_version = le16 h.slot ++ after_slot

    after_magic : Bytes
    after_magic = le16 h.version ++ after_version

-- The fields of an entry have the sizes of their C types.
pub record IsEntry (e : FatEntry) : Type 0 where
  pub uuid : length e.uuid ≡ 16
  pub length_ : e.length < 2 ^ 16
  pub padding : e.padding < 2 ^ 16
  pub flash_addr : e.flash_addr < 2 ^ 32

pub length-encode_entry : (e : FatEntry) → IsEntry e → length (encode_entry e) ≡ fat_entry_size
length-encode_entry e v =
    omega
      (arith, v.uuid, length-append e.uuid (le16 e.length ++ (le16 e.padding ++ le32 e.flash_addr)))

-- An entry is read from its 24 bytes, whatever follows.
decode_entry-encode :
    (e : FatEntry) (post : Bytes) → IsEntry e → decode_entry (encode_entry e ++ post) ≡ e
decode_entry-encode e post v = λ i. record {
  uuid = (ap (take 16) split ∙ take-append 16 e.uuid (fields ++ post) v.uuid) i;
  length =
      (ap (λ (b : Bytes). load16 b 16) split
          ∙ load16-append e.uuid e.length (le16 e.padding ++ (le32 e.flash_addr ++ post)) 16 v.uuid
              v.length_)
        i;
  padding =
      (ap (λ (b : Bytes). load16 b 18) split
          ∙ ap (λ (b : Bytes). load16 b 18)
              (sym (
                append_assoc e.uuid (le16 e.length)
                  (le16 e.padding ++ (le32 e.flash_addr ++ post))))
          ∙ load16-append (e.uuid ++ le16 e.length) e.padding (le32 e.flash_addr ++ post) 18
              (omega (arith, v.uuid, length-append e.uuid (le16 e.length))) v.padding)
        i;
  flash_addr =
      (ap (λ (b : Bytes). load32 b 20) split
          ∙ ap (λ (b : Bytes). load32 b 20)
              (sym
                (append_assoc e.uuid (le16 e.length ++ le16 e.padding) (le32 e.flash_addr ++ post)))
          ∙ load32-append (e.uuid ++ (le16 e.length ++ le16 e.padding)) e.flash_addr post 20
              (omega (arith, v.uuid, length-append e.uuid (le16 e.length ++ le16 e.padding)))
              v.flash_addr)
        i;
}
  where
    fields : Bytes
    fields = le16 e.length ++ (le16 e.padding ++ le32 e.flash_addr)

    split : encode_entry e ++ post ≡ e.uuid ++ (fields ++ post)
    split = append_assoc e.uuid fields post

-- Every entry of a table has them.
unfoldable pub IsFat : List FatEntry → Type 0
IsFat [] = Unit {0}
IsFat (e ∷ es) = IsEntry e × IsFat es

pub decode_fat-encode :
    (es : List FatEntry) (post : Bytes)
    → IsFat es
    → decode_fat (length es) (encode_fat es ++ post) ≡ es
unfolding IsFat
decode_fat-encode [] post v = refl
decode_fat-encode (e ∷ es) post v =
    let split = append_assoc (encode_entry e) (encode_fat es) post in
    ap₂ (λ (x : FatEntry) (xs : List FatEntry). x ∷ xs)
      (ap decode_entry split ∙ decode_entry-encode e (encode_fat es ++ post) v.0)
      (ap (λ (b : Bytes). decode_fat (length es) (drop fat_entry_size b)) split
        ∙ ap (decode_fat (length es))
            (drop-append 24 (encode_entry e) (encode_fat es ++ post) (length-encode_entry e v.0))
        ∙ decode_fat-encode es post v.1)
