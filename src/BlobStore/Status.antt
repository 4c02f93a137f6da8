-- ===== src/BlobStore/Status.antt =====
-- Results of the functions of firmware/src/secure_blob_store.c: one that is not a success is no
-- success.
use rutgers_2026_e_ctf_desig.Prelude.{◌≡◌, refl, sym, ap, ◌∙◌, Bool, true, false, true≢false}
use rutgers_2026_e_ctf_desig.BlobStore.{
  BlobStatus, after_ok, after_ok_inner, blob_ok, invalid_argument, invalid_slot, storage_full,
  not_found, permission_denied, buffer_too_small, io_error, crypto_error, corrupt, bad_len,
}

abbrev pub is_ok : BlobStatus → Bool
is_ok blob_ok = true
is_ok _ = false

pub ok_clash :
    {A : Type 0} {p : BlobStatus × A} {y : A} (rc : BlobStatus) (x : A)
    → is_ok rc ≡ false
    → p ≡ (blob_ok, y)
    → p ≡ (rc, x)
    → ⊥
ok_clash {A = A} rc x bad good failed =
    true≢false (ap (λ (r : BlobStatus × A). is_ok r.0) (sym good ∙ failed) ∙ bad)

-- The same where the status comes with another result.
pub inner_clash :
    {A B : Type 0} {p : (BlobStatus × A) × B} {y : A} {g : B} (rc : BlobStatus) (x : A) (f : B)
    → is_ok rc ≡ false
    → p ≡ ((blob_ok, y), g)
    → p ≡ ((rc, x), f)
    → ⊥
inner_clash {A = A} {B = B} rc x f bad good failed =
    true≢false (ap (λ (r : (BlobStatus × A) × B). is_ok r.0.0) (sym good ∙ failed) ∙ bad)

-- A success behind a status had a success in front.
pub after_ok-ok :
    {A : Type 0} (rc : BlobStatus) (x : A) {next : BlobStatus × A} {y : A}
    → after_ok rc x next ≡ (blob_ok, y)
    → (rc ≡ blob_ok) × (next ≡ (blob_ok, y))
unfolding after_ok
after_ok-ok blob_ok x e = (refl, e)
after_ok-ok invalid_argument x e = absurd (ok_clash invalid_argument x refl e refl)
after_ok-ok invalid_slot x e = absurd (ok_clash invalid_slot x refl e refl)
after_ok-ok storage_full x e = absurd (ok_clash storage_full x refl e refl)
after_ok-ok not_found x e = absurd (ok_clash not_found x refl e refl)
after_ok-ok permission_denied x e = absurd (ok_clash permission_denied x refl e refl)
after_ok-ok buffer_too_small x e = absurd (ok_clash buffer_too_small x refl e refl)
after_ok-ok io_error x e = absurd (ok_clash io_error x refl e refl)
after_ok-ok crypto_error x e = absurd (ok_clash crypto_error x refl e refl)
after_ok-ok corrupt x e = absurd (ok_clash corrupt x refl e refl)
after_ok-ok bad_len x e = absurd (ok_clash bad_len x refl e refl)

pub after_ok_inner-ok :
    {A B : Type 0} (rc : BlobStatus) (x : A) (f : B) {next : (BlobStatus × A) × B} {y : A} {g : B}
    → after_ok_inner rc x f next ≡ ((blob_ok, y), g)
    → (rc ≡ blob_ok) × (next ≡ ((blob_ok, y), g))
unfolding after_ok_inner
after_ok_inner-ok blob_ok x f e = (refl, e)
after_ok_inner-ok invalid_argument x f e = absurd (inner_clash invalid_argument x f refl e refl)
after_ok_inner-ok invalid_slot x f e = absurd (inner_clash invalid_slot x f refl e refl)
after_ok_inner-ok storage_full x f e = absurd (inner_clash storage_full x f refl e refl)
after_ok_inner-ok not_found x f e = absurd (inner_clash not_found x f refl e refl)
after_ok_inner-ok permission_denied x f e = absurd (inner_clash permission_denied x f refl e refl)
after_ok_inner-ok buffer_too_small x f e = absurd (inner_clash buffer_too_small x f refl e refl)
after_ok_inner-ok io_error x f e = absurd (inner_clash io_error x f refl e refl)
after_ok_inner-ok crypto_error x f e = absurd (inner_clash crypto_error x f refl e refl)
after_ok_inner-ok corrupt x f e = absurd (inner_clash corrupt x f refl e refl)
after_ok_inner-ok bad_len x f e = absurd (inner_clash bad_len x f refl e refl)
