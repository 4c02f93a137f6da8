-- ===== src/Device/Rules.antt =====
-- How a run of a handler of firmware/src/commands.c that reaches its end went through its steps.
use rutgers_2026_e_ctf_desig.Prelude.{
  ℕ, ◌≡◌, refl, sym, ap, ◌∙◌, Bool, true, false, true≢false, Option, none, some, List, Bytes,
  load32,
}
use rutgers_2026_e_ctf_desig.Trng.{Capture}
use rutgers_2026_e_ctf_desig.SecureDesign.{generate_nonce}
use rutgers_2026_e_ctf_desig.BlobStore.{Store}
use rutgers_2026_e_ctf_desig.Device.{
  Device, Ret, Run, go, stop, hang, Cmd, and_then, fail, require, need, on_store_trng, draw_nonce,
}

-- Whether a run went on.
abbrev pub went_on : {F A : Type 0} → Run F A → Bool
went_on (go a d) = true
went_on (stop r d) = false
went_on hang = false

-- The nonce that a run drew.
abbrev pub nonce_of : Option Bytes → Option ℕ
nonce_of none = none
nonce_of (some b) = some (load32 b 0)

module _ {F A : Type 0} where
  pub stop-ne-go :
      {r : Run F A} {ret : Ret} {d d' : Device F} {a : A} → r ≡ stop ret d → r ≡ go a d' → ⊥
  stop-ne-go s g = true≢false (ap went_on (sym g ∙ s))

  pub hang-ne-go : {r : Run F A} {d' : Device F} {a : A} → r ≡ hang → r ≡ go a d' → ⊥
  hang-ne-go s g = true≢false (ap went_on (sym g ∙ s))

  pub go-same : {a b : A} {d d' : Device F} → go a d ≡ go b d' → d ≡ d'
  go-same e = cc

  -- A bound step went on, and the rest from there.
  pub and_then-go :
      {B : Type 0} (r : Run F B) (k : B → Cmd F A) {a : A} {d' : Device F}
      → and_then r k ≡ go a d'
      → (b : B) × (d1 : Device F) × (r ≡ go b d1) × (k b d1 ≡ go a d')
  and_then-go (go b d1) k e = (b, d1, refl, e)
  and_then-go (stop ret d1) k e = absurd (stop-ne-go refl e)
  and_then-go hang k e = absurd (hang-ne-go refl e)

  pub require-go :
      (b : Bool) (msg : Bytes) (k : Unit {0} → Cmd F A) (d : Device F) {a : A} {d' : Device F}
      → and_then (require b msg d) k ≡ go a d'
      → (b ≡ true) × (k tt d ≡ go a d')
  unfolding require
  require-go true msg k d e = (refl, e)
  require-go false msg k d e = absurd (stop-ne-go refl e)

  pub need-go :
      {B : Type 0} (o : Option B) (msg : Bytes) (k : B → Cmd F A) (d : Device F) {a : A}
      {d' : Device F}
      → and_then (need o msg d) k ≡ go a d'
      → (b : B) × (o ≡ some b) × (k b d ≡ go a d')
  unfolding need fail
  need-go none msg k d e = absurd (stop-ne-go refl e)
  need-go (some b) msg k d e = (b, refl, e)

  pub on_store_trng-go :
      {B : Type 0} (op : Store F → Option (B × Store F)) (k : B → Cmd F A) (d : Device F) {a : A}
      {d' : Device F}
      → and_then (on_store_trng op d) k ≡ go a d'
      → (b : B) × (s : Store F) × (op d.store ≡ some (b, s))
        × (k b (record d { store = s }) ≡ go a d')
  unfolding on_store_trng
  on_store_trng-go {B} op k d {a} {d'} e = cases (op d.store) refl
    where
      cases :
          (o : Option (B × Store F))
          → op d.store ≡ o
          → (b : B) × (s : Store F) × (op d.store ≡ some (b, s))
            × (k b (record d { store = s }) ≡ go a d')
      cases none waits = absurd (hang-ne-go (rw (waits, and_then, on_store_trng)) e)
      cases (some (b, s)) found = (b, s, found, rw (found, and_then, on_store_trng) at e)

  pub draw_nonce-go :
      (k : Option ℕ → Cmd F A) (d : Device F) {a : A} {d' : Device F}
      → and_then (draw_nonce d) k ≡ go a d'
      → (drawn : Option Bytes) × (cs : List Capture) × (generate_nonce d.store.trng 4
          ≡ some (drawn, cs))
        × (k (nonce_of drawn) (record d { store = record d.store { trng = cs } }) ≡ go a d')
  unfolding draw_nonce
  draw_nonce-go k d {a} {d'} e = cases (generate_nonce d.store.trng 4) refl
    where
      cases :
          (o : Option (Option Bytes × List Capture))
          → generate_nonce d.store.trng 4 ≡ o
          → (drawn : Option Bytes) × (cs : List Capture) × (generate_nonce d.store.trng 4
              ≡ some (drawn, cs))
            × (k (nonce_of drawn) (record d { store = record d.store { trng = cs } }) ≡ go a d')
      cases none waits = absurd (hang-ne-go (rw (waits, and_then, draw_nonce)) e)
      cases (some (none, cs)) found = (none, cs, found, rw (found, and_then, draw_nonce) at e)
      cases (some (some b, cs)) found = (some b, cs, found, rw (found, and_then, draw_nonce) at e)
