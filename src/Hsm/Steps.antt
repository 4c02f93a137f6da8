-- ===== src/Hsm/Steps.antt =====
-- The form of the device, and what the steps of a handler of firmware/src/commands.c keep of it.
pub mod State
use rutgers_2026_e_ctf_desig.Prelude.{
  ℕ, ◌≡◌, refl, Bool, true, false, Option, none, some, List, Bytes, IsBytes, option_keeps,
}
use rutgers_2026_e_ctf_desig.Trng.{Capture}
use rutgers_2026_e_ctf_desig.Messaging.{MsgStatus, Packet}
use rutgers_2026_e_ctf_desig.Messaging.Sizes.{read_packet-IsBytes}
use rutgers_2026_e_ctf_desig.SecureDesign.{Token, generate_nonce}
use rutgers_2026_e_ctf_desig.Security.{PinState}
use rutgers_2026_e_ctf_desig.BlobStore.{Store}
use rutgers_2026_e_ctf_desig.Names.{NameTable}
use rutgers_2026_e_ctf_desig.Device.{
  Device, Ret, Run, go, stop, hang, Cmd, and_then, to_peer, from_peer, print_error, fail, require,
  need, answer, answer_status, draw_nonce, on_pins, on_names, on_store, on_store_trng, on_replay,
}
use rutgers_2026_e_ctf_desig.Hsm.Pins.{IsPins, IsRing, check_and_update_replay-IsRing}
use rutgers_2026_e_ctf_desig.Hsm.Blobs.{IsTable, IsTable-same}
use rutgers_2026_e_ctf_desig.Hsm.Shelf.{IsShelf}

-- The PIN hash has 32 bytes and satisfies `H`, and its counter is a word; the FAT and the name table have eight
-- well-formed entries; the replay cache has eight, and its cursor is in it.
pub record IsSound {F : Type 0} (H : Bytes → Type 0) (d : Device F) : Type 0 where
  pub pins : IsPins d.pins
  pub table : IsTable d.store
  pub shelf : IsShelf d.names
  pub ring : IsRing d.replay
  pub hash : H d.pins.pin_hash

-- No condition.
abbrev pub Any : {A : Type 0} → A → Type 0
Any a = Unit {0}

module _ {F : Type 0} (H : Bytes → Type 0) where
  -- A run that ends, ends on a sound device; one that goes on, with a value that satisfies `P`.
  abbrev pub EndsAt : {A : Type 0} → (A → Type 0) → Run F A → Type 0
  EndsAt P (go a d) = P a × IsSound H d
  EndsAt P (stop r d) = IsSound H d
  EndsAt P hang = Unit {0}

  pub record Ends {A : Type 0} (P : A → Type 0) (r : Run F A) : Type 0 where
    pub holds : EndsAt P r

module _ {F : Type 0} {H : Bytes → Type 0} where
  pub and_then-Ends :
      {A B : Type 0} {P : A → Type 0} {Q : B → Type 0} {r : Run F A} {k : A → Cmd F B}
      → Ends H P r
      → ((a : A) (d : Device F) → P a → IsSound H d → Ends H Q (k a d))
      → Ends H Q (and_then r k)
  and_then-Ends {r = go a d} e f = f a d e.holds.0 e.holds.1
  and_then-Ends {r = stop ret d} e f = record { holds = e.holds }
  and_then-Ends {r = hang} e f = record { holds = tt }

  pub Ends-Any : {A : Type 0} {P : A → Type 0} {r : Run F A} → Ends H P r → Ends H Any r
  Ends-Any {r = go a d} e = record { holds = (tt, e.holds.1) }
  Ends-Any {r = stop ret d} e = record { holds = e.holds }
  Ends-Any {r = hang} e = record { holds = tt }

  pub go-Ends :
      {A : Type 0} (P : A → Type 0) (a : A) (d : Device F) → P a → IsSound H d → Ends H P (go a d)
  go-Ends P a d p v = record { holds = (p, v) }

  pub stop-Ends :
      {A : Type 0} (P : A → Type 0) (r : Ret) (d : Device F) → IsSound H d → Ends H P (stop r d)
  stop-Ends P r d v = record { holds = v }

  pub to_peer-Ends :
      (type_ : ℕ) (buf : Bytes) (d : Device F) → IsSound H d → Ends H Any (to_peer type_ buf d)
  unfolding to_peer
  to_peer-Ends type_ buf d v = record {
    holds = (
      tt,
      record { pins = v.pins; table = v.table; shelf = v.shelf; ring = v.ring; hash = v.hash },
    );
  }

  pub from_peer-Ends :
      (limit : ℕ) (d : Device F)
      → IsSound H d
      → Ends H (λ (r : MsgStatus × Packet). IsBytes r.1.body) (from_peer limit d)
  unfolding from_peer
  from_peer-Ends limit d v = record {
    holds = (
      read_packet-IsBytes limit d.transfer,
      record { pins = v.pins; table = v.table; shelf = v.shelf; ring = v.ring; hash = v.hash },
    );
  }

  pub print_error-Ends : (msg : Bytes) (d : Device F) → IsSound H d → Ends H Any (print_error msg d)
  unfolding print_error
  print_error-Ends msg d v = record {
    holds = (
      tt,
      record { pins = v.pins; table = v.table; shelf = v.shelf; ring = v.ring; hash = v.hash },
    );
  }

  pub fail-Ends :
      {A : Type 0} (P : A → Type 0) (msg : Bytes) (d : Device F)
      → IsSound H d
      → Ends H P (fail msg d)
  unfolding fail
  fail-Ends P msg d v = record {
    holds = record {
      pins = v.pins;
      table = v.table;
      shelf = v.shelf;
      ring = v.ring;
      hash = v.hash;
    };
  }

  pub require-Ends :
      (b : Bool) (msg : Bytes) (d : Device F)
      → IsSound H d
      → Ends H (λ _. b ≡ true) (require b msg d)
  unfolding require
  require-Ends true msg d v = go-Ends _ tt d refl v
  require-Ends false msg d v = fail-Ends _ msg d v

  pub need-Ends :
      {A : Type 0} (o : Option A) (msg : Bytes) (d : Device F)
      → IsSound H d
      → Ends H (λ (a : A). o ≡ some a) (need o msg d)
  unfolding need
  need-Ends none msg d v = fail-Ends _ msg d v
  need-Ends (some a) msg d v = go-Ends _ a d refl v

  pub answer-Ends :
      (type_ : ℕ) (buf : Bytes) (d : Device F) → IsSound H d → Ends H Any (answer type_ buf d)
  unfolding answer
  answer-Ends type_ buf d v = record {
    holds = (
      tt,
      record { pins = v.pins; table = v.table; shelf = v.shelf; ring = v.ring; hash = v.hash },
    );
  }

  pub answer_status-Ends :
      (type_ : ℕ) (buf : Bytes) (d : Device F)
      → IsSound H d
      → Ends H Any (answer_status type_ buf d)
  unfolding answer_status
  answer_status-Ends type_ buf d v = record {
    holds = (
      tt,
      record { pins = v.pins; table = v.table; shelf = v.shelf; ring = v.ring; hash = v.hash },
    );
  }
