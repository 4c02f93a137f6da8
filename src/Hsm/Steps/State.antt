-- ===== src/Hsm/Steps/State.antt =====
-- The steps of a handler of firmware/src/commands.c that change the state of the device keep its form.
use rutgers_2026_e_ctf_desig.Prelude.{◌≡◌, refl, Option, some, List, Bytes, option_keeps}
use rutgers_2026_e_ctf_desig.Trng.{Capture}
use rutgers_2026_e_ctf_desig.SecureDesign.{Token, generate_nonce}
use rutgers_2026_e_ctf_desig.Security.{PinState}
use rutgers_2026_e_ctf_desig.BlobStore.{Store}
use rutgers_2026_e_ctf_desig.Names.{NameTable}
use rutgers_2026_e_ctf_desig.Device.{
  Device, draw_nonce, on_pins, on_names, on_store, on_store_trng, on_replay,
}
use rutgers_2026_e_ctf_desig.Hsm.Pins.{IsPins, check_and_update_replay-IsRing}
use rutgers_2026_e_ctf_desig.Hsm.Blobs.{IsTable, IsTable-same}
use rutgers_2026_e_ctf_desig.Hsm.Shelf.{IsShelf}
use rutgers_2026_e_ctf_desig.Hsm.Steps.{IsSound, Ends, Any}

module _ {F : Type 0} {H : Bytes → Type 0} where
  IsSound-trng :
      (d : Device F) (cs : List Capture)
      → IsSound H d
      → IsSound H (record d { store = record d.store { trng = cs } })
  IsSound-trng d cs v = record {
    pins = v.pins;
    table = IsTable-same d.store (record d.store { trng = cs }) refl v.table;
    shelf = v.shelf;
    ring = v.ring;
    hash = v.hash;
  }

  pub draw_nonce-Ends : (d : Device F) → IsSound H d → Ends H Any (draw_nonce d)
  unfolding draw_nonce
  draw_nonce-Ends d v =
      option_keeps (Ends H Any) (generate_nonce d.store.trng 4) (record { holds = tt })
        λ (drawn, cs) _.
          option_keeps (Ends H Any) drawn (record { holds = (tt, IsSound-trng d cs v) })
            λ b _. record { holds = (tt, IsSound-trng d cs v) }

  pub on_pins-Ends :
      {A : Type 0} (op : PinState F → A × PinState F) (d : Device F)
      → ((p : PinState F) → IsPins p → H p.pin_hash → IsPins (op p).1 × H (op p).1.pin_hash)
      → IsSound H d
      → Ends H Any (on_pins op d)
  unfolding on_pins
  on_pins-Ends op d k v =
      let p = record d.pins { flash = d.store.flash } in
      let p1 = k p (record { sized = v.pins.sized; counted = v.pins.counted }) v.hash in
      record {
        holds = (
          tt,
          record {
            pins = p1.0;
            table = IsTable-same d.store (record d.store { flash = (op p).1.flash }) refl v.table;
            shelf = v.shelf;
            ring = v.ring;
            hash = p1.1;
          },
        );
      }

  pub on_names-Ends :
      {A : Type 0} (op : NameTable F → A × NameTable F) (d : Device F)
      → ((t : NameTable F) → IsShelf t.names → IsShelf (op t).1.names)
      → IsSound H d
      → Ends H Any (on_names op d)
  unfolding on_names
  on_names-Ends op d k v =
      let t : NameTable F = record { names = d.names; flash = d.store.flash } in
      record {
        holds = (
          tt,
          record {
            pins = v.pins;
            table = IsTable-same d.store (record d.store { flash = (op t).1.flash }) refl v.table;
            shelf = k t v.shelf;
            ring = v.ring;
            hash = v.hash;
          },
        );
      }

  pub on_store-Ends :
      {A : Type 0} (op : Store F → A × Store F) (d : Device F)
      → ((s : Store F) → IsTable s → IsTable (op s).1)
      → IsSound H d
      → Ends H Any (on_store op d)
  unfolding on_store
  on_store-Ends op d k v = record {
    holds = (
      tt,
      record {
        pins = v.pins;
        table = k d.store v.table;
        shelf = v.shelf;
        ring = v.ring;
        hash = v.hash;
      },
    );
  }

  pub on_store_trng-Ends :
      {A : Type 0} (op : Store F → Option (A × Store F)) (d : Device F)
      → ((s : Store F) (a : A) (s' : Store F) → IsTable s → op s ≡ some (a, s') → IsTable s')
      → IsSound H d
      → Ends H Any (on_store_trng op d)
  unfolding on_store_trng
  on_store_trng-Ends op d k v =
      option_keeps (Ends H Any) (op d.store) (record { holds = tt })
        λ (a, s) e. record {
          holds = (
            tt,
            record {
              pins = v.pins;
              table = k d.store a s v.table e;
              shelf = v.shelf;
              ring = v.ring;
              hash = v.hash;
            },
          );
        }

  pub on_replay-Ends : (t : Token) (d : Device F) → IsSound H d → Ends H Any (on_replay t d)
  unfolding on_replay
  on_replay-Ends t d v = record {
    holds = (
      tt,
      record {
        pins = v.pins;
        table = v.table;
        shelf = v.shelf;
        ring = check_and_update_replay-IsRing t d.replay v.ring;
        hash = v.hash;
      },
    );
  }
