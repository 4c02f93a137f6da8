-- ===== src/Device.antt =====
-- The statics of the firmware that the handlers of firmware/src/commands.c share, and how a handler
-- runs: it changes them, answers on a UART, and may return before its end.
pub mod Rules
use Prim.Native.Char.{code}
use Prim.Native.String
use Prim.Native.String.{String}
use rutgers_2026_e_ctf_desig.Messaging.Msg
use rutgers_2026_e_ctf_desig.Prelude.{
  ℕ, Bool, true, false, Option, none, some, List, [], ◌∷◌, Bytes, load32, if◌then◌else◌,
}
use rutgers_2026_e_ctf_desig.Trng.{Capture}
use rutgers_2026_e_ctf_desig.SecureDesign.{
  ReplayCache, Token, generate_nonce, check_and_update_replay,
}
use rutgers_2026_e_ctf_desig.Security.{PinState}
use rutgers_2026_e_ctf_desig.Messaging.{MsgStatus, Packet, Port, write_packet, read_packet}
use rutgers_2026_e_ctf_desig.BlobStore.{BlobStatus, Store}
use rutgers_2026_e_ctf_desig.Names.{NameEntry, NameTable}

-- The one flash is that of `store`; it is handed to the PIN and name operations, and taken back.
-- The buffers of the handlers are local values, since each is filled before it is read.
pub record Device (F : Type 0) : Type 0 where
  pub pins : PinState F
  pub store : Store F
  pub names : List NameEntry
  pub replay : ReplayCache
  pub control : Port
  pub transfer : Port

-- What a handler returns: 0, -1, or the status of its last packet.
pub data Ret : Type 0 where
  success failure : Ret
  packet_status : MsgStatus → Ret

-- A run goes on with a value, has returned, or waits for a TRNG that delivers no more.
pub data Run (F A : Type 0) : Type 0 where
  go : A → Device F → Run F A
  stop : Ret → Device F → Run F A
  hang : Run F A

abbrev pub Cmd : Type 0 → Type 0 → Type 0
Cmd F A = Device F → Run F A

module _ {F : Type 0} where
  abbrev pub and_then : {A B : Type 0} → Run F A → (A → Cmd F B) → Run F B
  and_then (go a d) k = k a d
  and_then (stop r d) k = stop r d
  and_then hang k = hang

  infixl 5 ◌>>=◌ ◌>>◌
  abbrev pub ◌>>=◌ : {A B : Type 0} → Cmd F A → (A → Cmd F B) → Cmd F B
  ◌>>=◌ m k d = and_then (m d) k

  abbrev pub ◌>>◌ : {B : Type 0} → Cmd F (Unit {0}) → Cmd F B → Cmd F B
  ◌>>◌ m k d = and_then (m d) (λ _. k)

  abbrev pub pure : {A : Type 0} → A → Cmd F A
  pure a d = go a d

  abbrev pub returning : {A : Type 0} → Ret → Cmd F A
  returning r d = stop r d

  abbrev pub gets : {A : Type 0} → (Device F → A) → Cmd F A
  gets f d = go (f d) d

-- The characters of a message.
abbrev pub chars : String → Bytes
chars String.[] = []
chars (String.◌∷◌ c s) = code c ∷ chars s

module _ {F : Type 0} where
  -- A packet to the host, and one to the other module.
  unfoldable pub to_host : ℕ → Bytes → Cmd F MsgStatus
  to_host type_ buf d =
      let (rc, p) = write_packet type_ buf d.control in go rc (record d { control = p })

  unfoldable pub to_peer : ℕ → Bytes → Cmd F MsgStatus
  to_peer type_ buf d =
      let (rc, p) = write_packet type_ buf d.transfer in go rc (record d { transfer = p })

  -- `read_packet_timeout(TRANSFER_INTERFACE, ...)`
  unfoldable pub from_peer : ℕ → Cmd F (MsgStatus × Packet)
  from_peer limit d = let (r, p) = read_packet limit d.transfer in go r (record d { transfer = p })

  -- The macro `print_error`.
  unfoldable pub print_error : Bytes → Cmd F (Unit {0})
  print_error msg d =
      let (rc, p) = write_packet Msg.error msg d.control in go tt (record d { control = p })

  -- `print_error(msg); return -1;`
  unfoldable pub fail : {A : Type 0} → Bytes → Cmd F A
  unfolding print_error
  fail msg = do print_error msg; returning failure

  -- The same where a test does not hold.
  unfoldable pub require : Bool → Bytes → Cmd F (Unit {0})
  unfolding fail
  require b msg = if b then pure tt else fail msg

  -- The value of a call that may fail.
  unfoldable pub need : {A : Type 0} → Option A → Bytes → Cmd F A
  unfolding fail
  need o msg = elim o [ none ↦ fail msg | some a ↦ pure a ]

  -- `write_packet(CONTROL_INTERFACE, ...); return 0;`
  unfoldable pub answer : ℕ → Bytes → Cmd F Ret
  unfolding to_host
  answer type_ buf = do _ ← to_host type_ buf; pure success

  -- `return write_packet(CONTROL_INTERFACE, ...);`
  unfoldable pub answer_status : ℕ → Bytes → Cmd F Ret
  unfolding to_host
  answer_status type_ buf = do rc ← to_host type_ buf; pure (packet_status rc)

  -- A nonce of four bytes, as the `uint32_t` that it is read into.
  unfoldable pub draw_nonce : Cmd F (Option ℕ)
  draw_nonce d = elim (generate_nonce d.store.trng 4) [
    | none ↦ hang
    | some (drawn, cs) ↦
        let d1 = record d { store = record d.store { trng = cs } } in
        elim drawn [ none ↦ go none d1 | some b ↦ go (some (load32 b 0)) d1 ]
  ]

  -- An operation of firmware/src/security.c on the flash of the device.
  unfoldable pub on_pins : {A : Type 0} → (PinState F → A × PinState F) → Cmd F A
  on_pins op d =
      let (r, p) = op (record d.pins { flash = d.store.flash }) in
      go r (record d { pins = p; store = record d.store { flash = p.flash } })

  -- An operation on the name table.
  unfoldable pub on_names : {A : Type 0} → (NameTable F → A × NameTable F) → Cmd F A
  on_names op d =
      let (r, t) = op (record { names = d.names; flash = d.store.flash }) in
      go r (record d { names = t.names; store = record d.store { flash = t.flash } })

  -- An operation of firmware/src/secure_blob_store.c, and one that may wait for the TRNG.
  unfoldable pub on_store : {A : Type 0} → (Store F → A × Store F) → Cmd F A
  on_store op d = let (r, s) = op d.store in go r (record d { store = s })

  unfoldable pub on_store_trng : {A : Type 0} → (Store F → Option (A × Store F)) → Cmd F A
  on_store_trng op d = elim (op d.store) [
    | none ↦ hang
    | some (r, s) ↦ go r (record d { store = s })
  ]

  -- `security_secure_uart_check_and_update_replay`
  unfoldable pub on_replay : Token → Cmd F Bool
  on_replay t d =
      let (fresh, r) = check_and_update_replay t d.replay in go fresh (record d { replay = r })
