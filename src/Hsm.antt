-- ===== src/Hsm.antt =====
-- firmware/src/HSM.c: boot, and a round of the loop that reads a command and calls its handler. The
-- watchdog and the LED are left out, and `debug_build` is the macro DEBUG_BUILD without its output.
pub mod Pins
pub mod Blobs
pub mod Shelf
pub mod Steps
pub mod Handlers
pub mod Exchange
pub mod Invariant
pub mod Overrun
use Prim.Native.String
use Prim.Native.String.{String}
use rutgers_2026_e_ctf_desig.Messaging.Msg
use rutgers_2026_e_ctf_desig.Prelude.{
  ℕ, zero, suc, ◌+◌, ◌*◌, Bool, true, false, not, ◌&&◌, ◌||◌, Option, none, some, List, [], ◌∷◌,
  ◌++◌, Bytes, u16, bytes_eq, ltb, ◌==◌, if◌then◌else◌,
}
use rutgers_2026_e_ctf_desig.Flash.{FlashCtl}
use rutgers_2026_e_ctf_desig.Crypto.{Aes}
use rutgers_2026_e_ctf_desig.Trng.{trng_read_bytes}
use rutgers_2026_e_ctf_desig.Security.{Secrets, pin_init}
use rutgers_2026_e_ctf_desig.Messaging.{
  MsgStatus, msg_ok, msg_no_ack, msg_bad_len, msg_timeout, Packet, Port, sync, read_packet,
}
use rutgers_2026_e_ctf_desig.Device.{
  Device, Ret, Run, hang, go, stop, Cmd, and_then, ◌>>=◌, ◌>>◌, pure, chars, print_error, on_pins,
}
use rutgers_2026_e_ctf_desig.Commands.{init_commands}
use rutgers_2026_e_ctf_desig.Commands.Files
use rutgers_2026_e_ctf_desig.Commands.Diagnostics
use rutgers_2026_e_ctf_desig.Transfer.Request
use rutgers_2026_e_ctf_desig.Transfer.Listen

-- The message for a packet that was not read.
unfoldable pub read_error : MsgStatus → Bytes
read_error msg_no_ack = chars "Failed to receive ACK from host\n"
read_error msg_bad_len = chars "Received bad length\n"
read_error msg_timeout = chars "UART frame timeout\n"
read_error _ = chars "Failed to receive cmd from host\n"

-- `sprintf(output_buf, "Invalid Command: %c\n", cmd)`, up to the first NUL.
unfoldable pub invalid_command : ℕ → Bytes
invalid_command cmd = chars "Invalid Command: " ++ (if cmd == 0 then [] else cmd ∷ 10 ∷ [])

-- Whether a sample of the self-test has a byte that is not 0.
unfoldable pub has_nonzero : Bytes → Bool
has_nonzero [] = false
has_nonzero (b ∷ bs) = let rest = has_nonzero bs in if b == 0 then rest else true

-- `MAX_MSG_SIZE`, the size of a `write_command_t` and of `uart_buf`.
abbrev pub max_msg_size : ℕ
max_msg_size = 8251

-- The length in the header of the packet that `read_packet` finds, and the line behind it.
unfoldable pub announced : Bool × List (Option ℕ) → ℕ × List (Option ℕ)
announced (true, some t ∷ some lo ∷ some hi ∷ rest) = (u16 (lo + hi * 256), rest)
announced _ = (0, [])

-- Whether that many bytes come in without a timeout.
unfoldable pub arrives : ℕ → List (Option ℕ) → Bool
arrives zero bs = true
arrives (suc n) (some b ∷ bs) = arrives n bs
arrives (suc n) _ = false

-- Whether `read_packet` with no limit stores a byte of the body, which it does as each comes in,
-- behind the end of a buffer of `size` bytes.
unfoldable pub overruns : ℕ → Port → Bool
unfolding announced arrives
overruns size p = let (len, rest) = announced (sync p.rx) in ltb size len && arrives (size + 1) rest

-- How a round of the loop ends: a run of the handler, or a write behind the end of `uart_buf`, of
-- which nothing is said.
pub data Round (F : Type 0) : Type 0 where
  runs : Run F (Unit {0}) → Round F
  overrun : Round F

module _ {F : Type 0} where
  -- A sample of eight bytes.
  unfoldable pub draw_sample : Cmd F Bytes
  draw_sample d = elim (trng_read_bytes d.store.trng 8) [
    | none ↦ hang
    | some (b, cs) ↦ go b (record d { store = record d.store { trng = cs } })
  ]

  -- The self-test of `main` behind `init`.
  unfoldable pub self_test : Cmd F (Unit {0})
  self_test = do
    a ← draw_sample
    b ← draw_sample
    if has_nonzero a && not (bytes_eq a b) then pure tt else print_error (chars "TRNG FAIL\n")

  -- What is left of a handler's run: `main` ignores what it returns.
  unfoldable pub ignore_result : {A : Type 0} → Run F A → Run F (Unit {0})
  ignore_result (go a d) = go tt d
  ignore_result (stop r d) = go tt d
  ignore_result hang = hang

module _ {F C : Type 0} (c : FlashCtl F) (aes : Aes C) (secrets : Secrets) where
  -- `init` but for the peripherals. `init_fs` fills a table that nothing reads afterwards.
  unfoldable pub init : Cmd F (Unit {0})
  init = do
    pins ← on_pins (pin_init c secrets)
    (if pins then pure tt else print_error (chars "PIN init failed\n"))
    blobs ← init_commands c
    if blobs then pure tt else print_error (chars "Blob store init failed\n")

  -- The handlers that only a debug build has.
  unfoldable pub dispatch_debug : ℕ → Bytes → Cmd F (Unit {0})
  dispatch_debug cmd body d =
      if cmd == Msg.delete_file
      then ignore_result (Files.delete_file c secrets body d)
      else if cmd == Msg.change_pin
      then ignore_result (Diagnostics.change_pin c secrets body d)
      else if cmd == Msg.boot_flag
      then ignore_result (Diagnostics.boot_flag c secrets body d)
      else if cmd == Msg.digest
      then ignore_result (Diagnostics.digest c aes secrets body d)
      else if cmd == Msg.echo
      then ignore_result (Diagnostics.echo body d)
      else print_error (invalid_command cmd) d

  -- The `switch` on the command.
  unfoldable pub dispatch : Bool → ℕ → Bytes → Cmd F (Unit {0})
  unfolding dispatch_debug
  dispatch debug_build cmd body d =
      if cmd == Msg.list_files
      then ignore_result (Files.list c secrets body d)
      else if cmd == Msg.read
      then ignore_result (Files.read c aes secrets body d)
      else if cmd == Msg.write
      then ignore_result (Files.write c aes secrets body d)
      else if cmd == Msg.receive
      then ignore_result (Request.receive c aes secrets body d)
      else if cmd == Msg.interrogate
      then ignore_result (Request.interrogate c secrets body d)
      else if cmd == Msg.listen
      then ignore_result (Listen.listen c aes secrets d)
      else if debug_build
      then dispatch_debug cmd body d
      else print_error (invalid_command cmd) d

  -- A round of the loop in `main`: `read_packet` with no limit, into `uart_buf`.
  unfoldable pub main_round : Bool → Device F → Round F
  unfolding dispatch overruns
  main_round debug_build d =
      let ((rc, got), p) = read_packet 0 d.control in
      let d1 = record d { control = p } in
      if overruns max_msg_size d.control
      then overrun
      else runs (elim rc [
        | msg_ok ↦ dispatch debug_build got.cmd got.body d1
        | other ↦ print_error (read_error other) d1
      ])
