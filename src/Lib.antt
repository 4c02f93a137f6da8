-- ===== src/Lib.antt =====
-- The firmware of the eCTF 2026 hardware security module: an MSPM0L2228 that keeps up to eight
-- encrypted files in flash, gives them to the holder of a PIN on a host UART, and to other modules
-- of the same group on a second UART.
--
-- The parts, bottom up:
--
-- * Sha256 (firmware/src/sha256_raw.c): Sha256/Compress is the block compression
--   (`sha256_compress`); Sha256 itself the context (`sha256_raw_ctx_init`, `_update`, `_final`) and
--   the one-shot hash. Sha256/Stream, Padding and Digest are its theory, with FIPS 180-4 as the
--   independent description; Sha256/Hmac and Sha256/Hkdf model HMAC and HKDF, with RFC 2104 and 5869.
-- * Flash (firmware/src/simple_flash.c) over the record `FlashCtl` of the controller's calls.
-- * Crypto (firmware/src/secure_crypto.c) over the record `Aes` of wolfSSL's calls; Crypto/Sign and
--   Crypto/Gcm are its theory.
-- * Trng (firmware/src/trng.c) over the list of what each command to the peripheral comes to.
-- * SecureDesign (firmware/src/secure_design.c): root secret, nonces, and the replay cache.
-- * Security (firmware/src/security.c): the PIN state and the permission table. Security/Attempts,
--   /Change, /Persist, /Repeat and /Permissions are its theory.
-- * Messaging (firmware/src/host_messaging.c) over a `Port`; Messaging/Handshake, /Receive, /Hex and
--   /Sizes are its theory.
-- * BlobStore (firmware/src/secure_blob_store.c): BlobStore/Layout has the constants and the bytes
--   of the records, BlobStore the FAT, header, boot and deletion, BlobStore/Write `blob_write`, and
--   BlobStore/Read the streaming read. BlobStore/Codec, /Fat, /Erase, /Chunks, /Sealed, /Reading,
--   /Opened, /Whole, /Written, /RoundTrip and /Access are its theory.
-- * Names (firmware/src/commands.c): the name table, a page of flash and its shadow in RAM, with
--   Names/Persist for a boot.
-- * Device (firmware/src/commands.c): the statics that the handlers share, as one record, and the
--   runs of a handler: a small monad of a state, an early return and a TRNG that delivers no more.
--   Device/Rules takes a run that went through apart into its steps.
-- * Commands (firmware/src/commands.c): the packets and the PIN gate; Commands/Files has list, read,
--   write and delete_file, Commands/Diagnostics change_pin, boot_flag, digest and echo, which only a
--   debug build has. Commands/Gate, /Listing, /Reading, /Writing, /RoundTrip and
--   /Deleting are their theory.
-- * Transfer (firmware/src/commands.c): the packets between two modules; Transfer/Request has receive
--   and interrogate, which ask, Transfer/Listen has listen, which answers. Transfer/Serving, /Groups,
--   /Listed and /Fits are their theory.
-- * Hsm (firmware/src/HSM.c): boot, self-test, and a round of the main loop with its dispatch.
--   Hsm/Pins, /Blobs and /Shelf keep the form of each part of the state, Hsm/Steps that of a device
--   over the steps of a handler, and Hsm/Handlers, /Exchange and /Invariant over handlers and rounds.
--   Hsm/Overrun says which packets a round takes.
-- * Filesystem (firmware/src/filesystem.c) and Storage (firmware/src/storage.c): the plain files and
--   the authenticated metadata of an earlier design, of which the firmware calls `init_fs` only.
--   Filesystem/RoundTrip and Storage/Counter are their theory.
-- * Prelude has the helpers: tests on numbers, lists, buffers and bits. Tests has peripherals that
--   keep the laws, and runs on them.
--
-- How the state corresponds: a module's statics are the fields of one record (`PinState`, `Store`,
-- `ReplayCache`), which its operations take and return. A buffer with its length is a list, and an
-- output buffer is a result, so a null pointer has no counterpart. A Boolean result of a function
-- that returns `int` is whether it returned 0. Scratch buffers that a function fills before it reads
-- them, and the clearing of secrets that are not read again, are left out. Words wrap as written
-- (`u8`, `u16`, `u32`, `u64`); an address or an offset below 2^32 by the guards of its function is a
-- plain sum.
--
-- Loops over a buffer are structural, or on fuel that is the length of the data: each round takes a
-- byte or more, so it is enough, and the theorems that a loop reaches its end prove it. The TRNG
-- loop is on the list of captures, whose end is a peripheral that delivers nothing more.
--
-- What is not under the repository is a parameter. `IsFlash` states of the flash controller that
-- only an erase or a program changes a byte, and only where it is asked to; that an erased
-- sector reads 0xFF; and that erased bytes take the data, where whole flash words of 8 bytes are
-- programmed at the start of one. `IsGcm` states of AES-GCM the sizes of its results, and that
-- decryption inverts encryption. Nothing is assumed of failures: a call may fail at any time,
-- but in the theorems on firmware/src/filesystem.c and firmware/src/storage.c, which do not look
-- at what the flash returns. Tests/Ideal has a flash and a cipher that keep these laws.
--
-- A handler takes its packet as the bytes that were received, so `pkt_len` is their number. Its
-- run ends in `go` where it reaches its end, in `stop` where it returns early, and in `hang`
-- where the TRNG delivers no more. A round of the main loop runs a handler or ends in `overrun`:
-- `read_packet` has no limit there, and where the body does not fit the 8251 bytes of
-- `uart_buf`, what the stores behind its end do to the memory is not modelled. A round goes on
-- from a round that stayed inside the buffer. The PIN state has a field for the flash; on a
-- device it is the flash of the blob store, which is handed to the PIN and name operations and
-- taken back.
--
-- Not modelled: the register access of firmware/src/simple_uart.c, ti_msp_dl_config.c and
-- startup_mspm0l222x_ticlang.c, the watchdog and the LED; firmware/src/simple_crypto.c, which the
-- build leaves out; debug output, which a release leaves out; and the provisioning scripts. Timing is
-- not modelled, but the delay of a wrong PIN is counted.
pub mod Prelude
pub mod Sha256
pub mod Flash
pub mod Crypto
pub mod Trng
pub mod SecureDesign
pub mod Security
pub mod Messaging
pub mod BlobStore
pub mod Commands
pub mod Device
pub mod Filesystem
pub mod Hsm
pub mod Names
pub mod Storage
pub mod Transfer
pub mod Tests
