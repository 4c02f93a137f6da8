-- ===== src/Tests/Rounds.antt =====
-- Rounds of the main loop on the ideal peripherals.
use rutgers_2026_e_ctf_desig.Prelude.{
  ℕ, ◌≡◌, refl, ap, true, false, false≢true, [], ◌∷◌, ◌++◌, arith, replicate, length, set, zero,
  suc, Bytes, IsBytes, ltb, if◌then◌else◌, ◌≤◌, some, splice, take,
}
use rutgers_2026_e_ctf_desig.SecureDesign.{get_root_secret, clear_replay_cache}
use rutgers_2026_e_ctf_desig.Crypto.{
  root_secret_from_global_secrets, crypto_hmac_sha256, derive_pin_mac_key, diff_bytes,
}
use rutgers_2026_e_ctf_desig.Sha256.Compress.{compress}
use rutgers_2026_e_ctf_desig.Sha256.Hmac.{hmac_sha256_raw}
use rutgers_2026_e_ctf_desig.Messaging.Msg
use rutgers_2026_e_ctf_desig.Messaging.{
  write_packet, read_packet, write_blocks, read_blocks, read_block, block_size, join_block, sync,
  await_ack, write_bytes, write_header, needs_ack,
}
use rutgers_2026_e_ctf_desig.Messaging.Handshake.{wire, acks, blocks, frame}
use rutgers_2026_e_ctf_desig.Messaging.Receive.{IsNoise}
use rutgers_2026_e_ctf_desig.Hsm.Overrun.{main_round-frame}
use rutgers_2026_e_ctf_desig.Security.{check_pin, compute_pin_hash, pin_is_locked}
use rutgers_2026_e_ctf_desig.Security.Attempts.{compute_pin_hash_sized}
use rutgers_2026_e_ctf_desig.Device.{
  Device, Run, go, hang, on_pins, answer, to_host, require, print_error, fail,
}
use rutgers_2026_e_ctf_desig.Device.Rules.{went_on}
use rutgers_2026_e_ctf_desig.Commands.{pin_gate, encode_list, generate_list_files}
use rutgers_2026_e_ctf_desig.Transfer.Listen.{filtered_from}
use rutgers_2026_e_ctf_desig.Transfer.Fits.{listings-fit}
use rutgers_2026_e_ctf_desig.Commands.Files.{list}
use rutgers_2026_e_ctf_desig.Commands.Listing.{IsName}
use rutgers_2026_e_ctf_desig.Names.{
  blank_name, new_name, NameTable, save_name_entry, flush_name_table, load_name_table,
}
use rutgers_2026_e_ctf_desig.Names.Persist.{IsStored, AllStored, save_name_entry-load}
use rutgers_2026_e_ctf_desig.BlobStore.{max_slots, blank_entry}
use rutgers_2026_e_ctf_desig.Filesystem.{
  FileRecord, FileTable, encode_file, write_file, store_fat, erase_file, read_file,
}
use rutgers_2026_e_ctf_desig.Filesystem.RoundTrip.{write_file-read_file}
use rutgers_2026_e_ctf_desig.Flash.{erase_page, write_flash}
use rutgers_2026_e_ctf_desig.Hsm.{
  Round, runs, overrun, max_msg_size, overruns, announced, arrives, main_round, dispatch,
  ignore_result,
}
use rutgers_2026_e_ctf_desig.Hsm.Steps.{IsSound, Any}
use rutgers_2026_e_ctf_desig.Hsm.Invariant.{
  IsReached, start, next_round, meanwhile, reached-IsSound, release-keeps_pin,
}
use rutgers_2026_e_ctf_desig.Tests.Ideal.{ideal_flash, ideal_flash-IsFlash, ideal_aes, erased}
use rutgers_2026_e_ctf_desig.Tests.Blobs.{empty-IsFat}
use rutgers_2026_e_ctf_desig.Tests.Commands.{secrets, fresh, name, pin, pin_ok}
use rutgers_2026_e_ctf_desig.Tests.Transfers.{holder, holder-All, ends, device_of}

fresh-IsSound : IsSound Any fresh
unfolding clear_replay_cache
fresh-IsSound = record {
  pins = record { sized = (compute_pin_hash_sized secrets pin pin_ok).0; counted = omega arith };
  table = record { entries = empty-IsFat; sized = refl };
  shelf = record {
    sized = refl;
    all =
        let b : IsName blank_name = record { group_fits = omega arith; name_fits = refl } in
        (b, (b, (b, (b, (b, (b, (b, (b, tt))))))));
  };
  ring = record { sized = refl; within = omega arith };
  hash = tt;
}

-- The host asks for a list.
abbrev called : Device (ℕ → ℕ)
called = record fresh {
  control = record { rx = wire (frame Msg.list_files pin) ++ wire (acks 1); tx = [] };
  transfer = record { rx = []; tx = [] };
}

-- The run of a round.
abbrev run_of : Round (ℕ → ℕ) → Run (ℕ → ℕ) (Unit {0})
run_of (runs r) = r
run_of overrun = hang

abbrev first_round : Round (ℕ → ℕ)
first_round = main_round ideal_flash ideal_aes secrets false called

round_runs :
    (r : Round (ℕ → ℕ)) → went_on (run_of r) ≡ true → r ≡ runs (go tt (device_of (run_of r)))
round_runs (runs r) e = ap runs (ends r e)
round_runs overrun e = absurd (false≢true e)

called_goes : went_on (run_of first_round) ≡ true
unfolding main_round overruns announced arrives dispatch ignore_result list pin_gate on_pins answer
    to_host require print_error fail check_pin compute_pin_hash pin_is_locked get_root_secret
    root_secret_from_global_secrets crypto_hmac_sha256 derive_pin_mac_key diff_bytes compress
    hmac_sha256_raw write_packet read_packet write_blocks read_blocks read_block block_size
    join_block sync await_ack write_bytes write_header needs_ack wire acks
called_goes = refl

abbrev listed : Device (ℕ → ℕ)
listed = device_of (run_of first_round)

listed-IsReached : IsReached ideal_flash ideal_aes secrets false fresh listed
listed-IsReached =
    next_round (meanwhile called.control called.transfer fresh.store.trng start)
      (round_runs first_round called_goes)

release-keeps_pin_example : listed.pins.pin_hash ≡ fresh.pins.pin_hash
release-keeps_pin_example =
    release-keeps_pin ideal_flash ideal_aes secrets fresh listed fresh-IsSound listed-IsReached

reached-IsSound_example : IsSound Any listed
reached-IsSound_example =
    reached-IsSound ideal_flash ideal_aes secrets false fresh listed fresh-IsSound listed-IsReached

abbrev noise : Bytes
noise = 1 ∷ 2 ∷ []

abbrev long_body : Bytes
long_body = replicate 8252 0

replicate-IsBytes : (n : ℕ) → IsBytes (replicate n 0)
replicate-IsBytes zero = tt
replicate-IsBytes (suc n) = (omega arith, replicate-IsBytes n)

-- Noise in front of a command, and too long a one behind it.
abbrev noisy : Device (ℕ → ℕ)
noisy = record fresh {
  control = record {
    rx = wire noise ++ (wire (frame Msg.list_files long_body) ++ wire pin);
    tx = [];
  };
}

noise-IsNoise : IsNoise noise
unfolding IsNoise
noise-IsNoise = (refl, (refl, tt))

main_round-frame_example : main_round ideal_flash ideal_aes secrets false noisy ≡ (
    if ltb max_msg_size (length long_body)
    then overrun
    else runs (
        dispatch ideal_flash ideal_aes secrets false Msg.list_files long_body (record noisy {
          control = record { rx = wire pin; tx = acks (suc (blocks (length long_body))) };
        })))
main_round-frame_example =
    main_round-frame ideal_flash ideal_aes secrets false noisy Msg.list_files long_body noise
      (wire pin) (omega arith) (omega arith) (replicate-IsBytes 8252) noise-IsNoise refl

-- A new name in slot 2 of an empty table.
abbrev no_names : NameTable (ℕ → ℕ)
no_names = record { names = replicate 8 blank_name; flash = erased }

no_names-All : AllStored no_names.names
no_names-All =
    let b : IsStored blank_name = record {
      name_fits = refl;
      group_fits = omega arith;
      padded = refl;
    } in
    (b, (b, (b, (b, (b, (b, (b, (b, tt))))))))

abbrev one_name : NameTable (ℕ → ℕ)
one_name = (save_name_entry ideal_flash 2 name 5 no_names).1

one_name_ok : save_name_entry ideal_flash 2 name 5 no_names ≡ (true, one_name)
unfolding save_name_entry flush_name_table erase_page write_flash
one_name_ok = refl

save_name_entry-load_example :
    (one_name.names ≡ set no_names.names 2 (new_name name 5))
    × ((load_name_table ideal_flash (record { names = []; flash = one_name.flash })).names
        ≡ one_name.names)
save_name_entry-load_example =
    save_name_entry-load ideal_flash ideal_flash-IsFlash 2 name 5 no_names
      (record { names = []; flash = one_name.flash }) no_names-All refl refl (omega arith)
      one_name_ok refl

listings-fit_example :
    (length (encode_list (generate_list_files holder.names holder.store.fat)) ≤ 284)
    × (length (encode_list (filtered_from [] holder.names holder.store.fat max_slots 0 0)) ≤ 284)
listings-fit_example = listings-fit holder.names holder.store.fat [] holder-All

-- A file of two bytes for slot 1.
abbrev source : FileRecord
source = record {
  in_use = 0xDEADBEEF;
  group_id = 5;
  name = name;
  contents_len = 2;
  nonce = replicate 12 0;
  tag = replicate 16 0;
  contents = 104 ∷ 105 ∷ replicate 8190 0;
}

abbrev no_files : FileTable (ℕ → ℕ)
no_files = record { table = replicate 8 blank_entry; flash = erased }

abbrev one_file : FileTable (ℕ → ℕ)
one_file = (write_file ideal_flash 1 source (replicate 16 1) no_files).1

one_file_ok : write_file ideal_flash 1 source (replicate 16 1) no_files ≡ (true, one_file)
unfolding write_file store_fat erase_file erase_page write_flash
one_file_ok = refl

pub ideal_erases : (a : ℕ) (f : ℕ → ℕ) → (erase_page ideal_flash a f).0 ≡ true
unfolding erase_page
ideal_erases a f = refl

write_file-read_file_example :
    read_file ideal_flash 1 [] one_file ≡ some (splice [] 0 (take 70 (encode_file source)))
write_file-read_file_example =
    write_file-read_file ideal_flash ideal_flash-IsFlash 1 source (replicate 16 1) [] no_files
      (record { name = refl; nonce = refl; tag = refl; contents = refl; fits = omega arith })
      ideal_erases (omega arith) refl one_file_ok
