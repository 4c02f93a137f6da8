-- ===== src/Tests/Devices.antt =====
-- The flash, the TRNG and the replay cache.
use rutgers_2026_e_ctf_desig.Prelude.{
  ℕ, ◌*◌, ◌≤◌, ◌≡◌, refl, true, false, some, List, [], ◌∷◌, arith, Bytes, length,
}
use rutgers_2026_e_ctf_desig.Flash.{read_flash, erase_page, write_flash}
use rutgers_2026_e_ctf_desig.Flash.Write.{IsPut, write_flash-IsPut}
use rutgers_2026_e_ctf_desig.Flash.Page.{erase_write-read}
use rutgers_2026_e_ctf_desig.Trng.{
  Capture, ready, failed, timed_out, words, trng_read_bytes, trng_read_bytes_lem,
}
use rutgers_2026_e_ctf_desig.SecureDesign.{Token, check_and_update_replay, clear_replay_cache}
use rutgers_2026_e_ctf_desig.SecureDesign.Replay.{
  run, recent, remember, check_refines, replay_window, clear-IsValid,
}
use rutgers_2026_e_ctf_desig.Tests.Ideal.{ideal_flash, ideal_flash-IsFlash, erased}

abbrev words_ : Bytes
words_ = 1 ∷ 2 ∷ 3 ∷ []

abbrev put : ℕ → ℕ
put = (write_flash ideal_flash 1024 words_ erased).1

put_ok : write_flash ideal_flash 1024 words_ erased ≡ (true, put)
unfolding write_flash
put_ok = refl

write_flash-IsPut_example : IsPut ideal_flash ideal_flash-IsFlash 1024 words_ erased put
write_flash-IsPut_example =
    write_flash-IsPut ideal_flash ideal_flash-IsFlash 1024 words_ erased refl (omega arith)
      (λ i l. refl) put_ok

abbrev clean : ℕ → ℕ
clean = (erase_page ideal_flash 1024 (λ x. 0)).1

clean_ok : erase_page ideal_flash 1024 (λ x. 0) ≡ (true, clean)
unfolding erase_page
clean_ok = refl

abbrev page : ℕ → ℕ
page = (write_flash ideal_flash 1024 words_ clean).1

page_ok : write_flash ideal_flash 1024 words_ clean ≡ (true, page)
unfolding write_flash
page_ok = refl

erase_write-read_example : read_flash ideal_flash page 1024 3 ≡ words_
erase_write-read_example =
    erase_write-read ideal_flash ideal_flash-IsFlash 1024 words_ (λ x. 0) refl (omega arith)
      (omega arith) clean_ok page_ok

enough : 5 ≤ words (failed ∷ ready 5 ∷ timed_out ∷ ready 6 ∷ []) * 4
unfolding words
enough = omega arith

trng_read_bytes_lem_example :
    (r : Bytes × List Capture) × (trng_read_bytes (failed ∷ ready 5 ∷ timed_out ∷ ready 6 ∷ []) 5
      ≡ some r)
    × (length r.0 ≡ 5)
trng_read_bytes_lem_example =
    trng_read_bytes_lem (failed ∷ ready 5 ∷ timed_out ∷ ready 6 ∷ []) 5 enough

abbrev first : Token
first = record { nr = 1; nt = 2; group_id = 5; op = 3 }

abbrev second : Token
second = record { nr = 1; nt = 9; group_id = 5; op = 3 }

accepted : (check_and_update_replay first clear_replay_cache).0 ≡ true
unfolding check_and_update_replay clear_replay_cache
accepted = refl

replay_window_example :
    let s' = run (second ∷ []) (check_and_update_replay first clear_replay_cache).1 in
    check_and_update_replay first s' ≡ (false, s')
replay_window_example = replay_window first (second ∷ []) clear-IsValid accepted (omega arith)

check_refines_example :
    let (accepted, s') = check_and_update_replay first clear_replay_cache in
    (accepted, recent s') ≡ remember first (recent clear_replay_cache)
check_refines_example = check_refines first clear-IsValid
