-- ===== src/SecureDesign.antt =====
-- firmware/src/secure_design.c: the root secret, nonces, and the replay cache of the transfer UART.
pub mod Replay
pub mod Nonce
use rutgers_2026_e_ctf_desig.Prelude.{
  ℕ, zero, suc, ◌+◌, ◌%◌, Bool, true, false, not, ◌&&◌, ◌||◌, Option, none, some, List, [], ◌∷◌,
  Bytes, ◌==◌, if◌then◌else◌, set, replicate,
}
use rutgers_2026_e_ctf_desig.Crypto.{RootSecret, root_secret_from_global_secrets}
use rutgers_2026_e_ctf_desig.Trng.{Capture, trng_read_bytes}

-- `security_get_root_secret`, of the `GLOBAL_SECRETS` that the build generates.
unfoldable pub get_root_secret : Bytes → Option RootSecret
get_root_secret global_secrets = root_secret_from_global_secrets global_secrets

-- `security_generate_nonce` on the device. `none` is a peripheral that delivers no more; the inner
-- option is the Boolean result with the buffer.
unfoldable pub generate_nonce : List Capture → ℕ → Option (Option Bytes × List Capture)
generate_nonce cs out_len =
    if out_len == 0
    then some (none, cs)
    else elim (trng_read_bytes cs out_len) [ none ↦ none | some (b, cs') ↦ some (some b, cs') ]

-- `replay_entry_t` without its flag: what a request is told apart by.
pub record Token : Type 0 where
  pub nr : ℕ
  pub nt : ℕ
  pub group_id : ℕ
  pub op : ℕ

-- `replay_entry_t`
pub record Entry : Type 0 where
  pub token : Token
  pub valid : Bool

abbrev pub cache_size : ℕ
cache_size = 8

-- `g_replay_cache` and `g_replay_next`
pub record ReplayCache : Type 0 where
  pub entries : List Entry
  pub next : ℕ

abbrev pub token_eq : Token → Token → Bool
token_eq a b = a.nr == b.nr && (a.nt == b.nt && (a.group_id == b.group_id && a.op == b.op))

-- `security_secure_uart_clear_replay_cache`
unfoldable pub clear_replay_cache : ReplayCache
clear_replay_cache = record {
  entries =
      replicate cache_size
        (record { token = record { nr = 0; nt = 0; group_id = 0; op = 0 }; valid = false });
  next = 0;
}

-- The scan of `security_secure_uart_check_and_update_replay`.
pub seen : Token → List Entry → Bool
seen t [] = false
seen t (e ∷ es) = let rest = seen t es in if e.valid && token_eq e.token t then true else rest

-- `security_secure_uart_check_and_update_replay`
unfoldable pub check_and_update_replay : Token → ReplayCache → Bool × ReplayCache
unfolding seen
check_and_update_replay t s = if seen t s.entries then (false, s) else (
  true,
  record {
    entries = set s.entries s.next (record { token = t; valid = true });
    next = (s.next + 1) % cache_size;
  },
)
