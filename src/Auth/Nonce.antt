-- ===== src/Auth/Nonce.antt =====
-- `NonceStore` of app/auth/siwe.py. Times are unix times in microseconds; a difference of times
-- below zero is zero here, and like it not above the time to live.
pub mod SingleUse
pub mod Fresh
use ax_server.Prelude.{ℕ, ◌-◌, ◌*◌, Bool, true, false, none, some, [], not, ltb, if◌then◌else◌}
use ax_server.Prelude.Dict.{Dict}
use ax_server.Prelude.Text.{Str, str_dec}
use ax_server.Auth.Jwt.{second}
use ax_server.Prelude.Dict

-- `class _NonceEntry`
pub record NonceEntry : Type 0 where
  pub nonce : Str
  pub created_at : ℕ
  pub used : Bool

pub record NonceStore : Type 0 where
  pub store : Dict Str NonceEntry
  pub ttl : ℕ

-- `__init__`
unfoldable pub init : ℕ → NonceStore
init ttl = record { store = []; ttl = ttl }

abbrev pub is_expired : ℕ → ℕ → NonceEntry → Bool
is_expired ttl now e = ltb (ttl * second) (now - e.created_at)

-- `_cleanup`
unfoldable pub cleanup : NonceStore → ℕ → NonceStore
cleanup s now = record s { store = Dict.keep_values (λ e. not (is_expired s.ttl now e)) s.store }

-- `generate`, for the random nonce that `secrets` gave
unfoldable pub generate : NonceStore → Str → ℕ → ℕ → NonceStore
unfolding cleanup
generate s nonce now at_cleanup =
    let entry : NonceEntry = record { nonce = nonce; created_at = now; used = false } in
    cleanup (record s { store = Dict.insert str_dec nonce entry s.store }) at_cleanup

-- `validate`
unfoldable pub validate : NonceStore → Str → ℕ → NonceStore × Bool
validate s nonce now = elim (Dict.lookup str_dec nonce s.store) [
  | none ↦ (s, false)
  | some entry ↦
      if entry.used
      then (s, false)
      else if is_expired s.ttl now entry
      then (record s { store = Dict.erase str_dec nonce s.store }, false)
      else (
        record s { store = Dict.insert str_dec nonce (record entry { used = true }) s.store },
        true,
      )
]
