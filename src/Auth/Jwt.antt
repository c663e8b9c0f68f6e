-- ===== src/Auth/Jwt.antt =====
-- The JWT library as a parameter, and the behaviour that its documentation gives for signed
-- tokens: what was encoded is decoded until it expires. Times are unix times in microseconds, and
-- the claims `iat` and `exp` are in seconds.
use ax_server.Prelude.{false, ℕ, ◌*◌, ◌≤◌, ◌<◌, ◌≡◌, Option, some}
use ax_server.Prelude.Text.{Str, is_empty}
use ax_server.Prelude.Error.{Result, ok, err}

-- The payload dictionary: `none` is a missing key.
pub record Claims : Type 0 where
  pub sub : Option Str
  pub wallet : Option Str
  pub chain_id : Option ℕ
  pub tier : Option Str
  pub token_type : Option Str
  pub iat : Option ℕ
  pub exp : Option ℕ

-- `ExpiredSignatureError`, and any other `InvalidTokenError` with its text.
pub data JwtError : Type 0 where
  expired_signature : JwtError
  invalid_token : Str → JwtError

abbrev pub second : ℕ
second = 1_000_000

pub record Jwt : Type 0 where
  pub encode : Str → Claims → Str
  pub decode : Str → ℕ → Str → Result JwtError Claims

pub record JwtLaws (j : Jwt) : Type 0 where
  pub encode_nonempty : (secret : Str) (c : Claims) → is_empty (j.encode secret c) ≡ false
  pub decode-encode :
      (secret : Str) (c : Claims) (i e now : ℕ)
      → c.iat ≡ some i
      → c.exp ≡ some e
      → i * second ≤ now
      → now < e * second
      → j.decode secret now (j.encode secret c) ≡ ok c
  pub decode-encode_expired :
      (secret : Str) (c : Claims) (i e now : ℕ)
      → c.iat ≡ some i
      → c.exp ≡ some e
      → i * second ≤ now
      → e * second ≤ now
      → j.decode secret now (j.encode secret c) ≡ err expired_signature
