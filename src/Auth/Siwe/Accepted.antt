-- ===== src/Auth/Siwe/Accepted.antt =====
-- A sign-in that goes as it should succeeds: app/auth/siwe.py from the nonce to the signer.
use ax_server.Prelude.{
  ℕ, ◌+◌, ◌*◌, ◌/◌, ◌≤◌, ◌≡◌, refl, none, some, List, ◌++◌, arith, length, true, false, test_holds,
}
use ax_server.Prelude.Text.{Str, text, lower, str_dec, is_empty}
use ax_server.Prelude.Int.{pos, digit_limit}
use ax_server.Prelude.Text.Search.{decimal}
use ax_server.Prelude.Error.{ok}
use ax_server.Auth.Jwt.{second}
use ax_server.Auth.Nonce.{NonceStore, generate, validate}
use ax_server.Auth.Nonce.SingleUse.{IsValid, Op}
use ax_server.Auth.Nonce.Fresh.{run, AllElsewhere, validate-generate}
use ax_server.Auth.Siwe.{
  Host, SiweMessage, build_siwe_message, parse_siwe_message, verify_siwe, check_parsed,
  check_expiry, minute, domain_mismatch, chain_mismatch,
}
use ax_server.Auth.Siwe.RoundTrip.{IsIso, IsHex, IsLowerHex, parse_siwe_message-build_siwe_message}

-- What the documentation of `datetime` says of `fromisoformat` and of `isoformat` to the second, which
-- cuts off the microseconds
pub record IsoLaws (host : Host) : Type 0 where
  pub plain : (t : ℕ) → IsIso (host.isoformat t)
  pub inverse : (t : ℕ) → host.fromisoformat (host.isoformat t) ≡ ok (t / second * second)

check_expiry-young :
    (host : Host) (expiry now : ℕ)
    → IsoLaws host
    → now ≤ expiry / second * second
    → check_expiry host (some (host.isoformat expiry)) now ≡ ok tt
unfolding check_expiry
check_expiry-young host expiry now laws h =
    rw ((laws.plain expiry).0, laws.inverse expiry) (ground arith)

check_parsed-signed :
    (host : Host) (message signature : Str) (p : SiweMessage) (now : ℕ) (w : Str)
    → check_expiry host p.expiration_time now ≡ ok tt
    → host.recover message signature ≡ ok w
    → lower w ≡ lower p.address
    → check_parsed host message signature p none none now ≡ ok w
unfolding check_parsed domain_mismatch chain_mismatch
check_parsed-signed host message signature p now w young signed same =
    rw (young, signed, test_holds (str_dec (lower w) (lower p.address)) same) refl

verify_siwe-accepted :
    (host : Host) (store : NonceStore) (message signature : Str) (p : SiweMessage)
    (at_nonce now : ℕ) (w : Str)
    → parse_siwe_message message ≡ ok p
    → (validate store p.nonce at_nonce).1 ≡ true
    → check_parsed host message signature p none none now ≡ ok w
    → (verify_siwe host store message signature none none at_nonce now).1 ≡ ok w
unfolding verify_siwe
verify_siwe-accepted host store message signature p at_nonce now w parsed valid checked =
    rw (verify_siwe, parsed, valid, checked) refl

-- A wallet that signs the message built for its address and a generated nonce is signed in, within
-- the nonce's time to live and until ten minutes after the message, cut off to the second, whatever
-- calls on other nonces come between, with clean-ups no later than the nonce's end; the address is 0x
-- and forty hexadecimal digits, the nonce is of lower-case hexadecimal digits, the chain is not
-- negative and has at most 4300 digits, and times are read back from ISO 8601 to the second.
pub verify_siwe-build_siwe_message :
    (host : Host) (store : NonceStore) (digits nonce signature w : Str)
    (chain_id created cleaned at_message at_nonce now : ℕ) (ops : List Op)
    → IsoLaws host
    → IsValid store
    → IsHex digits
    → length digits ≡ 40
    → is_empty nonce ≡ false
    → IsLowerHex nonce
    → length (decimal chain_id) ≤ digit_limit
    → cleaned ≤ created + store.ttl * second
    → AllElsewhere nonce (created + store.ttl * second) ops
    → at_nonce ≤ created + store.ttl * second
    → now ≤ (at_message + 10 * minute) / second * second
    → host.recover
        (build_siwe_message host (text "0x" ++ digits) nonce (pos chain_id) at_message)
        signature
      ≡ ok w
    → lower w ≡ lower (text "0x" ++ digits)
    → (verify_siwe host
        (run (generate store nonce created cleaned) ops)
        (build_siwe_message host (text "0x" ++ digits) nonce (pos chain_id) at_message)
        signature
        none
        none
        at_nonce
        now).1
      ≡ ok w
verify_siwe-build_siwe_message host store digits nonce signature w chain_id created cleaned
      at_message at_nonce now ops laws valid hex forty ne lower_hex short clean elsewhere in_time
      young signed same =
    let message = build_siwe_message host (text "0x" ++ digits) nonce (pos chain_id) at_message in
    verify_siwe-accepted host (run (generate store nonce created cleaned) ops) message signature _
      at_nonce now w
      (parse_siwe_message-build_siwe_message host digits nonce chain_id at_message laws.plain hex
        forty ne lower_hex short)
      (validate-generate store nonce created cleaned at_nonce ops valid clean elsewhere in_time)
      (check_parsed-signed host message signature _ now w
        (check_expiry-young host (at_message + 10 * minute) now laws young) signed same)
