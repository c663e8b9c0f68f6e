-- ===== src/Auth/Siwe/Verification.antt =====
-- What a successful sign-in proves, and that its nonce is gone afterwards.
use ax_server.Prelude.{ℕ, ◌≡◌, true, Option, List, [], ◌∷◌, arith, inl, inr, of_test, ◌≢◌}
use ax_server.Prelude.Text.{Str, lower, str_dec, str_eq}
use ax_server.Prelude.Error.{ok, Result-cases}
use ax_server.Auth.Nonce.{NonceStore, validate}
use ax_server.Auth.Nonce.SingleUse.{
  val, IsValid, Op, apply, apply-IsValid, Ungenerated, is_spent, spent-apply, validate-spent,
}
use ax_server.Auth.Nonce.Fresh.{run}
use ax_server.Auth.Siwe.{
  Host, SiweMessage, parse_siwe_message, check_expiry, check_parsed, verify_siwe,
}
use ax_server.Prelude.Dict

check_parsed-ok :
    (host : Host) (message signature : Str) (p : SiweMessage) (d : Option Str) (c : Option ℕ)
    (now : ℕ) (w : Str)
    → check_parsed host message signature p d c now ≡ ok w
    → (check_expiry host p.expiration_time now ≡ ok tt)
      × (host.recover message signature ≡ ok w)
      × (str_eq (lower w) (lower p.address) ≡ true)
unfolding check_parsed
check_parsed-ok host message signature p d c now w h = ground arith

-- A sign-in succeeds only if the message parses, its nonce was valid and not used before, its
-- expiration time was not refused, and the signature recovers the signer whose address the message
-- names.
pub verify_siwe-ok :
    (host : Host) (store : NonceStore) (message signature : Str) (d : Option Str) (c : Option ℕ)
    (at_nonce now : ℕ) (w : Str)
    → (verify_siwe host store message signature d c at_nonce now).1 ≡ ok w
    → (p : SiweMessage) × (parse_siwe_message message ≡ ok p)
      × ((validate store p.nonce at_nonce).1 ≡ true)
      × (check_expiry host p.expiration_time now ≡ ok tt)
      × (host.recover message signature ≡ ok w)
      × (lower w ≡ lower p.address)
unfolding verify_siwe
verify_siwe-ok host store message signature d c at_nonce now w h =
    elim (Result-cases (parse_siwe_message message)) [
      | inr (e, bad) ↦ absurd (ground arith)
      | inl (p, good) ↦
          let checked : check_parsed host message signature p d c now ≡ ok w = ground arith in
          let facts = check_parsed-ok host message signature p d c now w checked in
          (
            p,
            good,
            ground arith,
            facts.0,
            facts.1,
            of_test (str_dec (lower w) (lower p.address)) facts.2,
          )
    ]

verify_siwe-store :
    (host : Host) (store : NonceStore) (m s : Str) (d : Option Str) (c : Option ℕ) (t n : ℕ)
    (p : SiweMessage)
    → parse_siwe_message m ≡ ok p
    → (verify_siwe host store m s d c t n).0 ≡ (validate store p.nonce t).0
unfolding verify_siwe
verify_siwe-store host store m s d c t n p e = rw (e, verify_siwe)

run-spent :
    (s : NonceStore) (n : Str) (ops : List Op)
    → IsValid s
    → Ungenerated n ops
    → is_spent (Dict.lookup str_dec n s.store) ≡ true
    → is_spent (Dict.lookup str_dec n (run s ops).store) ≡ true
unfolding run
run-spent s n [] v g h = h
run-spent s n (op ∷ ops) v g h =
    run-spent (apply s op).0 n ops (apply-IsValid s op v) g.1 (spent-apply s n op v g.0 h).0

-- Once a message that the parser reads was presented to a well-formed store, with success or not, its
-- nonce is worth nothing: after any further calls that do not generate the nonce again, no message that
-- is read with the same nonce is accepted.
pub verify_siwe_once :
    (host : Host) (store : NonceStore) (m1 s1 m2 s2 : Str) (d1 d2 : Option Str) (c1 c2 : Option ℕ)
    (t1 n1 t2 n2 : ℕ) (ops : List Op) (p1 p2 : SiweMessage) (w : Str)
    → IsValid store
    → parse_siwe_message m1 ≡ ok p1
    → parse_siwe_message m2 ≡ ok p2
    → p1.nonce ≡ p2.nonce
    → Ungenerated p2.nonce ops
    → (verify_siwe host (run (verify_siwe host store m1 s1 d1 c1 t1 n1).0 ops) m2 s2 d2 c2 t2 n2).1
      ≢ ok w
verify_siwe_once host store m1 s1 m2 s2 d1 d2 c1 c2 t1 n1 t2 n2 ops p1 p2 w v e1 e2 same g h =
    let s0 = (verify_siwe host store m1 s1 d1 c1 t1 n1).0 in
    let stored = verify_siwe-store host store m1 s1 d1 c1 t1 n1 p1 e1 in
    let valid : IsValid s0 = rw stored (unfold apply in apply-IsValid store (val p1.nonce t1) v) in
    let gone : is_spent (Dict.lookup str_dec p2.nonce s0.store) ≡ true =
      rw (stored, ← same) (validate-spent store p1.nonce t1).2 in
    let later = run s0 ops in
    let refused = (validate-spent later p2.nonce t2).0 (run-spent s0 p2.nonce ops valid g gone) in
    let (p, parsed, accepted, _, _, _) = verify_siwe-ok host later m2 s2 d2 c2 t2 n2 w h in
    cc (refused, accepted, parsed, e2)
