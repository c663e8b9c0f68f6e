-- ===== src/Auth/Tests/Plain.antt =====
-- A JWT library for the tests, without a signature: it meets the laws that the server relies on.
use ax_server.Prelude.{
  ℕ, suc, ◌*◌, ◌≡◌, refl, ◌++◌, false, Option, none, some, [], ◌∷◌, arith, length, take, drop, ltb,
  if◌then◌else◌, ap, ◌<◌, ◌≤◌, ◌∙◌,
}
use ax_server.Prelude.Text.{Str, is_empty}
use ax_server.Prelude.Error.{Result, ok, err}
use ax_server.Auth.Jwt.{Claims, Jwt, JwtError, JwtLaws, expired_signature, second}

abbrev put_str : Option Str → Str
put_str none = 0 ∷ []
put_str (some s) = 1 ∷ length s ∷ s

abbrev put_nat : Option ℕ → Str
put_nat none = 0 ∷ []
put_nat (some n) = 1 ∷ n ∷ []

abbrev get_str : Str → Option Str × Str
get_str (suc _ ∷ n ∷ r) = (some (take n r), drop n r)
get_str (_ ∷ r) = (none, r)
get_str [] = (none, [])

abbrev get_nat : Str → Option ℕ × Str
get_nat (suc _ ∷ n ∷ r) = (some n, r)
get_nat (_ ∷ r) = (none, r)
get_nat [] = (none, [])

take_all : (s r : Str) → take (length s) (s ++ r) ≡ s
take_all [] r = refl
take_all (c ∷ s) r = ap (◌∷◌ c) (take_all s r)

drop_all : (s r : Str) → drop (length s) (s ++ r) ≡ r
drop_all [] r = refl
drop_all (c ∷ s) r = drop_all s r

get_str-put_str : (o : Option Str) (r : Str) → get_str (put_str o ++ r) ≡ (o, r)
get_str-put_str none [] = refl
get_str-put_str none (c ∷ r) = refl
get_str-put_str (some s) r = rw (take_all s r, drop_all s r)

get_nat-put_nat : (o : Option ℕ) (r : Str) → get_nat (put_nat o ++ r) ≡ (o, r)
get_nat-put_nat none [] = refl
get_nat-put_nat none (c ∷ r) = refl
get_nat-put_nat (some n) r = refl

unfoldable pub encode : Claims → Str
encode c =
    put_str c.sub
    ++ (put_str c.wallet
        ++ (put_nat c.chain_id
            ++ (put_str c.tier
                ++ (put_str c.token_type ++ (put_nat c.iat ++ (put_nat c.exp ++ []))))))

unfoldable pub parse : Str → Claims
parse s0 =
    let (sub, s1) = get_str s0 in
    let (wallet, s2) = get_str s1 in
    let (chain_id, s3) = get_nat s2 in
    let (tier, s4) = get_str s3 in
    let (token_type, s5) = get_str s4 in
    let (iat, s6) = get_nat s5 in
    let (exp, s7) = get_nat s6 in
    record {
      sub = sub;
      wallet = wallet;
      chain_id = chain_id;
      tier = tier;
      token_type = token_type;
      iat = iat;
      exp = exp;
    }

parse-encode : (c : Claims) → parse (encode c) ≡ c
unfolding parse encode
parse-encode c = rw (
  get_str-put_str c.sub,
  get_str-put_str c.wallet,
  get_nat-put_nat c.chain_id,
  get_str-put_str c.tier,
  get_str-put_str c.token_type,
  get_nat-put_nat c.iat,
  get_nat-put_nat c.exp,
)

unfoldable pub check : ℕ → Claims → Result JwtError Claims
check now c = elim c.exp [
  | none ↦ ok c
  | some e ↦ if ltb now (e * second) then ok c else err expired_signature
]

abbrev pub plain : Jwt
plain = record { encode = λ secret c. encode c; decode = λ secret now t. check now (parse t) }

nonempty : (c : Claims) → is_empty (encode c) ≡ false
unfolding encode
nonempty c = ground arith

check_live : (c : Claims) (e now : ℕ) → c.exp ≡ some e → now < e * second → check now c ≡ ok c
unfolding check
check_live c e now h k = ground arith

check_expired :
    (c : Claims) (e now : ℕ)
    → c.exp ≡ some e
    → e * second ≤ now
    → check now c ≡ err expired_signature
unfolding check
check_expired c e now h k = ground arith

pub plain-JwtLaws : JwtLaws plain
plain-JwtLaws = record {
  encode_nonempty = λ secret c. nonempty c;
  decode-encode =
      λ secret c i e now hi he h k. ap (check now) (parse-encode c) ∙ check_live c e now he k;
  decode-encode_expired =
      λ secret c i e now hi he h k. ap (check now) (parse-encode c) ∙ check_expired c e now he k;
}
