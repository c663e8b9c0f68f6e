-- ===== src/Auth/Siwe/RoundTrip.antt =====
-- A message that app/auth/siwe.py builds is read back by its parser.
use ax_server.Prelude.{
  ℕ, zero, suc, ◌+◌, ◌*◌, ◌≤◌, ◌≡◌, refl, Bool, true, false, ◌||◌, not, Option, some, List, [], ◌∷◌,
  ◌++◌, arith, ◌==◌, All, length, ◌∙◌, ap, take, all, le→leb,
}
use ax_server.Prelude.Text.{
  Str, text, is_empty, is_space, is_digit, strip, lstrip, rstrip, split, starts_with,
}
use ax_server.Prelude.Text.Search.{search, tagged, is_lower_hex, is_hex, before, int_of, decimal}
use ax_server.Prelude.Text.Scan.{
  search-skip_first, search-skip_second, search-tagged, run_of-append, run_of_whole, split-append,
  length-split-pos, rstrip-append, rstrip_self, append-ne, search-found,
}
use ax_server.Prelude.Text.Numerals.{decimal-IsDigits, int_of-decimal, decimal-ne}
use ax_server.Prelude.Int.{pos, digit_limit}
use ax_server.Chain.Eip7412.{int_str}
use ax_server.Prelude.Error.{ok}
use ax_server.Auth.Siwe.{
  Host, build_siwe_message, parse_siwe_message, first_lines, match_address, match_nonce,
  match_chain, match_expiry, minute, chain_or_default,
}

-- The characters of a time in ISO 8601
abbrev pub is_iso : ℕ → Bool
is_iso c = is_digit c || c == b'-' || c == b':' || c == b'.' || c == b'+' || c == b'T' || c == b'Z'

abbrev pub IsIso : Str → Type 0
IsIso s = (is_empty s ≡ false) × All (λ c. is_iso c ≡ true) s

abbrev pub IsHex : Str → Type 0
IsHex = All (λ c. is_hex c ≡ true)

abbrev pub IsLowerHex : Str → Type 0
IsLowerHex = All (λ c. is_lower_hex c ≡ true)

-- What the classes do not contain
module _ (P Q : ℕ → Type 0) (f : (c : ℕ) → P c → Q c) where
  All-map : (s : Str) → All P s → All Q s
  All-map [] h = tt
  All-map (c ∷ s) h = (f c h.0, All-map s h.1)

hex_apart :
    (c : ℕ)
    → is_hex c ≡ true
    → ((b'N' == c) ≡ false) × ((b'h' == c) ≡ false) × ((b'x' == c) ≡ false) × ((c == 10) ≡ false)
unfolding is_hex is_digit
hex_apart c h = ground arith

lower_hex_apart : (c : ℕ) → is_lower_hex c ≡ true → (b'E' == c) ≡ false
unfolding is_lower_hex is_digit
lower_hex_apart c h = ground arith

digit_apart : (c : ℕ) → is_digit c ≡ true → ((b'N' == c) ≡ false) × ((b'E' == c) ≡ false)
unfolding is_digit
digit_apart c h = ground arith

iso_apart :
    (c : ℕ)
    → is_iso c ≡ true
    → ((b'E' == c) ≡ false) × (is_space c ≡ false) × (not (c == 10) ≡ true)
unfolding is_digit is_space
iso_apart c h = ground arith

-- The parts of a message
abbrev first_line : Str
first_line = text "athletex.io wants you to sign in with your Ethereum account:"

abbrev after_issued : Str → Str
after_issued expiry = 10 ∷ (text "Expiration Time: " ++ expiry)

abbrev after_nonce : Str → Str → Str
after_nonce issued expiry = 10 ∷ (text "Issued At: " ++ (issued ++ after_issued expiry))

abbrev after_chain : Str → Str → Str → Str
after_chain nonce issued expiry = 10 ∷ (text "Nonce: " ++ (nonce ++ after_nonce issued expiry))

abbrev chain_line : ℕ → Str → Str → Str → Str
chain_line chain_id nonce issued expiry =
    text "Chain ID: " ++ (decimal chain_id ++ after_chain nonce issued expiry)

abbrev after_address : ℕ → Str → Str → Str → Str
after_address chain_id nonce issued expiry =
    10
    ∷ 10
    ∷ (text "Sign in to AthleteX to access your portfolio and place orders."
        ++ 10
          ∷ 10
          ∷ (text "URI: https://athletex.io"
              ++ 10 ∷ (text "Version: 1" ++ 10 ∷ chain_line chain_id nonce issued expiry)))

abbrev whole : Str → ℕ → Str → Str → Str → Str
whole digits chain_id nonce issued expiry =
    first_line ++ 10 ∷ (text "0x" ++ (digits ++ after_address chain_id nonce issued expiry))

whole-build :
    (host : Host) (digits nonce : Str) (chain_id now : ℕ)
    → build_siwe_message host (text "0x" ++ digits) nonce (pos chain_id) now
      ≡ whole digits chain_id nonce (host.isoformat now) (host.isoformat (now + 10 * minute))
unfolding build_siwe_message int_str text
whole-build host digits nonce chain_id now = refl

-- The parser on any text whose parts are found
parse_found :
    (m first second_line address nonce chain : Str) (expiry : Option Str)
    → first_lines (split 10 (strip m)) ≡ some (first, second_line)
    → search match_address second_line ≡ some address
    → search match_nonce m ≡ some nonce
    → search match_chain m ≡ some chain
    → length chain ≤ digit_limit
    → search match_expiry m ≡ expiry
    → parse_siwe_message m
      ≡ ok (record {
        domain = before (text " wants you to sign in") first;
        address = address;
        statement = [];
        uri = [];
        version = text "1";
        chain_id = int_of chain;
        nonce = nonce;
        issued_at = [];
        expiration_time = expiry;
      })
unfolding parse_siwe_message chain_or_default
parse_found m first second_line address nonce chain expiry h1 h2 h3 h4 short h5 =
    rw (h1, h2, h3, h4, h5, le→leb (length chain) digit_limit short) refl

-- A line end is in no class.
newline_apart : (is_lower_hex 10 ≡ false) × (is_digit 10 ≡ false)
unfolding is_lower_hex is_digit
newline_apart = (refl, refl)

six_lines :
    (a b l1 l2 l3 l4 l5 : Str) (more : List Str)
    → 1 ≤ length more
    → first_lines (a ∷ b ∷ l1 ∷ l2 ∷ l3 ∷ l4 ∷ l5 ∷ more) ≡ some (a, b)
unfolding first_lines
six_lines a b l1 l2 l3 l4 l5 more h = ground arith

take_whole : (n : ℕ) (s : Str) → length s ≡ n → take n s ≡ s
take_whole zero [] h = refl
take_whole zero (c ∷ s) h = absurd (omega (arith, h))
take_whole (suc n) [] h = refl
take_whole (suc n) (c ∷ s) h = ap (λ r. c ∷ r) (take_whole n s (omega (arith, h)))

all_hex : (s : Str) → IsHex s → all is_hex s ≡ true
all_hex [] h = refl
all_hex (c ∷ s) h = rw h.0 (all_hex s h.1)

match_address-hex :
    (digits : Str)
    → IsHex digits
    → length digits ≡ 40
    → match_address (text "0x" ++ digits) ≡ some (text "0x" ++ digits)
unfolding match_address starts_with text
match_address-hex digits hex forty = rw (take_whole 40 digits forty, forty, all_hex digits hex) refl

search_address :
    (digits : Str)
    → IsHex digits
    → length digits ≡ 40
    → search match_address (text "0x" ++ digits) ≡ some (text "0x" ++ digits)
unfolding text
search_address digits hex forty =
    search-found match_address b'0' (b'x' ∷ digits) (text "0x" ++ digits)
      (match_address-hex digits hex forty)

module _ (digits nonce issued expiry : Str) (chain_id : ℕ) (hex : IsHex digits)
    (nonce_ne : is_empty nonce ≡ false) (lower_hex : IsLowerHex nonce) (issued_iso : IsIso issued)
    (expiry_iso : IsIso expiry) where
  abbrev rest_of : Str
  rest_of = after_address chain_id nonce issued expiry

  found_nonce : search match_nonce (whole digits chain_id nonce issued expiry) ≡ some nonce
  unfolding search tagged starts_with text
  found_nonce =
      search-skip_first b'N' (text "once: ") is_lower_hex digits rest_of
        (All-map _ _ (λ c h. (hex_apart c h).0) digits hex)
      ∙ search-skip_first b'N' (text "once: ") is_lower_hex (decimal chain_id)
          (after_chain nonce issued expiry)
          (All-map _ _ (λ c h. (digit_apart c h).0) (decimal chain_id) (decimal-IsDigits chain_id))
      ∙ search-tagged b'N' (text "once: ") is_lower_hex (nonce ++ after_nonce issued expiry) nonce
          (run_of-append is_lower_hex nonce 10 _ lower_hex newline_apart.0) nonce_ne

  found_chain :
      search match_chain (whole digits chain_id nonce issued expiry) ≡ some (decimal chain_id)
  unfolding search tagged starts_with text
  found_chain =
      search-skip_second b'C' b'h' (text "ain ID: ") is_digit digits 10 _
        (All-map _ _ (λ c h. (hex_apart c h).1) digits hex) refl
      ∙ search-tagged b'C' (text "hain ID: ") is_digit
          (decimal chain_id ++ after_chain nonce issued expiry) (decimal chain_id)
          (run_of-append is_digit (decimal chain_id) 10 _ (decimal-IsDigits chain_id)
            newline_apart.1)
          (decimal-ne chain_id)

  found_expiry : search match_expiry (whole digits chain_id nonce issued expiry) ≡ some expiry
  unfolding search tagged starts_with text
  found_expiry =
      search-skip_second b'E' b'x' (text "piration Time: ") (λ c. not (c == 10)) digits 10 _
        (All-map _ _ (λ c h. (hex_apart c h).2) digits hex) refl
      ∙ search-skip_first b'E' (text "xpiration Time: ") (λ c. not (c == 10)) (decimal chain_id)
          (after_chain nonce issued expiry)
          (All-map _ _ (λ c h. (digit_apart c h).1) (decimal chain_id) (decimal-IsDigits chain_id))
      ∙ search-skip_first b'E' (text "xpiration Time: ") (λ c. not (c == 10)) nonce
          (after_nonce issued expiry) (All-map _ _ lower_hex_apart nonce lower_hex)
      ∙ search-skip_first b'E' (text "xpiration Time: ") (λ c. not (c == 10)) issued
          (after_issued expiry) (All-map _ _ (λ c h. (iso_apart c h).0) issued issued_iso.1)
      ∙ search-tagged b'E' (text "xpiration Time: ") (λ c. not (c == 10)) expiry expiry
          (run_of_whole (λ c. not (c == 10)) expiry
            (All-map _ _ (λ c h. (iso_apart c h).2) expiry expiry_iso.1))
          expiry_iso.0

  kept_after_chain : rstrip (after_chain nonce issued expiry) ≡ after_chain nonce issued expiry
  unfolding text
  kept_after_chain =
      let spaceless = All-map _ _ (λ c h. (iso_apart c h).1) expiry expiry_iso.1 in
      let kept_expiry =
        rstrip-append (10 ∷ text "Expiration Time: ") expiry (rstrip_self expiry spaceless)
          expiry_iso.0 in
      let kept_issued = rstrip-append issued (after_issued expiry) kept_expiry refl in
      let kept_line =
        rstrip-append (10 ∷ text "Issued At: ") (issued ++ after_issued expiry) kept_issued
          (append-ne issued 10 _) in
      let kept_nonce = rstrip-append nonce (after_nonce issued expiry) kept_line refl in
      rstrip-append (10 ∷ text "Nonce: ") (nonce ++ after_nonce issued expiry) kept_nonce
        (append-ne nonce 10 _)

  strip-whole :
      strip (whole digits chain_id nonce issued expiry) ≡ whole digits chain_id nonce issued expiry
  unfolding strip lstrip is_space text
  strip-whole =
      let tail = decimal chain_id ++ after_chain nonce issued expiry in
      let kept_chain =
        rstrip-append (decimal chain_id) (after_chain nonce issued expiry) kept_after_chain refl in
      let kept_rest : rstrip rest_of ≡ rest_of =
        rstrip-append
          (10
            ∷ 10
            ∷ (text "Sign in to AthleteX to access your portfolio and place orders."
                ++ 10
                  ∷ 10
                  ∷ (text "URI: https://athletex.io"
                      ++ 10 ∷ (text "Version: 1" ++ 10 ∷ text "Chain ID: "))))
          tail kept_chain (append-ne (decimal chain_id) 10 _) in
      rstrip-append (first_line ++ 10 ∷ text "0x") (digits ++ rest_of)
        (rstrip-append digits rest_of kept_rest refl) (append-ne digits 10 _)

  lines_whole :
      first_lines (split 10 (whole digits chain_id nonce issued expiry))
      ≡ some (first_line, text "0x" ++ digits)
  unfolding split text
  lines_whole =
      let apart = All-map _ _ (λ c h. (hex_apart c h).3) digits hex in
      ap (λ pieces. first_lines (first_line ∷ pieces))
        (split-append 10 (text "0x" ++ digits) (10 ∷ _) (refl, (refl, apart)))
      ∙ six_lines first_line (text "0x" ++ digits) [] _ [] _ _
          (split 10 (chain_line chain_id nonce issued expiry))
          (length-split-pos 10 (chain_line chain_id nonce issued expiry))

-- The message that the server builds for an address of 0x and forty hexadecimal digits, a nonce of
-- lower-case hexadecimal digits and a chain that is not negative and has at most 4300 digits, is read
-- back by the parser with its domain, address, chain, nonce and expiration time, if times in ISO 8601
-- have only digits and the characters - : . + T Z.
pub parse_siwe_message-build_siwe_message :
    (host : Host) (digits nonce : Str) (chain_id now : ℕ)
    → ((t : ℕ) → IsIso (host.isoformat t))
    → IsHex digits
    → length digits ≡ 40
    → is_empty nonce ≡ false
    → IsLowerHex nonce
    → length (decimal chain_id) ≤ digit_limit
    → parse_siwe_message (build_siwe_message host (text "0x" ++ digits) nonce (pos chain_id) now)
      ≡ ok (record {
        domain = text "athletex.io";
        address = text "0x" ++ digits;
        statement = [];
        uri = [];
        version = text "1";
        chain_id = chain_id;
        nonce = nonce;
        issued_at = [];
        expiration_time = some (host.isoformat (now + 10 * minute));
      })
unfolding before starts_with text
parse_siwe_message-build_siwe_message host digits nonce chain_id now iso hex forty ne lower_hex
      short =
    let issued = host.isoformat now in
    let expiry = host.isoformat (now + 10 * minute) in
    let m = whole digits chain_id nonce issued expiry in
    let stripped =
      strip-whole digits nonce issued expiry chain_id hex ne lower_hex (iso now) (iso _) in
    ap parse_siwe_message (whole-build host digits nonce chain_id now)
    ∙ parse_found m first_line (text "0x" ++ digits) (text "0x" ++ digits) nonce (decimal chain_id)
        (some expiry)
        (ap (λ s. first_lines (split 10 s)) stripped
          ∙ lines_whole digits nonce issued expiry chain_id hex ne lower_hex (iso now) (iso _))
        (search_address digits hex forty)
        (found_nonce digits nonce issued expiry chain_id hex ne lower_hex (iso now) (iso _))
        (found_chain digits nonce issued expiry chain_id hex ne lower_hex (iso now) (iso _)) short
        (found_expiry digits nonce issued expiry chain_id hex ne lower_hex (iso now) (iso _))
    ∙ rw (int_of-decimal chain_id) refl
