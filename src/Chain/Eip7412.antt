-- ===== src/Chain/Eip7412.antt =====
-- The oracle data that a revert asks for: app/chain/eip7412.py. The decoding and encoding of contract
-- data and the price service are a parameter.
pub mod Calls
use ax_server.Prelude.{
  ℕ, zero, suc, ◌+◌, ◌-◌, ◌*◌, ◌/◌, ◌%◌, Bool, true, false, ◌&&◌, ◌||◌, not, Option, none, some,
  List, [], ◌∷◌, ◌++◌, map, ◌==◌, if◌then◌else◌, ltb, leb, length, drop, take,
}
use ax_server.Prelude.Int.{ℤ, pos, negsuc, parse_int}
use ax_server.Prelude.Text.{Str, text, is_empty, starts_with, is_digit, is_space}
use ax_server.Prelude.Text.Search.{search, run_of, is_hex, decimal}
use ax_server.Prelude.Error.{Result, ok, err, ◌>>=◌, ◌>>◌, raise_if, or_raise}
use ax_server.Chain.Synthetix.{TxData}

-- The value under the key `data` of an object: a text, nothing (`None`, or another value that counts
-- as false), or a value that is no text, with the text of the exception that its `startswith` raises
pub data Datum : Type 0 where
  text_datum : Str → Datum
  empty_datum : Datum
  other_datum : Str → Datum

-- What an exception of web3 carries: its attribute `data`, its first argument and its text. An object
-- is known by its key `data`; a value that is neither text nor object is no payload.
pub data Payload : Type 0 where
  no_payload : Payload
  text_payload : Str → Payload
  object_payload : Option Datum → Payload

pub record ChainError : Type 0 where
  pub attached : Payload
  pub first_arg : Payload
  pub shown : Str

-- `0x[0-9a-fA-F]{n,}` at the front of a text
unfoldable pub hex_run : ℕ → Str → Option Str
hex_run n s =
    let digits = run_of is_hex (drop 2 s) in
    if starts_with (text "0x") s && leb n (length digits) then some (take 2 s ++ digits) else none

-- The steps of `extract_revert_data`: the attribute, the first argument, and the text.
unfoldable pub from_shown : Str → Option Datum
from_shown shown = elim (search (hex_run 64) shown) [
  | some found ↦ some (text_datum found)
  | none ↦ none
]

unfoldable pub from_first_arg : Payload → Str → Option Datum
from_first_arg no_payload shown = from_shown shown
from_first_arg (text_payload s) shown = elim (search (hex_run 1) s) [
  | some found ↦ some (text_datum found)
  | none ↦ from_shown shown
]
from_first_arg (object_payload (some d)) shown = some d
from_first_arg (object_payload none) shown = from_shown shown

-- `extract_revert_data`
unfoldable pub extract_revert_data : ChainError → Option Datum
extract_revert_data e = elim e.attached [
  | no_payload ↦ from_first_arg e.first_arg e.shown
  | text_payload s ↦ if is_empty s then from_first_arg e.first_arg e.shown else some (text_datum s)
  | object_payload (some d) ↦ some d
  | object_payload none ↦ from_first_arg e.first_arg e.shown
]

abbrev pub Bytes : Type 0
Bytes = List ℕ

abbrev hex_value : ℕ → ℕ
hex_value c = if is_digit c then c - b'0' else if leb c b'F' then c - b'A' + 10 else c - b'a' + 10

abbrev is_gap : ℕ → Bool
is_gap c = c == 32 || (leb 9 c && leb c 13)

-- `bytes.fromhex`: pairs of digits, with white space between the pairs
unfoldable pub from_hex : Str → Option Bytes
from_hex [] = some []
from_hex (c ∷ []) = if is_gap c then some [] else none
from_hex (c ∷ d ∷ s) =
    let spaced = from_hex (d ∷ s) in
    let rest = from_hex s in
    if is_gap c
    then spaced
    else if is_hex c && is_hex d
    then elim rest [ some bs ↦ some ((hex_value c * 16 + hex_value d) ∷ bs) | none ↦ none ]
    else none

abbrev hex_digit : ℕ → ℕ
hex_digit n = if ltb n 10 then b'0' + n else b'a' + (n - 10)

-- `bs.hex()`
unfoldable pub to_hex : Bytes → Str
to_hex [] = []
to_hex (b ∷ bs) = hex_digit (b / 16) ∷ hex_digit (b % 16) ∷ to_hex bs

-- `str` of an integer
unfoldable pub int_str : ℤ → Str
int_str (pos n) = decimal n
int_str (negsuc n) = b'-' ∷ decimal (n + 1)

-- n + i
unfoldable pub plus_int : ℕ → ℤ → ℤ
plus_int m (pos n) = pos (m + n)
plus_int m (negsuc n) = if leb (n + 1) m then pos (m - (n + 1)) else negsuc (n - m)

-- One call of the Multicall3 payload
pub record Call : Type 0 where
  pub target : Str
  pub require_success : Bool
  pub value : ℤ
  pub calldata : Bytes

-- `eth_abi.decode` of the three layers, the answer of the price service to a URL, and the two encodings
pub record Oracle : Type 0 where
  pub decode_revert : Bytes → Result Str (Str × Bytes)
  pub decode_query : Bytes → Result Str (ℕ × Bytes)
  pub decode_feed : Bytes → Result Str (Bytes × ℕ)
  pub latest_update : Str → Result Str Str
  pub encode_fulfill : Str → Bytes → Result Str Str
  pub encode_aggregate : List Call → Result Str Str

abbrev pub multicall3_address : Str
multicall3_address = text "0xcA11bde05977b3631167028862bE2a173976CA11"

-- `bytes.fromhex`, whose failure is a `ValueError`
abbrev pub fromhex : Str → Result Str Bytes
fromhex s = or_raise (from_hex s) (text "non-hexadecimal number found in fromhex()")

unfoldable pub strip_0x : Str → Str
strip_0x s = if starts_with (text "0x") s then drop 2 s else s

-- `pyth_fee`
abbrev pub pyth_fee : ℕ
pyth_fee = 1

module _ (oracle : Oracle) where
  -- The calldata that gives the oracle its data, from the query of the revert
  unfoldable pub fulfill_call : Str → Bytes → Result Str Call
  fulfill_call oracle_contract pyth_data = do
    (feed_id, _) ← oracle.decode_feed pyth_data
    binary ←
        oracle.latest_update
          (text "https://hermes.pyth.network/v2/updates/price/latest?ids[]=" ++ to_hex feed_id)
    update_data ← fromhex binary
    fulfill_calldata ← oracle.encode_fulfill oracle_contract update_data
    encoded ← fromhex (drop 2 fulfill_calldata)
    ok (record {
      target = oracle_contract;
      require_success = true;
      value = pos pyth_fee;
      calldata = encoded;
    })

  unfoldable pub int_value : TxData → Result Str ℤ
  int_value tx = or_raise (parse_int tx.value) (text "invalid literal for int() with base 10")

  unfoldable pub original_call : TxData → Result Str Call
  original_call original_tx = do
    amount ← int_value original_tx
    encoded ← fromhex (strip_0x original_tx.calldata)
    ok (record {
      target = original_tx.to;
      require_success = true;
      value = amount;
      calldata = encoded;
    })

  -- The Multicall3 payload
  unfoldable pub multicall_of : Str → Bytes → TxData → Result Str TxData
  multicall_of oracle_contract pyth_data original_tx = do
    fulfilling ← fulfill_call oracle_contract pyth_data
    original ← original_call original_tx
    multicall_data ← oracle.encode_aggregate (fulfilling ∷ original ∷ [])
    amount ← int_value original_tx
    ok (record {
      to = multicall3_address;
      calldata = multicall_data;
      value = int_str (plus_int pyth_fee amount);
      chain_id = original_tx.chain_id;
    })

  -- The `try`: an unknown tag gives `None`.
  unfoldable pub resolve_revert : Str → TxData → Result Str (Option TxData)
  resolve_revert revert_hex original_tx = do
    revert_bytes ← fromhex (drop 10 revert_hex)
    (oracle_contract, oracle_query) ← oracle.decode_revert revert_bytes
    (tag, pyth_data) ← oracle.decode_query oracle_query
    (if tag == 1
        then (do resolved ← multicall_of oracle_contract pyth_data original_tx; ok (some resolved))
        else ok none)

  -- `try_resolve_eip7412`: what `startswith` raises is outside the `try`.
  unfoldable pub try_resolve_eip7412 : ChainError → TxData → Result Str (Option TxData)
  try_resolve_eip7412 e original_tx = elim (extract_revert_data e) [
    | none ↦ ok none
    | some empty_datum ↦ ok none
    | some (other_datum raised) ↦ err raised
    | some (text_datum revert_hex) ↦
        if starts_with (text "0xc2a825f5") revert_hex
        then elim (resolve_revert revert_hex original_tx) [
          | ok resolved ↦ ok resolved
          | err x ↦ ok none
        ]
        else ok none
  ]
