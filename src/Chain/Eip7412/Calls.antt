-- ===== src/Chain/Eip7412/Calls.antt =====
-- What a transaction with oracle data calls: `try_resolve_eip7412` of app/chain/eip7412.py.
use ax_server.Prelude.{
  ◌≡◌, true, none, some, [], ◌∷◌, refl, arith, ap, Bool-cases, ◌==◌, inl, sym, Option-cases, ◌∙◌,
  inr, ◌++◌,
}
use mathlib.Core.Path.{subst}
use ax_server.Prelude.Int.{pos, parse_int}
use ax_server.Prelude.Text.{Str, text, starts_with}
use ax_server.Prelude.Error.{
  some-injective, none≢some, ok, >>=-ok, ok-injective, or_raise, Result-cases, ok≢err,
}
use ax_server.Chain.Synthetix.{TxData}
use ax_server.Chain.Eip7412.{
  Bytes, Call, Oracle, from_hex, strip_0x, int_str, plus_int, fulfill_call, int_value,
  original_call, multicall3_address, pyth_fee, fromhex, Option, resolve_revert, try_resolve_eip7412,
  ChainError, multicall_of, extract_revert_data, text_datum, empty_datum, other_datum, to_hex, ℕ,
  drop,
}

-- A revert that asks for the oracle's data: its contract, and the query of the price feed
pub record AsksOracle (oracle : Oracle) (e : ChainError) (contract : Str) (pyth_data : Bytes)
    : Type 0 where
  pub revert_hex : Str
  pub revert_bytes : Bytes
  pub query : Bytes
  pub reverted : extract_revert_data e ≡ some (text_datum revert_hex)
  pub tagged : starts_with (text "0xc2a825f5") revert_hex ≡ true
  pub bytes_are : from_hex (drop 10 revert_hex) ≡ some revert_bytes
  pub contract_is : oracle.decode_revert revert_bytes ≡ ok (contract, query)
  pub query_is : oracle.decode_query query ≡ ok (1, pyth_data)

-- The call that gives the contract the latest update of the feed of a query, for the fee
pub record IsFulfilling (oracle : Oracle) (contract : Str) (pyth_data : Bytes) (c : Call)
    : Type 0 where
  pub feed_id : Bytes
  pub age : ℕ
  pub binary : Str
  pub update : Bytes
  pub fulfil : Str
  pub feed_is : oracle.decode_feed pyth_data ≡ ok (feed_id, age)
  pub fetched :
      oracle.latest_update
        (text "https://hermes.pyth.network/v2/updates/price/latest?ids[]=" ++ to_hex feed_id)
      ≡ ok binary
  pub update_is : from_hex binary ≡ some update
  pub fulfil_is : oracle.encode_fulfill contract update ≡ ok fulfil
  pub data_is : from_hex (drop 2 fulfil) ≡ some c.calldata
  pub target_is : c.target ≡ contract
  pub value_is : c.value ≡ pos pyth_fee
  pub required : c.require_success ≡ true

-- A transaction that makes two calls, both required to succeed: the one that gives the oracle of the
-- revert its data, for the fee, and the original one with its own target, value and data. It sends the
-- sum of the two values.
pub record CallsBoth (oracle : Oracle) (e : ChainError) (original resolved : TxData) : Type 0 where
  pub contract : Str
  pub pyth_data : Bytes
  pub oracle_call : Call
  pub own_call : Call
  pub asked : AsksOracle oracle e contract pyth_data
  pub fulfilling : IsFulfilling oracle contract pyth_data oracle_call
  pub encoded : oracle.encode_aggregate (oracle_call ∷ own_call ∷ []) ≡ ok resolved.calldata
  pub own_required : own_call.require_success ≡ true
  pub own_target : own_call.target ≡ original.to
  pub own_data : from_hex (strip_0x original.calldata) ≡ some own_call.calldata
  pub own_value : parse_int original.value ≡ some own_call.value
  pub total : resolved.value ≡ int_str (plus_int pyth_fee own_call.value)
  pub target : resolved.to ≡ multicall3_address
  pub same_chain : resolved.chain_id ≡ original.chain_id

or_raise-ok : {A : Type 0} (o : Option A) (e : Str) (a : A) → or_raise o e ≡ ok a → o ≡ some a
or_raise-ok none e a h = absurd (ground arith)
or_raise-ok (some b) e a h = ap some (ok-injective h)

fulfill_call-ok :
    (oracle : Oracle) (contract : Str) (query : Bytes) (c : Call)
    → fulfill_call oracle contract query ≡ ok c
    → IsFulfilling oracle contract query c
unfolding fulfill_call
fulfill_call-ok oracle contract query c h =
    let ((feed_id, age), e1, h1) = >>=-ok (oracle.decode_feed query) _ c h in
    let (binary, e2, h2) = >>=-ok (oracle.latest_update _) _ c h1 in
    let (update, e3, h3) = >>=-ok (fromhex binary) _ c h2 in
    let (fulfil, e4, h4) = >>=-ok (oracle.encode_fulfill contract update) _ c h3 in
    let (bytes, e5, h5) = >>=-ok (fromhex (drop 2 fulfil)) _ c h4 in
    subst (IsFulfilling oracle contract query) (ok-injective h5) (record {
      feed_id = feed_id;
      age = age;
      binary = binary;
      update = update;
      fulfil = fulfil;
      feed_is = e1;
      fetched = e2;
      update_is = or_raise-ok (from_hex binary) _ update e3;
      fulfil_is = e4;
      data_is = or_raise-ok (from_hex (drop 2 fulfil)) _ bytes e5;
      target_is = refl;
      value_is = refl;
      required = refl;
    })

record IsOriginal (original : TxData) (c : Call) : Type 0 where
  required : c.require_success ≡ true
  target_is : c.target ≡ original.to
  data_is : from_hex (strip_0x original.calldata) ≡ some c.calldata
  value_is : parse_int original.value ≡ some c.value

original_call-ok :
    (oracle : Oracle) (original : TxData) (c : Call)
    → original_call oracle original ≡ ok c
    → IsOriginal original c
unfolding original_call int_value
original_call-ok oracle original c h =
    let (amount, e1, h1) = >>=-ok (int_value oracle original) _ c h in
    let (bytes, e2, h2) = >>=-ok (fromhex (strip_0x original.calldata)) _ c h1 in
    subst (IsOriginal original) (ok-injective h2) (record {
      required = refl;
      target_is = refl;
      data_is = or_raise-ok (from_hex (strip_0x original.calldata)) _ bytes e2;
      value_is = or_raise-ok (parse_int original.value) _ amount e1;
    })

multicall_of-ok :
    (oracle : Oracle) (e : ChainError) (contract : Str) (query : Bytes) (original t : TxData)
    → AsksOracle oracle e contract query
    → multicall_of oracle contract query original ≡ ok t
    → CallsBoth oracle e original t
unfolding multicall_of int_value
multicall_of-ok oracle e contract query original t asked h =
    let (c, e1, h1) = >>=-ok (fulfill_call oracle contract query) _ t h in
    let (own, e2, h2) = >>=-ok (original_call oracle original) _ t h1 in
    let (encoded, e3, h3) = >>=-ok (oracle.encode_aggregate (c ∷ own ∷ [])) _ t h2 in
    let (amount, e4, h4) = >>=-ok (int_value oracle original) _ t h3 in
    let is_own = original_call-ok oracle original own e2 in
    let parsed = or_raise-ok (parse_int original.value) _ amount e4 in
    subst (CallsBoth oracle e original) (ok-injective h4) (record {
      contract = contract;
      pyth_data = query;
      oracle_call = c;
      own_call = own;
      asked = asked;
      fulfilling = fulfill_call-ok oracle contract query c e1;
      encoded = e3;
      own_required = is_own.required;
      own_target = is_own.target_is;
      own_data = is_own.data_is;
      own_value = is_own.value_is;
      total =
          ap (λ n. int_str (plus_int pyth_fee n)) (some-injective (sym parsed ∙ is_own.value_is));
      target = refl;
      same_chain = refl;
    })

resolve_revert-ok :
    (oracle : Oracle) (e : ChainError) (hex : Str) (original t : TxData)
    → extract_revert_data e ≡ some (text_datum hex)
    → starts_with (text "0xc2a825f5") hex ≡ true
    → resolve_revert oracle hex original ≡ ok (some t)
    → CallsBoth oracle e original t
unfolding resolve_revert
resolve_revert-ok oracle e hex original t reverted tagged h =
    let (bytes, e1, h1) = >>=-ok (fromhex (drop 10 hex)) _ (some t) h in
    let ((contract, query), e2, h2) = >>=-ok (oracle.decode_revert bytes) _ (some t) h1 in
    let ((tag, pyth), e3, h3) = >>=-ok (oracle.decode_query query) _ (some t) h2 in
    elim (Bool-cases (tag == 1)) [
      | inl is_one ↦
          let one : tag ≡ 1 = ground (arith, is_one) in
          let (u, made, h4) =
            >>=-ok (multicall_of oracle contract pyth original) _ (some t) (rw is_one at h3) in
          let asked : AsksOracle oracle e contract pyth = record {
            revert_hex = hex;
            revert_bytes = bytes;
            query = query;
            reverted = reverted;
            tagged = tagged;
            bytes_are = or_raise-ok (from_hex (drop 10 hex)) _ bytes e1;
            contract_is = e2;
            query_is = e3 ∙ ap (λ n. ok (n, pyth)) one;
          } in
          multicall_of-ok oracle e contract pyth original t asked
            (made ∙ ap ok (some-injective (ok-injective h4)))
      | inr other ↦ absurd (none≢some t (ok-injective (rw other at h3)))
    ]

-- A transaction that is resolved from an exception calls the contract that the revert names, for the
-- fee of one wei, with the latest update of the price feed that the revert asks for, and makes the
-- original call; both have to succeed. It sends the sum of what the two calls send, on the original
-- chain.
pub try_resolve_eip7412-some :
    (oracle : Oracle) (e : ChainError) (original resolved : TxData)
    → try_resolve_eip7412 oracle e original ≡ ok (some resolved)
    → CallsBoth oracle e original resolved
unfolding try_resolve_eip7412
try_resolve_eip7412-some oracle e original resolved h =
    let unresolved = λ (n : ok none ≡ ok (some resolved)). none≢some resolved (ok-injective n) in
    elim (Option-cases (extract_revert_data e)) [
      | inl q ↦ absurd (unresolved (rw (q, try_resolve_eip7412) at h))
      | inr (empty_datum, q) ↦ absurd (unresolved (rw (q, try_resolve_eip7412) at h))
      | inr (other_datum x, q) ↦ absurd (ok≢err (sym (rw (q, try_resolve_eip7412) at h)))
      | inr (text_datum hex, q) ↦ elim (Bool-cases (starts_with (text "0xc2a825f5") hex)) [
        | inl t ↦ elim (Result-cases (resolve_revert oracle hex original)) [
          | inl (r, made) ↦
              resolve_revert-ok oracle e hex original resolved q t
                (made ∙ rw (q, t, made, try_resolve_eip7412) at h)
          | inr (x, made) ↦ absurd (unresolved (rw (q, t, made, try_resolve_eip7412) at h))
        ]
        | inr t ↦ absurd (unresolved (rw (q, t, try_resolve_eip7412) at h))
      ]
    ]
