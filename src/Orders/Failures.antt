-- ===== src/Orders/Failures.antt =====
-- What makes buy and sell orders of app/api/v1/orders.py fail.
use ax_server.Prelude.{ℕ, ◌≡◌, inl, inr, sym, ◌∙◌, some, none, Option-cases, ◌≢◌, Bool-cases}
use ax_server.Prelude.Int.{pos}
use ax_server.Prelude.Text.{Str, text, starts_with}
use ax_server.Prelude.Error.{Result, ok, err, Raised, Result-cases, map_err, ◌>>=◌, ok≢err}
use ax_server.Chain.Synthetix.{TxData}
use ax_server.Chain.Eip7412.{
  extract_revert_data, resolve_revert, text_datum, empty_datum, other_datum, ChainError, Oracle,
  try_resolve_eip7412,
}
use ax_server.Orders.{
  answer_resolved, Node, SpotRequest, GasQuery, gas_query, estimate_or_resolve, spot_checks,
}
use ax_server.Orders.Spot.{Side, build_spot, build_spot-block, amount_field}

-- The data of an exception is a text, or there is none.
abbrev pub IsReadable : ChainError → Type 0
IsReadable e = (x : Str) → extract_revert_data e ≢ some (other_datum x)

try_resolve_eip7412-total :
    (oracle : Oracle) (e : ChainError) (tx : TxData) (x : Str)
    → IsReadable e
    → try_resolve_eip7412 oracle e tx ≢ err x
unfolding try_resolve_eip7412
try_resolve_eip7412-total oracle e tx x readable h = elim (Option-cases (extract_revert_data e)) [
  | inl q ↦ ok≢err (rw (q, try_resolve_eip7412) at h)
  | inr (empty_datum, q) ↦ ok≢err (rw (q, try_resolve_eip7412) at h)
  | inr (other_datum y, q) ↦ readable y q
  | inr (text_datum hex, q) ↦ elim (Bool-cases (starts_with (text "0xc2a825f5") hex)) [
    | inr t ↦ ok≢err (rw (q, t, try_resolve_eip7412) at h)
    | inl t ↦ elim (Result-cases (resolve_revert oracle hex tx)) [
      | inl (r, made) ↦ ok≢err (rw (q, t, made, try_resolve_eip7412) at h)
      | inr (y, made) ↦ ok≢err (rw (q, t, made, try_resolve_eip7412) at h)
    ]
  ]
]

estimate_or_resolve-total :
    (node : Node) (wallet : Str) (tx : TxData) (x : Str)
    → ((query : GasQuery) (e : ChainError) → node.estimate_gas query ≡ err e → IsReadable e)
    → estimate_or_resolve node wallet tx ≢ err x
unfolding estimate_or_resolve answer_resolved
estimate_or_resolve-total node wallet tx x readable h =
    elim (Result-cases (node.estimate_gas (gas_query wallet tx (pos 0)))) [
      | inl (gas, e) ↦ ok≢err (rw (e, estimate_or_resolve) at h)
      | inr (y, e) ↦ elim (Result-cases (try_resolve_eip7412 node.oracle y tx)) [
        | inr (z, r) ↦ try_resolve_eip7412-total node.oracle y tx z (readable _ y e) r
        | inl (none, r) ↦ ok≢err (rw (e, r, estimate_or_resolve) at h)
        | inl (some resolved, r) ↦ ok≢err (rw (e, r, estimate_or_resolve) at h)
      ]
    ]

-- A block whose last step does not fail fails before it, and so with any other last step.
block_err :
    {A B C : Type 0} (m : Result Raised A) (g : Str → Raised) (k : A → Result Str B)
    (f f' : A → B → Result Str C) (e : Raised)
    → ((a : A) (b : B) (x : Str) → f a b ≢ err x)
    → (m >>= λ a. map_err g (k a >>= λ b. f a b)) ≡ err e
    → (m >>= λ a. map_err g (k a >>= λ b. f' a b)) ≡ err e
block_err (err x) g k f f' e total h = h
block_err (ok a) g k f f' e total h = elim (Result-cases (k a)) [
  | inr (x, failed) ↦ rw failed (rw failed at h)
  | inl (b, made) ↦ elim (Result-cases (f a b)) [
    | inr (x, failed) ↦ absurd (total a b x failed)
    | inl (c, answered) ↦ absurd (ok≢err (rw (made, answered) at h))
  ]
]

-- Where no exception of the gas estimation has data that is no text, whether a buy or sell order fails,
-- and with what, does not depend on the gas estimation and the oracle: it fails before them, and with
-- any others in their place it fails in the same way.
pub build_spot-err :
    (side : Side) (node : Node) (body : SpotRequest) (oracle : Oracle)
    (estimate_gas : GasQuery → Result ChainError ℕ) (e : Raised)
    → ((query : GasQuery) (x : ChainError) → node.estimate_gas query ≡ err x → IsReadable x)
    → build_spot side node body ≡ err e
    → build_spot side (record node { oracle = oracle; estimate_gas = estimate_gas }) body ≡ err e
unfolding spot_checks
build_spot-err side node body oracle estimate_gas e readable h =
    let other = record node { oracle = oracle; estimate_gas = estimate_gas } in
    build_spot-block side other body
    ∙ block_err (spot_checks node body (amount_field side)) _ _
        (λ c tx. estimate_or_resolve node (c.0) tx) (λ c tx. estimate_or_resolve other (c.0) tx) e
        (λ c tx x. estimate_or_resolve-total node (c.0) tx x readable)
        (sym (build_spot-block side node body) ∙ h)
