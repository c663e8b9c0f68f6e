-- ===== src/Chain/Amm.antt =====
-- The constant-product quote: `UniswapV2Client.get_amount_out` of app/chain/uniswap_v2.py.
use native.Mathlib.Nat.{
  div-mul-le_self, mul-add, add-mul, mul_assoc, mul_comm, mul-le-mul_left, mul-pos,
}
use ax_server.Prelude.{
  Bool-cases, inl, inr, ltb, ltb→lt, sym, ap, ◌∙◌, ℕ, ◌+◌, ◌-◌, ◌*◌, ◌/◌, ◌≤◌, ◌<◌, ◌≡◌, ◌||◌, ◌==◌,
  if◌then◌else◌, arith,
}

-- `get_amount_out`
unfoldable pub get_amount_out : ℕ → ℕ → ℕ → ℕ
get_amount_out amount_in reserve_in reserve_out =
    if reserve_in == 0 || reserve_out == 0
    then 0
    else let amount_in_with_fee = amount_in * 997 in
      amount_in_with_fee * reserve_out / (reserve_in * 1000 + amount_in_with_fee)

floor_bound : (a ri ro : ℕ) → get_amount_out a ri ro * (ri * 1000 + a * 997) ≤ a * 997 * ro
unfolding get_amount_out
floor_bound a ri ro = ground (arith, div-mul-le_self (a * 997 * ro) (ri * 1000 + a * 997))

fee_split : (q a ri : ℕ) → q * (ri * 1000 + a * 997) ≡ q * ri * 1000 + q * a * 997
fee_split q a ri =
    grind (arith, mul-add q (ri * 1000) (a * 997), mul_assoc q ri 1000, mul_assoc q a 997)

fee_out : (a ro : ℕ) → a * 997 * ro ≡ a * ro * 997
fee_out a ro = grind (arith, mul_assoc a 997 ro, mul_comm 997 ro, mul_assoc a ro 997)

-- The two bounds for any output that the quote's inequality admits
admitted_bounds :
    (q a ri ro : ℕ)
    → 1 ≤ ri
    → 1 ≤ ro
    → q * ri * 1000 + q * a * 997 ≤ a * ro * 997
    → (q < ro) × (ri * ro ≤ (ri + a) * (ro - q))
admitted_bounds q a ri ro h k b =
    let less : q < ro = elim (Bool-cases (ltb q ro)) [
      | inl e ↦ ltb→lt q ro e
      | inr e ↦
          let over : ro ≤ q = ground arith in
          let scaled : a * ro ≤ a * q = mul-le-mul_left a over in
          let some_left : 1 ≤ q * ri = mul-pos (omega (arith, over, k)) h in
          absurd (omega (arith, scaled, mul_comm a q, some_left, b))
    ] in
    let whole : (ri + a) * (ro - q) + (ri + a) * q ≡ (ri + a) * ro =
      sym (mul-add (ri + a) (ro - q) q) ∙ ap (λ n. (ri + a) * n) (omega (arith, less)) in
    (less, omega (arith, whole, add-mul ri a q, add-mul ri a ro, mul_comm ri q, mul_comm a q, b))

-- A swap never takes the whole reserve of a pool that has both tokens, and never lowers the product
-- of the reserves.
pub get_amount_out-bounds :
    (amount_in reserve_in reserve_out : ℕ)
    → 1 ≤ reserve_in
    → 1 ≤ reserve_out
    → let out = get_amount_out amount_in reserve_in reserve_out in
      (out < reserve_out)
      × (reserve_in * reserve_out ≤ (reserve_in + amount_in) * (reserve_out - out))
get_amount_out-bounds a ri ro h k =
    admitted_bounds (get_amount_out a ri ro) a ri ro h k
      (omega (arith, floor_bound a ri ro, fee_split (get_amount_out a ri ro) a ri, fee_out a ro))
