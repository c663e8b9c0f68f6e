-- ===== src/Predict/Orders/Slippage.antt =====
-- The bounds of the least amount that a swap accepts.
use native.Mathlib.Nat.{mul-le-mul_left}
use ax_server.Prelude.{
  ◌==◌, false, ℕ, ◌+◌, ◌-◌, ◌*◌, ◌/◌, ◌≤◌, ◌<◌, ◌≡◌, arith, refl, le→leb, lt→leb,
}
use ax_server.Prelude.Int.{pos, negsuc, minus, minus_int, times, floor_div}
use ax_server.Predict.Orders.{apply_slippage}

-- Up to 10,000 basis points the least amount is the quote less the slippage, rounded down, and
-- never above the quote.
pub apply_slippage-le :
    (amount n : ℕ)
    → n ≤ 10_000
    → (r : ℕ) × (apply_slippage amount (pos n) ≡ pos r)
      × (r ≤ amount)
      × (r * 10_000 ≤ amount * (10_000 - n))
      × (amount * (10_000 - n) < r * 10_000 + 10_000)
unfolding apply_slippage minus_int minus times floor_div
apply_slippage-le amount n h =
    let x = amount * (10_000 - n) in
    let le : amount * (10_000 - n) ≤ amount * 10_000 = mul-le-mul_left amount (omega arith) in
    (x / 10_000, rw (le→leb n 10_000 h) refl, omega (arith, le), omega arith, omega arith)

-- The slippage of a request is not checked: above 10,000 basis points the least amount of a
-- positive quote is negative, and below zero it is the quote or more.
pub apply_slippage-unchecked :
    (amount n : ℕ)
    → 1 ≤ amount
    → (10_000 < n → (r : ℕ) × (apply_slippage amount (pos n) ≡ negsuc r))
      × ((r : ℕ) × (apply_slippage amount (negsuc n) ≡ pos r) × (amount ≤ r))
unfolding apply_slippage minus_int minus times floor_div
apply_slippage-unchecked amount n h =
    let scaled : amount * 10_000 ≤ amount * (10_000 + (n + 1)) =
      mul-le-mul_left amount (omega arith) in
    (
      λ k.
          let ne : (amount == 0) ≡ false = ground arith in
          ((amount * (n - 10_000 - 1 + 1) - 1) / 10_000, rw (lt→leb n 10_000 k, ne) refl),
      (amount * (10_000 + (n + 1)) / 10_000, refl, omega (arith, scaled)),
    )
