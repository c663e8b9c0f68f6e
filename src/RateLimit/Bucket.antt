-- ===== src/RateLimit/Bucket.antt =====
-- What the token bucket guarantees: it never holds more than its maximum, it lets through at most
-- the burst and the refill, and a refused caller is let through after the announced wait.
use native.Mathlib.Nat.{div-mul-le_self, mul-mod_left, mul-le-mul_left}
use mathlib.Core.Path.{subst, refl, subst₂}
use ax_server.Prelude.{
  ap, ◌/◌, sym, ℕ_discrete, lt→leb, le→leb, ◌%◌, ◌≢◌, max, sym, ℕ, ◌+◌, ◌-◌, ◌*◌, ◌≤◌, ◌≡◌, Bool,
  true, false, leb, if◌then◌else◌, List, [], ◌∷◌, arith, ◌∙◌, ◌<◌, lt→leb,
}
use ax_server.RateLimit.{TokenBucket, unit, new_bucket, refilled, consume, reset_in}

-- A bucket never holds more than its maximum.
pub record IsValid (b : TokenBucket) : Type 0 where
  pub bounded : b.tokens ≤ b.max_tokens * unit

pub new_bucket-IsValid : (m r now : ℕ) → IsValid (new_bucket m r now)
unfolding new_bucket
new_bucket-IsValid m r now = omega arith

pub consume-IsValid : (b : TokenBucket) (now : ℕ) → IsValid (consume b now).0
unfolding consume refilled
consume-IsValid b now = ground arith

-- The number of tokens that a call takes.
abbrev pub taken : Bool → ℕ
taken true = unit
taken false = 0

-- A call takes a token exactly when one is there after the refill, and leaves the rest.
pub consume-refilled :
    (b : TokenBucket) (now : ℕ)
    → ((consume b now).0.tokens + taken (consume b now).1 ≡ refilled b now)
      × ((consume b now).1 ≡ leb unit (refilled b now))
unfolding consume
consume-refilled b now = ground arith

-- A sequence of calls on one bucket, and how many of them took a token.
pub consume_all : TokenBucket → List ℕ → TokenBucket × ℕ
consume_all b [] = (b, 0)
consume_all b (now ∷ later) =
    let (b', allowed) = consume b now in
    let (last, count) = consume_all b' later in (last, count + (if allowed then 1 else 0))

abbrev pub Increasing : ℕ → List ℕ → Type 0
Increasing t [] = Unit
Increasing t (now ∷ later) = (t ≤ now) × Increasing now later

abbrev pub last_time : ℕ → List ℕ → ℕ
last_time t [] = t
last_time t (now ∷ later) = last_time now later

consume-keeps :
    (b : TokenBucket) (now : ℕ)
    → ((consume b now).0.max_tokens ≡ b.max_tokens)
      × ((consume b now).0.refill_rate ≡ b.refill_rate)
      × ((consume b now).0.last_refill ≡ now)
unfolding consume
consume-keeps b now = ground arith

consume-le :
    (b : TokenBucket) (now : ℕ)
    → (consume b now).0.tokens + taken (consume b now).1
      ≤ b.tokens + (now - b.last_refill) * b.refill_rate
unfolding refilled
consume-le b now = omega (arith, (consume-refilled b now).0)

last_time-le : (t : ℕ) (times : List ℕ) → Increasing t times → t ≤ last_time t times
last_time-le t [] h = omega arith
last_time-le t (now ∷ later) h = omega (arith, last_time-le now later h.1)

-- A waiting time splits at the call in its middle.
refill_split : (a b c r : ℕ) → a ≤ b → b ≤ c → (c - b) * r + (b - a) * r ≡ (c - a) * r
refill_split a b c r h k = grind arith

count_taken : (took : Bool) → (if took then 1 else 0) * unit ≡ taken took
count_taken took = ground arith

spend-le :
    (b : TokenBucket) (t r : ℕ) (times : List ℕ)
    → b.last_refill ≡ t
    → b.refill_rate ≡ r
    → Increasing t times
    → (consume_all b times).1 * unit + (consume_all b times).0.tokens
      ≤ b.tokens + (last_time t times - t) * r
unfolding consume_all
spend-le b t r [] e f h = omega arith
spend-le b t r (now ∷ later) e f h =
    let b' = (consume b now).0 in
    let keeps = consume-keeps b now in
    let step =
      subst₂ (λ x y. b'.tokens + taken (consume b now).1 ≤ b.tokens + (now - x) * y) e f
        (consume-le b now) in
    omega (
      arith,
      spend-le b' now r later keeps.2 (keeps.1 ∙ f) h.1,
      step,
      count_taken (consume b now).1,
      refill_split t now (last_time now later) r h.0 (last_time-le now later h.1),
    )

-- The number of calls that take a token, from any valid state and at any nondecreasing times, is
-- at most the burst (`max_tokens`) and what refills between the last refill and the last call.
pub consume_all_bound :
    (b : TokenBucket) (times : List ℕ)
    → IsValid b
    → Increasing b.last_refill times
    → (consume_all b times).1 * unit
      ≤ b.max_tokens * unit + (last_time b.last_refill times - b.last_refill) * b.refill_rate
consume_all_bound b times v h =
    omega (arith, spend-le b b.last_refill b.refill_rate times refl refl h, v.bounded)

unit_le : (waited rate : ℕ) → unit ≤ waited → 1 ≤ rate → unit ≤ waited * rate
unit_le waited rate h r = grind arith

-- After a refusal, a call on the same bucket that comes `max(1, int(reset_seconds))` seconds later
-- or more (the Retry-After header) takes a token, in every bucket of one token or more that
-- refills one token a second or more.
pub consume-retry_after :
    (b : TokenBucket) (now later : ℕ)
    → 1 ≤ b.max_tokens
    → 1 ≤ b.refill_rate
    → (consume b now).1 ≡ false
    → now + max 1 (reset_in 1 (consume b now).0) * unit ≤ later
    → (consume (consume b now).0 later).1 ≡ true
consume-retry_after b now later m r refused h =
    let b' = (consume b now).0 in
    let keeps = consume-keeps b now in
    let gained : unit ≤ (later - b'.last_refill) * b'.refill_rate =
      grind (arith, unit_le (later - b'.last_refill) b'.refill_rate) in
    (consume-refilled b' later).1 ∙ le→leb _ _ (unfold refilled in omega (arith, gained, keeps.0))

refused_short :
    (b : TokenBucket) (now : ℕ) → (consume b now).1 ≡ false → (consume b now).0.tokens < unit
unfolding consume
refused_short b now h = ground arith

reset_in_short :
    (k : ℕ) (b : TokenBucket)
    → b.tokens < unit
    → reset_in k b ≡ (unit - b.tokens) * k / (b.refill_rate * unit)
unfolding reset_in
reset_in_short k b h = rw (lt→leb unit b.tokens h)

floor_scale : (rate : ℕ) → rate * unit ≡ rate * 1_000_000 * 1000
floor_scale rate = omega arith

floor-lt : (d n : ℕ) → d % n ≢ 0 → d * 1000 / (n * 1000) * n < d
floor-lt d n h =
    let q = d * 1000 / (n * 1000) in
    let le : q * (n * 1000) ≤ d * 1000 = div-mul-le_self (d * 1000) (n * 1000) in
    elim (ℕ_discrete (q * n) d) [
      | yes e ↦ absurd (h (rw (← e) (mul-mod_left q n)))
      | no ne ↦ omega arith
    ]

-- The X-RateLimit-Reset header counts whole milliseconds, rounded down. Where the missing tokens
-- do not refill in a whole number of milliseconds, a call that comes exactly after the announced
-- time is refused again.
pub consume-early_reset :
    (b : TokenBucket) (now : ℕ)
    → 1 ≤ b.refill_rate
    → (consume b now).1 ≡ false
    → (unit - (consume b now).0.tokens) % (b.refill_rate * 1_000_000) ≢ 0
    → (consume (consume b now).0 (now + reset_in 1000 (consume b now).0 * 1_000_000)).1 ≡ false
consume-early_reset b now r refused h =
    let b' = (consume b now).0 in
    let rate = b'.refill_rate in
    let keeps = consume-keeps b now in
    let short : b'.tokens < unit = refused_short b now refused in
    let wait : reset_in 1000 b' * (rate * 1_000_000) < unit - b'.tokens =
      rw (reset_in_short 1000 b' short, floor_scale rate)
        (floor-lt (unit - b'.tokens) (rate * 1_000_000)
          (subst (λ n. (unit - b'.tokens) % (n * 1_000_000) ≢ 0) (sym keeps.1) h)) in
    let again = now + reset_in 1000 b' * 1_000_000 in
    let waited : again - b'.last_refill ≡ reset_in 1000 b' * 1_000_000 = omega (arith, keeps.2) in
    let early : refilled b' again < unit =
      unfold refilled in omega (arith, wait, ap (λ (t : ℕ). t * rate) waited) in
    (consume-refilled b' again).1 ∙ lt→leb unit (refilled b' again) early

rest_le : (waited period rate : ℕ) → period * unit ≤ waited → rate * period * unit ≤ waited * rate
rest_le waited period rate h = omega (arith, mul-le-mul_left rate h)

-- A bucket that has rested for the period of its refill is full.
pub refilled_rested :
    (b : TokenBucket) (period now : ℕ)
    → b.max_tokens ≤ b.refill_rate * period
    → b.last_refill + period * unit ≤ now
    → refilled b now ≡ b.max_tokens * unit
unfolding refilled
refilled_rested b period now full rest =
    let gained : b.refill_rate * period * unit ≤ (now - b.last_refill) * b.refill_rate =
      rest_le (now - b.last_refill) period b.refill_rate (omega arith) in
    omega (arith, gained)

pub refilled_new : (m r created now : ℕ) → refilled (new_bucket m r created) now ≡ m * unit
unfolding refilled new_bucket
refilled_new m r created now = omega arith
