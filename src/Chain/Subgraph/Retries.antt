-- ===== src/Chain/Subgraph/Retries.antt =====
-- How often a query is sent, and what its success means: `_execute` of app/chain/subgraph.py.
use ax_server.Prelude.{ℕ, zero, suc, ◌+◌, ◌-◌, ◌^◌, ◌≤◌, ◌<◌, ◌≡◌, refl, sym, ap, ◌∙◌, arith}
use native.Mathlib.Omega.{pow_step}
use ax_server.Prelude.Text.{Str, text}
use ax_server.Prelude.Error.{ok, ok≢err, ok-injective}
use ax_server.Chain.Subgraph.{
  Attempt, answered, graphql_errors, transient, unexpected, attempts, execute, exhausted,
}

-- The first attempt that is no failure of the transport, among those from a number on
pub data FirstAnswer {D : Type 0} (post : ℕ → Attempt D) (d : D) : ℕ → ℕ → Type 0 where
  now : (left attempt : ℕ) → post attempt ≡ answered d → FirstAnswer post d (suc left) attempt
  later :
      (left attempt : ℕ) (e : Str)
      → post attempt ≡ transient e
      → FirstAnswer post d left (attempt + 1)
      → FirstAnswer post d (suc left) attempt

-- The cases of an attempt, each with its equation
data AttemptIs {D : Type 0} (a : Attempt D) : Type 0 where
  is_answered : (d : D) → a ≡ answered d → AttemptIs a
  is_graphql_errors : (e : Str) → a ≡ graphql_errors e → AttemptIs a
  is_transient : (e : Str) → a ≡ transient e → AttemptIs a
  is_unexpected : (e : Str) → a ≡ unexpected e → AttemptIs a

Attempt-cases : {D : Type 0} (a : Attempt D) → AttemptIs a
Attempt-cases (answered d) = is_answered d refl
Attempt-cases (graphql_errors e) = is_graphql_errors e refl
Attempt-cases (transient e) = is_transient e refl
Attempt-cases (unexpected e) = is_unexpected e refl

double : (k : ℕ) → 2 ^ (k + 1) ≡ 2 ^ k + 2 ^ k
double k = ap (λ n. 2 ^ n) (omega arith) ∙ pow_step 2 k ∙ omega arith

grows : (k left : ℕ) → 2 ^ k ≤ 2 ^ (k + left)
grows k zero = let same : 2 ^ (k + 0) ≡ 2 ^ k = ap (λ n. 2 ^ n) (omega arith) in omega (arith, same)
grows k (suc left) =
    let next : 2 ^ (k + suc left) ≡ 2 ^ (k + left + 1) = ap (λ n. 2 ^ n) (omega arith) in
    omega (arith, next, grows k left, double (k + left))

module _ {D : Type 0} (max_retries : ℕ) (post : ℕ → Attempt D) where
  -- With k attempts made before, the sleep so far and to come stays below a power of two.
  attempts-bounds :
      (left k : ℕ) (e : Str)
      → let run = attempts max_retries post left (k + 1) e in
        (run.requests ≤ left) × (run.slept + 2 ^ k ≤ 2 ^ (k + left))
  unfolding attempts
  attempts-bounds zero k e = (omega arith, omega (arith, grows k 0))
  attempts-bounds (suc left) k e = elim (Attempt-cases (post (k + 1))) [
    | is_answered d q ↦ rw (q, attempts) (omega arith, omega (arith, grows k (suc left)))
    | is_graphql_errors x q ↦ rw (q, attempts) (omega arith, omega (arith, grows k (suc left)))
    | is_transient x q ↦
        let ih = attempts-bounds left (k + 1) x in
        let same : k + 1 - 1 ≡ k = omega arith in
        let last : 2 ^ (k + 1 + left) ≡ 2 ^ (k + suc left) = ap (λ n. 2 ^ n) (omega arith) in
        let run = attempts max_retries post left (k + 1 + 1) x in
        rw (q, attempts) (omega (arith, ih.0), rw same (omega (arith, ih.1, double k, last)))
    | is_unexpected x q ↦ rw (q, attempts) (omega arith, omega (arith, grows k (suc left)))
  ]

  -- A query is sent at most `max_retries` times, and sleeps less than two to that power in seconds.
  pub execute-bounds :
      let run = execute max_retries post in
      (run.requests ≤ max_retries) × (run.slept < 2 ^ max_retries)
  unfolding execute
  execute-bounds =
      let b = attempts-bounds max_retries 0 (text "None") in
      let all : 2 ^ (0 + max_retries) ≡ 2 ^ max_retries = ap (λ n. 2 ^ n) (omega arith) in
      let first : 2 ^ 0 ≡ 1 = refl in (b.0, omega (arith, b.1, all, first))

  attempts-ok :
      (left attempt : ℕ) (e : Str) (d : D)
      → (attempts max_retries post left attempt e).result ≡ ok d
      → FirstAnswer post d left attempt
  unfolding attempts exhausted
  attempts-ok zero attempt e d h = absurd (ok≢err (sym h))
  attempts-ok (suc left) attempt e d h = elim (Attempt-cases (post attempt)) [
    | is_answered x q ↦ now left attempt (q ∙ ap answered (ok-injective (rw (q, attempts) at h)))
    | is_graphql_errors x q ↦ absurd (ok≢err (sym (rw (q, attempts) at h)))
    | is_transient x q ↦
        later left attempt x q (attempts-ok left (attempt + 1) x d (rw (q, attempts) at h))
    | is_unexpected x q ↦ absurd (ok≢err (sym (rw (q, attempts) at h)))
  ]

  -- A query succeeds only with the data of the first attempt that is no failure of the transport, and
  -- that is among the first `max_retries`.
  pub execute-ok :
      (d : D) → (execute max_retries post).result ≡ ok d → FirstAnswer post d max_retries 1
  unfolding execute
  execute-ok d h = attempts-ok max_retries 1 (text "None") d h
