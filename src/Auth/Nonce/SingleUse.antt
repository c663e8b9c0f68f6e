-- ===== src/Auth/Nonce/SingleUse.antt =====
-- A nonce is accepted at most once, and a fresh one is accepted.
use ax_server.Prelude.{
  test_fails, ◌∙◌, ℕ, ◌≡◌, inl, inr, Bool, true, false, Option, none, some, not, arith, test,
  if◌then◌else◌, Option-cases, ◌&&◌, not_of_test, ◌⊎◌, List, ◌≤◌, Bool-cases, ◌∷◌, ◌+◌, test_holds,
  [], sym, refl,
}
use ax_server.Prelude.Dict.{Dict, lookup-insert, lookup-erase}
use ax_server.Prelude.Dict.Laws.{
  Distinct, insert-Distinct, erase-Distinct, lookup-keep_values, keep_values-Distinct,
}
use ax_server.Prelude.Text.{Str, str_dec}
use ax_server.Auth.Nonce.{NonceEntry, NonceStore, is_expired, cleanup, generate, validate}
use mathlib.Core.Path.{subst}
use ax_server.Prelude.Dict

abbrev pub IsValid : NonceStore → Type 0
IsValid s = Distinct str_dec s.store

-- What the endpoints do to the store: the times are those that the call reads.
pub data Op : Type 0 where
  gen : Str → ℕ → ℕ → Op
  val : Str → ℕ → Op

unfoldable pub apply : NonceStore → Op → NonceStore × Bool
apply s (gen n now at_cleanup) = (generate s n now at_cleanup, false)
apply s (val n now) = validate s n now

abbrev marked : NonceEntry → NonceEntry
marked e = record e { used = true }

pub apply-IsValid : (s : NonceStore) (op : Op) → IsValid s → IsValid (apply s op).0
unfolding apply generate cleanup validate
apply-IsValid s (gen n now later) v =
    keep_values-Distinct str_dec _ _ (insert-Distinct str_dec n _ s.store v)
apply-IsValid s (val n now) v = elim (Option-cases (Dict.lookup str_dec n s.store)) [
  | inl e ↦ rw (e, validate) v
  | inr (entry, e) ↦ ground (
    arith,
    v,
    erase-Distinct str_dec n s.store v,
    insert-Distinct str_dec n (marked entry) s.store v,
  )
]

-- A nonce that is not in the store, or is marked as used
abbrev pub is_spent : Option NonceEntry → Bool
is_spent none = true
is_spent (some e) = e.used

abbrev pub generates : Str → Op → Bool
generates n (gen m _ _) = test (str_dec m n)
generates n (val _ _) = false

-- Whether a call accepts the nonce
abbrev pub accepts : Str → Op → Bool → ℕ
accepts n (gen _ _ _) accepted = 0
accepts n (val m _) accepted = if test (str_dec m n) && accepted then 1 else 0

pub lookup-generate :
    (s : NonceStore) (n m : Str) (now later : ℕ)
    → IsValid s
    → ¬ (m ≡ n)
    → Dict.lookup str_dec n (generate s m now later).store ≡ elim (Dict.lookup str_dec n s.store) [
      | none ↦ none
      | some e ↦ if not (is_expired s.ttl later e) then some e else none
    ]
unfolding generate cleanup
lookup-generate s n m now later v ne =
    let entry : NonceEntry = record { nonce = m; created_at = now; used = false } in
    let d = Dict.insert str_dec m entry s.store in
    lookup-keep_values str_dec (λ e. not (is_expired s.ttl later e)) n d
      (insert-Distinct str_dec m entry s.store v)
    ∙ rw (lookup-insert str_dec m n entry s.store, test_fails (str_dec m n) ne)

pub lookup-validate_ne :
    (s : NonceStore) (n m : Str) (now : ℕ)
    → ¬ (m ≡ n)
    → Dict.lookup str_dec n (validate s m now).0.store ≡ Dict.lookup str_dec n s.store
unfolding validate
lookup-validate_ne s n m now ne = elim (Option-cases (Dict.lookup str_dec m s.store)) [
  | inl e ↦ rw (e, validate)
  | inr (entry, e) ↦ ground (
    arith,
    ne,
    lookup-erase str_dec m n s.store,
    lookup-insert str_dec m n (marked entry) s.store,
  )
]

-- A call on a spent nonce is refused and leaves it spent; whatever the answer, the nonce is spent
-- afterwards.
pub validate-spent :
    (s : NonceStore) (n : Str) (now : ℕ)
    → (is_spent (Dict.lookup str_dec n s.store) ≡ true → (validate s n now).1 ≡ false)
      × (is_spent (Dict.lookup str_dec n s.store) ≡ true
          → is_spent (Dict.lookup str_dec n (validate s n now).0.store) ≡ true)
      × (is_spent (Dict.lookup str_dec n (validate s n now).0.store) ≡ true)
unfolding validate
validate-spent s n now = elim (Option-cases (Dict.lookup str_dec n s.store)) [
  | inl e ↦ rw (e, validate) (ground arith)
  | inr (entry, e) ↦
      rw (e, validate)
        (ground (
          arith,
          lookup-erase str_dec n n s.store,
          lookup-insert str_dec n n (marked entry) s.store,
        ))
]

pub spent-apply :
    (s : NonceStore) (n : Str) (op : Op)
    → IsValid s
    → generates n op ≡ false
    → is_spent (Dict.lookup str_dec n s.store) ≡ true
    → (is_spent (Dict.lookup str_dec n (apply s op).0.store) ≡ true)
      × (accepts n op (apply s op).1 ≡ 0)
unfolding apply
spent-apply s n (gen m now later) v g h =
    (rw (lookup-generate s n m now later v (not_of_test (str_dec m n) g)) (ground arith), refl)
spent-apply s n (val m now) v g h = elim (str_dec m n) [
  | yes e ↦
      let r = validate-spent s n now in
      subst
        (λ k.
          (is_spent (Dict.lookup str_dec n (validate s k now).0.store) ≡ true)
          × (accepts n (val k now) (validate s k now).1 ≡ 0))
        (sym e) (r.1 h, rw (r.0 h) (ground arith))
  | no ne ↦ (rw (lookup-validate_ne s n m now ne) h, rw (test_fails (str_dec m n) ne))
]

accepted-apply :
    (s : NonceStore) (n : Str) (op : Op)
    → (accepts n op (apply s op).1 ≡ 0)
      ⊎ (accepts n op (apply s op).1 ≡ 1)
        × (is_spent (Dict.lookup str_dec n (apply s op).0.store) ≡ true)
unfolding apply
accepted-apply s n (gen m now later) = inl refl
accepted-apply s n (val m now) = elim (str_dec m n) [
  | no ne ↦ inl (rw (test_fails (str_dec m n) ne))
  | yes e ↦ elim (Bool-cases (validate s m now).1) [
    | inl hit ↦ inr (
      rw (test_holds (str_dec m n) e, hit),
      subst (λ k. is_spent (Dict.lookup str_dec k (validate s m now).0.store) ≡ true) e
          ((validate-spent s m now).2),
    )
    | inr miss ↦ inl (rw (test_holds (str_dec m n) e, miss))
  ]
]

-- How often a sequence of calls accepts a nonce
unfoldable pub acceptances : Str → NonceStore → List Op → ℕ
acceptances n s [] = 0
acceptances n s (op ∷ ops) = accepts n op (apply s op).1 + acceptances n (apply s op).0 ops

-- No call of `generate` in the sequence gives the nonce.
abbrev pub Ungenerated : Str → List Op → Type 0
Ungenerated n [] = Unit
Ungenerated n (op ∷ ops) = (generates n op ≡ false) × Ungenerated n ops

acceptances-spent :
    (n : Str) (s : NonceStore) (ops : List Op)
    → IsValid s
    → Ungenerated n ops
    → is_spent (Dict.lookup str_dec n s.store) ≡ true
    → acceptances n s ops ≡ 0
unfolding acceptances
acceptances-spent n s [] v g h = refl
acceptances-spent n s (op ∷ ops) v g h =
    let (spent, none_here) = spent-apply s n op v g.0 h in
    omega
      (arith, none_here, acceptances-spent n (apply s op).0 ops (apply-IsValid s op v) g.1 spent)

-- However the calls of `generate` and `validate` follow each other, and at whatever times, a nonce
-- that is not generated a second time is accepted at most once.
pub acceptances-le-one :
    (n : Str) (s : NonceStore) (ops : List Op)
    → IsValid s
    → Ungenerated n ops
    → acceptances n s ops ≤ 1
unfolding acceptances
acceptances-le-one n s [] v g = omega arith
acceptances-le-one n s (op ∷ ops) v g = elim (accepted-apply s n op) [
  | inl e ↦ omega (arith, e, acceptances-le-one n (apply s op).0 ops (apply-IsValid s op v) g.1)
  | inr (e, spent) ↦
      omega (arith, e, acceptances-spent n (apply s op).0 ops (apply-IsValid s op v) g.1 spent)
]
