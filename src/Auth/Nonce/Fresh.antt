-- ===== src/Auth/Nonce/Fresh.antt =====
-- A fresh nonce is accepted while it lives.
use ax_server.Prelude.{
  ◌∙◌, ℕ, ◌≡◌, true, false, some, not, arith, List, ◌≤◌, ◌∷◌, ◌+◌, test_holds, ◌*◌, [], refl, ◌-◌,
}
use ax_server.Prelude.Dict.{Dict, lookup-insert, lookup-erase}
use ax_server.Prelude.Dict.Laws.{insert-Distinct, lookup-keep_values, keep_values-Distinct}
use ax_server.Prelude.Text.{Str, str_dec}
use ax_server.Auth.Nonce.{
  NonceEntry, NonceStore, is_expired, cleanup, generate, validate, second, ltb,
}
use ax_server.Auth.Nonce.SingleUse.{
  IsValid, Op, gen, val, apply, apply-IsValid, lookup-generate, lookup-validate_ne,
}
use ax_server.Prelude.Dict

-- The calls that leave a fresh nonce alone: they concern other nonces, and come while it lives.
abbrev pub Elsewhere : Str → ℕ → Op → Type 0
Elsewhere n end (gen m now later) = (¬ (m ≡ n)) × (later ≤ end)
Elsewhere n end (val m now) = ¬ (m ≡ n)

abbrev pub AllElsewhere : Str → ℕ → List Op → Type 0
AllElsewhere n end [] = Unit
AllElsewhere n end (op ∷ ops) = Elsewhere n end op × AllElsewhere n end ops

unfoldable pub run : NonceStore → List Op → NonceStore
run s [] = s
run s (op ∷ ops) = run (apply s op).0 ops

abbrev issued : Str → ℕ → NonceEntry
issued n created = record { nonce = n; created_at = created; used = false }

record IsFresh (n : Str) (created ttl : ℕ) (s : NonceStore) : Type 0 where
  valid : IsValid s
  same_ttl : s.ttl ≡ ttl
  found : Dict.lookup str_dec n s.store ≡ some (issued n created)

young :
    (created ttl now : ℕ)
    → now ≤ created + ttl * second
    → ltb (ttl * second) (now - created) ≡ false
young created ttl now h = ground arith

generate-IsFresh :
    (s : NonceStore) (n : Str) (created cleaned : ℕ)
    → IsValid s
    → cleaned ≤ created + s.ttl * second
    → IsFresh n created s.ttl (generate s n created cleaned)
unfolding generate cleanup
generate-IsFresh s n created cleaned v c =
    let d = Dict.insert str_dec n (issued n created) s.store in
    let dd = insert-Distinct str_dec n (issued n created) s.store (v) in
    record {
      valid = keep_values-Distinct str_dec _ d dd;
      same_ttl = refl;
      found =
          lookup-keep_values str_dec (λ e. not (is_expired s.ttl cleaned e)) n d dd
          ∙ rw (
            lookup-insert str_dec n n (issued n created) s.store,
            test_holds (str_dec n n) refl,
            young created s.ttl cleaned c,
          );
    }

ttl-validate : (s : NonceStore) (n : Str) (now : ℕ) → (validate s n now).0.ttl ≡ s.ttl
unfolding validate
ttl-validate s n now = ground arith

apply-IsFresh :
    (s : NonceStore) (n : Str) (created ttl : ℕ) (op : Op)
    → Elsewhere n (created + ttl * second) op
    → IsFresh n created ttl s
    → IsFresh n created ttl (apply s op).0
apply-IsFresh s n created ttl (gen m now later) a f = record {
  valid = apply-IsValid s (gen m now later) f.valid;
  same_ttl = unfold apply generate cleanup in f.same_ttl;
  found =
      unfold apply in
      (lookup-generate s n m now later f.valid a.0
        ∙ rw (f.found, f.same_ttl, young created ttl later a.1));
}
apply-IsFresh s n created ttl (val m now) a f = record {
  valid = apply-IsValid s (val m now) f.valid;
  same_ttl = unfold apply in (ttl-validate s m now ∙ f.same_ttl);
  found = unfold apply in (lookup-validate_ne s n m now a ∙ f.found);
}

run-IsFresh :
    (s : NonceStore) (n : Str) (created ttl : ℕ) (ops : List Op)
    → AllElsewhere n (created + ttl * second) ops
    → IsFresh n created ttl s
    → IsFresh n created ttl (run s ops)
unfolding run
run-IsFresh s n created ttl [] a f = f
run-IsFresh s n created ttl (op ∷ ops) a f =
    run-IsFresh (apply s op).0 n created ttl ops a.1 (apply-IsFresh s n created ttl op a.0 f)

validate-IsFresh :
    (s : NonceStore) (n : Str) (created ttl now : ℕ)
    → IsFresh n created ttl s
    → now ≤ created + ttl * second
    → (validate s n now).1 ≡ true
unfolding validate
validate-IsFresh s n created ttl now f h =
    rw (f.found, f.same_ttl, validate, young created ttl now h)

-- A generated nonce is accepted by a call within the time to live after it, whatever calls on other
-- nonces come between, with clean-ups no later than that.
pub validate-generate :
    (s : NonceStore) (n : Str) (created cleaned now : ℕ) (ops : List Op)
    → IsValid s
    → cleaned ≤ created + s.ttl * second
    → AllElsewhere n (created + s.ttl * second) ops
    → now ≤ created + s.ttl * second
    → (validate (run (generate s n created cleaned) ops) n now).1 ≡ true
validate-generate s n created cleaned now ops v c a h =
    validate-IsFresh _ n created s.ttl now
      (run-IsFresh _ n created s.ttl ops a (generate-IsFresh s n created cleaned v c)) h
