-- ===== src/Prelude/Dict/Laws.antt =====
-- Dictionaries whose keys are distinct, as Python's always are.
use ax_server.Prelude.{
  suc, length, sym, test_holds, test_fails, ◌≡◌, refl, Bool, none, some, [], ◌∷◌, arith,
  if◌then◌else◌, Option-cases, inl, inr,
}
use ax_server.Prelude.Dict.{Dict, lookup, insert, keep_values, lookup-insert, erase, lookup-erase}

module _ {ℓ κ} {K : Type ℓ} {V : Type κ} (dec : Discrete K) where
  abbrev pub Distinct : Dict K V → Type κ
  Distinct [] = Unit
  Distinct ((k, v) ∷ d) = (lookup dec k d ≡ none) × Distinct d

  pub insert-Distinct : (k : K) (v : V) (d : Dict K V) → Distinct d → Distinct (insert dec k v d)
  insert-Distinct k v [] h = (refl, tt)
  insert-Distinct k v ((j, w) ∷ d) h = elim (dec j k) [
    | yes p ↦ rw (test_holds (dec j k) p) h
    | no n ↦ rw (test_fails (dec j k) n) (
      rw (lookup-insert dec k j v d, test_fails (dec k j) (λ e. n (sym e))) h.0,
      insert-Distinct k v d h.1,
    )
  ]

  pub lookup-keep_values :
      (p : V → Bool) (q : K) (d : Dict K V)
      → Distinct d
      → lookup dec q (keep_values p d)
        ≡ elim (lookup dec q d) [ none ↦ none | some v ↦ if p v then some v else none ]
  lookup-keep_values p q [] h = refl
  lookup-keep_values p q ((j, w) ∷ d) h = ground (arith, lookup-keep_values p q d h.1)

  pub keep_values-Distinct : (p : V → Bool) (d : Dict K V) → Distinct d → Distinct (keep_values p d)
  keep_values-Distinct p [] h = h
  keep_values-Distinct p ((j, w) ∷ d) h =
      ground (arith, keep_values-Distinct p d h.1, lookup-keep_values p j d h.1)

  pub erase-Distinct : (k : K) (d : Dict K V) → Distinct d → Distinct (erase dec k d)
  erase-Distinct k [] h = h
  erase-Distinct k ((j, w) ∷ d) h = ground (arith, erase-Distinct k d h.1, lookup-erase dec k j d)

  pub length-insert :
      (k : K) (v : V) (d : Dict K V)
      → length (insert dec k v d)
        ≡ elim (lookup dec k d) [ none ↦ suc (length d) | some w ↦ length d ]
  length-insert k v [] = refl
  length-insert k v ((j, w) ∷ d) = ground (arith, length-insert k v d)

  erase-absent : (k : K) (d : Dict K V) → lookup dec k d ≡ none → erase dec k d ≡ d
  erase-absent k [] h = refl
  erase-absent k ((j, w) ∷ d) h = ground (arith, erase-absent k d)

  pub length-erase :
      (k : K) (d : Dict K V)
      → Distinct d
      → elim (lookup dec k d) [
        | none ↦ length (erase dec k d)
        | some w ↦ suc (length (erase dec k d))
      ]
        ≡ length d
  length-erase k [] h = refl
  length-erase k ((j, w) ∷ d) h =
      let ih = length-erase k d h.1 in
      elim (dec j k) [
        | yes e ↦
            let gone : lookup dec k d ≡ none = rw (← e) h.0 in
            rw (test_holds (dec j k) e) (rw (test_holds (dec j k) e, erase-absent k d gone) refl)
        | no n ↦ rw (test_fails (dec j k) n) (elim (Option-cases (lookup dec k d)) [
          | inl f ↦ rw f (rw (test_fails (dec j k) n) (omega (arith, (rw f at ih))))
          | inr (v, f) ↦ rw f (rw (test_fails (dec j k) n) (omega (arith, (rw f at ih))))
        ])
      ]
