-- ===== src/Prelude/Dict.antt =====
-- A Python dict in insertion order, over keys with a decidable equality.
pub mod Laws
use ax_server.Prelude.{
  ◌≡◌, refl, Option, none, some, List, [], ◌∷◌, arith, test, if◌then◌else◌, Bool,
}

abbrev pub Dict {ℓ κ} : Type ℓ → Type κ → Type (ℓ ⊔ κ)
Dict K V = List (K × V)

-- The entries whose values pass a test: a dict after the others were deleted one by one.
abbrev pub keep_values {ℓ κ} : {K : Type ℓ} {V : Type κ} → (V → Bool) → Dict K V → Dict K V
keep_values p [] = []
keep_values p ((k, v) ∷ d) = if p v then (k, v) ∷ keep_values p d else keep_values p d

module _ {ℓ κ} {K : Type ℓ} {V : Type κ} (dec : Discrete K) where
  -- `d.get(k)`
  abbrev pub lookup : K → Dict K V → Option V
  lookup k [] = none
  lookup k ((j, v) ∷ d) = if test (dec j k) then some v else lookup k d

  -- `d[k] = v`: an old key keeps its place
  abbrev pub insert : K → V → Dict K V → Dict K V
  insert k v [] = (k, v) ∷ []
  insert k v ((j, w) ∷ d) = if test (dec j k) then (j, v) ∷ d else (j, w) ∷ insert k v d

  -- `del d[k]`, and `d.pop(k, None)`
  abbrev pub erase : K → Dict K V → Dict K V
  erase k [] = []
  erase k ((j, w) ∷ d) = if test (dec j k) then erase k d else (j, w) ∷ erase k d

  pub lookup-insert :
      (k q : K) (v : V) (d : Dict K V)
      → lookup q (insert k v d) ≡ (if test (dec k q) then some v else lookup q d)
  lookup-insert k q v [] = refl
  lookup-insert k q v ((j, w) ∷ d) = ground (arith, lookup-insert k q v d)

  pub lookup-erase :
      (k q : K) (d : Dict K V)
      → lookup q (erase k d) ≡ (if test (dec k q) then none else lookup q d)
  lookup-erase k q [] = ground arith
  lookup-erase k q ((j, w) ∷ d) = ground (arith, lookup-erase k q d)
