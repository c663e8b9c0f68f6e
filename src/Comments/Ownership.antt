-- ===== src/Comments/Ownership.antt =====
-- A deletion takes one comment, and only of the caller.
use ax_server.Prelude.{
  ◌⊎◌, ℕ, suc, ◌+◌, ◌≡◌, refl, Bool, Option, none, some, List, [], ◌∷◌, arith, if◌then◌else◌,
  Bool-cases, Option-cases, inl, inr, not,
}
use ax_server.Prelude.Text.{Str, lower, str_eq}
use ax_server.Prelude.Error.{Result, ok, err}
use ax_server.Comments.{Comment, Files, HttpError, delete_in, delete_comment}

-- How many comments of a file, and of all files, have a property
abbrev pub how_many : (Comment → Bool) → List Comment → ℕ
how_many p [] = 0
how_many p (c ∷ cs) = (if p c then 1 else 0) + how_many p cs

abbrev pub in_all : (Comment → Bool) → Files → ℕ
in_all p [] = 0
in_all p ((m, cs) ∷ files) = how_many p cs + in_all p files

abbrev pub of_caller : Str → Comment → Bool
of_caller wallet c = str_eq (lower c.wallet) (lower wallet)

-- One comment of the caller is gone, and none of another wallet.
abbrev pub TakesOne : Str → (Str → Comment → Bool) → List Comment → List Comment → Type 0
TakesOne wallet own cs kept =
    (how_many (own wallet) cs ≡ suc (how_many (own wallet) kept))
    × (how_many (λ c. not (own wallet c)) cs ≡ how_many (λ c. not (own wallet c)) kept)

abbrev Effect : Str → List Comment → Option (Result HttpError (List Comment)) → Type 0
Effect wallet cs none = Unit
Effect wallet cs (some (err e)) = Unit
Effect wallet cs (some (ok kept)) = TakesOne wallet of_caller cs kept

extend :
    (wallet : Str) (c : Comment) (cs : List Comment) (r : Option (Result HttpError (List Comment)))
    → Effect wallet cs r
    → Effect wallet (c ∷ cs) (elim r [
      | none ↦ none
      | some (err e) ↦ some (err e)
      | some (ok kept) ↦ some (ok (c ∷ kept))
    ])
extend wallet c cs none h = tt
extend wallet c cs (some (err e)) h = tt
extend wallet c cs (some (ok kept)) h = (omega (arith, h.0), omega (arith, h.1))

delete_in-Effect : (id wallet : Str) (cs : List Comment) → Effect wallet cs (delete_in id wallet cs)
unfolding delete_in
delete_in-Effect id wallet [] = tt
delete_in-Effect id wallet (c ∷ cs) =
    let ih = extend wallet c cs (delete_in id wallet cs) (delete_in-Effect id wallet cs) in
    elim (Bool-cases (str_eq c.id id)) [
      | inr e ↦ rw e ih
      | inl e ↦ elim (Bool-cases (of_caller wallet c)) [
        | inr f ↦ rw (e, f) tt
        | inl f ↦ rw (e, f) (ground (arith, f), ground (arith, f))
      ]
    ]

-- A deletion either fails and leaves the files as they are, or takes just one comment of the caller,
-- up to the case of the address, and none of anyone else.
pub delete_comment-own :
    (files : Files) (id wallet : Str)
    → let r = delete_comment files id wallet in
      ((e : HttpError) × (r ≡ (files, err e)))
      ⊎ ((r.1 ≡ ok tt)
          × (in_all (of_caller wallet) files ≡ suc (in_all (of_caller wallet) r.0))
          × (in_all (λ c. not (of_caller wallet c)) files
              ≡ in_all (λ c. not (of_caller wallet c)) r.0))
unfolding delete_comment
delete_comment-own [] id wallet = inl (_, refl)
delete_comment-own ((m, cs) ∷ files) id wallet =
    let effect = delete_in-Effect id wallet cs in
    elim (Option-cases (delete_in id wallet cs)) [
      | inl n ↦ elim (delete_comment-own files id wallet) [
        | inl (e, f) ↦ inl (e, rw (delete_comment, n, f) refl)
        | inr (a, b, c) ↦ inr (
          rw (delete_comment, n) a,
          rw (delete_comment, n) (omega (arith, b)),
          rw (delete_comment, n) (omega (arith, c)),
        )
      ]
      | inr (err e, n) ↦ inl (e, rw (delete_comment, n) refl)
      | inr (ok kept, n) ↦
          let (one, others) : TakesOne wallet of_caller cs kept = rw n at effect in
          inr (
            rw (delete_comment, n) refl,
            rw (delete_comment, n) (omega (arith, one)),
            rw (delete_comment, n) (omega (arith, others)),
          )
    ]
