-- ===== src/Chain/Subgraph/Pages.antt =====
-- The pages of `get_all_pairs` of app/chain/subgraph.py: all pairs are fetched, in finitely many queries.
use ax_server.Prelude.{
  append_nil, append_assoc, ℕ, zero, suc, ◌≤◌, ◌<◌, ◌≡◌, refl, sym, ap, ◌∙◌, arith, Bool, true,
  false, some, List, [], ◌∷◌, ◌++◌, keep_if, take, drop, length, All, Bool-cases, inl, inr, ltb,
  ltb→lt,
}
use mathlib.Core.Path.{subst}
use ax_server.Prelude.Text.{Str}
use ax_server.Prelude.Error.{Result, ok}
use ax_server.Chain.Subgraph.{Pair, batch_size, last_id, get_pages, get_all_pairs}

module _ (lt : Str → Str → Bool) where
  abbrev pub IsAfter : Str → Pair → Type 0
  IsAfter id p = lt id p.id ≡ true

  -- Each pair stands before those with a later id.
  abbrev pub IsAscending : List Pair → Type 0
  IsAscending [] = Unit
  IsAscending (p ∷ ps) = All (IsAfter p.id) ps × IsAscending ps

  -- A database whose pairs are in the order of their ids, of which none is empty, and a query for the
  -- first pairs after an id
  pub record Answers (pairs : List Pair) (query : Str → ℕ → Result Str (List Pair)) : Type 0 where
    pub asymmetric : (a b : Str) → lt a b ≡ true → lt b a ≡ false
    pub ascending : IsAscending pairs
    pub nonempty : All (IsAfter []) pairs
    pub pages :
        (last : Str) (n : ℕ) → query last n ≡ ok (take n (keep_if (λ p. lt last p.id) pairs))

  keep-All : (id : Str) (ps : List Pair) → All (IsAfter id) ps → keep_if (λ p. lt id p.id) ps ≡ ps
  keep-All id [] h = refl
  keep-All id (p ∷ ps) h = rw (h.0) (ap (λ r. p ∷ r) (keep-All id ps h.1))

  All-front : (P : Pair → Type 0) (xs ys : List Pair) → All P (xs ++ ys) → All P xs
  All-front P [] ys h = tt
  All-front P (x ∷ xs) ys h = (h.0, All-front P xs ys h.1)

  module _ (asymmetric : (a b : Str) → lt a b ≡ true → lt b a ≡ false) where
    below_last :
        (a b : Str) (ps : List Pair)
        → lt a b ≡ true
        → All (IsAfter a) ps
        → lt (last_id b ps) a ≡ false
    unfolding last_id
    below_last a b [] h k = asymmetric a b h
    below_last a b (p ∷ ps) h k = below_last a p.id ps k.0 k.1

    irreflexive : (a : Str) → lt a a ≡ false
    irreflexive a = elim (Bool-cases (lt a a)) [ inl e ↦ asymmetric a a e | inr e ↦ e ]

    own_last : (a : Str) (ps : List Pair) → All (IsAfter a) ps → lt (last_id a ps) a ≡ false
    unfolding last_id
    own_last a [] h = irreflexive a
    own_last a (p ∷ ps) h = below_last a p.id ps h.0 h.1

    -- The pairs after the last of those seen are the rest.
    keep_rest :
        (a : Str) (seen rest : List Pair)
        → All (IsAfter a) (seen ++ rest)
        → IsAscending (seen ++ rest)
        → keep_if (λ p. lt (last_id a seen) p.id) (seen ++ rest) ≡ rest
    unfolding last_id
    keep_rest a [] rest h k = keep-All a rest h
    keep_rest a (p ∷ seen) rest h k =
        rw (own_last p.id seen (All-front (IsAfter p.id) seen rest k.0))
          (keep_rest p.id seen rest k.0 k.1)

  last_id-append : (a : Str) (xs ys : List Pair) → last_id a (xs ++ ys) ≡ last_id (last_id a xs) ys
  unfolding last_id
  last_id-append a [] ys = refl
  last_id-append a (x ∷ xs) ys = last_id-append x.id xs ys

take-drop : {A : Type 0} (n : ℕ) (xs : List A) → take n xs ++ drop n xs ≡ xs
take-drop zero xs = refl
take-drop (suc n) [] = refl
take-drop (suc n) (x ∷ xs) = ap (λ r. x ∷ r) (take-drop n xs)

take-short : {A : Type 0} (n : ℕ) (xs : List A) → length (take n xs) < n → take n xs ≡ xs
take-short zero xs h = absurd (omega (arith, h))
take-short (suc n) [] h = refl
take-short (suc n) (x ∷ xs) h = ap (λ r. x ∷ r) (take-short n xs (omega (arith, h)))

length-drop-le : {A : Type 0} (n : ℕ) (xs : List A) → length (drop n xs) ≤ length xs
length-drop-le zero xs = omega arith
length-drop-le (suc n) [] = omega arith
length-drop-le (suc n) (x ∷ xs) = omega (arith, length-drop-le n xs)

module _ (lt : Str → Str → Bool) (pairs : List Pair) (query : Str → ℕ → Result Str (List Pair))
    (server : Answers lt pairs query) where
  next_page :
      (seen rest : List Pair)
      → seen ++ rest ≡ pairs
      → query (last_id [] seen) batch_size ≡ ok (take batch_size rest)
  next_page seen rest same =
      server.pages (last_id [] seen) batch_size
      ∙ ap (λ ps. ok (take batch_size ps))
          (ap (keep_if (λ p. lt (last_id [] seen) p.id)) (sym same)
            ∙ keep_rest lt server.asymmetric [] seen rest
                (subst (All (IsAfter lt [])) (sym same) server.nonempty)
                (subst (IsAscending lt) (sym same) server.ascending))

  get_pages_complete :
      (fuel : ℕ) (seen rest : List Pair)
      → seen ++ rest ≡ pairs
      → length rest < fuel
      → get_pages query fuel (last_id [] seen) seen ≡ some (ok pairs)
  unfolding get_pages
  get_pages_complete zero seen rest same h = absurd (omega (arith, h))
  get_pages_complete (suc fuel) seen [] same h =
      rw (next_page seen [] same, get_pages)
        (ap (λ ps. some (ok ps)) (sym (append_nil seen) ∙ same))
  get_pages_complete (suc fuel) seen (r ∷ rs) same h =
      let batch = take batch_size (r ∷ rs) in
      elim (Bool-cases (ltb (length batch) batch_size)) [
        | inl e ↦
            rw (next_page seen (r ∷ rs) same, get_pages, e)
              (ap (λ ps. some (ok ps))
                (ap (λ b. seen ++ b)
                    (take-short batch_size (r ∷ rs) (ltb→lt (length batch) batch_size e))
                  ∙ same))
        | inr e ↦
            rw (next_page seen (r ∷ rs) same, get_pages, e)
              (ap (λ id. get_pages query fuel id (seen ++ batch))
                  (sym (last_id-append lt [] seen batch))
                ∙ get_pages_complete fuel (seen ++ batch) (drop batch_size (r ∷ rs))
                    (append_assoc seen batch (drop batch_size (r ∷ rs))
                      ∙ ap (λ ps. seen ++ ps) (take-drop batch_size (r ∷ rs))
                      ∙ same)
                    (omega (arith, h, length-drop-le 999 rs)))
      ]

  -- Where the subgraph gives its pairs in the order of their ids, page by page, the loop ends after at
  -- most one query more than there are pairs, and gives all of them, each once and in order.
  pub get_all_pairs_complete :
      (fuel : ℕ) → length pairs < fuel → get_all_pairs query fuel ≡ some (ok pairs)
  unfolding get_all_pairs last_id
  get_all_pairs_complete fuel h = get_pages_complete fuel [] pairs refl h
