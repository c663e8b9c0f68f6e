-- ===== src/Comments/Listing.antt =====
-- `list_comments` of app/api/v1/comments.py: the newest comments first, and a slice of them.
use mathlib.Core.List.Perm
use ax_server.Prelude.{
  ℕ, ◌+◌, ◌-◌, ◌≤◌, List, [], ◌∷◌, leb, All, length, take, drop, if◌then◌else◌, min, arith,
  Bool-cases, ◌≡◌, inl, suc, leb→le, inr, ap, zero, refl, sym,
}
use ax_server.Prelude.Int.{ℤ, pos, negsuc, minus}
use ax_server.Comments.{Comment, Files, load}
use mathlib.Core.List.{Perm}

-- A comment before the first that is not newer than it: the sort is stable, also when reversed.
unfoldable pub insert_newest : Comment → List Comment → List Comment
insert_newest c [] = c ∷ []
insert_newest c (d ∷ ds) =
    let rest = insert_newest c ds in if leb d.timestamp c.timestamp then c ∷ d ∷ ds else d ∷ rest

-- `comments.sort(key=..., reverse=True)`
unfoldable pub sort_newest : List Comment → List Comment
sort_newest [] = []
sort_newest (c ∷ cs) = insert_newest c (sort_newest cs)

-- A bound of a slice of a list of some length: a negative one counts from the end.
unfoldable pub slice_bound : ℕ → ℤ → ℕ
slice_bound len (pos n) = min n len
slice_bound len (negsuc n) = len - (n + 1)

-- `xs[start:stop]`
unfoldable pub slice {ℓ} : {A : Type ℓ} → List A → ℤ → ℤ → List A
slice xs start stop =
    let first = slice_bound (length xs) start in
    take (slice_bound (length xs) stop - first) (drop first xs)

unfoldable pub add_int : ℤ → ℤ → ℤ
add_int (pos a) (pos b) = pos (a + b)
add_int (pos a) (negsuc b) = minus a (b + 1)
add_int (negsuc a) (pos b) = minus b (a + 1)
add_int (negsuc a) (negsuc b) = negsuc (a + b + 1)

-- `list_comments`
unfoldable pub list_comments : Files → ℕ → ℤ → ℤ → List Comment
list_comments files market_id limit offset =
    slice (sort_newest (load files market_id)) offset (add_int offset limit)

-- Each comment is at least as new as those after it.
abbrev pub IsNewestFirst : List Comment → Type 0
IsNewestFirst [] = Unit
IsNewestFirst (c ∷ cs) = All (λ d. d.timestamp ≤ c.timestamp) cs × IsNewestFirst cs

insert_newest-All :
    (t : ℕ) (c : Comment) (cs : List Comment)
    → c.timestamp ≤ t
    → All (λ d. d.timestamp ≤ t) cs
    → All (λ d. d.timestamp ≤ t) (insert_newest c cs)
unfolding insert_newest
insert_newest-All t c [] h k = (h, tt)
insert_newest-All t c (d ∷ ds) h k = ground (arith, insert_newest-All t c ds h k.1)

All-le :
    (t u : ℕ) (cs : List Comment)
    → t ≤ u
    → All (λ d. d.timestamp ≤ t) cs
    → All (λ d. d.timestamp ≤ u) cs
All-le t u [] h k = tt
All-le t u (c ∷ cs) h k = (omega (arith, h, k.0), All-le t u cs h k.1)

insert_newest-IsNewestFirst :
    (c : Comment) (cs : List Comment) → IsNewestFirst cs → IsNewestFirst (insert_newest c cs)
unfolding insert_newest
insert_newest-IsNewestFirst c [] h = (tt, tt)
insert_newest-IsNewestFirst c (d ∷ ds) h = elim (Bool-cases (leb d.timestamp c.timestamp)) [
  | inl e ↦
      let le = leb→le d.timestamp c.timestamp e in
      rw e ((le, All-le d.timestamp c.timestamp ds le h.0), h)
  | inr e ↦
      rw e (
        insert_newest-All d.timestamp c ds (ground arith) h.0,
        insert_newest-IsNewestFirst c ds h.1,
      )
]

sort_newest-IsNewestFirst : (cs : List Comment) → IsNewestFirst (sort_newest cs)
unfolding sort_newest
sort_newest-IsNewestFirst [] = tt
sort_newest-IsNewestFirst (c ∷ cs) =
    insert_newest-IsNewestFirst c (sort_newest cs) (sort_newest-IsNewestFirst cs)

insert_newest-perm : (c : Comment) (cs : List Comment) → Perm (insert_newest c cs) (c ∷ cs)
unfolding insert_newest
insert_newest-perm c [] = Perm.rfl
insert_newest-perm c (d ∷ ds) = elim (Bool-cases (leb d.timestamp c.timestamp)) [
  | inl e ↦ rw e Perm.rfl
  | inr e ↦ rw e (Perm.trans (Perm.cons d (insert_newest-perm c ds)) (Perm.swap c d ds))
]

sort_newest-perm : (cs : List Comment) → Perm (sort_newest cs) cs
unfolding sort_newest
sort_newest-perm [] = Perm.rfl
sort_newest-perm (c ∷ cs) =
    Perm.trans (insert_newest-perm c (sort_newest cs)) (Perm.cons c (sort_newest-perm cs))

take_nil : (n : ℕ) → take {A = Comment} n [] ≡ []
take_nil zero = refl
take_nil (suc n) = refl

take-min : (n : ℕ) (xs : List Comment) → take (min n (length xs)) xs ≡ take n xs
take-min zero xs = let e : min 0 (length xs) ≡ 0 = omega arith in rw e refl
take-min (suc n) [] = let e : min (suc n) 0 ≡ 0 = omega arith in rw e refl
take-min (suc n) (x ∷ xs) =
    let e : min (suc n) (suc (length xs)) ≡ suc (min n (length xs)) = omega arith in
    rw e (ap (λ r. x ∷ r) (take-min n xs))

slice_plain :
    (offset limit : ℕ) (xs : List Comment)
    → take
        (min (offset + limit) (length xs) - min offset (length xs))
        (drop (min offset (length xs)) xs)
      ≡ take limit (drop offset xs)
slice_plain zero limit xs =
    let e : min 0 (length xs) ≡ 0 = omega arith in
    let f : min (0 + limit) (length xs) - min 0 (length xs) ≡ min limit (length xs) = omega arith in
    rw (f, e) (take-min limit xs)
slice_plain (suc o) limit [] =
    let f : min (suc o + limit) 0 - min (suc o) 0 ≡ 0 = omega arith in rw f (sym (take_nil limit))
slice_plain (suc o) limit (x ∷ xs) =
    let e : min (suc o) (suc (length xs)) ≡ suc (min o (length xs)) = omega arith in
    let f : min (suc o + limit) (suc (length xs)) - min (suc o) (suc (length xs))
        ≡ min (o + limit) (length xs) - min o (length xs) =
      omega arith in
    rw (f, e) (slice_plain o limit xs)

-- All the pages of a market's comments are cut from one list, which has each stored comment once and
-- the newest first: a page of a limit and an offset that are not negative is what stands there from
-- the offset on, up to the limit.
pub list_comments-pages :
    (files : Files) (market_id : ℕ)
    → (sorted : List Comment) × Perm sorted (load files market_id)
      × IsNewestFirst sorted
      × ((limit offset : ℕ)
          → list_comments files market_id (pos limit) (pos offset)
            ≡ take limit (drop offset sorted))
unfolding list_comments slice slice_bound add_int
list_comments-pages files market_id =
    let stored = load files market_id in
    (
      sort_newest stored,
      sort_newest-perm stored,
      sort_newest-IsNewestFirst stored,
      λ limit offset. slice_plain offset limit (sort_newest stored),
    )
