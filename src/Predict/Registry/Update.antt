-- ===== src/Predict/Registry/Update.antt =====
-- What a status update changes: one entry, the first whose address matches up to case.
use ax_server.Prelude.{
  ◌≡◌, ◌⊎◌, refl, Bool, true, false, not, ◌&&◌, Option, none, some, List, [], ◌∷◌, ◌++◌, arith,
  keep_if, All, Bool-cases, inl, inr, ap, ◌∙◌, test_holds,
}
use ax_server.Prelude.Text.{Str, str_dec}
use ax_server.Prelude.Error.{ok, err}
use ax_server.Predict.Registry.{
  RegisteredMarket, RegistryFile, markets_object, get_registered_markets, has_address,
  register_market, matches_address, with_status, update_first, update_market_status,
  not_in_registry,
}
use ax_server.Predict.Registry.Laws.{
  find, any, IsApart, same_address, has_address-own, address_of-own,
}

-- `ys` is `xs` with the first entry that `p` holds of changed by `f`.
pub record Changed (p : RegisteredMarket → Bool) (f : RegisteredMarket → RegisteredMarket)
    (xs ys : List RegisteredMarket) : Type 0 where
  pub before_it : List RegisteredMarket
  pub entry : RegisteredMarket
  pub after_it : List RegisteredMarket
  pub none_before : All (λ m. p m ≡ false) before_it
  pub hit : p entry ≡ true
  pub was : xs ≡ before_it ++ entry ∷ after_it
  pub becomes : ys ≡ before_it ++ f entry ∷ after_it

update_first-cases :
    (p : RegisteredMarket → Bool) (f : RegisteredMarket → RegisteredMarket)
    (xs : List RegisteredMarket)
    → (All (λ m. p m ≡ false) xs × (update_first p f xs ≡ none))
      ⊎ ((ys : List RegisteredMarket) × (update_first p f xs ≡ some ys) × Changed p f xs ys)
unfolding update_first
update_first-cases p f [] = inl (tt, refl)
update_first-cases p f (x ∷ xs) = elim (Bool-cases (p x)) [
  | inl e ↦ inr (
    f x ∷ xs,
    rw e refl,
    record {
      before_it = [];
      entry = x;
      after_it = xs;
      none_before = tt;
      hit = e;
      was = refl;
      becomes = refl;
    },
  )
  | inr e ↦ elim (update_first-cases p f xs) [
    | inl (a, n) ↦ inl ((e, a), rw (e, n) refl)
    | inr (ys, n, c) ↦ inr (
      x ∷ ys,
      rw (e, n) refl,
      record {
        before_it = x ∷ c.before_it;
        entry = c.entry;
        after_it = c.after_it;
        none_before = (e, c.none_before);
        hit = c.hit;
        was = ap (◌∷◌ x) c.was;
        becomes = ap (◌∷◌ x) c.becomes;
      },
    )
  ]
]

pub update_market_status-cases :
    (file : RegistryFile) (addr : Str) (status outcome resolved_at : Option Str)
    → let r = update_market_status file addr status outcome resolved_at in
      let old = get_registered_markets file in
      (All (λ m. matches_address addr m ≡ false) old × (r ≡ (file, err (not_in_registry addr))))
      ⊎ ((r.1 ≡ ok tt)
          × Changed
              (matches_address addr)
              (with_status status outcome resolved_at)
              old
              (get_registered_markets r.0))
unfolding update_market_status get_registered_markets
update_market_status-cases file addr status outcome resolved_at =
    elim (update_first-cases (matches_address addr) (with_status status outcome resolved_at)
      (get_registered_markets file)) [
        | inl (a, n) ↦ inl (a, rw (update_market_status, n) refl)
        | inr (ys, n, c) ↦ inr (rw (update_market_status, n) refl, rw (update_market_status, n) c)
      ]

find-apart :
    (a : Str) (ys : List RegisteredMarket) (m : RegisteredMarket)
    → All (λ n. has_address a n ≡ false) ys
    → has_address a m ≡ true
    → find a (ys ++ m ∷ []) ≡ some m
find-apart a [] m h k = rw k refl
find-apart a (y ∷ ys) m h k = rw h.0 (find-apart a ys m h.1 k)

any-keep_if :
    (p q : RegisteredMarket → Bool) (xs : List RegisteredMarket)
    → any (λ n. p n && q n) xs ≡ true
    → any p (keep_if q xs) ≡ true
any-keep_if p q [] h = h
any-keep_if p q (x ∷ xs) h = ground (arith, any-keep_if p q xs)

keep_if-All :
    (a : Str) (xs : List RegisteredMarket)
    → All (λ n. has_address a n ≡ false) (keep_if (λ n. not (has_address a n)) xs)
keep_if-All a [] = tt
keep_if-All a (x ∷ xs) = ground (arith, keep_if-All a xs)

update_first-append :
    (p : RegisteredMarket → Bool) (f : RegisteredMarket → RegisteredMarket)
    (P : RegisteredMarket → Type 0) (xs zs : List RegisteredMarket)
    → ((m : RegisteredMarket) → P m → P (f m))
    → any p xs ≡ true
    → All P xs
    → (ys : List RegisteredMarket) × (update_first p f (xs ++ zs) ≡ some (ys ++ zs)) × All P ys
unfolding update_first
update_first-append p f P [] zs k h a = absurd (ground arith)
update_first-append p f P (x ∷ xs) zs k h a = elim (Bool-cases (p x)) [
  | inl e ↦ (f x ∷ xs, rw e refl, (k x a.0, a.1))
  | inr e ↦
      let (ys, n, b) = update_first-append p f P xs zs k (ground arith) a.1 in
      (x ∷ ys, rw (e, n) refl, (a.0, b))
]

with_status-has_address :
    (a : Str) (s o r : Option Str) (m : RegisteredMarket)
    → has_address a m ≡ false
    → has_address a (with_status s o r m) ≡ false
unfolding with_status has_address
with_status-has_address a s o r m h = h

register_market-own :
    (file : RegistryFile) (m : RegisteredMarket) (a : Str)
    → m.market_address ≡ some a
    → register_market file m
      ≡ markets_object
          (keep_if (λ n. not (has_address a n)) (get_registered_markets file) ++ m ∷ [])
unfolding register_market
register_market-own file m a h =
    ap
      (λ b.
        markets_object
          (keep_if (λ n. not (has_address b n)) (get_registered_markets file) ++ m ∷ []))
      (address_of-own m a h)

-- When an address is registered whose spelling differs from an older entry's in case only, both
-- stay, and a status update for the new address reports success and leaves the new entry as it was.
pub update_market_status-shadowed :
    (file : RegistryFile) (m : RegisteredMarket) (a : Str) (status outcome resolved_at : Option Str)
    → m.market_address ≡ some a
    → any (λ n. matches_address a n && not (has_address a n)) (get_registered_markets file) ≡ true
    → let r = update_market_status (register_market file m) a status outcome resolved_at in
      (r.1 ≡ ok tt) × (find a (get_registered_markets r.0) ≡ some m)
unfolding update_market_status get_registered_markets
update_market_status-shadowed file m a status outcome resolved_at h old =
    let xs = get_registered_markets file in
    let kept = keep_if (λ n. not (has_address a n)) xs in
    let (ys, n, b) =
      update_first-append (matches_address a) (with_status status outcome resolved_at)
        (λ x. has_address a x ≡ false) kept (m ∷ [])
        (with_status-has_address a status outcome resolved_at)
        (any-keep_if (matches_address a) (λ x. not (has_address a x)) xs old) (keep_if-All a xs) in
    rw (register_market-own file m a h, update_market_status, n)
      (refl, find-apart a ys m b (has_address-own m a a h ∙ test_holds (str_dec a a) refl))

All-swap :
    (Q : RegisteredMarket → Type 0) (xs ys : List RegisteredMarket) (m n : RegisteredMarket)
    → (Q m → Q n)
    → All Q (xs ++ m ∷ ys)
    → All Q (xs ++ n ∷ ys)
All-swap Q [] ys m n f h = (f h.0, h.1)
All-swap Q (x ∷ xs) ys m n f h = (h.0, All-swap Q xs ys m n f h.1)

swap-IsApart :
    (s o r : Option Str) (xs ys : List RegisteredMarket) (m : RegisteredMarket)
    → IsApart (xs ++ m ∷ ys)
    → IsApart (xs ++ with_status s o r m ∷ ys)
unfolding with_status has_address
swap-IsApart s o r [] ys m h = h
swap-IsApart s o r (x ∷ xs) ys m h = (
  All-swap (λ n. same_address x n ≡ false) xs ys m (with_status s o r m) (λ k. k) h.0,
  swap-IsApart s o r xs ys m h.1,
)

-- A status update keeps the addresses of the entries apart.
pub update_market_status-IsApart :
    (file : RegistryFile) (addr : Str) (status outcome resolved_at : Option Str)
    → IsApart (get_registered_markets file)
    → IsApart (get_registered_markets (update_market_status file addr status outcome resolved_at).0)
update_market_status-IsApart file addr status outcome resolved_at h =
    elim (update_market_status-cases file addr status outcome resolved_at) [
      | inl (a, e) ↦ rw e h
      | inr (e, c) ↦
          rw c.becomes (
            swap-IsApart status outcome resolved_at c.before_it c.after_it c.entry (rw (← c.was) h))
    ]
