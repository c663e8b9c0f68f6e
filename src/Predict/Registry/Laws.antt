-- ===== src/Predict/Registry/Laws.antt =====
-- Which entries the registry's operations change: registration keeps addresses apart, and a status
-- update touches one entry.
use ax_server.Prelude.{
  ◌≡◌, refl, Bool, true, false, not, ◌||◌, Option, none, some, List, [], ◌∷◌, ◌++◌, arith, keep_if,
  All, All-append, All-keep_if, if◌then◌else◌, Bool-cases, inl, inr, sym, ap, ◌∙◌, test_holds,
  Option-cases, test_fails, of_test,
}
use ax_server.Prelude.Text.{Str, str_eq, str_dec}
use ax_server.Predict.Registry.{
  RegisteredMarket, RegistryFile, get_registered_markets, has_address, address_of, register_market,
}

-- The first entry with an address, spelled the same
abbrev pub find : Str → List RegisteredMarket → Option RegisteredMarket
find addr [] = none
find addr (m ∷ ms) = if has_address addr m then some m else find addr ms

abbrev pub any : (RegisteredMarket → Bool) → List RegisteredMarket → Bool
any p [] = false
any p (m ∷ ms) = p m || any p ms

str_eq-sym : (a b : Str) → str_eq a b ≡ str_eq b a
str_eq-sym a b = elim (str_dec a b) [
  | yes p ↦ test_holds (str_dec a b) p ∙ sym (test_holds (str_dec b a) (sym p))
  | no n ↦ test_fails (str_dec a b) n ∙ sym (test_fails (str_dec b a) (λ q. n (sym q)))
]

pub has_address-own :
    (m : RegisteredMarket) (a b : Str) → m.market_address ≡ some a → has_address b m ≡ str_eq a b
unfolding has_address
has_address-own m a b h = rw h refl

has_address-some :
    (m : RegisteredMarket) (a : Str) → has_address a m ≡ true → m.market_address ≡ some a
unfolding has_address
has_address-some m a h = elim (Option-cases m.market_address) [
  | inl e ↦ absurd (ground arith)
  | inr (c, e) ↦ e ∙ ap some (of_test (str_dec c a) (sym (has_address-own m c a e) ∙ h))
]

pub address_of-own : (m : RegisteredMarket) (a : Str) → m.market_address ≡ some a → address_of m ≡ a
address_of-own m a h = rw h refl

-- Whether two entries have the same address
abbrev pub same_address : RegisteredMarket → RegisteredMarket → Bool
same_address m n = elim m.market_address [ none ↦ false | some a ↦ has_address a n ]

-- No two entries have the same address.
abbrev pub IsApart : List RegisteredMarket → Type 0
IsApart [] = Unit
IsApart (m ∷ ms) = All (λ n. same_address m n ≡ false) ms × IsApart ms

keep_if-IsApart :
    (p : RegisteredMarket → Bool) (ms : List RegisteredMarket) → IsApart ms → IsApart (keep_if p ms)
keep_if-IsApart p [] h = h
keep_if-IsApart p (m ∷ ms) h =
    ground (arith, keep_if-IsApart p ms h.1, All-keep_if (λ n. same_address m n ≡ false) p ms h.0)

append-IsApart :
    (ms : List RegisteredMarket) (m : RegisteredMarket)
    → IsApart ms
    → All (λ n. same_address n m ≡ false) ms
    → IsApart (ms ++ m ∷ [])
append-IsApart [] m h k = (tt, tt)
append-IsApart (x ∷ xs) m h k = (
  All-append (λ n. same_address x n ≡ false) xs (m ∷ []) h.0 (k.0, tt),
  append-IsApart xs m h.1 k.1,
)

apart_of_kept :
    (m x : RegisteredMarket) → not (has_address (address_of m) x) ≡ true → same_address x m ≡ false
apart_of_kept m x h = elim (Option-cases x.market_address) [
  | inl e ↦ rw e refl
  | inr (b, e) ↦ elim (Bool-cases (has_address b m)) [
    | inr f ↦ rw e f
    | inl f ↦
        let own = address_of-own m b (has_address-some m b f) in
        let hit : has_address (address_of m) x ≡ true =
          rw own (has_address-own x b b e ∙ test_holds (str_dec b b) refl) in
        absurd (ground arith)
  ]
]

kept-apart :
    (m : RegisteredMarket) (ms : List RegisteredMarket)
    → All (λ n. same_address n m ≡ false) (keep_if (λ n. not (has_address (address_of m) n)) ms)
kept-apart m [] = tt
kept-apart m (x ∷ xs) = elim (Bool-cases (has_address (address_of m) x)) [
  | inl e ↦ rw e (kept-apart m xs)
  | inr e ↦ rw e (apart_of_kept m x (rw e refl), kept-apart m xs)
]

-- A registration keeps the addresses of the entries apart.
pub register_market-IsApart :
    (file : RegistryFile) (m : RegisteredMarket)
    → IsApart (get_registered_markets file)
    → IsApart (get_registered_markets (register_market file m))
unfolding register_market get_registered_markets
register_market-IsApart file m h =
    append-IsApart _ m (keep_if-IsApart _ (get_registered_markets file) h)
      (kept-apart m (get_registered_markets file))
