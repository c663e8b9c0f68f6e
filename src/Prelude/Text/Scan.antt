-- ===== src/Prelude/Text/Scan.antt =====
-- Searching in a text that is put together from parts.
use ax_server.Prelude.{
  ℕ, ◌≤◌, ◌≡◌, refl, Bool, true, false, Option, none, List, [], ◌∷◌, ◌++◌, arith, ◌==◌, All, length,
  ap, ◌∙◌, drop, some,
}
use ax_server.Prelude.Text.{Str, is_empty, is_space, rstrip, split, push_front, starts_with}
use ax_server.Prelude.Text.Search.{search, run_of, tagged}

pub append-ne : (xs : Str) (c : ℕ) (ys : Str) → is_empty (xs ++ c ∷ ys) ≡ false
append-ne [] c ys = refl
append-ne (x ∷ xs) c ys = refl

search-step :
    (m : Str → Option Str) (x : ℕ) (s : Str) → m (x ∷ s) ≡ none → search m (x ∷ s) ≡ search m s
unfolding search
search-step m x s h = rw (search, h) refl

tagged-first :
    (c : ℕ) (prefix : Str) (p : ℕ → Bool) (x : ℕ) (s : Str)
    → (c == x) ≡ false
    → tagged (c ∷ prefix) p (x ∷ s) ≡ none
unfolding tagged starts_with
tagged-first c prefix p x s h = ground (arith, h)

tagged-second :
    (c d : ℕ) (prefix : Str) (p : ℕ → Bool) (x y : ℕ) (s : Str)
    → (d == y) ≡ false
    → tagged (c ∷ d ∷ prefix) p (x ∷ y ∷ s) ≡ none
unfolding tagged starts_with
tagged-second c d prefix p x y s h = ground (arith, h)

-- A part without the pattern's first character is passed over.
pub search-skip_first :
    (c : ℕ) (prefix : Str) (p : ℕ → Bool) (xs ys : Str)
    → All (λ d. (c == d) ≡ false) xs
    → search (tagged (c ∷ prefix) p) (xs ++ ys) ≡ search (tagged (c ∷ prefix) p) ys
search-skip_first c prefix p [] ys h = refl
search-skip_first c prefix p (x ∷ xs) ys h =
    search-step (tagged (c ∷ prefix) p) x (xs ++ ys) (tagged-first c prefix p x (xs ++ ys) h.0)
    ∙ search-skip_first c prefix p xs ys h.1

-- A part without the pattern's second character is passed over, if what follows does not start with
-- it either.
pub search-skip_second :
    (c d : ℕ) (prefix : Str) (p : ℕ → Bool) (xs : Str) (y : ℕ) (ys : Str)
    → All (λ e. (d == e) ≡ false) xs
    → (d == y) ≡ false
    → search (tagged (c ∷ d ∷ prefix) p) (xs ++ y ∷ ys)
      ≡ search (tagged (c ∷ d ∷ prefix) p) (y ∷ ys)
search-skip_second c d prefix p [] y ys h k = refl
search-skip_second c d prefix p (x ∷ []) y ys h k =
    search-step (tagged (c ∷ d ∷ prefix) p) x (y ∷ ys) (tagged-second c d prefix p x y ys k)
search-skip_second c d prefix p (x ∷ z ∷ xs) y ys h k =
    search-step (tagged (c ∷ d ∷ prefix) p) x (z ∷ (xs ++ y ∷ ys))
      (tagged-second c d prefix p x z (xs ++ y ∷ ys) h.1.0)
    ∙ search-skip_second c d prefix p (z ∷ xs) y ys h.1 k

-- A run ends at the first character outside its class, or with the text.
pub run_of-append :
    (p : ℕ → Bool) (xs : Str) (c : ℕ) (ys : Str)
    → All (λ d. p d ≡ true) xs
    → p c ≡ false
    → run_of p (xs ++ c ∷ ys) ≡ xs
unfolding run_of
run_of-append p [] c ys h k = rw k refl
run_of-append p (x ∷ xs) c ys h k = rw h.0 (ap (λ r. x ∷ r) (run_of-append p xs c ys h.1 k))

pub run_of_whole : (p : ℕ → Bool) (xs : Str) → All (λ d. p d ≡ true) xs → run_of p xs ≡ xs
unfolding run_of
run_of_whole p [] h = refl
run_of_whole p (x ∷ xs) h = rw h.0 (ap (λ r. x ∷ r) (run_of_whole p xs h.1))

-- The piece before a separator
pub split-append :
    (sep : ℕ) (xs ys : Str)
    → All (λ d. (d == sep) ≡ false) xs
    → split sep (xs ++ sep ∷ ys) ≡ xs ∷ split sep ys
unfolding split
split-append sep [] ys h = ground arith
split-append sep (x ∷ xs) ys h = rw h.0 (ap (push_front x) (split-append sep xs ys h.1))

length-push_front-pos : (c : ℕ) (pieces : List Str) → 1 ≤ length (push_front c pieces)
length-push_front-pos c [] = omega arith
length-push_front-pos c (x ∷ pieces) = omega arith

-- A text has at least one piece.
pub length-split-pos : (sep : ℕ) (s : Str) → 1 ≤ length (split sep s)
unfolding split
length-split-pos sep [] = omega arith
length-split-pos sep (c ∷ s) = ground (arith, length-push_front-pos c (split sep s))

pub rstrip_self : (s : Str) → All (λ c. is_space c ≡ false) s → rstrip s ≡ s
unfolding rstrip
rstrip_self [] h = refl
rstrip_self (c ∷ s) h = rw h.0 (ap (λ r. c ∷ r) (rstrip_self s h.1))

rstrip-step : (c : ℕ) (s t : Str) → rstrip s ≡ t → is_empty t ≡ false → rstrip (c ∷ s) ≡ c ∷ t
unfolding rstrip
rstrip-step c s t h k = rw h (ground (arith, k))

append-ne_right : (xs s : Str) → is_empty s ≡ false → is_empty (xs ++ s) ≡ false
append-ne_right [] s h = h
append-ne_right (x ∷ xs) s h = refl

-- Nothing is stripped from the end of a text whose last part is left as it is.
pub rstrip-append : (xs s : Str) → rstrip s ≡ s → is_empty s ≡ false → rstrip (xs ++ s) ≡ xs ++ s
rstrip-append [] s h k = h
rstrip-append (x ∷ xs) s h k =
    rstrip-step x (xs ++ s) (xs ++ s) (rstrip-append xs s h k) (append-ne_right xs s k)

starts_with-append : (prefix s : Str) → starts_with prefix (prefix ++ s) ≡ true
unfolding starts_with
starts_with-append [] s = refl
starts_with-append (c ∷ prefix) s = ground (arith, starts_with-append prefix s)

drop-append : (xs s : Str) → drop (length xs) (xs ++ s) ≡ s
drop-append [] s = refl
drop-append (x ∷ xs) s = drop-append xs s

pub search-found :
    (m : Str → Option Str) (x : ℕ) (s a : Str) → m (x ∷ s) ≡ some a → search m (x ∷ s) ≡ some a
unfolding search
search-found m x s a h = rw (search, h) refl

-- A search finds the run behind a prefix where it stands.
pub search-tagged :
    (c : ℕ) (prefix : Str) (p : ℕ → Bool) (s run : Str)
    → run_of p s ≡ run
    → is_empty run ≡ false
    → search (tagged (c ∷ prefix) p) ((c ∷ prefix) ++ s) ≡ some run
unfolding tagged
search-tagged c prefix p s run h k =
    search-found (tagged (c ∷ prefix) p) c (prefix ++ s) run
      (rw (starts_with-append (c ∷ prefix) s, drop-append (c ∷ prefix) s, h, k) refl)
