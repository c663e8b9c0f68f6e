-- ===== src/Share/Cards.antt =====
-- A share card that is created is shown as it was sent: app/api/v1/share.py.
use ax_server.Prelude.{
  ℕ, zero, suc, ◌+◌, ◌/◌, ◌%◌, ◌≡◌, refl, ap, ◌∙◌, arith, Bool, true, false, not, ◌&&◌, some, [],
  ◌∷◌, ◌++◌, All, All-append, ltb, Bool-cases, inl, inr, if◌then◌else◌, ◌==◌, test_holds,
}
use ax_server.Prelude.Int.{ℤ, pos, negsuc}
use ax_server.Prelude.Dict.{Dict, lookup-insert}
use ax_server.Prelude.Text.{Str, strip, lstrip, rstrip, split, is_space, is_empty, str_dec}
use ax_server.Prelude.Text.Search.{decimal, decimal_in}
use ax_server.Chain.Eip7412.{Bytes, int_str}
use ax_server.Share.{
  universal_newlines, CardForm, ShareDir, meta_of, card_id_of, create_share_card, get_share_page,
  get_share_image, page_with, page_of_lines, line_or,
}
use ax_server.Prelude.Dict

-- A text without a line feed and without a carriage return
abbrev pub IsLine : Str → Type 0
IsLine s = All (λ c. ((c == 10) ≡ false) × ((c == 13) ≡ false)) s

split-line : (s : Str) → IsLine s → split 10 s ≡ s ∷ []
unfolding split
split-line [] h = refl
split-line (c ∷ s) h = rw (h.0.0, split-line s h.1) refl

split-more : (s rest : Str) → IsLine s → split 10 (s ++ 10 ∷ rest) ≡ s ∷ split 10 rest
unfolding split
split-more [] rest h = refl
split-more (c ∷ s) rest h = rw (h.0.0, split-more s rest h.1) refl

universal_newlines-line : (s : Str) → IsLine s → universal_newlines false s ≡ s
unfolding universal_newlines
universal_newlines-line [] h = refl
universal_newlines-line (c ∷ s) h = rw (h.0.1, universal_newlines-line s h.1) refl

universal_newlines-more :
    (s rest : Str)
    → IsLine s
    → universal_newlines false (s ++ 10 ∷ rest) ≡ s ++ 10 ∷ universal_newlines false rest
unfolding universal_newlines
universal_newlines-more [] rest h = refl
universal_newlines-more (c ∷ s) rest h = rw (h.0.1, universal_newlines-more s rest h.1) refl

decimal_in-IsLine : (fuel n : ℕ) → IsLine (decimal_in fuel n)
unfolding decimal_in
decimal_in-IsLine zero n = tt
decimal_in-IsLine (suc fuel) n = elim (Bool-cases (ltb n 10)) [
  | inl e ↦ rw e ((ground arith, ground arith), tt)
  | inr e ↦ rw e (
      All-append (λ c. ((c == 10) ≡ false) × ((c == 13) ≡ false)) (decimal_in fuel (n / 10))
        ((48 + n % 10) ∷ []) (decimal_in-IsLine fuel (n / 10)) ((ground arith, ground arith), tt))
]

int_str-IsLine : (i : ℤ) → IsLine (int_str i)
unfolding int_str decimal
int_str-IsLine (pos n) = decimal_in-IsLine (suc n) n
int_str-IsLine (negsuc n) = ((refl, refl), decimal_in-IsLine (suc (n + 1)) (n + 1))

-- A text that begins, or ends, with a character that is no white space
abbrev pub begins_plain : Str → Bool
begins_plain [] = false
begins_plain (c ∷ s) = not (is_space c)

abbrev pub ends_plain : Str → Bool
ends_plain [] = false
ends_plain (c ∷ []) = not (is_space c)
ends_plain (c ∷ d ∷ s) = ends_plain (d ∷ s)

lstrip-plain : (s rest : Str) → begins_plain s ≡ true → lstrip (s ++ rest) ≡ s ++ rest
unfolding lstrip
lstrip-plain [] rest h = absurd (ground arith)
lstrip-plain (c ∷ s) rest h = let e : is_space c ≡ false = ground (arith, h) in rw e refl

rstrip_keeps : (c : ℕ) (s : Str) (d : ℕ) (t : Str) → rstrip s ≡ d ∷ t → rstrip (c ∷ s) ≡ c ∷ d ∷ t
unfolding rstrip
rstrip_keeps c s d t e = elim (Bool-cases (is_space c)) [
  | inl b ↦ ap (λ r. if is_space c && is_empty r then [] else c ∷ r) e ∙ rw b refl
  | inr b ↦ ap (λ r. if is_space c && is_empty r then [] else c ∷ r) e ∙ rw b refl
]

rstrip-plain : (s : Str) → ends_plain s ≡ true → rstrip s ≡ s
unfolding rstrip
rstrip-plain [] h = refl
rstrip-plain (c ∷ []) h = let e : is_space c ≡ false = ground (arith, h) in rw e refl
rstrip-plain (c ∷ d ∷ s) h = rstrip_keeps c (d ∷ s) d s (rstrip-plain (d ∷ s) h)

ends_plain-append : (s rest : Str) → ends_plain rest ≡ true → ends_plain (s ++ rest) ≡ true
ends_plain-append [] rest h = h
ends_plain-append (c ∷ []) [] h = absurd (ground (arith, h))
ends_plain-append (c ∷ []) (r ∷ rest) h = h
ends_plain-append (c ∷ d ∷ s) rest h = ends_plain-append (d ∷ s) rest h

-- Fields of which none has a line feed or a carriage return, and which neither begin nor end with white space
pub record IsPlain (f : CardForm) : Type 0 where
  pub begins : begins_plain f.name ≡ true
  pub ends : ends_plain f.win_pct ≡ true
  pub name_line : IsLine f.name
  pub category_line : IsLine f.category
  pub elo_line : IsLine f.elo
  pub wins_losses_line : IsLine f.wins_losses
  pub win_pct_line : IsLine f.win_pct

-- The part of the file after the name
tail_of : CardForm → Str
tail_of f =
    10
    ∷ (int_str f.rank
        ++ 10 ∷ (f.category ++ 10 ∷ (f.elo ++ 10 ∷ (f.wins_losses ++ 10 ∷ f.win_pct))))

ends_plain-more : (s rest : Str) → ends_plain rest ≡ true → ends_plain (s ++ 10 ∷ rest) ≡ true
ends_plain-more s [] h = absurd (ground (arith, h))
ends_plain-more s (r ∷ rest) h = ends_plain-append s (10 ∷ r ∷ rest) h

meta_of-ends : (f : CardForm) → IsPlain f → ends_plain (meta_of f) ≡ true
unfolding meta_of
meta_of-ends f h = ends_plain-more f.name _ (
    ends_plain-more (int_str f.rank) _ (
      ends_plain-more f.category _
        (ends_plain-more f.elo _ (ends_plain-more f.wins_losses f.win_pct h.ends))))

meta_of-strip : (f : CardForm) → IsPlain f → strip (meta_of f) ≡ meta_of f
unfolding strip meta_of tail_of
meta_of-strip f h =
    ap rstrip (lstrip-plain f.name (tail_of f) h.begins)
    ∙ rstrip-plain (meta_of f) (meta_of-ends f h)

meta_of-read : (f : CardForm) → IsPlain f → universal_newlines false (meta_of f) ≡ meta_of f
unfolding meta_of
meta_of-read f h =
    universal_newlines-more f.name _ h.name_line
    ∙ ap (λ r. f.name ++ 10 ∷ r)
        (universal_newlines-more (int_str f.rank) _ (int_str-IsLine f.rank)
          ∙ ap (λ r. int_str f.rank ++ 10 ∷ r)
              (universal_newlines-more f.category _ h.category_line
                ∙ ap (λ r. f.category ++ 10 ∷ r)
                    (universal_newlines-more f.elo _ h.elo_line
                      ∙ ap (λ r. f.elo ++ 10 ∷ r)
                          (universal_newlines-more f.wins_losses f.win_pct h.wins_losses_line
                            ∙ ap (λ r. f.wins_losses ++ 10 ∷ r)
                                (universal_newlines-line f.win_pct h.win_pct_line)))))

meta_of-split :
    (f : CardForm)
    → IsPlain f
    → split 10 (meta_of f)
      ≡ f.name ∷ int_str f.rank ∷ f.category ∷ f.elo ∷ f.wins_losses ∷ f.win_pct ∷ []
unfolding meta_of
meta_of-split f h =
    split-more f.name _ h.name_line
    ∙ ap (λ r. f.name ∷ r)
        (split-more (int_str f.rank) _ (int_str-IsLine f.rank)
          ∙ ap (λ r. int_str f.rank ∷ r)
              (split-more f.category _ h.category_line
                ∙ ap (λ r. f.category ∷ r)
                    (split-more f.elo _ h.elo_line
                      ∙ ap (λ r. f.elo ∷ r)
                          (split-more f.wins_losses f.win_pct h.wins_losses_line
                            ∙ ap (λ r. f.wins_losses ∷ r) (split-line f.win_pct h.win_pct_line)))))

-- A card that was just created, whose fields have no line feed, no carriage return and neither a name that begins nor a
-- percentage that ends with white space, is shown under its id with the fields as they were sent, and
-- its image is the one that was sent.
pub get_share_page-create_share_card :
    (hexdigest : Str → Str) (dir : ShareDir) (contents : Bytes) (f : CardForm)
    → IsPlain f
    → let after = create_share_card hexdigest dir contents f in
      (get_share_page after.0 after.1.card_id
        ≡ some (
            page_with after.1.card_id f.name
              (int_str f.rank)
              f.category
              f.elo
              f.wins_losses
              f.win_pct))
      × (get_share_image after.0 after.1.card_id ≡ some contents)
unfolding create_share_card get_share_page get_share_image page_of_lines line_or
get_share_page-create_share_card hexdigest dir contents f h =
    let id = card_id_of hexdigest f in
    let own = test_holds (str_dec id id) refl in
    let meta : Dict.lookup str_dec id (Dict.insert str_dec id (meta_of f) dir.metas)
        ≡ some (meta_of f) =
      rw (lookup-insert str_dec id id (meta_of f) dir.metas, own) refl in
    let image : Dict.lookup str_dec id (Dict.insert str_dec id contents dir.images)
        ≡ some contents =
      rw (lookup-insert str_dec id id contents dir.images, own) refl in
    (
      rw (meta, get_share_page, create_share_card)
          (ap (λ ls. some (page_of_lines id ls))
            (ap (λ s. split 10 (strip s)) (meta_of-read f h)
              ∙ ap (split 10) (meta_of-strip f h)
              ∙ meta_of-split f h)),
      image,
    )
