-- ===== src/Spot/Pages.antt =====
-- The pages of `list_spot_markets` of app/api/v1/spot.py: no market between two pages is skipped.
use ax_server.Prelude.{
  ℕ, zero, suc, ◌+◌, ◌≤◌, ◌≡◌, ◌⊎◌, refl, sym, ap, ◌∙◌, arith, false, some, List, [], ◌∷◌, ◌++◌,
  length, length-append, Bool-cases, inl, inr, leb, append_nil, append_assoc, Option, true, ◌&&◌,
  ltb, if◌then◌else◌, none,
}
use mathlib.Core.Path.{subst}
use ax_server.Prelude.Text.{Str}
use ax_server.Prelude.Error.{ok, err, Result-cases}
use ax_server.Spot.{
  SpotReads, SpotMarket, Scan, read_market, scan_markets, max_misses, list_spot_markets, decimal,
  page_of, start_id, max_market_scan, empty_scan, cursor_text,
}

module _ (reads : SpotReads) where
  -- The markets that can be read among some ids from one on
  unfoldable pub readable : ℕ → ℕ → List SpotMarket
  readable zero mid = []
  readable (suc n) mid =
      let rest = readable n (mid + 1) in
      elim (read_market reads mid) [ ok m ↦ m ∷ rest | err e ↦ rest ]

  -- What a scan has seen when it ends, having read some ids: the markets among these that can be read,
  -- up to the limit; where it ends by the limit, the last market found has the last id.
  record IsScan (limit mid : ℕ) (before after : Scan) (n : ℕ) : Type 0 where
    same : after.markets ≡ before.markets ++ readable n mid
    short : length before.markets ≤ limit → length after.markets ≤ limit
    last :
        limit ≤ length after.markets
        → (limit ≤ length before.markets)
          ⊎ ((id : ℕ) × (after.last_found_id ≡ some id) × (id + 1 ≡ mid + n))
    stops : limit ≤ length before.markets → (after ≡ before) × (n ≡ 0)

  stopped : (limit mid : ℕ) (s : Scan) → IsScan limit mid s s 0
  unfolding readable
  stopped limit mid s = record {
    same = sym (append_nil s.markets);
    short = λ h. h;
    last = λ h. inl h;
    stops = λ h. (refl, refl);
  }

  -- A miss is read and adds no market.
  missed_one :
      (limit mid n : ℕ) (e : Str) (before missed after : Scan)
      → leb limit (length before.markets) ≡ false
      → read_market reads mid ≡ err e
      → missed.markets ≡ before.markets
      → IsScan limit (mid + 1) missed after n
      → IsScan limit mid before after (suc n)
  unfolding readable
  missed_one limit mid n e before missed after more r unchanged ih = record {
    same =
        ih.same
        ∙ ap (λ ms. ms ++ readable n (mid + 1)) unchanged
        ∙ ap (λ ms. before.markets ++ ms) (sym (rw (r, readable) refl));
    short = λ h. ih.short (subst (λ ms. length ms ≤ limit) (sym unchanged) h);
    last = λ h. elim (ih.last h) [
      | inl full ↦ inl (subst (λ ms. limit ≤ length ms) unchanged full)
      | inr (id, is, next) ↦ inr (id, is, omega (arith, next))
    ];
    stops = λ h. absurd (ground (arith, more, h));
  }

  found_one :
      (limit mid n : ℕ) (m : SpotMarket) (before after : Scan)
      → leb limit (length before.markets) ≡ false
      → read_market reads mid ≡ ok m
      → IsScan limit
          (mid + 1)
          (record {
            markets = before.markets ++ m ∷ [];
            consecutive_misses = 0;
            last_found_id = some mid;
          })
          after
          n
      → IsScan limit mid before after (suc n)
  unfolding readable
  found_one limit mid n m before after more r ih = record {
    same =
        ih.same
        ∙ append_assoc before.markets (m ∷ []) (readable n (mid + 1))
        ∙ ap (λ ms. before.markets ++ ms) (sym (rw (r, readable) refl));
    short = λ h. ih.short (ground (arith, more, length-append before.markets (m ∷ [])));
    last = λ h. elim (ih.last h) [
      | inl full ↦
          let (ended, none_left) = ih.stops full in
          inr (mid, ap (λ a. a.last_found_id) ended, omega (arith, none_left))
      | inr (id, is, next) ↦ inr (id, is, omega (arith, next))
    ];
    stops = λ h. absurd (ground (arith, more, h));
  }

  scan_markets-IsScan :
      (limit left mid : ℕ) (s : Scan)
      → (n : ℕ) × (n ≤ left) × IsScan limit mid s (scan_markets reads limit left mid s) n
  unfolding scan_markets
  scan_markets-IsScan limit zero mid s = (0, omega arith, stopped limit mid s)
  scan_markets-IsScan limit (suc left) mid s = elim (Bool-cases (leb limit (length s.markets))) [
    | inl full ↦ rw (full, scan_markets) (0, omega arith, stopped limit mid s)
    | inr more ↦ elim (Result-cases (read_market reads mid)) [
      | inl (m, r) ↦
          let (n, few, ih) = scan_markets-IsScan limit left (mid + 1) (record {
            markets = s.markets ++ m ∷ [];
            consecutive_misses = 0;
            last_found_id = some mid;
          }) in
          rw (more, r, scan_markets)
            (suc n, omega (arith, few), found_one limit mid n m s _ more r ih)
      | inr (x, r) ↦
          let missed : Scan = record s { consecutive_misses = s.consecutive_misses + 1 } in
          elim (Bool-cases (leb max_misses (s.consecutive_misses + 1))) [
            | inl done ↦
                rw (more, r, done, scan_markets)
                  (
                    1,
                    omega arith,
                    missed_one limit mid 0 x s missed missed more r refl
                        (stopped limit (mid + 1) missed),
                  )
            | inr going ↦
                let (n, few, ih) = scan_markets-IsScan limit left (mid + 1) missed in
                rw (more, r, going, scan_markets)
                  (suc n, omega (arith, few), missed_one limit mid n x s missed _ more r refl ih)
          ]
    ]
  ]

  readable-append : (n k mid : ℕ) → readable n mid ++ readable k (mid + n) ≡ readable (n + k) mid
  unfolding readable
  readable-append zero k mid =
      let same : mid + 0 ≡ mid = omega arith in
      let count : k ≡ 0 + k = omega arith in
      ap (λ i. readable k i) same ∙ ap (λ n. readable n mid) count
  readable-append (suc n) k mid =
      let same : mid + suc n ≡ mid + 1 + n = omega arith in
      let count : suc (n + k) ≡ suc n + k = omega arith in
      let ih =
        ap (λ i. readable n (mid + 1) ++ readable k i) same ∙ readable-append n k (mid + 1) in
      elim (Result-cases (read_market reads mid)) [
        | inl (m, r) ↦ rw (← count, r, readable) (ap (λ ms. m ∷ ms) ih)
        | inr (x, r) ↦ rw (← count, r, readable) ih
      ]

  -- A full page whose cursor is an id, and which holds, with the page from that cursor on, the markets
  -- that can be read among an unbroken run of ids
  pub record IsFollowed (cursor : Option ℕ) (limit next_limit : ℕ) : Type 0 where
    pub id : ℕ
    pub cursor_is : (list_spot_markets reads cursor limit).next_cursor ≡ some (decimal id)
    pub full : length (list_spot_markets reads cursor limit).markets ≡ limit
    pub count : ℕ
    pub unbroken :
        (list_spot_markets reads cursor limit).markets
          ++ (list_spot_markets reads (some id) next_limit).markets
        ≡ readable count (start_id cursor)

  -- A page of at least one market that says that there are more is full, and its cursor is an id. With
  -- the page from that cursor on, of any size, it holds just the markets that can be read among an
  -- unbroken run of ids from the first page's start on.
  pub list_spot_markets-IsFollowed :
      (cursor : Option ℕ) (limit next_limit : ℕ)
      → 1 ≤ limit
      → (list_spot_markets reads cursor limit).has_more ≡ true
      → IsFollowed cursor limit next_limit
  unfolding list_spot_markets page_of
  list_spot_markets-IsFollowed cursor limit next_limit h more =
      let (n, few, first) =
        scan_markets-IsScan limit max_market_scan (start_id cursor) empty_scan in
      let s = scan_markets reads limit max_market_scan (start_id cursor) empty_scan in
      let both : (leb limit (length s.markets) && ltb s.consecutive_misses max_misses) ≡ true =
        more in
      let reached : limit ≤ length s.markets = ground (arith, both) in
      elim (first.last reached) [
        | inl none_found ↦ absurd (omega (arith, none_found, h))
        | inr (id, is, next) ↦
            let (k, few', second) =
              scan_markets-IsScan next_limit max_market_scan (id + 1) empty_scan in
            record {
              id = id;
              cursor_is =
                  ap (λ b. if b then cursor_text s.last_found_id else none) both
                  ∙ ap cursor_text is;
              full = omega (arith, reached, first.short (omega arith));
              count = n + k;
              unbroken =
                  ap (λ ms. ms ++ (list_spot_markets reads (some id) next_limit).markets) first.same
                  ∙ ap (λ ms. readable n (start_id cursor) ++ ms)
                      (second.same ∙ ap (λ i. readable k i) next)
                  ∙ readable-append n k (start_id cursor);
            }
      ]
