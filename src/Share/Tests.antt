-- ===== src/Share/Tests.antt =====
-- The share cards at a concrete input.
use ax_server.Prelude.{◌≡◌, refl, some, [], ◌∷◌}
use ax_server.Prelude.Int.{pos}
use ax_server.Prelude.Text.{text, is_space}
use ax_server.Chain.Eip7412.{int_str}
use ax_server.Share.{
  CardForm, ShareDir, create_share_card, get_share_page, get_share_image, page_with,
}
use ax_server.Share.Cards.{IsPlain, get_share_page-create_share_card}

abbrev form : CardForm
form = record {
  name = text "Ada L";
  rank = pos 3;
  category = text "nba";
  elo = text "1510";
  wins_losses = text "4-1";
  win_pct = text "80.0";
}

plain : IsPlain form
unfolding text is_space
plain = record {
  begins = refl;
  ends = refl;
  name_line = ((refl, refl), ((refl, refl), ((refl, refl), ((refl, refl), ((refl, refl), tt)))));
  category_line = ((refl, refl), ((refl, refl), ((refl, refl), tt)));
  elo_line = ((refl, refl), ((refl, refl), ((refl, refl), ((refl, refl), tt))));
  wins_losses_line = ((refl, refl), ((refl, refl), ((refl, refl), tt)));
  win_pct_line = ((refl, refl), ((refl, refl), ((refl, refl), ((refl, refl), tt))));
}

abbrev dir : ShareDir
dir = record { images = []; metas = [] }

get_share_page-create_share_card_example :
    let after = create_share_card (λ s. s) dir (1 ∷ 2 ∷ []) form in
    (get_share_page after.0 after.1.card_id
      ≡ some (
          page_with after.1.card_id
            (text "Ada L")
            (int_str (pos 3))
            (text "nba")
            (text "1510")
            (text "4-1")
            (text "80.0")))
    × (get_share_image after.0 after.1.card_id ≡ some (1 ∷ 2 ∷ []))
get_share_page-create_share_card_example =
    get_share_page-create_share_card (λ s. s) dir (1 ∷ 2 ∷ []) form plain
