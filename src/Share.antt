-- ===== src/Share.antt =====
-- The share cards: app/api/v1/share.py. The directory of the cards is two dictionaries, of images and
-- of texts; the digest is a parameter. Of the page the texts that are put into it are modelled.
mod Cards
mod Tests
use ax_server.Prelude.{
  Bool, false, ◌==◌, ◌&&◌, if◌then◌else◌, ℕ, zero, suc, Option, none, some, List, [], ◌∷◌, ◌++◌,
  take,
}
use ax_server.Prelude.Int.{ℤ}
use ax_server.Prelude.Dict.{Dict}
use ax_server.Prelude.Dict
use ax_server.Prelude.Text.{Str, text, lower, strip, split, str_dec}
use ax_server.Chain.Eip7412.{Bytes, int_str}

-- The fields of the form
pub record CardForm : Type 0 where
  pub name : Str
  pub rank : ℤ
  pub category : Str
  pub elo : Str
  pub wins_losses : Str
  pub win_pct : Str

pub record ShareCardResponse : Type 0 where
  pub card_id : Str
  pub share_url : Str
  pub image_url : Str

-- `SHARE_DIR`: the `.png` files and the `.meta` files by their id
pub record ShareDir : Type 0 where
  pub images : Dict Str Bytes
  pub metas : Dict Str Str

-- What a page shows
pub record SharePage : Type 0 where
  pub name : Str
  pub rank : Str
  pub category : Str
  pub title : Str
  pub description : Str
  pub image_url : Str
  pub page_url : Str

abbrev newline : ℕ
newline = 10

abbrev pub base_url : Str
base_url = text "https://api.athletex.io"

-- The text whose digest is the id, and the text of the `.meta` file
unfoldable pub raw_of : CardForm → Str
raw_of f = strip (lower f.name) ++ text ":" ++ int_str f.rank ++ text ":" ++ f.category

unfoldable pub meta_of : CardForm → Str
meta_of f =
    f.name
    ++ newline
      ∷ (int_str f.rank
          ++ newline
            ∷ (f.category ++ newline ∷ (f.elo ++ newline ∷ (f.wins_losses ++ newline ∷ f.win_pct))))

unfoldable pub card_id_of : (Str → Str) → CardForm → Str
card_id_of hexdigest f = take 12 (hexdigest (raw_of f))

unfoldable pub image_url_of : Str → Str
image_url_of card_id = base_url ++ text "/share/" ++ card_id ++ text "/image"

unfoldable pub page_url_of : Str → Str
page_url_of card_id = base_url ++ text "/share/" ++ card_id

-- `create_share_card`
unfoldable pub create_share_card :
    (Str → Str) → ShareDir → Bytes → CardForm → ShareDir × ShareCardResponse
create_share_card hexdigest dir contents f =
    let card_id = card_id_of hexdigest f in
    (
      record {
        images = Dict.insert str_dec card_id contents dir.images;
        metas = Dict.insert str_dec card_id (meta_of f) dir.metas;
      },
      record {
        card_id = card_id;
        share_url = page_url_of card_id;
        image_url = image_url_of card_id;
      },
    )

-- `get_share_image`: none is a 404
unfoldable pub get_share_image : ShareDir → Str → Option Bytes
get_share_image dir card_id = Dict.lookup str_dec card_id dir.images

-- `lines[n] if len(lines) > n else default`
unfoldable pub line_or : Str → ℕ → List Str → Str
line_or default n [] = default
line_or default zero (l ∷ lines) = l
line_or default (suc n) (l ∷ lines) = line_or default n lines

-- The texts of the page from those of the card
unfoldable pub page_with : Str → Str → Str → Str → Str → Str → Str → SharePage
page_with card_id name rank category elo wins_losses win_pct = record {
  name = name;
  rank = rank;
  category = category;
  title = name ++ text " — #" ++ rank ++ text " Ranked | AthleteX";
  description =
      name
      ++ text " is ranked #"
      ++ rank
      ++ text " in "
      ++ category
      ++ text " on AthleteX. ELO: "
      ++ elo
      ++ text " | Record: "
      ++ wins_losses
      ++ text " | Win%: "
      ++ win_pct
      ++ text "% Do you agree? Vote now!";
  image_url = image_url_of card_id;
  page_url = page_url_of card_id;
}

unfoldable pub page_of_lines : Str → List Str → SharePage
page_of_lines card_id lines =
    page_with card_id (line_or (text "Athlete") 0 lines) (line_or (text "?") 1 lines)
      (line_or [] 2 lines) (line_or (text "0") 3 lines) (line_or (text "0-0") 4 lines)
      (line_or (text "0.0") 5 lines)

-- `read_text` in its text mode: a carriage return, with a line feed after it or not, is one line feed.
-- The flag says that the character before was a carriage return.
unfoldable pub universal_newlines : Bool → Str → Str
universal_newlines after_return [] = []
universal_newlines after_return (c ∷ s) =
    let rest = universal_newlines (c == 13) s in
    if c == 13 then newline ∷ rest else if after_return && (c == newline) then rest else c ∷ rest

-- `get_share_page`: none is a 404
unfoldable pub get_share_page : ShareDir → Str → Option SharePage
get_share_page dir card_id = elim (Dict.lookup str_dec card_id dir.metas) [
  | none ↦ none
  | some meta ↦ some (page_of_lines card_id (split newline (strip (universal_newlines false meta))))
]
