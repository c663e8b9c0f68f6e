-- ===== src/Ws/Delivery.antt =====
-- Who gets an event.
use ax_server.Prelude.{
  ℕ, ◌≡◌, Bool, true, false, ◌&&◌, Option, none, some, [], ◌∷◌, contains, contains-keep_if,
  ℕ_discrete, arith, refl, inl, inr, ◌∙◌, test_holds, test_fails, Bool-cases, ap, sym, List-cases,
  ◌↔◌, Option-cases,
}
use ax_server.Prelude.Dict.{Dict, lookup-insert}
use ax_server.Prelude.Dict.Laws.{Distinct}
use ax_server.Prelude.Text.{Str, str_dec, is_empty}
use ax_server.Ws.Manager.{ClientState, ChannelManager, wants, targets, broadcast}
use ax_server.Prelude.Dict

-- Whether a socket is a client's that wants the event
abbrev pub is_target : Str → Option ℕ → Option ClientState → Bool
is_target channel market_id none = false
is_target channel market_id (some c) = wants channel market_id c

contains-targets :
    (channel : Str) (market_id : Option ℕ) (ws : ℕ) (clients : Dict ℕ ClientState)
    → Distinct ℕ_discrete clients
    → contains ℕ_discrete ws (targets channel market_id clients)
      ≡ is_target channel market_id (Dict.lookup ℕ_discrete ws clients)
unfolding targets
contains-targets channel market_id ws [] h = refl
contains-targets channel market_id ws ((j, c) ∷ clients) h =
    let ih = contains-targets channel market_id ws clients h.1 in
    elim (ℕ_discrete j ws) [
      | yes e ↦
          let gone : Dict.lookup ℕ_discrete ws clients ≡ none = rw (← e) h.0 in
          elim (Bool-cases (wants channel market_id c)) [
            | inl f ↦
                rw (test_holds (ℕ_discrete j ws) e, f)
                  (rw (test_holds (ℕ_discrete ws j) (sym e)) refl)
            | inr f ↦
                rw (test_holds (ℕ_discrete j ws) e, f) (ih ∙ ap (is_target channel market_id) gone)
          ]
      | no n ↦ elim (Bool-cases (wants channel market_id c)) [
        | inl f ↦
            rw (test_fails (ℕ_discrete j ws) n, f)
              (rw (test_fails (ℕ_discrete ws j) (λ q. n (sym q))) ih)
        | inr f ↦ rw (test_fails (ℕ_discrete j ws) n, f) ih
      ]
    ]

-- The loop and the sends of a broadcast
pub contains-broadcast :
    (m : ChannelManager) (alive : ℕ → Bool) (channel : Str) (market_id : Option ℕ) (ws : ℕ)
    → Distinct ℕ_discrete m.clients
    → contains ℕ_discrete ws (broadcast m alive channel market_id).1
      ≡ is_target channel market_id (Dict.lookup ℕ_discrete ws m.clients) && alive ws
unfolding broadcast
contains-broadcast m alive channel market_id ws h =
    contains-keep_if ℕ_discrete alive ws (targets channel market_id m.clients)
    ∙ ap (λ b. b && alive ws) (contains-targets channel market_id ws m.clients h)

-- An event without a market, a client without a filter, or one of the markets of its filter
pub data PassesFilter (c : ClientState) : Option ℕ → Type 0 where
  no_market : PassesFilter c none
  no_filter : (id : ℕ) → c.market_ids ≡ [] → PassesFilter c (some id)
  in_filter : (id : ℕ) → contains ℕ_discrete id c.market_ids ≡ true → PassesFilter c (some id)

-- The socket of a client that has the channel and lets the market pass, and to which the send succeeds
pub record IsReached (m : ChannelManager) (alive : ℕ → Bool) (channel : Str) (market_id : Option ℕ)
    (ws : ℕ) : Type 0 where
  pub client : ClientState
  pub known : Dict.lookup ℕ_discrete ws m.clients ≡ some client
  pub has_channel : contains str_dec channel client.channels ≡ true
  pub passes : PassesFilter client market_id
  pub sent : alive ws ≡ true

wants-PassesFilter :
    (channel : Str) (market_id : Option ℕ) (c : ClientState)
    → wants channel market_id c ≡ true
    → (contains str_dec channel c.channels ≡ true) × PassesFilter c market_id
unfolding wants
wants-PassesFilter channel none c h = (ground arith, no_market)
wants-PassesFilter channel (some id) c h = elim (List-cases c.market_ids) [
  | inl e ↦ (ground arith, no_filter id e)
  | inr (j, js, e) ↦
      let not_empty : is_empty c.market_ids ≡ false = rw e refl in
      (ground arith, in_filter id (ground arith))
]

PassesFilter-wants :
    (channel : Str) (market_id : Option ℕ) (c : ClientState)
    → contains str_dec channel c.channels ≡ true
    → PassesFilter c market_id
    → wants channel market_id c ≡ true
unfolding wants
PassesFilter-wants channel none c h no_market = rw h refl
PassesFilter-wants channel (some id) c h (no_filter _ e) = rw (h, e) refl
PassesFilter-wants channel (some id) c h (in_filter _ e) = ground arith

-- Where each socket has one client, an event reaches just the sockets of the clients that have its
-- channel and let its market pass, and to which the send succeeds: a client lets a market pass that is
-- in its filter, every market where its filter is empty, and every event without a market.
pub broadcast-reaches :
    (m : ChannelManager) (alive : ℕ → Bool) (channel : Str) (market_id : Option ℕ) (ws : ℕ)
    → Distinct ℕ_discrete m.clients
    → (contains ℕ_discrete ws (broadcast m alive channel market_id).1 ≡ true)
      ↔ IsReached m alive channel market_id ws
broadcast-reaches m alive channel market_id ws h =
    let reached = contains-broadcast m alive channel market_id ws h in
    (
      λ got. elim (Option-cases (Dict.lookup ℕ_discrete ws m.clients)) [
        | inl e ↦ absurd (ground (arith, rw e at reached))
        | inr (c, e) ↦
            let both : wants channel market_id c && alive ws ≡ true =
              ap (λ o. is_target channel market_id o && alive ws) (sym e) ∙ sym reached ∙ got in
            let wanted = wants-PassesFilter channel market_id c (ground (arith, both)) in
            record {
              client = c;
              known = e;
              has_channel = wanted.0;
              passes = wanted.1;
              sent = ground (arith, both);
            }
      ],
      λ r.
          reached
          ∙ rw
              (
                r.known,
                r.sent,
                PassesFilter-wants channel market_id r.client r.has_channel r.passes,
              )
              refl,
    )
