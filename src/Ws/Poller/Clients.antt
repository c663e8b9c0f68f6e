-- ===== src/Ws/Poller/Clients.antt =====
-- How the poller follows the clients that come and go.
use ax_server.Prelude.{
  test_holds, ◌≢◌, Bool-cases, ℕ, suc, ◌==◌, ◌≡◌, ◌⊎◌, refl, inl, inr, true, false, none, some, [],
  ◌∷◌, length, if◌then◌else◌, ℕ_discrete, arith, ◌≤◌, Option-cases, ◌∙◌, ap,
}
use ax_server.Prelude.Dict.{Dict}
use ax_server.Prelude.Dict.Laws.{Distinct, insert-Distinct, erase-Distinct, length-insert}
use ax_server.Ws.Manager.{ClientState, connect, disconnect, client_count}
use ax_server.Ws.Poller.{
  MarketPoller, start, stop, Server, join, leave, Event, joins, leaves, sends, publishes,
}
use ax_server.Prelude.Dict

-- One task runs while there are clients, and none while there are not.
pub record IsValid (s : Server) : Type 0 where
  pub apart : Distinct ℕ_discrete s.manager.clients
  pub one_task :
      ((s.manager.clients ≡ []) × (s.poller.live ≡ []))
      ⊎ ((t : ℕ) × (1 ≤ length s.manager.clients)
          × (s.poller.task ≡ some t)
          × (s.poller.live ≡ t ∷ []))

-- A new client has a socket of its own, and no send to a client fails.
abbrev pub Calm : Server → Event → Type 0
Calm s (joins ws) = Dict.lookup ℕ_discrete ws s.manager.clients ≡ none
Calm s (leaves ws) = Unit
Calm s (sends ws msg) = Unit
Calm s (publishes alive channel market_id) = (ws : ℕ) → alive ws ≡ true

pub empty_of_length : (d : Dict ℕ ClientState) → length d ≡ 0 → d ≡ []
empty_of_length [] h = refl
empty_of_length (x ∷ d) h = absurd (omega (arith, h))

abbrev pub newcomer : ClientState
newcomer = record { channels = []; market_ids = [] }

pub clients-join :
    (s : Server) (ws : ℕ)
    → (join s ws).manager.clients ≡ Dict.insert ℕ_discrete ws newcomer s.manager.clients
unfolding join connect
clients-join s ws = refl

pub poller-join :
    (s : Server) (ws : ℕ)
    → (join s ws).poller
      ≡ (if length (join s ws).manager.clients == 1 then start s.poller else s.poller)
unfolding join client_count
poller-join s ws = refl

pub clients-leave :
    (s : Server) (ws : ℕ)
    → (leave s ws).manager.clients ≡ Dict.erase ℕ_discrete ws s.manager.clients
unfolding leave disconnect
clients-leave s ws = refl

pub poller-leave :
    (s : Server) (ws : ℕ)
    → (leave s ws).poller
      ≡ (if length (leave s ws).manager.clients == 0 then stop s.poller else s.poller)
unfolding leave client_count
poller-leave s ws = refl

pub eq_true : (a b : ℕ) → a ≡ b → (a == b) ≡ true
eq_true a b h = ground arith

pub eq_false : (a b : ℕ) → a ≢ b → (a == b) ≡ false
eq_false a b h = ground arith

pub live-stop : (p : MarketPoller) (t : ℕ) → p.task ≡ some t → p.live ≡ t ∷ [] → (stop p).live ≡ []
unfolding stop
live-stop p t h k = rw (h, k, test_holds (ℕ_discrete t t) refl) refl

pub live-stop_idle : (p : MarketPoller) → p.live ≡ [] → (stop p).live ≡ []
unfolding stop
live-stop_idle p h = elim (Option-cases p.task) [ inl e ↦ rw e h | inr (t, e) ↦ rw (e, h) refl ]

pub joins-IsValid :
    (s : Server) (ws : ℕ)
    → Dict.lookup ℕ_discrete ws s.manager.clients ≡ none
    → IsValid s
    → IsValid (join s ws)
joins-IsValid s ws h v =
    let grown : length (join s ws).manager.clients ≡ suc (length s.manager.clients) =
      ap length (clients-join s ws)
      ∙ length-insert ℕ_discrete ws newcomer s.manager.clients
      ∙ rw h refl in
    record {
      apart =
          rw (clients-join s ws) (insert-Distinct ℕ_discrete ws newcomer s.manager.clients v.apart);
      one_task = elim v.one_task [
        | inl (e, f) ↦
            let one : length (join s ws).manager.clients ≡ 1 = grown ∙ rw e refl in
            let started : (join s ws).poller ≡ start s.poller =
              poller-join s ws ∙ rw (eq_true _ 1 one) refl in
            inr (
              s.poller.next_task,
              omega (arith, one),
              ap (λ p. p.task) started ∙ unfold start in refl,
              ap (λ p. p.live) started ∙ unfold start in ap (◌∷◌ s.poller.next_task) f,
            )
        | inr (t, e, f, g) ↦
            let more : length (join s ws).manager.clients ≢ 1 = omega (arith, grown, e) in
            let kept : (join s ws).poller ≡ s.poller =
              poller-join s ws ∙ rw (eq_false _ 1 more) refl in
            inr (t, omega (arith, grown), ap (λ p. p.task) kept ∙ f, ap (λ p. p.live) kept ∙ g)
      ];
    }

pub leaves-IsValid : (s : Server) (ws : ℕ) → IsValid s → IsValid (leave s ws)
leaves-IsValid s ws v = record {
  apart = rw (clients-leave s ws) (erase-Distinct ℕ_discrete ws s.manager.clients v.apart);
  one_task = elim v.one_task [
    | inl (e, f) ↦
        let none_left : (leave s ws).manager.clients ≡ [] =
          clients-leave s ws ∙ ap (Dict.erase ℕ_discrete ws) e in
        let zero_left : length (leave s ws).manager.clients ≡ 0 = ap length none_left in
        let stopped : (leave s ws).poller ≡ stop s.poller =
          poller-leave s ws ∙ rw (eq_true _ 0 zero_left) refl in
        inl (none_left, ap (λ p. p.live) stopped ∙ live-stop_idle s.poller f)
    | inr (t, e, f, g) ↦
        let n = length (leave s ws).manager.clients in
        elim (Bool-cases (n == 0)) [
          | inl z ↦
              let stopped : (leave s ws).poller ≡ stop s.poller = poller-leave s ws ∙ rw z refl in
              inl (
                empty_of_length _ (ground arith),
                ap (λ p. p.live) stopped ∙ live-stop s.poller t f g,
              )
          | inr z ↦
              let kept : (leave s ws).poller ≡ s.poller = poller-leave s ws ∙ rw z refl in
              inr (t, ground arith, ap (λ p. p.task) kept ∙ f, ap (λ p. p.live) kept ∙ g)
        ]
  ];
}
