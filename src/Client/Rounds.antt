-- ===== src/Client/Rounds.antt =====
-- How often `main` is told its configuration.
use enjambre_worker.Prelude.{
  ◌≡◌, refl, true, false, List, [], ◌∷◌, Option, none, some, arith, Option-cases, inl, inr,
}
use enjambre_worker.Prelude.Text.{Text}
use enjambre_worker.Client.{ModelConfig, Attempt, handshake, signal, attempts}

-- The configuration of the first round that gets one.
unfoldable pub first_config : Text → List Attempt → Option ModelConfig
first_config id [] = none
first_config id (a ∷ rounds) =
    let later = first_config id rounds in
    elim (handshake id a) [ none ↦ later | some config ↦ some config ]

attempts_spent :
    (id : Text) (rounds : List Attempt) (sent : List ModelConfig)
    → attempts id rounds (record { ready_tx = false; sent = sent })
      ≡ record { ready_tx = false; sent = sent }
unfolding attempts signal
attempts_spent id [] sent = refl
attempts_spent id (a ∷ rounds) sent = ground (arith, attempts_spent id rounds sent)

-- Over all reconnections `main` is told the configuration of the first round that gets one, once,
-- and of no other; the sender is used up exactly if there is such a round.
attempts_lem :
    (id : Text) (rounds : List Attempt)
    → attempts id rounds (record { ready_tx = true; sent = [] }) ≡ elim (first_config id rounds) [
      | none ↦ record { ready_tx = true; sent = [] }
      | some config ↦ record { ready_tx = false; sent = config ∷ [] }
    ]
unfolding first_config attempts signal
attempts_lem id [] = refl
attempts_lem id (a ∷ rounds) = elim (Option-cases (handshake id a)) [
  | inl e ↦ ground (arith, attempts_lem id rounds)
  | inr (config, e) ↦ ground (arith, attempts_spent id rounds (config ∷ []))
]
