-- ===== src/Salad/Clients.antt =====
-- tcpserver.py: a server goes on as itself, and its client keeps its place until it is hung up.
use valve_infra.Base.{
  ◌∙◌, [], ◌∷◌, ℕ, ◌≡◌, refl, Bool, true, false, ◌⊎◌, inl, inr, Option, none, some, arith,
  Option-cases, Bool-cases,
}
use valve_infra.Base.Result.{Result, ok, err}
use valve_infra.Message.Framing.{Bytes}
use valve_infra.Base.Action.{caught_by}
use valve_infra.Salad.{
  pure, recv_any, send_any, continue, received, Server, accept, send, recv, close_client, hang_up,
  send_to, is_os_error,
}

-- A server goes on under its name, and a client that it has is only let go of if it may be hung up.
abbrev pub Held : Bool → Server → Server → Type 0
Held hung_up m m' =
    (m'.id ≡ m.id)
    × ((m'.client ≡ m.client) ⊎ ((m'.client ≡ none) × (hung_up ≡ true)) ⊎ (m.client ≡ none))

-- The socket of the client fails, when it is written to or read from; or its input is at its end.
abbrev pub breaks {ℓ} : {A : Type ℓ} → Result A → Bool
breaks (ok a) = false
breaks (err e) = is_os_error e

abbrev pub leaves : Result Bytes → Bool
leaves (ok []) = true
leaves (ok (b ∷ buf)) = false
leaves (err e) = is_os_error e

hang_up-client :
    (sock : ℕ) (shut : Result (Unit {0})) (m : Server)
    → ((hang_up sock shut m).1.client ≡ m.client) × ((hang_up sock shut m).1.id ≡ m.id)
unfolding hang_up
hang_up-client sock shut m = (ground arith, ground arith)

close_client_lem :
    (shut : Result (Unit {0})) (m : Server)
    → ((close_client shut m).1.client ≡ none) × ((close_client shut m).1.id ≡ m.id)
unfolding close_client
close_client_lem shut m = elim (Option-cases m.client) [
  | inl free ↦ (rw free refl, rw free refl)
  | inr (sock, has) ↦ rw has (hang_up-client sock shut (record m { client = none }))
]

pub accept-Held :
    (hung_up : Bool) (sock : ℕ) (told : Result ℕ) (shut : Result (Unit {0})) (m : Server)
    → Held hung_up m (accept sock told shut m).1
unfolding accept send_to hang_up
accept-Held hung_up sock told shut m = elim (Option-cases m.client) [
  | inl free ↦ (ground arith, inr (inr free))
  | inr (old, has) ↦ (ground arith, inl (ground (arith, has)))
]

closed-Held : (shut : Result (Unit {0})) (m : Server) → Held true m (close_client shut m).1
closed-Held shut m = let (free, same) = close_client_lem shut m in (same, inr (inl (free, refl)))

send_any-Held :
    (c : Option ℕ) (buf : Bytes) (sends : Result ℕ) (shut : Result (Unit {0})) (m : Server)
    → Held (breaks sends) m (send_any c buf sends shut m).1
unfolding send_to
send_any-Held none buf sends shut m = (refl, inl refl)
send_any-Held (some sock) buf (ok n) shut m = (refl, inl refl)
send_any-Held (some sock) buf (err e) shut m = elim (Bool-cases (is_os_error e)) [
  | inl broken ↦ rw broken (closed-Held shut m)
  | inr other ↦ rw other (refl, inl refl)
]

pub send-Held :
    (buf : Bytes) (sends : Result ℕ) (shut : Result (Unit {0})) (m : Server)
    → Held (breaks sends) m (send buf sends shut m).1
unfolding send
send-Held buf sends shut m = send_any-Held m.client buf sends shut m

module _ (shut : Result (Unit {0})) where
  closed_again :
      (r : Result (Unit {0})) (m : Server)
      → Held true m (caught_by is_os_error (close_client shut) r (close_client shut m).1).1
  closed_again (ok _) m = closed-Held shut m
  closed_again (err e) m = elim (Bool-cases (is_os_error e)) [
    | inl broken ↦ rw broken (
        let (free, same) = close_client_lem shut m in
        let (free', same') = close_client_lem shut (close_client shut m).1 in
        (same' ∙ same, inr (inl (free', refl))))
    | inr other ↦ rw other (closed-Held shut m)
  ]

  then_empty :
      (hung_up : Bool) (r : Result (Unit {0})) (m m' : Server)
      → Held hung_up m m'
      → Held hung_up m (continue r (λ _. pure {A = Bytes} []) m').1
  then_empty hung_up (ok _) m m' h = h
  then_empty hung_up (err e) m m' h = h

  received-Held :
      (reads : Result Bytes) (m : Server) → Held (leaves reads) m (received reads shut m).1
  received-Held (ok []) m = then_empty true _ m _ (closed_again (close_client shut m).0 m)
  received-Held (ok (b ∷ buf)) m = (refl, inl refl)
  received-Held (err e) m = elim (Bool-cases (is_os_error e)) [
    | inl broken ↦ rw broken (then_empty true _ m _ (closed-Held shut m))
    | inr other ↦ rw other (refl, inl refl)
  ]

  recv_any-Held :
      (c : Option ℕ) (reads : Result Bytes) (m : Server)
      → Held (leaves reads) m (recv_any c reads shut m).1
  recv_any-Held none reads m = (refl, inl refl)
  recv_any-Held (some sock) reads m = received-Held reads m

  pub recv-Held : (reads : Result Bytes) (m : Server) → Held (leaves reads) m (recv reads shut m).1
  unfolding recv
  recv-Held reads m = recv_any-Held m.client reads m
