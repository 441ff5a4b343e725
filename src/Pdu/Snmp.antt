-- ===== src/Pdu/Snmp.antt =====
-- pdu/drivers/snmp.py, apc.py and cyberpower.py: PDUs that are driven over SNMP, the codes by which
-- each of them names the states, and the retries of a call.
--
-- The SNMP library is the parameter `Agent`. `null_error` is the `SystemError` with one of the
-- three messages that are worth another attempt.
pub mod Codes
pub mod Retries
use valve_infra.Base.{
  ℕ, zero, suc, ◌+◌, ◌≡◌, Bool, true, false, Option, none, some, List, [], ◌∷◌, arith, ◌==◌,
  if◌then◌else◌,
}
use valve_infra.Base.Result.{Result, ok, err, Exception, null_error, key_error, value_error}
use valve_infra.Pdu.{
  PduState, unknown, off, on, reboot, ◌=s◌, state_value, Action, pure, raise, continue, ◌>>=◌, ◌>>◌,
  World, sleep, Driver,
}

-- `state_mapping`: a dictionary from states to the codes that are written.
abbrev pub Mapping : Type 0
Mapping = List (PduState × ℕ)

-- `inverse_state_mapping`: from the codes that are read. States are an `IntEnum`, so that its
-- values, and its keys where a configuration gives it, are numbers.
abbrev Inverse : Type 0
Inverse = List (ℕ × ℕ)

unfoldable pub code_of : PduState → Mapping → Option ℕ
code_of s [] = none
code_of s ((t, v) ∷ m) = if t =s s then some v else code_of s m

-- A later entry of the dictionary's items replaces an earlier one with its key.
unfoldable pub decode : ℕ → Inverse → Option ℕ
decode v [] = none
decode v ((k, s) ∷ m) =
    let rest = decode v m in elim rest [ none ↦ if k == v then some s else none | some t ↦ some t ]

-- `dict([(value, key) for key, value in self.state_mapping.items()])`
unfoldable pub inverse_of : Mapping → Inverse
inverse_of [] = []
inverse_of ((s, v) ∷ m) = (v, state_value s) ∷ inverse_of m

-- The three classes that fix their codes.
unfoldable pub apc_mapping : Mapping
apc_mapping = (on, 1) ∷ (off, 2) ∷ (reboot, 3) ∷ []

unfoldable pdu41004_mapping : Mapping
pdu41004_mapping = (on, 1) ∷ (off, 2) ∷ (reboot, 3) ∷ []

unfoldable pdu15_mapping : Mapping
pdu15_mapping = (on, 2) ∷ (off, 3) ∷ (reboot, 4) ∷ []

unfoldable pdu15_inverse : Inverse
pdu15_inverse = (1, state_value on) ∷ (2, state_value off) ∷ (3, state_value reboot) ∷ []

-- A key of a mapping in the configuration of `ManualSnmpPDU`, after `lower()`.
pub data Key : Type 0 where
  key_on key_off key_reboot key_other : Key

-- `state_mapping[state] = v`
unfoldable pub assign : PduState → ℕ → Mapping → Mapping
assign s v [] = (s, v) ∷ []
assign s v ((t, w) ∷ m) = if t =s s then (t, v) ∷ m else (t, w) ∷ assign s v m

-- `populate_state_mapping`
unfoldable pub populate : Mapping → List (Key × ℕ) → Mapping
unfolding assign
populate m [] = m
populate m ((key_on, v) ∷ d) = populate (assign on v m) d
populate m ((key_off, v) ∷ d) = populate (assign off v m) d
populate m ((key_reboot, v) ∷ d) = populate (assign reboot v m) d
populate m ((key_other, v) ∷ d) = populate m d

-- The `inverse_state_mapping` that a configuration gives is filled by the same function, so its
-- keys are the states and its values the codes.
unfoldable pub keyed : Mapping → Inverse
keyed [] = []
keyed ((s, v) ∷ m) = (state_value s, v) ∷ keyed m

unfoldable pub manual_inverse : List (Key × ℕ) → Inverse
unfolding populate state_value keyed
manual_inverse d = keyed (populate [] d)

-- `retry_on_known_errors`: `n` attempts, with a pause of a second and a random part after each one
-- that failed with a known error.
module _ {D A : Type 0} where
  abbrev caught : Result A × World D → Action (World D) A → Result A × World D
  caught (err null_error, w) again = again w
  caught (r, w) again = (r, w)

  unfoldable pub retry : ℕ → (ℕ → ℕ) → Action (World D) A → Action (World D) A
  retry zero pause m w = (err value_error, w)
  retry (suc n) pause m w =
      caught (m w) (λ w'. retry n pause m (record w' { clock = w'.clock + 1_000_000 + pause n }))

-- The calls of the SNMP library on the status and on the control tree of one device.
pub record Agent (D : Type 0) : Type 0 where
  pub snmp_get : ℕ → Action (World D) ℕ
  pub snmp_set : ℕ → ℕ → Action (World D) (Unit {0})

module _ {A : Type 0} where
  -- `d[k]`, on a key that may be missing.
  abbrev or_key_error : {W : Type 0} → Option A → Action W A
  or_key_error none w = (err key_error, w)
  or_key_error (some a) w = (ok a, w)

-- A number as the state that it equals, if it is one.
abbrev state_of : ℕ → Option PduState
state_of zero = some unknown
state_of (suc zero) = some off
state_of (suc (suc zero)) = some on
state_of (suc (suc (suc zero))) = some reboot
state_of (suc (suc (suc (suc n)))) = none

module _ {D : Type 0} (agent : Agent D) (mapping : Mapping) (inverse : Inverse) (delay : ℕ)
    (pause : ℕ → ℕ) where
  set_once : ℕ → PduState → Action (World D) (Unit {0})
  set_once port s = do v ← or_key_error (code_of s mapping); agent.snmp_set port v; sleep delay

  -- `SnmpPDU.set_port_state`, on the number of a port.
  unfoldable pub set_port_state : ℕ → PduState → Action (World D) (Unit {0})
  unfolding set_once retry
  set_port_state port s = retry 3 pause (set_once port s)

  get_once : ℕ → Action (World D) ℕ
  get_once port = do v ← agent.snmp_get port; or_key_error (decode v inverse)

  -- `SnmpPDU.get_port_state`: a number that callers compare with the states.
  unfoldable pub get_port_state : ℕ → Action (World D) ℕ
  unfolding get_once retry
  get_port_state port = retry 3 pause (get_once port)
