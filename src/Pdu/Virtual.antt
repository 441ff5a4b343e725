-- ===== src/Pdu/Virtual.antt =====
-- pdu/drivers/virtual.py: the driver that talks to vpdu.py. Each call opens a connection, sends
-- four bytes and reads one byte of the answer.
pub mod Protocol
pub mod View
use valve_infra.Base.{
  ℕ, ◌+◌, ◌*◌, ◌/◌, ◌%◌, ◌^◌, ◌≡◌, Bool, true, false, Option, none, some, List, [], ◌∷◌, arith,
  length, ltb, ◌==◌, if◌then◌else◌,
}
use valve_infra.Base.Result.{Result, ok, err, overflow_error, index_error, assertion_error}
use valve_infra.Pdu.{
  PduState, unknown, off, on, reboot, ◌=s◌, Action, pure, raise, continue, ◌>>=◌, ◌>>◌, World,
  sleep, Driver,
}
use valve_infra.Pdu.Vpdu.{Server, handle, Reply}

-- `cmd.to_bytes(4, byteorder='big')`
unfoldable to_bytes4 : ℕ → Result (List ℕ)
to_bytes4 n =
    if ltb n (2 ^ 32)
    then ok ((n / 2 ^ 24) ∷ (n / 2 ^ 16 % 256) ∷ (n / 2 ^ 8 % 256) ∷ (n % 256) ∷ [])
    else err overflow_error

-- `s.recv(1)[0]`: the handler that raised closed the connection with nothing written.
abbrev pub first_byte : Reply → Result ℕ
first_byte (ok (b ∷ _)) = ok b
first_byte (ok []) = err index_error
first_byte (err e) = err index_error

abbrev exchange : Result (List ℕ) → Action (World Server) ℕ
exchange (err e) w = (err e, w)
exchange (ok bytes) w =
    let (reply, s) = handle bytes w.device in (first_byte reply, record w { device = s })

-- `with self.conn() as s: s.sendall(cmd.to_bytes(4, 'big')); s.recv(1)[0]`
unfoldable pub request : ℕ → Action (World Server) ℕ
unfolding to_bytes4
request cmd w = exchange (to_bytes4 cmd) w

unfoldable expect : ℕ → ℕ → Action (World Server) (Unit {0})
expect wanted got w = (if got == wanted then ok tt else err assertion_error, w)

-- `(port_id << 2) | op`
abbrev pub command : ℕ → ℕ → ℕ
command port_id op = port_id * 4 + op

unfoldable pub turn : Bool → ℕ → ℕ → Action (World Server) (Unit {0})
unfolding request expect
turn asked port_id op = if asked then (request (command port_id op) >>= expect 1) else pure tt

abbrev pub read_state : ℕ → Action (World Server) PduState
read_state b w =
    if b == 3
    then (ok on, w)
    else if b == 4
    then (ok off, w)
    else if b == 5
    then (ok unknown, w)
    else (err assertion_error, w)

unfoldable pub get_port_state : ℕ → Action (World Server) PduState
unfolding request
get_port_state port_id = request (command port_id 3) >>= read_state

module _ (state_transition_delay : ℕ) where
  unfoldable pub set_port_state : ℕ → PduState → Action (World Server) (Unit {0})
  unfolding turn
  set_port_state port_id s = do
    turn (if s =s off then true else s =s reboot) port_id 2
    sleep state_transition_delay
    turn (if s =s on then true else s =s reboot) port_id 1
    sleep state_transition_delay

  unfoldable pub driver : Driver Server
  unfolding set_port_state get_port_state
  driver = record { set_port_state = set_port_state; get_port_state = get_port_state }

-- The number of ports that `__init__` asks for.
unfoldable num_ports : Action (World Server) ℕ
unfolding request
num_ports = request 0
