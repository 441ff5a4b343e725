-- ===== src/Pdu/Vpdu.antt =====
-- ansible/roles/vpdu/files/vpdu.py: the server of the virtual PDU, which runs one virtual machine
-- for each outlet. The masks of the request are written as divisions: `payload & 0x1FFC` shifted
-- right by 2 is `payload / 4 % 2048`.
use valve_infra.Base.{
  ℕ, ◌+◌, ◌*◌, ◌/◌, ◌%◌, ◌^◌, Bool, true, false, Option, none, some, List, [], ◌∷◌, length,
  replicate, ltb, ◌==◌, if◌then◌else◌,
}
use valve_infra.Base.Lists.{get_elem?, set}
use valve_infra.Base.Result.{Result, ok, err, assertion_error, struct_error, key_error}

-- `PowerState`; `ERROR` is never assigned.
pub data PowerState : Type 0 where
  on off error : PowerState

unfoldable power_value : PowerState → ℕ
power_value on = 3
power_value off = 4
power_value error = 5

-- An outlet, with what became of its machine: `none` before the first start, then whether its
-- process runs.
pub record Outlet : Type 0 where
  pub state : PowerState
  pub instance' : Option Bool

-- The server's `OUTLETS`, and the request to shut down that a client can make.
pub record Server : Type 0 where
  pub outlets : List Outlet
  pub shutdown : Bool

unfoldable pub start_server : ℕ → Server
start_server n = record {
  outlets = replicate n (record { state = off; instance' = none });
  shutdown = false;
}

-- What the handler wrote before it returned, or the exception that ended it.
abbrev pub Reply : Type 0
Reply = Result (List ℕ)

-- `cmd & 0x01`, on an outlet that is in range.
unfoldable turn_on : ℕ → Outlet → Server → Reply × Server
turn_on port machine s = elim machine.state [
  | on ↦ (ok (1 ∷ []), s)
  | _ ↦ (
    ok (1 ∷ []),
    record s { outlets = set s.outlets port (record { state = on; instance' = some true }) },
  )
]

-- `machine['instance'].stop()`: there is no such key before the first start.
unfoldable stop_machine : ℕ → Outlet → Server → Reply × Server
stop_machine port machine s = elim machine.instance' [
  | none ↦ (err key_error, s)
  | some _ ↦ (
    ok (1 ∷ []),
    record s { outlets = set s.outlets port (record { state = off; instance' = some false }) },
  )
]

-- `cmd & 0x02`
unfoldable turn_off : ℕ → Outlet → Server → Reply × Server
unfolding stop_machine
turn_off port machine s = elim machine.state [
  | off ↦ (ok (1 ∷ []), s)
  | _ ↦ stop_machine port machine s
]

-- `struct.pack('!B', len(OUTLETS))`
unfoldable pack_u8 : ℕ → Reply
pack_u8 n = if ltb n 256 then ok (n ∷ []) else err struct_error

-- The operations, on the outlet that was looked up.
unfoldable pub operate : ℕ → ℕ → Option Outlet → Server → Reply × Server
unfolding turn_on turn_off pack_u8 power_value
operate cmd port none s = (ok (0 ∷ []), s)
operate cmd port (some machine) s =
    if cmd == 3
    then (ok (power_value machine.state ∷ []), s)
    else if cmd == 1
    then turn_on port machine s
    else if cmd == 2
    then turn_off port machine s
    else (pack_u8 (length s.outlets), s)

-- `_BaseServer__shutdown_request`
unfoldable request_shutdown : Bool → Server → Server
request_shutdown b s = if b then record s { shutdown = true } else s

-- The handler from the number on.
unfoldable pub serve : ℕ → Server → Reply × Server
unfolding request_shutdown
serve payload s =
    let cmd : ℕ = payload % 4 in
    let port : ℕ = payload / 4 % 2 ^ 11 in
    let shutdown : Bool = (payload / 2 ^ 13 % 2) == 1 in
    let reserved : ℕ = payload / 2 ^ 14 % 2 ^ 18 * 2 in
    let s' = request_shutdown shutdown s in
    if reserved == 0
    then operate cmd port (get_elem? s.outlets port) s'
    else (err assertion_error, s)

-- `PDUTCPHandler.handle`: `int.from_bytes` of the four bytes that were read, or of fewer.
unfoldable pub handle : List ℕ → Server → Reply × Server
handle (a ∷ b ∷ c ∷ d ∷ []) s = serve (a * 2 ^ 24 + b * 2 ^ 16 + c * 2 ^ 8 + d) s
handle _ s = (ok (0 ∷ []), s)
