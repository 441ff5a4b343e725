-- ===== src/Salad/Hub.antt =====
-- salad/src/valve_gfx_ci/salad/salad.py: `Salad`, between the consoles and the servers of machines.
--
-- `select` says which descriptors are ready; what each one's calls answer is part of the event.
pub mod Routes
pub mod Delivery
use text.Mathlib.Text.{◌==◌}
use valve_infra.Base.{
  ℕ, String, Bool, true, false, Option, none, some, List, [], ◌∷◌, ◌++◌, if◌then◌else◌, or_else,
}
use valve_infra.Base.Dict.{has, Dict, lookup, insert, erase}
use valve_infra.Base.Result.{Result, ok, err, Exception}
use valve_infra.Base.Action.{Action, pure, raise, ◌>>=◌, ◌>>◌}
use valve_infra.Message.Framing.{Bytes}
use valve_infra.Salad.{Server, init, accept, send, recv, close_client}
use valve_infra.Salad.Console
use valve_infra.Salad.Console.{Stream, is_serial_end, is_tcp_end, serial_recv, tcp_recv}

pub record Salad : Type 0 where
  pub machines : Dict Server
  pub serial_devs : Dict Stream
  pub netconsole_streams : Dict Stream
  pub closed_devs : List String

abbrev pub Call : Type 0 → Type 0
Call = Action Salad

-- What a client's socket answers: to a send, and to being shut down.
pub record Answers : Type 0 where
  pub sends : Result ℕ
  pub shut : Result (Unit {0})

-- `get_or_create_machine`
abbrev pub created : String → Option Server → Server
created id none = init id
created id (some m) = m

unfoldable pub get_or_create_machine : String → Salad → Server
get_or_create_machine id s = created id (lookup id s.machines)

-- An operation of one machine's server.
abbrev pub on_server : {A : Type 0} → String → Server → Action Server A → Call A
on_server id m call s = let (r, m') = call m in (r, record s { machines = insert id m' s.machines })

abbrev pub send_to_machine : Option String → Bytes → Answers → Call (Unit {0})
send_to_machine none buf a s = (ok tt, s)
send_to_machine (some id) buf a s =
    if id == ""
    then (ok tt, s)
    else on_server id (get_or_create_machine id s) (send buf a.sends a.shut) s

-- `send_to_console_listener`
unfoldable pub send_to_console_listener : Stream → Bytes → Answers → Call (Unit {0})
unfolding send get_or_create_machine
send_to_console_listener console buf a = send_to_machine console.machine_id buf a

abbrev pub is_of : String → Option String → Bool
is_of id none = false
is_of id (some i) = i == id

-- The name of the first stream of a machine.
unfoldable pub first_of : String → Dict Stream → Option String
first_of id [] = none
first_of id ((name, stream) ∷ d) = if is_of id stream.machine_id then some name else first_of id d

-- The ready descriptors.
pub data Ready : Type 0 where
  serial_ready : String → Bytes → Result (Unit {0}) → Result (Unit {0}) → Answers → Ready
  netconsole_ready : String → Result Bytes → Bool → Result (Unit {0}) → Answers → Ready
  machine_connects : String → ℕ → Answers → Ready
  netconsole_connects : String → Ready
  client_ready : String → Result Bytes → Result (Unit {0}) → Answers → Ready

abbrev pub reply : {A : Type 0} → Result A → Call A
reply r s = (r, s)

abbrev pub forget_netconsole : String → Call (Unit {0})
forget_netconsole name s =
    (ok tt, record s { netconsole_streams = erase name s.netconsole_streams })

abbrev pub fresh : Stream
fresh = record { machine_id = none; line_buffer = []; written = [] }

-- `_update_ports`: the ports that are there now, with whether each can be opened.
unfoldable pub add_ports : Dict (Result (Unit {0})) → Dict Stream → Dict Stream
add_ports [] devs = devs
add_ports ((name, ok _) ∷ ports) devs =
    add_ports ports (if has name devs then devs else insert name fresh devs)
add_ports ((name, err e) ∷ ports) devs = add_ports ports devs

unfoldable pub keep_ports : Dict (Result (Unit {0})) → Dict Stream → Dict Stream
keep_ports ports [] = []
keep_ports ports ((name, dev) ∷ devs) =
    let rest = keep_ports ports devs in if has name ports then (name, dev) ∷ rest else rest

unfoldable pub update_ports : Dict (Result (Unit {0})) → Salad → Salad
unfolding add_ports keep_ports
update_ports ports s = record s { serial_devs = keep_ports ports (add_ports ports s.serial_devs) }

-- `find_console_listener`, and `console.send(buf)` on what it finds; the input is dropped where it
-- finds none.
abbrev pub type_on : Option Stream → (Stream → Salad) → Bytes → Result (Unit {0}) → Call (Unit {0})
type_on none put buf writes s = (ok tt, s)
type_on (some stream) put buf writes s =
    let (r, stream') = Console.send buf writes stream in (r, put stream')

abbrev pub type_on_serial :
    Option String → Option String → Bytes → Result (Unit {0}) → Call (Unit {0})
type_on_serial (some name) other buf writes s =
    type_on (lookup name s.serial_devs)
      (λ x. record s { serial_devs = insert name x s.serial_devs }) buf writes s
type_on_serial none (some name) buf writes s =
    type_on (lookup name s.netconsole_streams)
      (λ x. record s { netconsole_streams = insert name x s.netconsole_streams }) buf writes s
type_on_serial none none buf writes s = (ok tt, s)

unfoldable pub type_in : String → Bytes → Result (Unit {0}) → Call (Unit {0})
unfolding first_of Console.send
type_in id buf writes s =
    type_on_serial (first_of id s.serial_devs) (first_of id s.netconsole_streams) buf writes s

abbrev pub serial_received : String → Stream → Answers → Result Bytes → Call (Unit {0})
serial_received name stream a (ok []) s = (ok tt, record s { closed_devs = name ∷ s.closed_devs })
serial_received name stream a (ok (b ∷ buf)) s = send_to_console_listener stream (b ∷ buf) a s
serial_received name stream a (err e) s = (err e, s)

abbrev pub netconsole_received : String → Stream → Bool → Answers → Result Bytes → Call (Unit {0})
netconsole_received name stream reset a (ok []) = forget_netconsole name
netconsole_received name stream reset a (ok (b ∷ buf)) = send_to_console_listener stream (b ∷ buf) a
netconsole_received name stream reset a (err e) = if reset then forget_netconsole name else raise e

abbrev pub connect : String → Option Server → ℕ → Answers → Call (Unit {0})
connect id none sock a s = (ok tt, s)
connect id (some m) sock a s = on_server id m (accept sock a.sends a.shut) s

-- At the end of its input a client was hung up by `recv`, so that to close it again does nothing.
abbrev pub client_received : String → Bytes → Result (Unit {0}) → Call (Unit {0})
client_received id [] writes s = (ok tt, s)
client_received id (b ∷ buf) writes s = type_in id (b ∷ buf) writes s

abbrev pub from_client :
    String → Option Server → Result Bytes → Result (Unit {0}) → Answers → Call (Unit {0})
from_client id none reads writes a s = (ok tt, s)
from_client id (some m) reads writes a s =
    (do buf ← on_server id m (recv reads a.shut); client_received m.id buf writes) s

module _ (decode : Bytes → Result String) where
  abbrev pub from_serial :
      String
      → Option Stream
      → Bytes
      → Result (Unit {0})
      → Result (Unit {0})
      → Answers
      → Call (Unit {0})
  from_serial name none buf last writes a s = (ok tt, s)
  from_serial name (some stream) buf last writes a s =
      let (r, stream') = serial_recv decode is_serial_end writes buf last stream in
      serial_received name stream' a r
        (record s { serial_devs = insert name stream' s.serial_devs })

  abbrev pub from_netconsole :
      String → Option Stream → Result Bytes → Bool → Result (Unit {0}) → Answers → Call (Unit {0})
  from_netconsole name none reads reset writes a s = (ok tt, s)
  from_netconsole name (some stream) reads reset writes a s =
      let (r, stream') = tcp_recv decode writes reads stream in
      netconsole_received name stream' reset a r
        (record s { netconsole_streams = insert name stream' s.netconsole_streams })

  -- The body of `for fd in rlist`.
  unfoldable pub handle : Ready → Call (Unit {0})
  unfolding send_to_console_listener serial_recv tcp_recv accept recv type_in
  handle (serial_ready name buf last writes a) s =
      from_serial name (lookup name s.serial_devs) buf last writes a s
  handle (netconsole_ready name reads reset writes a) s =
      from_netconsole name (lookup name s.netconsole_streams) reads reset writes a s
  handle (machine_connects id sock a) s = connect id (lookup id s.machines) sock a s
  handle (netconsole_connects name) s =
      (ok tt, record s { netconsole_streams = insert name fresh s.netconsole_streams })
  handle (client_ready id reads writes a) s = from_client id (lookup id s.machines) reads writes a s

  -- `for fd in rlist`: an exception is logged.
  unfoldable pub round : List Ready → Salad → Salad
  unfolding handle
  round [] s = s
  round (e ∷ es) s = round es (handle e s).1
