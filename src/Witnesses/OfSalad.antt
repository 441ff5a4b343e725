-- ===== src/Witnesses/OfSalad.antt =====
-- Serial consoles and their clients: runs of the theorems.
use valve_infra.Base.{String, ◌≡◌, refl, some, [], ◌∷◌, ◌++◌, arith, if◌then◌else◌}
use valve_infra.Base.Text.{codes, ◌=b◌}
use valve_infra.Base.Result.{Result, ok, err, value_error}
use valve_infra.Base.Action.{pure, ◌>>=◌}
use valve_infra.Message.Framing.{Bytes}
use valve_infra.Salad.{Server, init}
use valve_infra.Salad.Console.{
  Stream, find_id, is_serial_end, pings, process_input_line, process_lines, serial_recv, split,
  tcp_recv,
}
use valve_infra.Salad.Console.Pieces.{tcp_recv-append}
use valve_infra.Salad.Console.Wedged.{serial_recv_wedged}
use valve_infra.Salad.Hub.{Salad, Answers, fresh}

-- Every name is read as "dut", but one that is the byte 255.
abbrev decode : Bytes → Result String
decode name = if name =b (255 ∷ []) then err value_error else ok "dut"

abbrev name_line : Bytes
name_line = codes "SALAD.machine_id=x" ++ 10 ∷ []

tcp_recv-append_example :
    tcp_recv decode (ok tt) (ok (name_line ++ 72 ∷ [])) fresh
    ≡ (do
      x ← tcp_recv decode (ok tt) (ok name_line)
      y ← tcp_recv decode (ok tt) (ok (72 ∷ []))
      pure (x ++ y))
        fresh
unfolding tcp_recv split process_lines process_input_line find_id pings
tcp_recv-append_example = tcp_recv-append decode (ok tt) name_line (72 ∷ []) fresh refl

abbrev bad_line : Bytes
bad_line = codes "SALAD.machine_id=" ++ 255 ∷ []

abbrev wedged : Stream
wedged = record fresh { line_buffer = bad_line ++ 10 ∷ [] }

serial_recv_wedged_example :
    serial_recv decode is_serial_end (ok tt) (72 ∷ 10 ∷ 73 ∷ []) (ok tt) wedged
    ≡ (err value_error, record wedged { line_buffer = bad_line ++ 10 ∷ 72 ∷ 10 ∷ [] })
unfolding find_id
serial_recv_wedged_example =
    serial_recv_wedged decode is_serial_end (ok tt) bad_line [] (72 ∷ []) (73 ∷ []) (ok tt) wedged
      refl refl refl ((λ e. omega (arith, e)), tt)

abbrev answers : Answers
answers = record { sends = ok 5; shut = ok tt }

abbrev served : Server
served = record (init "dut") { client = some 7 }

abbrev hub : Salad
hub = record {
  machines = ("dut", served) ∷ [];
  serial_devs = ("ttyUSB0", fresh) ∷ [];
  netconsole_streams = [];
  closed_devs = [];
}

-- The stream behind a read that names its machine.
abbrev named : Stream
named = record fresh { machine_id = some "dut" }
