-- ===== src/Salad/Hub/Delivery.antt =====
-- salad.py: the bytes of a serial console on their way to the client of its machine.
use text.Mathlib.Text.{◌==◌}
use valve_infra.Base.{ℕ, String, false, ◌≡◌, some, [], ◌∷◌, ◌++◌, if◌then◌else◌, take}
use valve_infra.Base.Dict.{lookup, lookup-insert}
use valve_infra.Base.Result.{Result, ok}
use valve_infra.Message.Framing.{Bytes}
use valve_infra.Salad.{Server, send, send_to}
use valve_infra.Salad.Console.{Stream, serial_recv, is_serial_end}
use valve_infra.Salad.Hub.{
  Salad, serial_ready, Answers, handle, send_to_console_listener, get_or_create_machine,
}

-- What a connected client has got, once its socket took `n` bytes of a buffer.
abbrev pub given : ℕ → ℕ → Bytes → Server → Server
given sock n buf m = record m {
  net = record m.net { sent = m.net.sent ++ (sock, take n buf) ∷ [] };
}

-- A buffer that is read from a serial console goes to the client of the machine that the console
-- names after the read, also where its name has just come; as much of it as the socket takes in
-- one send. No other machine is touched.
pub handle_serial :
    (decode : Bytes → Result String) (name id : String) (buf got : Bytes) (b sock n : ℕ)
    → (last writes : Result (Unit {0})) (a : Answers) (s : Salad) (stream stream' : Stream)
      (m : Server)
    → lookup name s.serial_devs ≡ some stream
    → serial_recv decode is_serial_end writes buf last stream ≡ (ok (b ∷ got), stream')
    → stream'.machine_id ≡ some id
    → (id == "") ≡ false
    → lookup id s.machines ≡ some m
    → m.client ≡ some sock
    → a.sends ≡ ok n
    → (q : String)
    → lookup q (handle decode (serial_ready name buf last writes a) s).1.machines
      ≡ (if id == q then some (given sock n (b ∷ got) m) else lookup q s.machines)
unfolding handle send_to_console_listener get_or_create_machine send send_to
handle_serial decode name id buf got b sock n last writes a s stream stream' m here reads names real
      known taken sends q =
    rw (here, reads, names, real, known, taken, sends) (lookup-insert id q _ s.machines)
