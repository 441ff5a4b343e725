-- ===== src/Salad.antt =====
-- salad/src/valve_gfx_ci/salad: SALAD, which shares the serial consoles of the machines over TCP.
-- This file is tcpserver.py, the server of one machine; the modules below are console.py and
-- salad.py.
--
-- Sockets are numbers. What a socket answers to a call is an argument of the operation; the bytes
-- that were sent and the sockets that were closed are kept in `Net`.
pub mod Console
pub mod Clients
pub mod Hub
pub use valve_infra.Base.Action.{Action, pure, raise, continue, try_except, ◌>>=◌, ◌>>◌}
use valve_infra.Base.{
  take, if◌then◌else◌, ℕ, String, Bool, true, false, Option, none, some, List, [], ◌∷◌, ◌++◌,
}
use valve_infra.Base.Text.{codes}
use valve_infra.Base.Result.{Result, ok, err, Exception, os_error}
use valve_infra.Message.Framing.{Bytes}

pub record Net : Type 0 where
  pub sent : List (ℕ × Bytes)
  pub closed : List ℕ

-- `SerialConsoleTCPServer`
pub record Server : Type 0 where
  pub id : String
  pub client : Option ℕ
  pub net : Net

-- `SerialConsoleTCPServer.__init__`
unfoldable pub init : String → Server
init id = record { id = id; client = none; net = record { sent = []; closed = [] } }

abbrev pub Call : Type 0 → Type 0
Call = Action Server

-- `sock.send(buf)`, which takes the first `n` bytes of the buffer, or raises.
unfoldable pub send_to : ℕ → Bytes → Result ℕ → Call (Unit {0})
send_to sock buf (ok n) s =
    (ok tt, record s { net = record s.net { sent = s.net.sent ++ (sock, take n buf) ∷ [] } })
send_to sock buf (err e) s = (err e, s)

-- `sock.shutdown(SHUT_RDWR)`, which may raise, and `sock.close()`.
unfoldable pub hang_up : ℕ → Result (Unit {0}) → Call (Unit {0})
hang_up sock (ok _) s = (ok tt, record s { net = record s.net { closed = sock ∷ s.net.closed } })
hang_up sock (err e) s = (err e, s)

-- `ConnectionResetError` and `BrokenPipeError` are kinds of `OSError`.
abbrev pub is_os_error : Exception → Bool
is_os_error os_error = true
is_os_error e = false

abbrev hang_up_any : Option ℕ → Result (Unit {0}) → Call (Unit {0})
hang_up_any none shut = pure tt
hang_up_any (some sock) shut = hang_up sock shut

-- `close_client`: the client is forgotten before its socket is shut.
unfoldable pub close_client : Result (Unit {0}) → Call (Unit {0})
unfolding hang_up
close_client shut s = hang_up_any s.client shut (record s { client = none })

abbrev busy : Bytes
busy = codes "A client is already connected, re-try later!" ++ 13 ∷ 10 ∷ []

abbrev accept_beside : Option ℕ → ℕ → Result ℕ → Result (Unit {0}) → Call (Unit {0})
accept_beside none sock told shut s = (ok tt, record s { client = some sock })
accept_beside (some _) sock told shut s = (do send_to sock busy told; hang_up sock shut) s

abbrev send_any : Option ℕ → Bytes → Result ℕ → Result (Unit {0}) → Call (Unit {0})
send_any none buf sends shut = pure tt
send_any (some sock) buf sends shut =
    try_except (send_to sock buf sends) is_os_error (close_client shut)

-- `send`
unfoldable pub send : Bytes → Result ℕ → Result (Unit {0}) → Call (Unit {0})
unfolding send_to close_client
send buf sends shut s = send_any s.client buf sends shut s

-- `accept`, of the socket `sock`: a second client is told so and turned away.
unfoldable pub accept : ℕ → Result ℕ → Result (Unit {0}) → Call (Unit {0})
unfolding send_to hang_up
accept sock told shut s = accept_beside s.client sock told shut s

abbrev received : Result Bytes → Result (Unit {0}) → Call Bytes
received (ok []) shut = do try_except (close_client shut) is_os_error (close_client shut); pure []
received (ok (b ∷ buf)) shut = pure (b ∷ buf)
received (err e) shut = if is_os_error e then (do close_client shut; pure []) else raise e

abbrev recv_any : Option ℕ → Result Bytes → Result (Unit {0}) → Call Bytes
recv_any none reads shut = pure []
recv_any (some _) reads shut = received reads shut

-- `recv`. An `OSError` of the hanging up inside the `try` has the client hung up again, which by
-- then is none.
unfoldable pub recv : Result Bytes → Result (Unit {0}) → Call Bytes
unfolding close_client
recv reads shut s = recv_any s.client reads shut s
