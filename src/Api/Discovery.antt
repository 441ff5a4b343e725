-- ===== src/Api/Discovery.antt =====
-- app.py: `discover_machine` and `find_pdu_port`; mars.py: `discover_data`.
--
-- The PDUs of the database are what `PDU.create` answers for each: its ports, by their identifiers
-- as text. Time is the clock of the world of the PDUs, in microseconds.
pub mod Attached
use text.Mathlib.Text.{◌==◌}
use valve_infra.Base.{
  get_or, zero, suc, ℕ, ◌-◌, ◌*◌, String, Bool, true, false, ◌&&◌, ◌||◌, not, Option, none, some,
  List, [], ◌∷◌, leb, if◌then◌else◌, or_else, is_some,
}
use valve_infra.Base.Dict.{Dict, lookup, insert, values}
use valve_infra.Base.Result.{Result, ok, err, Exception, value_error, key_error, type_error}
use valve_infra.Base.Action.{Action, pure, raise, ◌>>=◌, ◌>>◌}
use valve_infra.Pdu.{PduState, on, ◌=s◌, World, Driver}
use valve_infra.Pdu.Port
use valve_infra.Pdu.Port.{Port}
use valve_infra.Mars.{Dut}
use valve_infra.Mars.Sync.{Mars, machine_update_or_create}

-- `discover_data`
pub record Discovery : Type 0 where
  pub pdu : String
  pub port_id : String
  pub timeout : ℕ
  pub started_at : ℕ

pub record Site (D : Type 0) : Type 0 where
  pub discover_data : Option Discovery
  pub pdus : Dict (Result (Dict Port))
  pub duts : Dict Dut
  pub mars : Mars
  pub world : World D

-- Seconds, in microseconds.
abbrev pub seconds : ℕ → ℕ
seconds n = n * 1000000

-- The property `discover_data`: a discovery that has timed out is forgotten.
abbrev pub unexpired : ℕ → Option Discovery → Option Discovery
unexpired now none = none
unexpired now (some d) = if leb (seconds d.timeout) (now - d.started_at) then none else some d

-- The body of the request. `invalid` is whether it has any other field.
pub record Body : Type 0 where
  pub invalid : Bool
  pub pdu : Option String
  pub port_id : Option String
  pub timeout : Option ℕ

abbrev pub port_in : Option Port → Result Port
port_in none = err value_error
port_in (some p) = ok p

abbrev pub port_of : String → Option (Result (Dict Port)) → Result Port
port_of port_id none = err value_error
port_of port_id (some (err e)) = err e
port_of port_id (some (ok ports)) = port_in (lookup port_id ports)

-- `find_pdu` and `find_pdu_port`
unfoldable pub find_pdu_port : String → String → Dict (Result (Dict Port)) → Result Port
find_pdu_port pdu_name port_id pdus = port_of port_id (lookup pdu_name pdus)

-- `str(x)`
abbrev pub text_of : Option String → String
text_of none = "None"
text_of (some s) = s

abbrev pub is_named : String → Option String → Bool
is_named s none = false
is_named s (some t) = t == s

-- Whether a machine of the database has the port.
unfoldable pub is_assigned : String → String → Dict Dut → Bool
is_assigned pdu port_id [] = false
is_assigned pdu port_id ((id, m) ∷ duts) =
    (is_named pdu m.pdu && text_of m.pdu_port_id == port_id) || is_assigned pdu port_id duts

-- `sec = int(data.get('timeout'))`, or the default.
abbrev pub timeout_of : Option ℕ → ℕ
timeout_of none = 150
timeout_of (some zero) = 150
timeout_of (some (suc n)) = suc n

abbrev pub required : Option String → Option String → Result (String × String)
required (some pdu) (some port_id) = ok (pdu, port_id)
required _ _ = err value_error

module _ {D : Type 0} where
  -- A call of a PDU.
  abbrev pub on_pdu : {A : Type 0} → Action (World D) A → Action (Site D) A
  on_pdu call s = let (r, w) = call s.world in (r, record s { world = w })

  abbrev pub reply : {A : Type 0} → Result A → Action (Site D) A
  reply r s = (r, s)

  -- the property `discover_data`
  unfoldable pub discover_data : Action (Site D) (Option Discovery)
  discover_data s =
      let d = unexpired s.world.clock s.discover_data in (ok d, record s { discover_data = d })

  -- `GET`
  unfoldable pub discover_get : Action (Site D) (Option Discovery)
  unfolding discover_data
  discover_get = discover_data

  -- `DELETE`
  unfoldable pub discover_delete : Action (Site D) (Option Discovery)
  unfolding discover_data
  discover_delete = do λ s. (ok tt, record s { discover_data = none }); discover_data

  abbrev pub refuse_if : Bool → Action (Site D) (Unit {0})
  refuse_if b = if b then raise value_error else pure tt

  module _ (driver : Driver D) where
    -- The discovery proper, of a port that the PDU has.
    unfoldable pub launch : String → String → Option ℕ → Port → Action (Site D) ℕ
    unfolding Port.state Port.set
    launch pdu port_id timeout port = do
      s ← on_pdu (Port.state driver port)
      refuse_if (s =s on)
      port' ← on_pdu (Port.set driver on port)
      s' ← on_pdu (Port.state driver port')
      refuse_if (not (s' =s on))
      λ site. (
        ok 200,
        record site {
          discover_data = some (record {
            pdu = pdu;
            port_id = port_id;
            timeout = timeout_of timeout;
            started_at = site.world.clock;
          });
        },
      )

    -- `POST`
    unfoldable pub discover_post : Body → Action (Site D) ℕ
    unfolding discover_data find_pdu_port is_assigned launch
    discover_post body = do
      running ← discover_data
      refuse_if (is_some running)
      refuse_if body.invalid
      (pdu, port_id) ← reply (required body.pdu body.port_id)
      λ s.
          (do
            port ← reply (find_pdu_port pdu port_id s.pdus)
            refuse_if (is_assigned pdu port_id s.duts)
            launch pdu port_id body.timeout port)
            s
