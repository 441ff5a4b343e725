-- ===== src/Pdu/Virtual/Protocol.antt =====
-- pdu/drivers/virtual.py and vpdu.py: the driver and the server together meet the contract of a
-- PDU.
use valve_infra.Base.{
  ℕ, ◌+◌, ◌/◌, ◌%◌, ◌^◌, ◌≤◌, ◌<◌, ◌≡◌, ◌≢◌, refl, Bool, true, false, Option, none, some, [], ◌∷◌,
  arith, ◌==◌, lt→ltb, if◌then◌else◌,
}
use valve_infra.Base.Lists.{get_elem?, get_elem?-replicate}
use valve_infra.Base.Result.{ok}
use valve_infra.Pdu.{PduState, unknown, off, on, reboot, World, continue}
use valve_infra.Pdu.Contract.{Contract}
use valve_infra.Pdu.Vpdu.{PowerState, Outlet, Server, start_server, operate, serve}
use valve_infra.Pdu.Virtual.{
  first_byte, command, turn, set_port_state, get_port_state, read_state, driver,
}
use valve_infra.Pdu.Virtual.View.{
  request_lem, outlet_view, view, absurd_none, visible, view_kept, view-set, view_at,
}

abbrev outlet : PowerState → Option Bool → Outlet
outlet st i = record { state = st; instance' = i }

-- Turning a port on or off, and what is seen afterwards.
module _ (p : ℕ) (s : Server) (h : p < 2048) where
  on_at :
      (x : PowerState) (i : Option Bool) {st : PduState}
      → get_elem? s.outlets p ≡ some (outlet x i)
      → outlet_view (outlet x i) ≡ some st
      → let (r, s') = operate 1 p (some (outlet x i)) s in
        (r ≡ ok (1 ∷ [])) × ((q : ℕ) → view s' q ≡ (if p == q then some on else view s q))
  unfolding operate
  on_at PowerState.on none e v = absurd_none v
  on_at PowerState.on (some b) e v = (refl, λ q. view_kept s p q on (view_at s p _ h e))
  on_at PowerState.off i e v = (refl, λ q. view-set s p q _ _ on h e refl)
  on_at PowerState.error i e v = absurd_none v

  off_at :
      (x : PowerState) (i : Option Bool) {st : PduState}
      → get_elem? s.outlets p ≡ some (outlet x i)
      → outlet_view (outlet x i) ≡ some st
      → let (r, s') = operate 2 p (some (outlet x i)) s in
        (r ≡ ok (1 ∷ [])) × ((q : ℕ) → view s' q ≡ (if p == q then some off else view s q))
  unfolding operate
  off_at PowerState.on none e v = absurd_none v
  off_at PowerState.on (some b) e v = (refl, λ q. view-set s p q _ _ off h e refl)
  off_at PowerState.off i e v = (refl, λ q. view_kept s p q off (view_at s p _ h e))
  off_at PowerState.error i e v = absurd_none v

  read_at :
      (x : PowerState) (i : Option Bool) {st : PduState} (w : World Server)
      → outlet_view (outlet x i) ≡ some st
      → continue (first_byte (operate 3 p (some (outlet x i)) s).0) read_state w ≡ (ok st, w)
  unfolding operate
  read_at PowerState.on none w v = absurd_none v
  read_at PowerState.on (some b) w v = cc
  read_at PowerState.off i w v = cc
  read_at PowerState.error i w v = absurd_none v

get_port_state_lem :
    (w : World Server) (p : ℕ) (st : PduState)
    → view w.device p ≡ some st
    → get_port_state p w ≡ (ok st, w)
unfolding get_port_state operate
get_port_state_lem w p st h =
    let (fits, found) = visible w.device p st h in
    let (o, e, v) = found in
    rw (request_lem p 3 w fits (omega arith), e) (read_at p w.device fits o.state o.instance' w v)

-- One request that turns a port, and what is seen of all ports afterwards.
turn_lem :
    (b : Bool) (w : World Server) (p : ℕ) (st : PduState)
    → view w.device p ≡ some st
    → (s' : Server) × (turn true p (if b then 1 else 2) w ≡ (ok tt, record w { device = s' }))
      × ((q : ℕ) → view s' q ≡ (if p == q then some (if b then on else off) else view w.device q))
unfolding turn
turn_lem true w p st h =
    let (fits, found) = visible w.device p st h in
    let (o, e, v) = found in
    let (reply, views) = on_at p w.device fits o.state o.instance' e v in
    (
      (operate 1 p (some o) w.device).1,
      rw (request_lem p 1 w fits (omega arith), e, reply) refl,
      views,
    )
turn_lem false w p st h =
    let (fits, found) = visible w.device p st h in
    let (o, e, v) = found in
    let (reply, views) = off_at p w.device fits o.state o.instance' e v in
    (
      (operate 2 p (some o) w.device).1,
      rw (request_lem p 2 w fits (omega arith), e, reply) refl,
      views,
    )

abbrev pub settled : PduState → PduState
settled reboot = on
settled st = st

module _ (delay : ℕ) where
  later : (w : World Server) (s : Server) → World Server
  later w s = record { device = s; clock = w.clock + delay + delay }

  set_off :
      (w : World Server) (p : ℕ) (st : PduState)
      → view w.device p ≡ some st
      → (w' : World Server) × (set_port_state delay p off w ≡ (ok tt, w'))
        × ((q : ℕ) → view w'.device q ≡ (if p == q then some off else view w.device q))
        × (w.clock ≤ w'.clock)
  unfolding set_port_state later
  set_off w p st h =
      let (s', runs, views) = turn_lem false w p st h in
      (later w s', rw runs refl, views, omega arith)

  set_on :
      (w : World Server) (p : ℕ) (st : PduState)
      → view w.device p ≡ some st
      → (w' : World Server) × (set_port_state delay p on w ≡ (ok tt, w'))
        × ((q : ℕ) → view w'.device q ≡ (if p == q then some on else view w.device q))
        × (w.clock ≤ w'.clock)
  unfolding set_port_state later
  set_on w p st h =
      let (s', runs, views) = turn_lem true (record w { clock = w.clock + delay }) p st h in
      (later w s', rw runs refl, views, omega arith)

  set_reboot :
      (w : World Server) (p : ℕ) (st : PduState)
      → view w.device p ≡ some st
      → (w' : World Server) × (set_port_state delay p reboot w ≡ (ok tt, w'))
        × ((q : ℕ) → view w'.device q ≡ (if p == q then some on else view w.device q))
        × (w.clock ≤ w'.clock)
  unfolding set_port_state later
  set_reboot w p st h =
      let (s1, runs, views) = turn_lem false w p st h in
      let w1 : World Server = record { device = s1; clock = w.clock + delay } in
      let off_now : view s1 p ≡ some off = ground (arith, views p) in
      let (s2, runs', views') = turn_lem true w1 p off off_now in
      (later w s2, rw (runs, runs') refl, λ q. ground (arith, views q, views' q), omega arith)

  set_lem :
      (w : World Server) (p : ℕ) (st wanted : PduState)
      → view w.device p ≡ some st
      → wanted ≢ unknown
      → (w' : World Server) × (set_port_state delay p wanted w ≡ (ok tt, w'))
        × ((q : ℕ) → view w'.device q ≡ (if p == q then some (settled wanted) else view w.device q))
        × (w.clock ≤ w'.clock)
  set_lem w p st unknown h known = absurd (known refl)
  set_lem w p st off h known = set_off w p st h
  set_lem w p st on h known = set_on w p st h
  set_lem w p st reboot h known = set_reboot w p st h

  -- The driver and the server of the virtual PDU, with the protocol between them, meet the
  -- contract for every outlet that the server has below port 2048: a REBOOT leaves it ON.
  pub virtual-Contract : Contract (driver delay) view settled
  unfolding driver
  virtual-Contract = record {
    settled_on = refl;
    settled_off = refl;
    get_lem = λ w p st h. (w, get_port_state_lem w p st h, refl, omega arith);
    set_lem = set_lem;
  }

-- Every outlet of a server that has just started can be seen, and is off.
view-start_server : (n p : ℕ) → p < n → p < 2048 → view (start_server n) p ≡ some off
unfolding start_server
view-start_server n p h fits = rw (lt→ltb p 2048 fits, get_elem?-replicate n p _ h) refl

-- A request for a port from 2048 on has the bit set by which the server shuts down, and is served
-- as a request for the port that is 2048 below.
pub request_wraps :
    (p op : ℕ) (s : Server)
    → p < 2048
    → op < 4
    → serve (command (2048 + p) op) s
      ≡ operate op p (get_elem? s.outlets p) (record s { shutdown = true })
unfolding serve
request_wraps p op s hp ho =
    let e1 : command (2048 + p) op % 4 ≡ op = omega arith in
    let e2 : command (2048 + p) op / 4 % 2 ^ 11 ≡ p = omega arith in
    let e3 : command (2048 + p) op / 2 ^ 13 % 2 ≡ 1 = omega arith in
    let e4 : command (2048 + p) op / 2 ^ 14 % 2 ^ 18 ≡ 0 = omega arith in rw (e1, e2, e3, e4) refl
