-- ===== src/Api/Discovery/Attached.antt =====
-- app.py: what comes of a discovery.
use valve_infra.Base.{
  ==_iff, ◌==◌, ◌∙◌, ap, ℕ, ◌≤◌, String, false, ◌≡◌, refl, Option, none, some, arith, if◌then◌else◌,
}
use valve_infra.Base.Result.{ok}
use valve_infra.Pdu.{PduState, off, on, World, Driver}
use valve_infra.Pdu.Port
use valve_infra.Pdu.Port.{Port}
use valve_infra.Pdu.Contract.{Contract, set_reaches}
use valve_infra.Api.Discovery.{
  Site, Body, find_pdu_port, is_assigned, discover_post, launch, timeout_of, unexpired,
  discover_data,
}

module _ {D : Type 0} {d : Driver D} {view : D → ℕ → Option PduState}
    {settled : PduState → PduState} (c : Contract d view settled) where
  open c use {get_lem, set_lem, settled_on}

  -- With a driver that keeps the contract, the discovery of a free port that is OFF turns it on,
  -- touches no other port, and records the port and when its wait for the machine began.
  pub discover_post_lem :
      (s : Site D) (body : Body) (pdu port_id : String) (p : Port)
      → unexpired s.world.clock s.discover_data ≡ none
      → body.invalid ≡ false
      → body.pdu ≡ some pdu
      → body.port_id ≡ some port_id
      → find_pdu_port pdu port_id s.pdus ≡ ok p
      → is_assigned pdu port_id s.duts ≡ false
      → view s.world.device p.port_id ≡ some off
      → p.last_shutdown ≤ s.world.clock
      → (w : World D) × (discover_post d body s ≡ (
        ok 200,
        record s {
          discover_data = some (record {
            pdu = pdu;
            port_id = port_id;
            timeout = timeout_of body.timeout;
            started_at = w.clock;
          });
          world = w;
        },
      ))
        × ((q : ℕ) → view w.device q ≡ (if p.port_id == q then some on else view s.world.device q))
        × (s.world.clock ≤ w.clock)
  unfolding discover_post launch discover_data Port.state
  discover_post_lem s body pdu port_id p idle valid has_pdu has_port known free is_off past =
      let (w1, got, same1, later1) = get_lem s.world p.port_id off is_off in
      let off1 : view w1.device p.port_id ≡ some off = rw same1 is_off in
      let (p', w2, turned, views, _, _, same_id, later2) =
        set_reaches c p w1 off on off1 (λ e. cc e) (omega (arith, past, later1)) in
      let on_now : (q : ℕ)
          → view w2.device q ≡ (if p.port_id == q then some on else view s.world.device q) =
        λ q. views q ∙ rw (settled_on, same1) refl in
      let on2 : view w2.device p'.port_id ≡ some on =
        ap (view w2.device) same_id
        ∙ on_now p.port_id
        ∙ rw ((==_iff p.port_id p.port_id).1 refl) refl in
      let (w3, got3, same3, later3) = get_lem w2 p'.port_id on on2 in
      let run : discover_post d body s ≡ (
        ok 200,
        record s {
          discover_data = some (record {
            pdu = pdu;
            port_id = port_id;
            timeout = timeout_of body.timeout;
            started_at = w3.clock;
          });
          world = w3;
        },
      ) =
        rw (idle, valid, has_pdu, has_port, known, free, got, turned, got3) refl in
      (w3, run, λ q. ap (λ dev. view dev q) same3 ∙ on_now q, omega (arith, later1, later2, later3))
