-- ===== src/Pdu/Contract.antt =====
-- pdu/__init__.py: what `PDUPort` relies on in a driver, and what it gives to the executor.
use valve_infra.Base.{
  ap, ◌∙◌, ℕ, ◌+◌, ◌-◌, ◌≤◌, ◌≡◌, refl, ◌≢◌, Bool, true, false, ◌&&◌, Option, some, arith, ltb,
  ◌==◌, Bool-cases, inl, inr, if◌then◌else◌,
}
use valve_infra.Base.Result.{ok}
use valve_infra.Pdu.{PduState, unknown, off, on, reboot, ◌=s◌, pure, ◌>>◌, World, Driver}
use valve_infra.Pdu.Port.{Port, wait, set}

-- A driver behaves: of every port that its device has it reports the state and changes nothing,
-- and a request moves that port, and no other, to the state that it
-- settles in: ON and OFF settle in themselves, what REBOOT does is the driver's. `view` is how the
-- ports are seen in the device.
pub record Contract {D : Type 0} (d : Driver D) (view : D → ℕ → Option PduState)
    (settled : PduState → PduState) : Type 0 where
  pub settled_on : settled on ≡ on
  pub settled_off : settled off ≡ off
  pub get_lem :
      (w : World D) (p : ℕ) (s : PduState)
      → view w.device p ≡ some s
      → (w' : World D) × (d.get_port_state p w ≡ (ok s, w'))
        × (w'.device ≡ w.device)
        × (w.clock ≤ w'.clock)
  pub set_lem :
      (w : World D) (p : ℕ) (s wanted : PduState)
      → view w.device p ≡ some s
      → wanted ≢ unknown
      → (w' : World D) × (d.set_port_state p wanted w ≡ (ok tt, w'))
        × ((q : ℕ) → view w'.device q ≡ (if p == q then some (settled wanted) else view w.device q))
        × (w.clock ≤ w'.clock)

-- Before a port that is off is turned on, the clock has passed its minimum off time; the device
-- is not touched by the wait.
wait_lem :
    {D : Type 0} (p : Port) (w : World D)
    → p.last_shutdown ≤ w.clock
    → (w' : World D) × (wait p w ≡ (ok tt, w'))
      × (w'.device ≡ w.device)
      × (w.clock ≤ w'.clock)
      × (p.last_shutdown + p.min_off_time ≤ w'.clock)
unfolding wait
wait_lem p w h = elim (Bool-cases (ltb (w.clock - p.last_shutdown) p.min_off_time)) [
  | inl short ↦ (
    record w { clock = w.clock + (p.min_off_time - (w.clock - p.last_shutdown)) },
    rw short,
    refl,
    omega arith,
    omega arith,
  )
  | inr long ↦ (w, rw long, refl, omega arith, ground arith)
]

-- What `set` records of the time, given the state that it read.
abbrev shutdown_at : PduState → PduState → ℕ → ℕ → ℕ
shutdown_at s wanted before now =
    if wanted =s off then (if s =s off then before else now) else before

shutdown_unchanged :
    (s wanted : PduState) (before now : ℕ)
    → (s =s wanted) ≡ true
    → before ≡ shutdown_at s wanted before now
shutdown_unchanged s off before now h = ground arith
shutdown_unchanged s _ before now h = refl

shutdown_changed :
    (s wanted : PduState) (p : Port) (now : ℕ)
    → (s =s wanted) ≡ false
    → (if wanted =s off then record p { last_shutdown = now } else p).last_shutdown
      ≡ shutdown_at s wanted p.last_shutdown now
shutdown_changed s off p now h = ground arith
shutdown_changed s on p now h = refl
shutdown_changed s unknown p now h = refl
shutdown_changed s reboot p now h = refl

recorded_keeps :
    (b : Bool) (p : Port) (now : ℕ)
    → let p' = if b then record p { last_shutdown = now } else p in
      (p'.min_off_time ≡ p.min_off_time) × (p'.port_id ≡ p.port_id)
recorded_keeps true p now = (refl, refl)
recorded_keeps false p now = (refl, refl)

-- The pause, where there is one, changes nothing but the clock.
pause_lem :
    {D : Type 0} (b : Bool) (p : Port) (w : World D)
    → p.last_shutdown ≤ w.clock
    → (w' : World D) × ((if b then wait p else pure tt) w ≡ (ok tt, w'))
      × (w'.device ≡ w.device)
      × (w.clock ≤ w'.clock)
pause_lem true p w h =
    let (w', runs, same, later, enough) = wait_lem p w h in (w', runs, same, later)
pause_lem false p w h = (w, refl, refl, omega arith)

module _ {D : Type 0} {d : Driver D} {view : D → ℕ → Option PduState}
    {settled : PduState → PduState} (c : Contract d view settled) where
  open c use {get_lem, set_lem}

  -- `set` leaves a port in the state that was asked for and touches no other port; turning it off
  -- records when that was done.
  pub set_reaches :
      (p : Port) (w : World D) (s wanted : PduState)
      → view w.device p.port_id ≡ some s
      → wanted ≢ unknown
      → p.last_shutdown ≤ w.clock
      → (p' : Port) × (w' : World D) × (set d wanted p w ≡ (ok p', w'))
        × ((q : ℕ)
            → view w'.device q ≡ (
                if p.port_id == q
                then (if s =s wanted then some s else some (settled wanted))
                else view w.device q))
        × (p'.last_shutdown ≡ (
            if wanted =s off
            then (if s =s off then p.last_shutdown else w'.clock)
            else p.last_shutdown))
        × (p'.min_off_time ≡ p.min_off_time)
        × (p'.port_id ≡ p.port_id)
        × (w.clock ≤ w'.clock)
  unfolding set
  set_reaches p w s wanted here known past =
      let (w1, got, same, later) = get_lem w p.port_id s here in
      elim (Bool-cases (s =s wanted)) [
        | inl already ↦ (
          p,
          w1,
          rw (got, already),
          λ q. ground (arith, here, ap (λ dev. view dev q) same),
          ground (arith, shutdown_unchanged s wanted p.last_shutdown w1.clock already),
          refl,
          refl,
          later,
        )
        | inr differs ↦
            let (w2, paused, same', later') =
              pause_lem (s =s off && wanted =s on) p w1 (omega arith) in
            let (w3, asked, views, later'') =
              set_lem w2 p.port_id s wanted (rw (same', same) here) known in
            (
              if wanted =s off then record p { last_shutdown = w3.clock } else p,
              w3,
              rw (got, differs, paused, asked),
              λ q. rw (views q, same', same, differs),
              shutdown_changed s wanted p w3.clock differs,
              (recorded_keeps (wanted =s off) p w3.clock).0,
              (recorded_keeps (wanted =s off) p w3.clock).1,
              omega arith,
            )
      ]

  -- A port that is off is asked to turn on only when it has been off for its minimum time: the
  -- request reaches the driver in a world with the same device and a late enough clock.
  pub set_on_waits :
      (p : Port) (w : World D)
      → view w.device p.port_id ≡ some off
      → p.last_shutdown ≤ w.clock
      → (w' : World D) × (set d on p w ≡ (d.set_port_state p.port_id on >> pure p) w')
        × (w'.device ≡ w.device)
        × (p.last_shutdown + p.min_off_time ≤ w'.clock)
  unfolding set
  set_on_waits p w here past =
      let (w1, got, same, later) = get_lem w p.port_id off here in
      let (w2, waited, same', later', enough) = wait_lem p w1 (omega arith) in
      (w2, rw (got, waited), same' ∙ same, enough)
