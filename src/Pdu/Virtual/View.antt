-- ===== src/Pdu/Virtual/View.antt =====
-- pdu/drivers/virtual.py and vpdu.py: a request on the wire, and what a client can see of a server.
use valve_infra.Base.{
  ltb→lt, ℕ, ◌+◌, ◌*◌, ◌/◌, ◌%◌, ◌^◌, ◌<◌, ◌≡◌, refl, true, Option, none, some, arith, ltb, ◌==◌,
  lt→ltb, Bool-cases, inl, inr, if◌then◌else◌,
}
use valve_infra.Base.Lists.{get_elem?, set, get_elem?-set}
use valve_infra.Pdu.{PduState, off, on, World}
use valve_infra.Pdu.Vpdu.{PowerState, Outlet, Server, operate, serve, handle}
use valve_infra.Pdu.Virtual.{first_byte, request, command}

-- A request for a port below 2048 reaches that port with its operation; the bits for the shutdown
-- and the reserved ones are clear.
serve-command :
    (p op : ℕ) (s : Server)
    → p < 2048
    → op < 4
    → serve (command p op) s ≡ operate op p (get_elem? s.outlets p) s
unfolding serve
serve-command p op s hp ho =
    let e1 : command p op % 4 ≡ op = omega arith in
    let e2 : command p op / 4 % 2 ^ 11 ≡ p = omega arith in
    let e3 : command p op / 2 ^ 13 % 2 ≡ 0 = omega arith in
    let e4 : command p op / 2 ^ 14 % 2 ^ 18 ≡ 0 = omega arith in rw (e1, e2, e3, e4) refl

bytes_of-number :
    (n : ℕ)
    → n < 2 ^ 32
    → n / 2 ^ 24 * 2 ^ 24 + n / 2 ^ 16 % 256 * 2 ^ 16 + n / 2 ^ 8 % 256 * 2 ^ 8 + n % 256 ≡ n
bytes_of-number n h = omega arith

-- The four bytes are put together again.
pub request_lem :
    (p op : ℕ) (w : World Server)
    → p < 2048
    → op < 4
    → request (command p op) w ≡ (
        let (reply, s) = operate op p (get_elem? w.device.outlets p) w.device in
        (first_byte reply, record w { device = s }))
unfolding request handle
request_lem p op w hp ho =
    let fits : ltb (command p op) (2 ^ 32) ≡ true = lt→ltb _ _ (omega arith) in
    rw (fits, bytes_of-number (command p op) (omega arith), serve-command p op w.device hp ho)

-- What a client can see of an outlet: ON with a machine that was started, or OFF.
abbrev pub outlet_view : Outlet → Option PduState
outlet_view o = elim o.state [
  | PowerState.on ↦ elim o.instance' [ none ↦ none | some _ ↦ some on ]
  | PowerState.off ↦ some off
  | PowerState.error ↦ none
]

abbrev view_outlet : Option Outlet → Option PduState
view_outlet none = none
view_outlet (some o) = outlet_view o

-- The protocol has eleven bits for the port.
abbrev pub view : Server → ℕ → Option PduState
view s p = if ltb p 2048 then view_outlet (get_elem? s.outlets p) else none

visible_outlet :
    (o : Option Outlet) {st : PduState}
    → view_outlet o ≡ some st
    → (x : Outlet) × (o ≡ some x) × (outlet_view x ≡ some st)
visible_outlet none h = cc
visible_outlet (some o) h = (o, refl, h)

pub absurd_none : {A B : Type 0} {b : B} → none ≡ some b → A
absurd_none h = cc

-- An outlet that can be seen stands for its state, and is not ON before its first start.
pub visible :
    (s : Server) (p : ℕ) (st : PduState)
    → view s p ≡ some st
    → (p < 2048) × ((o : Outlet) × (get_elem? s.outlets p ≡ some o) × (outlet_view o ≡ some st))
visible s p st h = elim (Bool-cases (ltb p 2048)) [
  | inl fits ↦ (ltb→lt p 2048 fits, visible_outlet (get_elem? s.outlets p) (rw fits at h))
  | inr large ↦ absurd_none (rw large at h)
]

pub view_kept :
    (s : Server) (p q : ℕ) (st : PduState)
    → view s p ≡ some st
    → view s q ≡ (if p == q then some st else view s q)
view_kept s p q st h = ground arith

pub view-set :
    (s : Server) (p q : ℕ) (o o' : Outlet) (st : PduState)
    → p < 2048
    → get_elem? s.outlets p ≡ some o
    → outlet_view o' ≡ some st
    → view (record s { outlets = set s.outlets p o' }) q ≡ (if p == q then some st else view s q)
view-set s p q o o' st h e v = rw (get_elem?-set s.outlets p q o' o e) (ground arith)

pub view_at :
    (s : Server) (p : ℕ) (o : Outlet)
    → p < 2048
    → get_elem? s.outlets p ≡ some o
    → view s p ≡ outlet_view o
view_at s p o h e = rw (lt→ltb p 2048 h, e)
