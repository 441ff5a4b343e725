-- ===== src/Mars/Known.antt =====
-- mars.py: what becomes of the known machines in `sync_machines`.
use valve_infra.Mars.Sync.{
  create_or_update, update_config, remove_local_only, machine_update_or_create, update_all, create,
  remove_machine, Machine, Mars, sync_machines,
}
use text.Mathlib.Text.{◌==◌}
use text.Mathlib.TextEquality.{eq_iff}
use text.Mathlib.TextPositions.{eq_refl}
use valve_infra.Base.{
  All, is_some, ◌+◌, ◌∙◌, sym, ℕ, String, ◌≡◌, refl, Bool, true, false, ◌&&◌, not, Option, none,
  some, [], ◌∷◌, arith, if◌then◌else◌, Bool-cases, inl, inr, Option-cases,
}
use valve_infra.Base.Dict.{
  Dict, IsDict, lookup, insert, has, lookup-insert, lookup-erase, lookup-has,
}
use valve_infra.Base.Result.{Result, ok}
use valve_infra.Mars.{Dut}

-- What becomes of a machine that was known: its executor goes on with the new data.
abbrev updated : (Dut → Option ℕ) → Machine → Option Dut → Machine
updated p x none = x
updated p x (some d) = record x { db_dut = d; pdu_port = p d }

module _ (port : Dut → Result (Option ℕ)) (p : Dut → Option ℕ) (up : (d : Dut) → port d ≡ ok (p d))
    (boots : String → Dut → Result (Unit {0})) where
  -- The entry that a step of the first loop writes.
  abbrev entry : ℕ → Dut → Option Machine → Machine
  entry n dut none = record { db_dut = dut; pdu_port = p dut; executor = n }
  entry n dut (some x) = record x { db_dut = dut; pdu_port = p dut }

  abbrev thread : ℕ → Option Machine → ℕ
  thread n none = n + 1
  thread n (some x) = n

  abbrev entered : String → Dut → Option Machine → Mars → Mars
  entered id dut o m = record m {
    machines = insert id (entry m.next_thread dut o) m.machines;
    next_thread = thread m.next_thread o;
  }

  enters :
      (id : String) (dut : Dut) (o : Option Machine) (m : Mars)
      → boots id dut ≡ ok tt
      → create_or_update port boots id dut o m ≡ (ok tt, entered id dut o m)
  unfolding create update_config
  enters id dut none m served = ground (arith, up dut, served)
  enters id dut (some x) m served = ground (arith, up dut, served)

  steps :
      (id : String) (dut : Dut) (m : Mars)
      → boots id dut ≡ ok tt
      → machine_update_or_create port boots id dut m
        ≡ (ok tt, entered id dut (lookup id m.machines) m)
  unfolding machine_update_or_create
  steps id dut m served = enters id dut (lookup id m.machines) m served

  lookup-entered :
      (k id : String) (dut : Dut) (x : Machine) (m : Mars)
      → lookup k m.machines ≡ some x
      → lookup k (entered id dut (lookup id m.machines) m).machines
        ≡ some (if id == k then updated p x (some dut) else x)
  lookup-entered k id dut x m h = elim (Bool-cases (id == k)) [
    | inl same ↦
        let e : id ≡ k = (eq_iff id k).0 same in
        lookup-insert id k (entry m.next_thread dut (lookup id m.machines)) m.machines
        ∙ rw (same, e, h)
    | inr other ↦
        lookup-insert id k (entry m.next_thread dut (lookup id m.machines)) m.machines
        ∙ rw (other) h
  ]

  lookup-update_all :
      (k : String) (duts : Dict Dut) (x : Machine) (m : Mars)
      → IsDict duts
      → All (λ e. boots e.0 e.1 ≡ ok tt) duts
      → lookup k m.machines ≡ some x
      → let r = update_all port boots duts m in
        (r.0 ≡ ok tt) × (lookup k r.1.machines ≡ some (updated p x (lookup k duts)))
  unfolding update_all lookup
  lookup-update_all k [] x m u a h = (refl, h)
  lookup-update_all k ((id, dut) ∷ duts) x m u (served, all) h =
      let here = lookup-entered k id dut x m h in
      let next = entered id dut (lookup id m.machines) m in
      elim (Bool-cases (id == k)) [
        | inl same ↦
            let e : id ≡ k = (eq_iff id k).0 same in
            let gone = lookup-has k duts (rw e at u.0) in
            let (ok', found) =
              lookup-update_all k duts (updated p x (some dut)) next u.1 all (rw same at here) in
            rw (steps id dut m served, same) (ok', found ∙ rw (gone))
        | inr other ↦
            let rest = lookup-update_all k duts x next u.1 all (rw other at here) in
            rw (steps id dut m served, other) rest
      ]

lookup-remove_machine :
    (k id : String) (m : Mars)
    → lookup k (remove_machine id (lookup id m.machines) m).machines
      ≡ (if id == k then none else lookup k m.machines)
lookup-remove_machine k id m = elim (Option-cases (lookup id m.machines)) [
  | inl e ↦ rw (e) (absent (id == k) refl e)
  | inr (x, e) ↦ rw (e) (lookup-erase id k m.machines)
]
  where
    absent :
        (b : Bool)
        → (id == k) ≡ b
        → lookup id m.machines ≡ none
        → lookup k m.machines ≡ (if id == k then none else lookup k m.machines)
    absent true same e = rw (same) (rw ((eq_iff id k).0 same) at e)
    absent false other e = rw (other) refl

abbrev kept_or_gone : String → Dict Dut → Mars → Mars
kept_or_gone id duts m = if has id duts then m else remove_machine id (lookup id m.machines) m

lookup-kept_or_gone_same :
    (id : String) (duts : Dict Dut) (m : Mars)
    → lookup id (kept_or_gone id duts m).machines
      ≡ (if not (has id duts) then none else lookup id m.machines)
lookup-kept_or_gone_same id duts m = elim (Bool-cases (has id duts)) [
  | inl h ↦ rw (h) refl
  | inr h ↦ rw (h) (rw (eq_refl id) at (lookup-remove_machine id id m))
]

lookup-kept_or_gone_other :
    (k id : String) (duts : Dict Dut) (m : Mars)
    → (id == k) ≡ false
    → lookup k (kept_or_gone id duts m).machines ≡ lookup k m.machines
lookup-kept_or_gone_other k id duts m other = elim (Bool-cases (has id duts)) [
  | inl h ↦ rw (h) refl
  | inr h ↦ rw (h) (rw other at (lookup-remove_machine k id m))
]

lookup-kept_or_gone :
    (k id : String) (duts : Dict Dut) (m : Mars)
    → lookup k (kept_or_gone id duts m).machines
      ≡ (if (id == k) && not (has k duts) then none else lookup k m.machines)
lookup-kept_or_gone k id duts m = elim (Bool-cases (id == k)) [
  | inl same ↦
      let e : id ≡ k = (eq_iff id k).0 same in
      rw (sym e, eq_refl id) (lookup-kept_or_gone_same id duts m)
  | inr other ↦ rw (other) (lookup-kept_or_gone_other k id duts m other)
]

lookup-remove_local_only :
    (k : String) (duts : Dict Dut) (known : Dict Machine) (m : Mars)
    → lookup k (remove_local_only duts known m).machines
      ≡ (if has k known && not (has k duts) then none else lookup k m.machines)
unfolding remove_local_only
lookup-remove_local_only k duts [] m = refl
lookup-remove_local_only k duts ((id, x) ∷ known) m =
    lookup-remove_local_only k duts known (kept_or_gone id duts m)
    ∙ rw (lookup-kept_or_gone k id duts m) (ground arith)

has-lookup : {V : Type 0} (k : String) (d : Dict V) → has k d ≡ is_some (lookup k d)
unfolding lookup
has-lookup k [] = refl
has-lookup k ((j, v) ∷ d) = ground (arith, has-lookup k d)

abbrev pub synced : (Dut → Option ℕ) → Machine → Option Dut → Option Machine
synced p x none = none
synced p x (some d) = some (record x { db_dut = d; pdu_port = p d })

settled_as :
    (p : Dut → Option ℕ) (x : Machine) (o : Option Dut)
    → (if not (is_some o) then none else some (updated p x o)) ≡ synced p x o
settled_as p x none = refl
settled_as p x (some d) = refl

-- When the drivers answer and the network of each machine of the database is configured, a machine that was known before the database is read again is kept with
-- its executor, and with its new data and port, if the database still has it, and is no longer
-- known if it does not.
pub sync_machines-known :
    (port : Dut → Result (Option ℕ)) (p : Dut → Option ℕ) (up : (d : Dut) → port d ≡ ok (p d))
    (boots : String → Dut → Result (Unit {0})) (duts : Dict Dut) (m : Mars) (k : String)
    (x : Machine)
    → IsDict duts
    → All (λ e. boots e.0 e.1 ≡ ok tt) duts
    → lookup k m.machines ≡ some x
    → let r = sync_machines port boots duts m in
      (r.0 ≡ ok tt) × (lookup k r.1.machines ≡ synced p x (lookup k duts))
unfolding sync_machines
sync_machines-known port p up boots duts m k x u served h =
    let (returns, found) = lookup-update_all port p up boots k duts x m u served h in
    let all = (update_all port boots duts m).1 in
    let after = lookup-remove_local_only k duts m.machines all in
    rw (returns) (
      refl,
      after
          ∙ rw (found, has-lookup k m.machines, has-lookup k duts, h)
              (settled_as p x (lookup k duts)),
    )
