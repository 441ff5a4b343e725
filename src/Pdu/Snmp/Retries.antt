-- ===== src/Pdu/Snmp/Retries.antt =====
-- pdu/drivers/snmp.py: what the retries make of a device that fails now and then.
use valve_infra.Base.{ℕ, zero, suc, ◌+◌, ◌≤◌, ◌≡◌, refl, List, [], ◌∷◌, arith}
use valve_infra.Base.Result.{Result, err, null_error, value_error}
use valve_infra.Pdu.{Action, World}
use valve_infra.Pdu.Snmp.{retry}

module _ {A : Type 0} where
  -- A device that answers its calls as a script says, and then with `value_error`s. Its state is
  -- what is left of the script.
  abbrev pub scripted : Action (World (List (Result A))) A
  scripted w = elim w.device [
    | [] ↦ (err value_error, w)
    | r ∷ rest ↦ (r, record w { device = rest })
  ]

  -- The first answer of the next `n` calls that is not a known error, with the calls that are left.
  abbrev pub first_answer : ℕ → List (Result A) → Result A × List (Result A)
  first_answer zero script = (err value_error, script)
  first_answer (suc n) [] = (err value_error, [])
  first_answer (suc n) (err null_error ∷ script) = first_answer n script
  first_answer (suc n) (r ∷ script) = (r, script)

  retry_script :
      (n : ℕ) (pause : ℕ → ℕ) (script : List (Result A)) (clock : ℕ)
      → let (r, w') = retry n pause scripted (record { device = script; clock = clock }) in
        (◌≡◌ {A = Result A × List (Result A)} (r, w'.device) (first_answer n script))
        × (clock ≤ w'.clock)
  unfolding retry
  retry_script zero pause script clock = (refl, omega arith)
  retry_script (suc n) pause [] clock = (refl, omega arith)
  retry_script (suc n) pause (err null_error ∷ script) clock =
      let (same, later) = retry_script n pause script (clock + 1_000_000 + pause n) in
      (same, omega (arith, later))
  retry_script (suc n) pause (r ∷ script) clock = (refl, omega arith)

  -- Retrying returns, or raises, the first answer that is not a known error among the given
  -- number of attempts, makes no call after it, and raises `value_error` where there is none.
  pub retry-first_answer :
      (n : ℕ) (pause : ℕ → ℕ) (w : World (List (Result A)))
      → let (r, w') = retry n pause scripted w in
        (◌≡◌ {A = Result A × List (Result A)} (r, w'.device) (first_answer n w.device))
        × (w.clock ≤ w'.clock)
  retry-first_answer n pause w = retry_script n pause w.device w.clock
