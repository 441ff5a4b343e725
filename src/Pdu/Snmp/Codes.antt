-- ===== src/Pdu/Snmp/Codes.antt =====
-- pdu/drivers/snmp.py: the codes that are read name the states whose codes were written, where the
-- driver inverts its own table; a table of a configuration is not an inverse.
use valve_infra.Base.{
  ap, ℕ, ◌≡◌, ◌≢◌, refl, true, none, some, List, [], ◌∷◌, arith, Bool-cases, inl, inr,
  if◌then◌else◌,
}
use valve_infra.Pdu.{PduState, unknown, off, on, reboot, ◌=s◌, state_value}
use valve_infra.Pdu.Snmp.{
  Mapping, code_of, decode, inverse_of, Key, key_on, key_off, key_reboot, key_other, assign,
  populate, keyed, manual_inverse,
}

-- No two states have one code.
abbrev IsInjective : Mapping → Type 0
IsInjective [] = Unit
IsInjective ((s, v) ∷ m) = (decode v (inverse_of m) ≡ none) × IsInjective m

same_state : (s t : PduState) → (s =s t) ≡ true → s ≡ t
same_state s t h = ground arith

-- Where no two states have one code, the inverted table reads each code as the state that is
-- written by it.
pub decode-inverse_of :
    (s : PduState) (v : ℕ) (m : Mapping)
    → IsInjective m
    → code_of s m ≡ some v
    → decode v (inverse_of m) ≡ some (state_value s)
unfolding decode inverse_of code_of
decode-inverse_of s v [] i h = cc
decode-inverse_of s v ((t, w) ∷ m) i h = elim (Bool-cases (t =s s)) [
  | inl same ↦
      let e : w ≡ v = written same h in
      let gone : decode v (inverse_of m) ≡ none = rw e at i.0 in
      ground (arith, e, gone, ap state_value (same_state t s same))
  | inr other ↦ rw (decode-inverse_of s v m i.1 (rw other at h))
]
  where
    written : (t =s s) ≡ true → (if t =s s then some w else code_of s m) ≡ some v → w ≡ v
    written same found = ground arith

-- The states that a configuration can name.
abbrev IsNamed : Mapping → Type 0
IsNamed [] = Unit
IsNamed ((s, v) ∷ m) = (s ≢ unknown) × IsNamed m

assign-IsNamed :
    (s : PduState) (v : ℕ) (m : Mapping) → s ≢ unknown → IsNamed m → IsNamed (assign s v m)
unfolding assign
assign-IsNamed s v [] h i = (h, tt)
assign-IsNamed s v ((t, w) ∷ m) h i = ground (arith, assign-IsNamed s v m h i.1)

populate-IsNamed : (m : Mapping) (d : List (Key × ℕ)) → IsNamed m → IsNamed (populate m d)
unfolding populate
populate-IsNamed m [] i = i
populate-IsNamed m ((key_on, v) ∷ d) i =
    populate-IsNamed (assign on v m) d (assign-IsNamed on v m (grind arith) i)
populate-IsNamed m ((key_off, v) ∷ d) i =
    populate-IsNamed (assign off v m) d (assign-IsNamed off v m (grind arith) i)
populate-IsNamed m ((key_reboot, v) ∷ d) i =
    populate-IsNamed (assign reboot v m) d (assign-IsNamed reboot v m (grind arith) i)
populate-IsNamed m ((key_other, v) ∷ d) i = populate-IsNamed m d i

decode-keyed : (v : ℕ) (m : Mapping) → v ≢ 1 → v ≢ 2 → v ≢ 3 → IsNamed m → decode v (keyed m) ≡ none
unfolding decode keyed state_value
decode-keyed v [] h1 h2 h3 i = refl
decode-keyed v ((unknown, w) ∷ m) h1 h2 h3 i = absurd (i.0 refl)
decode-keyed v ((off, w) ∷ m) h1 h2 h3 i = ground (arith, decode-keyed v m h1 h2 h3 i.1)
decode-keyed v ((on, w) ∷ m) h1 h2 h3 i = ground (arith, decode-keyed v m h1 h2 h3 i.1)
decode-keyed v ((reboot, w) ∷ m) h1 h2 h3 i = ground (arith, decode-keyed v m h1 h2 h3 i.1)

-- A code that is none of 1, 2 and 3 is not found in the inverse table that a configuration of a
-- `ManualSnmpPDU` gives, whatever codes it lists: the table is keyed by the states.
pub decode-manual_inverse :
    (d : List (Key × ℕ)) (v : ℕ) → v ≢ 1 → v ≢ 2 → v ≢ 3 → decode v (manual_inverse d) ≡ none
unfolding manual_inverse
decode-manual_inverse d v h1 h2 h3 =
    decode-keyed v (populate [] d) h1 h2 h3 (populate-IsNamed [] d tt)
