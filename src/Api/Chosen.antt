-- ===== src/Api/Chosen.antt =====
-- app.py: which machine gets a job.
use text.Mathlib.Text.{◌==◌}
use text.Mathlib.TextEquality.{eq_iff}
use text.Mathlib.TextPositions.{eq_refl}
use valve_infra.Base.{
  get_or, subst, ap, String, Bool, true, false, ◌&&◌, ◌||◌, not, ◌≡◌, ◌≢◌, refl, ◌⊎◌, inl, inr,
  Option, none, some, List, [], ◌∷◌, arith, if◌then◌else◌, Bool-cases,
}
use valve_infra.Base.Dict.{Dict, lookup, insert, has, lookup-has, IsDict}
use valve_infra.Base.Result.{ok}
use valve_infra.Executor.{is_idle}
use valve_infra.Executor.Session.{Request, start_job}
use valve_infra.Job.Schema.{Target}
use valve_infra.Api.{Machine, Machines}
use valve_infra.Api.Choice.{
  Choice, issubset, check_machine, look, find_by, find_suitable_machine, dispatch, hand_to, after,
}

-- A machine that can take a job with these tags.
abbrev pub Suits : List String → Machine → Type 0
Suits wanted m =
    (issubset wanted m.tags ≡ true) × (m.is_retired ≡ false) × (is_idle m.executor.state ≡ true)

-- A choice that is sound: it names a machine that suits, or none and then no success.
abbrev pub IsSound : List String → Machines → Choice → Type 0
IsSound wanted ms choice =
    ((choice.machine ≡ none) × (choice.code ≢ 200))
    ⊎ ((id : String) × (m : Machine) × (choice.machine ≡ some id)
        × (choice.code ≡ 200)
        × (lookup id ms ≡ some m)
        × Suits wanted m)

deeper :
    {V : Type 0} (k j : String) (v w : V) (d : Dict V)
    → has j d ≡ false
    → lookup k d ≡ some v
    → lookup k ((j, w) ∷ d) ≡ some v
unfolding lookup
deeper k j v w d fresh here = ground (arith, eq_iff j k, lookup-has j d fresh, here)

candidate : (a b c : Bool) → ((a && not b) && c) ≡ true → (a ≡ true) × (b ≡ false) × (c ≡ true)
candidate a b c h = (ground arith, ground arith, ground arith)

-- One round of the loop.
look_step :
    (wanted : List String) (found : Bool) (id : String) (m : Machine) (ms : Machines)
    → let is_candidate = issubset wanted m.tags && not m.is_retired in
      look wanted found ((id, m) ∷ ms) ≡ (
        if is_candidate && is_idle m.executor.state
        then record { machine = some id; code = 200 }
        else look wanted (found || is_candidate) ms)
unfolding look
look_step wanted found id m ms = refl

look_end : (wanted : List String) (found : Bool) → (look wanted found []).code ≢ 200
unfolding look
look_end wanted true = λ h. absurd (omega arith)
look_end wanted false = λ h. absurd (omega arith)

lookup_first : {V : Type 0} (id : String) (v : V) (d : Dict V) → lookup id ((id, v) ∷ d) ≡ some v
unfolding lookup
lookup_first id v d = rw (eq_refl id)

deeper-IsSound :
    (wanted : List String) (id : String) (m : Machine) (ms : Machines) (choice : Choice)
    → has id ms ≡ false
    → IsSound wanted ms choice
    → IsSound wanted ((id, m) ∷ ms) choice
deeper-IsSound wanted id m ms choice fresh (inl no_one) = inl no_one
deeper-IsSound wanted id m ms choice fresh (inr (k, x, named, success, here, suits)) =
    inr (k, x, named, success, deeper k id x m ms fresh here, suits)

look-IsSound :
    (wanted : List String) (found : Bool) (ms : Machines)
    → IsDict ms
    → IsSound wanted ms (look wanted found ms)
look-IsSound wanted found [] u = inl (unfold look in refl, look_end wanted found)
look-IsSound wanted found ((id, m) ∷ ms) (fresh, u) =
    let suits = (issubset wanted m.tags && not m.is_retired) && is_idle m.executor.state in
    rw (look_step wanted found id m ms) (elim (Bool-cases suits) [
      | inl first ↦ rw first (
          inr (
            id,
            m,
            refl,
            refl,
            lookup_first id m ms,
            candidate (issubset wanted m.tags) m.is_retired (is_idle m.executor.state) first,
          ))
      | inr later ↦ rw later (
          deeper-IsSound wanted id m ms _ fresh
            (look-IsSound wanted (found || (issubset wanted m.tags && not m.is_retired)) ms u))
    ])

check_machine-IsSound :
    (id : String) (wanted : List String) (ms : Machines) (o : Option Machine)
    → lookup id ms ≡ o
    → IsSound wanted ms (check_machine id wanted o)
unfolding check_machine
check_machine-IsSound id wanted ms none here = inl (refl, λ h. absurd (omega arith))
check_machine-IsSound id wanted ms (some m) here = elim (Bool-cases (issubset wanted m.tags)) [
  | inr lacks ↦ rw lacks (inl (refl, λ h. absurd (omega arith)))
  | inl has_all ↦ elim (Bool-cases (is_idle m.executor.state)) [
    | inr busy ↦ rw (has_all, busy) (inl (refl, λ h. absurd (omega arith)))
    | inl free ↦ elim (Bool-cases m.is_retired) [
      | inl retired ↦ rw (has_all, free, retired) (inl (refl, λ h. absurd (omega arith)))
      | inr active ↦
          rw (has_all, free, active) (inr (id, m, refl, refl, here, (has_all, active, free)))
    ]
  ]
]

find_by-IsSound :
    (o : Option String) (wanted : List String) (ms : Machines)
    → IsDict ms
    → IsSound wanted ms (find_by o wanted ms)
find_by-IsSound none wanted ms u = look-IsSound wanted false ms u
find_by-IsSound (some id) wanted ms u = check_machine-IsSound id wanted ms (lookup id ms) refl

met :
    {V : Type 0} (k j : String) (v w : V) (d : Dict V)
    → lookup k ((j, w) ∷ d) ≡ some v
    → (w ≡ v) ⊎ (lookup k d ≡ some v)
unfolding lookup
met k j v w d here = elim (Bool-cases (j == k)) [
  | inl same ↦
      inl
        (ap (λ o. get_or o w) (subst (λ b. (if b then some w else lookup k d) ≡ some v) same here))
  | inr other ↦ inr (subst (λ b. (if b then some w else lookup k d) ≡ some v) other here)
]

not_candidate : (a b c : Bool) → ((a && not b) && c) ≡ false → a ≡ true → b ≡ false → c ≡ true → ⊥
not_candidate a b c h ha hb hc = ground arith

-- A machine is missed only if another is chosen.
look_finds :
    (wanted : List String) (id : String) (m : Machine) (ms : Machines) (found : Bool)
    → lookup id ms ≡ some m
    → Suits wanted m
    → (look wanted found ms).code ≡ 200
look_finds wanted id m [] found here suits = unfold lookup in (cc)
look_finds wanted id m ((j, x) ∷ ms) found here (has_all, active, free) =
    let suits = (issubset wanted x.tags && not x.is_retired) && is_idle x.executor.state in
    rw (look_step wanted found j x ms) (elim (Bool-cases suits) [
      | inl first ↦ rw first refl
      | inr later ↦ elim (met id j m x ms here) [
        | inl same ↦ absurd (
            not_candidate _ _ _
              (subst
                (λ y.
                  ((issubset wanted y.tags && not y.is_retired) && is_idle y.executor.state)
                  ≡ false)
                same later)
              has_all active free)
        | inr still ↦ rw later (
            look_finds wanted id m ms (found || (issubset wanted x.tags && not x.is_retired)) still
              (has_all, active, free))
      ]
    ])

-- Where the code of the choice is not 200 nothing was chosen; a chosen machine is known, has the
-- tags, is not retired and idle; and a target that names no machine gets one if any such machine
-- is known.
pub find_suitable_machine_lem :
    (target : Target) (ms : Machines)
    → IsDict ms
    → IsSound target.tags ms (find_suitable_machine target ms)
      × ((id : String) (m : Machine)
          → target.id ≡ none
          → lookup id ms ≡ some m
          → Suits target.tags m
          → (find_suitable_machine target ms).code ≡ 200)
unfolding find_suitable_machine
find_suitable_machine_lem target ms u = (
  find_by-IsSound target.id target.tags ms u,
  λ id m any here suits. rw any (look_finds target.tags id m ms false here suits),
)

-- What the executor of a chosen machine makes of the job.
abbrev pub started : Request → Machine → Machine
started req m = record m { executor = (start_job req m.executor).1 }

hand_to-lem :
    (id : String) (req : Request) (ms : Machines) (o : Option Machine) (m : Machine)
    → o ≡ some m
    → hand_to id o 200 req ms
      ≡ (after (start_job req m.executor).0 200, insert id (started req m) ms)
hand_to-lem id req ms o m here = rw here refl

-- A permitted request changes no machine unless it is handed to a machine that has the tags, is
-- not retired and idle; then only the executor of that machine changes, as `start_job` has it, and
-- the answer is 200 if that raises nothing.
pub dispatch_lem :
    (target : Target) (req : Request) (ms : Machines)
    → IsDict ms
    → ((dispatch (ok true) target req ms).1 ≡ ms)
      ⊎ ((id : String) × (m : Machine) × (lookup id ms ≡ some m)
          × Suits target.tags m
          × (dispatch (ok true) target req ms
              ≡ (after (start_job req m.executor).0 200, insert id (started req m) ms)))
unfolding dispatch
dispatch_lem target req ms u = elim ((find_suitable_machine_lem target ms u).0) [
  | inl (no_one, _) ↦ inl (rw no_one refl)
  | inr (id, m, named, success, here, suits) ↦
      inr (id, m, here, suits, rw (named, success) (hand_to-lem id req ms (lookup id ms) m here))
]
