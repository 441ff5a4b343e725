-- ===== src/Traces/Compat/Reached.antt =====
-- Which commits of a repository are reached from its HEAD, and that each of them has its report.
use text.Mathlib.Text.{◌==◌}
use text.Mathlib.TextEquality.{eq_iff}
use valve_infra.Base.{
  get_or, subst, ◌∙◌, ap, sym, String, Bool, true, ◌&&◌, ◌||◌, ◌≡◌, refl, ◌⊎◌, inl, inr, Option,
  none, some, List, [], ◌∷◌, ◌++◌, any, arith, Bool-cases, if◌then◌else◌,
}
use valve_infra.Base.Dict.{Dict, lookup}
use valve_infra.Base.Result.{Result, ok, err, ◌>>=◌}
use valve_infra.Traces.{is_in}
use valve_infra.Traces.Compat.{
  GitRepo, TraceCompatibility, Reachable, add, add_parents, add_commits, at, reports_at,
  find_first_accessible_commits_from_head, keys, collect,
}

-- The HEAD, if it is one of the commits, and else those of the commits that are a parent on the way
-- down from HEAD.
abbrev pub is_reached : GitRepo → List String → String → Bool
unfolding is_in
is_reached repo commit_oids c =
    if is_in repo.head commit_oids
    then repo.head == c
    else is_in c commit_oids && any (is_in c) (repo.walk commit_oids)

module _ (c : String) where
  is_in-append : (xs ys : List String) → is_in c (xs ++ ys) ≡ is_in c xs || is_in c ys
  unfolding is_in
  is_in-append [] ys = refl
  is_in-append (x ∷ xs) ys = ground (arith, is_in-append xs ys)

  is_in-same : (x : String) (ys : List String) → (x == c) ≡ true → is_in x ys ≡ is_in c ys
  is_in-same x ys same = ap (λ z. is_in z ys) ((eq_iff x c).0 same)

  is_in-add : (x : String) (top : List String) → is_in c (add x top) ≡ is_in c top || (x == c)
  unfolding add is_in
  is_in-add x top = elim (Bool-cases (is_in x top)) [
    | inl e ↦ elim (Bool-cases (x == c)) [
      | inl same ↦
          let there : is_in c top ≡ true = sym (is_in-same x top same) ∙ e in
          rw (e, same, there) refl
      | inr other ↦ rw (e, other) (ground arith)
    ]
    | inr e ↦ rw e (is_in-append top (x ∷ []) ∙ ground arith)
  ]

  is_in-next :
      (oids : List String) (p : String) (top : List String)
      → is_in c (if is_in p oids then add p top else top)
        ≡ is_in c top || (is_in p oids && (p == c))
  is_in-next oids p top = elim (Bool-cases (is_in p oids)) [
    | inl e ↦ rw e (is_in-add p top)
    | inr e ↦ rw e (ground arith)
  ]

  is_in-add_parents :
      (oids parents top : List String)
      → is_in c (add_parents oids parents top) ≡ is_in c top || (is_in c oids && is_in c parents)
  unfolding add_parents is_in
  is_in-add_parents oids [] top = ground arith
  is_in-add_parents oids (p ∷ ps) top =
      let next = if is_in p oids then add p top else top in
      is_in-add_parents oids ps next
      ∙ rw (is_in-next oids p top) (elim (Bool-cases (p == c)) [
        | inl same ↦ rw (same, is_in-same p oids same) (ground arith)
        | inr other ↦ rw other (ground arith)
      ])

  is_in-add_commits :
      (oids : List String) (walker : List (List String)) (top : List String)
      → is_in c (add_commits oids walker top)
        ≡ is_in c top || (is_in c oids && any (is_in c) walker)
  unfolding add_commits
  is_in-add_commits oids [] top = ground arith
  is_in-add_commits oids (ps ∷ walker) top =
      is_in-add_commits oids walker (add_parents oids ps top)
      ∙ rw (is_in-add_parents oids ps top) (ground arith)

  is_in-found :
      (repo : GitRepo) (oids : List String)
      → is_in c (find_first_accessible_commits_from_head repo oids) ≡ is_reached repo oids c
  unfolding find_first_accessible_commits_from_head is_in
  is_in-found repo oids = elim (Bool-cases (is_in repo.head oids)) [
    | inl e ↦ rw e (ground arith)
    | inr e ↦ rw e (is_in-add_commits oids (repo.walk oids) [])
  ]

abbrev pub Listed : TraceCompatibility → List TraceCompatibility → Type 0
Listed r [] = ⊥
Listed r (x ∷ xs) = (x ≡ r) ⊎ Listed r xs

Listed-left :
    (r : TraceCompatibility) (xs ys : List TraceCompatibility) → Listed r xs → Listed r (xs ++ ys)
Listed-left r [] ys h = elim h [ ]
Listed-left r (x ∷ xs) ys (inl e) = inl e
Listed-left r (x ∷ xs) ys (inr h) = inr (Listed-left r xs ys h)

Listed-right :
    (r : TraceCompatibility) (xs ys : List TraceCompatibility) → Listed r ys → Listed r (xs ++ ys)
Listed-right r [] ys h = h
Listed-right r (x ∷ xs) ys h = inr (Listed-right r xs ys h)

bound :
    {A B : Type 0} (m : Result A) (f : A → Result B) (b : B)
    → (m >>= f) ≡ ok b
    → (a : A) × (m ≡ ok a) × (f a ≡ ok b)
bound (ok a) f b h = (a, refl, h)
bound (err e) f b h = cc

got_one : Result TraceCompatibility → Option TraceCompatibility
got_one (ok r) = some r
got_one (err e) = none

got : Result (List TraceCompatibility) → List TraceCompatibility
got (ok rs) = rs
got (err e) = []

same_list :
    (r : TraceCompatibility) (xs rs : List TraceCompatibility)
    → ok xs ≡ ok rs
    → Listed r xs
    → Listed r rs
unfolding got
same_list r xs rs whole h = subst (λ o. Listed r (got o)) whole h

reports_at-Listed :
    (commits : Dict TraceCompatibility) (found : List String) (c : String) (r : TraceCompatibility)
    (rs : List TraceCompatibility)
    → reports_at commits found ≡ ok rs
    → lookup c commits ≡ some r
    → is_in c found ≡ true
    → Listed r rs
unfolding reports_at is_in got_one
reports_at-Listed commits [] c r rs runs has h = cc
reports_at-Listed commits (k ∷ found) c r rs runs has h =
    let (x, here, rest) =
      bound (at (lookup k commits)) (λ x. reports_at commits found >>= λ xs. ok (x ∷ xs)) rs runs in
    let (xs, there, whole) = bound (reports_at commits found) (λ xs. ok (x ∷ xs)) rs rest in
    same_list r (x ∷ xs) rs whole (elim (Bool-cases (k == c)) [
      | inl same ↦
          let named : lookup k commits ≡ some r =
            ap (λ z. lookup z commits) ((eq_iff k c).0 same) ∙ has in
          inl (ap (λ o. get_or (got_one o) r) (sym (rw named at here)))
      | inr other ↦ inr (reports_at-Listed commits found c r xs there has (rw other at h))
    ])

abbrev reports_of : GitRepo × Dict TraceCompatibility → Result (List TraceCompatibility)
unfolding reports_at find_first_accessible_commits_from_head keys
reports_of (repo, commits) =
    reports_at commits (find_first_accessible_commits_from_head repo (keys commits))

some_same : {A : Type 0} {x y : A} → some x ≡ some y → x ≡ y
some_same {A} {x} e = ap (λ o. get_or o x) e

reached_here :
    (e e' : GitRepo × Dict TraceCompatibility) (c : String) (r : TraceCompatibility)
    (rs : List TraceCompatibility)
    → e ≡ e'
    → reports_of e ≡ ok rs
    → lookup c e'.1 ≡ some r
    → is_reached e'.0 (keys e'.1) c ≡ true
    → Listed r rs
unfolding reports_at reports_of
reached_here e e' c r rs same runs has h =
    reports_at-Listed e'.1 (find_first_accessible_commits_from_head e'.0 (keys e'.1)) c r rs
      (ap reports_of (sym same) ∙ runs) has (is_in-found c e'.0 (keys e'.1) ∙ h)

pub collect-Listed :
    (d : Reachable) (name c : String) (repo : GitRepo) (commits : Dict TraceCompatibility)
    (r : TraceCompatibility) (rs : List TraceCompatibility)
    → collect d ≡ ok rs
    → lookup name d ≡ some (repo, commits)
    → lookup c commits ≡ some r
    → is_reached repo (keys commits) c ≡ true
    → Listed r rs
unfolding collect lookup
collect-Listed [] name c repo commits r rs runs here has h = cc
collect-Listed ((n, (repo', commits')) ∷ d) name c repo commits r rs runs here has h =
    let found = find_first_accessible_commits_from_head repo' (keys commits') in
    let (xs, first, more) =
      bound (reports_at commits' found) (λ xs. collect d >>= λ ys. ok (xs ++ ys)) rs runs in
    let (ys, second, whole) = bound (collect d) (λ ys. ok (xs ++ ys)) rs more in
    same_list r (xs ++ ys) rs whole (elim (Bool-cases (n == name)) [
      | inl same ↦ Listed-left r xs ys (
          reached_here (repo', commits') (repo, commits) c r xs (some_same (rw same at here)) first
            has h)
      | inr other ↦
          Listed-right r xs ys
            (collect-Listed d name c repo commits r ys second (rw other at here) has h)
    ])
