-- ===== src/Traces/Most.antt =====
-- `traces_under_gb`: no other choice of traces that fits has more of them.
use valve_infra.Base.{
  ℕ, zero, suc, ◌+◌, ◌≤◌, ◌<◌, ◌≡◌, refl, inl, inr, Bool, false, List, [], ◌∷◌, arith, leb,
  if◌then◌else◌, length, take, All, Bool-cases,
}
use valve_infra.Traces.{Trace, sort_in, sorted, fit, traces_under_gb}

abbrev pub total : List Trace → ℕ
total [] = 0
total (t ∷ ts) = t.file_size + total ts

-- The traces that `pick` picks.
abbrev pub picked : (Trace → Bool) → List Trace → List Trace
picked pick [] = []
picked pick (t ∷ ts) = let rest = picked pick ts in if pick t then t ∷ rest else rest

abbrev IsSorted : List Trace → Type 0
IsSorted [] = Unit
IsSorted (t ∷ ts) = All (λ u. t.file_size ≤ u.file_size) ts × IsSorted ts

sort_in-All :
    (n : ℕ) (t : Trace) (ts : List Trace)
    → n ≤ t.file_size
    → All (λ u. n ≤ u.file_size) ts
    → All (λ u. n ≤ u.file_size) (sort_in t ts)
unfolding sort_in
sort_in-All n t [] h hs = (h, tt)
sort_in-All n t (u ∷ us) h (hu, hs) = elim (Bool-cases (leb t.file_size u.file_size)) [
  | inl e ↦ rw e (h, (hu, hs))
  | inr e ↦ rw e (hu, sort_in-All n t us h hs)
]

All-weaker :
    (m n : ℕ) (ts : List Trace)
    → m ≤ n
    → All (λ u. n ≤ u.file_size) ts
    → All (λ u. m ≤ u.file_size) ts
All-weaker m n [] h hs = tt
All-weaker m n (t ∷ ts) h (ht, hs) = (omega arith, All-weaker m n ts h hs)

sort_in-IsSorted : (t : Trace) (ts : List Trace) → IsSorted ts → IsSorted (sort_in t ts)
unfolding sort_in
sort_in-IsSorted t [] h = (tt, tt)
sort_in-IsSorted t (u ∷ us) (hu, hs) = elim (Bool-cases (leb t.file_size u.file_size)) [
  | inl e ↦
      rw e (
        (ground (arith, e), All-weaker t.file_size u.file_size us (ground (arith, e)) hu),
        (hu, hs),
      )
  | inr e ↦ rw e (sort_in-All u.file_size t us (ground (arith, e)) hu, sort_in-IsSorted t us hs)
]

sorted-IsSorted : (ts : List Trace) → IsSorted (sorted ts)
unfolding sorted
sorted-IsSorted [] = tt
sorted-IsSorted (t ∷ ts) = sort_in-IsSorted t (sorted ts) (sorted-IsSorted ts)

module _ (pick : Trace → Bool) where
  -- Sorting moves what is picked, and no more.
  sort_in-picked :
      (t : Trace) (ts : List Trace)
      → (total (picked pick (sort_in t ts)) ≡ total (picked pick (t ∷ ts)))
        × (length (picked pick (sort_in t ts)) ≡ length (picked pick (t ∷ ts)))
  unfolding sort_in
  sort_in-picked t [] = (refl, refl)
  sort_in-picked t (u ∷ us) =
      let (sum, number) = sort_in-picked t us in (ground arith, ground arith)

  sorted-picked :
      (ts : List Trace)
      → (total (picked pick (sorted ts)) ≡ total (picked pick ts))
        × (length (picked pick (sorted ts)) ≡ length (picked pick ts))
  unfolding sorted
  sorted-picked [] = (refl, refl)
  sorted-picked (t ∷ ts) =
      let (sum, number) = sorted-picked ts in
      let (sum', number') = sort_in-picked t (sorted ts) in (ground arith, ground arith)

  length-picked : (ts : List Trace) → length (picked pick ts) ≤ length ts
  length-picked [] = omega arith
  length-picked (t ∷ ts) = ground (arith, length-picked ts)

-- The first traces of a sorted list, and the smallest of any number.
take_shift :
    (n : ℕ) (t : Trace) (ts : List Trace)
    → IsSorted (t ∷ ts)
    → n ≤ length ts
    → total (take n (t ∷ ts)) ≤ total (take n ts)
take_shift zero t ts h le = omega arith
take_shift (suc n) t [] h le = omega arith
take_shift (suc n) t (u ∷ us) ((tu, h), hs) le =
    let later = take_shift n u us hs (omega arith) in omega arith

take_least :
    (pick : Trace → Bool) (ts : List Trace)
    → IsSorted ts
    → total (take (length (picked pick ts)) ts) ≤ total (picked pick ts)
take_least pick [] h = omega arith
take_least pick (t ∷ ts) (ht, hs) = elim (Bool-cases (pick t)) [
  | inl e ↦ rw e (let later = take_least pick ts hs in omega arith)
  | inr e ↦ rw e (
      let later = take_least pick ts hs in
      let first = take_shift (length (picked pick ts)) t ts (ht, hs) (length-picked pick ts) in
      omega arith)
]

fit_most :
    (n max taken : ℕ) (ts : List Trace)
    → n ≤ length ts
    → taken + total (take n ts) < max
    → n ≤ length (fit max taken ts)
unfolding fit
fit_most zero max taken ts le h = omega arith
fit_most (suc n) max taken [] le h = le
fit_most (suc n) max taken (t ∷ ts) le h =
    let fits : leb max (taken + t.file_size) ≡ false = ground arith in
    let later = fit_most n max (taken + t.file_size) ts (omega arith) (omega arith) in
    rw fits (omega arith)

fit_under : (max taken : ℕ) (ts : List Trace) → taken < max → taken + total (fit max taken ts) < max
unfolding fit
fit_under max taken [] h = omega arith
fit_under max taken (t ∷ ts) h = elim (Bool-cases (leb max (taken + t.file_size))) [
  | inl e ↦ rw e (omega arith)
  | inr e ↦
      rw e (let later = fit_under max (taken + t.file_size) ts (ground (arith, e)) in omega arith)
]

-- The traces that are chosen stay under a limit that is not zero, and no choice of traces that
-- stays under it, whatever picks them, has more.
pub traces_under_gb_lem :
    (ts : List Trace) (max : ℕ)
    → 0 < max
    → (total (traces_under_gb ts max) < max)
      × ((pick : Trace → Bool)
          → total (picked pick ts) < max
          → length (picked pick ts) ≤ length (traces_under_gb ts max))
unfolding traces_under_gb
traces_under_gb_lem ts max h = (
  (let under = fit_under max 0 (sorted ts) h in omega arith),
  λ pick under.
      let (sum, number) = sorted-picked pick ts in
      let least = take_least pick (sorted ts) (sorted-IsSorted ts) in
      let few = length-picked pick (sorted ts) in
      let most = fit_most (length (picked pick (sorted ts))) max 0 (sorted ts) few (omega arith) in
      omega arith,
)
