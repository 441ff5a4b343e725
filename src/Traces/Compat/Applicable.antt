-- ===== src/Traces/Compat/Applicable.antt =====
-- The reports that apply to a run are found, and are among the reports of the trace.
use valve_infra.Base.{String, ◌≡◌, true, Option, none, some, List, All}
use valve_infra.Base.Dict.{Dict}
use valve_infra.Traces.{is_in}
use valve_infra.Traces.Compat.{GitRepo, TraceCompatibility}

AllIn : List String → List String → Type 0
AllIn ys xs = All (λ x. is_in x ys ≡ true) xs

module _ {A : Type 0} (P : A → Type 0) where
  -- What holds of the values of a dictionary.
  Holds : Dict A → Type 0
  Holds d = All (λ e. P e.1) d

  Given : Option A → Type 0
  Given none = Unit
  Given (some a) = P a

module _ (P : TraceCompatibility → Type 0) where
  -- Of every project, the reports that are reached hold.
  Entry : GitRepo × Dict TraceCompatibility → Type 0
  Entry (repo, commits) = Holds P commits
