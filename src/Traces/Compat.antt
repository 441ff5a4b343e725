-- ===== src/Traces/Compat.antt =====
-- `GitRepo` and the compatibility reports that apply to a run: which commits of the dependencies a
-- trace is known to work with, or not to work with.
--
-- A repository is what pygit2 answers: the commit of its HEAD, and the walk from HEAD down to the
-- commits that are hidden, as the parents of each commit on the way.
pub mod Reached
pub mod Applicable
use valve_infra.Base.{
  ℕ, String, Bool, true, false, not, Option, none, some, List, [], ◌∷◌, ◌++◌, ltb, if◌then◌else◌,
  get_or,
}
use valve_infra.Base.Dict.{Dict, lookup, insert}
use valve_infra.Base.Result.{Result, ok, err, key_error, ◌>>=◌, ◌>>◌}
use valve_infra.Traces.{is_in}

-- `GitRepo`
pub record GitRepo : Type 0 where
  pub head : String
  pub walk : List String → List (List String)

-- `TraceCompatibility`, of one trace: the name of its project, and the version of its commit.
pub record TraceCompatibility : Type 0 where
  pub project : String
  pub commit : String
  pub is_working : Bool
  pub agreement_count : ℕ

-- `top_commits.add`
unfoldable pub add : String → List String → List String
unfolding is_in
add oid top_commits = if is_in oid top_commits then top_commits else top_commits ++ oid ∷ []

-- `for parent in commit.parents`
unfoldable pub add_parents : List String → List String → List String → List String
unfolding add is_in
add_parents commit_oids [] top_commits = top_commits
add_parents commit_oids (parent ∷ parents) top_commits =
    add_parents commit_oids parents
      (if is_in parent commit_oids then add parent top_commits else top_commits)

-- `for commit in walker`
unfoldable pub add_commits : List String → List (List String) → List String → List String
unfolding add_parents
add_commits commit_oids [] top_commits = top_commits
add_commits commit_oids (parents ∷ walker) top_commits =
    add_commits commit_oids walker (add_parents commit_oids parents top_commits)

-- `find_first_accessible_commits_from_head`
unfoldable pub find_first_accessible_commits_from_head : GitRepo → List String → List String
unfolding add_commits is_in
find_first_accessible_commits_from_head repo commit_oids =
    if is_in repo.head commit_oids
    then repo.head ∷ []
    else add_commits commit_oids (repo.walk commit_oids) []

-- `commits.keys()`
unfoldable pub keys : {A : Type 0} → Dict A → List String
keys [] = []
keys ((k, a) ∷ d) = k ∷ keys d

-- The repository of each project that is provided, and the reports on it by their commits: the last
-- report on a commit counts.
abbrev pub Reachable : Type 0
Reachable = Dict (GitRepo × Dict TraceCompatibility)

abbrev pub commits_of : Option (GitRepo × Dict TraceCompatibility) → Dict TraceCompatibility
commits_of none = []
commits_of (some (repo, commits)) = commits

abbrev pub reach : Option GitRepo → TraceCompatibility → Reachable → Reachable
reach none report d = d
reach (some repo) report d =
    insert report.project (repo, insert report.commit report (commits_of (lookup report.project d)))
      d

-- `for trace_report in ...`
unfoldable pub reachable_commits : Dict GitRepo → List TraceCompatibility → Reachable → Reachable
reachable_commits dependencies [] d = d
reachable_commits dependencies (report ∷ reports) d =
    reachable_commits dependencies reports (reach (lookup report.project dependencies) report d)

abbrev pub at : Option TraceCompatibility → Result TraceCompatibility
at none = err key_error
at (some report) = ok report

-- `reports[found_project].append(commits[commit])`, for each of the commits.
unfoldable pub reports_at : Dict TraceCompatibility → List String → Result (List TraceCompatibility)
reports_at commits [] = ok []
reports_at commits (commit ∷ found) = do
  report ← at (lookup commit commits)
  reports ← reports_at commits found
  ok (report ∷ reports)

-- The reports of all the projects, one behind the other.
unfoldable pub collect : Reachable → Result (List TraceCompatibility)
unfolding reports_at find_first_accessible_commits_from_head keys
collect [] = ok []
collect ((name, (repo, commits)) ∷ d) = do
  reports ← reports_at commits (find_first_accessible_commits_from_head repo (keys commits))
  rest ← collect d
  ok (reports ++ rest)

-- `itertools.chain(*applicable_compatibility_reports.values())`
unfoldable pub applicable_compatibility_reports :
    Dict GitRepo → List TraceCompatibility → Result (List TraceCompatibility)
unfolding reachable_commits collect
applicable_compatibility_reports dependencies reports =
    collect (reachable_commits dependencies reports [])

abbrev pub smaller : ℕ → ℕ → ℕ
smaller m n = if ltb n m then n else m

-- `min([r.agreement_count for r in all_reports])`
unfoldable pub lowest_of : ℕ → List TraceCompatibility → ℕ
lowest_of n [] = n
lowest_of n (r ∷ rs) = lowest_of (smaller n r.agreement_count) rs

-- `lowest_compatibity_agreement_count`
unfoldable pub lowest_compatibity_agreement_count : List TraceCompatibility → ℕ
unfolding lowest_of
lowest_compatibity_agreement_count [] = 0
lowest_compatibity_agreement_count (r ∷ rs) = lowest_of r.agreement_count rs

unfoldable pub all_working : List TraceCompatibility → Bool
all_working [] = true
all_working (r ∷ rs) = let rest = all_working rs in if r.is_working then rest else false

-- `expected_to_work`
unfoldable pub expected_to_work : List TraceCompatibility → Bool
unfolding all_working lowest_compatibity_agreement_count
expected_to_work [] = false
expected_to_work (r ∷ rs) =
    if all_working (r ∷ rs) then ltb 20 (lowest_compatibity_agreement_count (r ∷ rs)) else false
