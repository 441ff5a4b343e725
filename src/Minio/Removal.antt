-- ===== src/Minio/Removal.antt =====
-- executor.py: `JobBucket.remove`, `credentials` and `access_url`, and minioclient.py:
-- `remove_user_policy`.
pub mod Left
use Prim.Native.String
use valve_infra.Base.{String, Option, none, some, List, [], ◌∷◌}
use valve_infra.Base.Dict.{Dict, lookup}
use valve_infra.Base.Result.{Result, ok, err}
use valve_infra.Base.Action.{Action, pure, ◌>>=◌, ◌>>◌}
use valve_infra.Minio.Credentials.{Credentials, JobBucket, without}

-- Whether each of MinIO's calls succeeds; a call that fails changes nothing.
pub record Removals : Type 0 where
  pub bucket : Result (Unit {0})
  pub unset : String → Result (Unit {0})
  pub policy : String → Result (Unit {0})
  pub user : String → Result (Unit {0})

abbrev pub Call : Type 0
Call = Action JobBucket (Unit {0})

abbrev pub reply : Result (Unit {0}) → Call
reply r b = (r, b)

-- `remove_user_policy`
unfoldable pub remove_user_policy : Removals → String → Call
remove_user_policy a policy_name = do
  reply (a.unset policy_name)
  reply (a.policy policy_name)
  λ b. (ok tt, record b { policies = without policy_name b.policies })

-- `remove_user`
unfoldable pub remove_user : Removals → String → Call
remove_user a user = do reply (a.user user); λ b. (ok tt, record b { users = without user b.users })

-- `for credentials in self._credentials.values()`
unfoldable pub remove_all : Removals → Dict Credentials → Call
unfolding remove_user_policy remove_user
remove_all a [] = pure tt
remove_all a ((role, c) ∷ credentials) = do
  remove_user_policy a c.policy_name
  remove_user a c.username
  remove_all a credentials

-- `remove`
unfoldable pub remove : Removals → Call
unfolding remove_all
remove a = do reply a.bucket; λ b. remove_all a b.credentials b

-- `credentials`
unfoldable pub credentials : String → JobBucket → Option Credentials
credentials role b = lookup role b.credentials

abbrev pub login : Option Credentials → String
login none = ""
login (some c) = String.◌++◌ c.username (String.◌++◌ ":" (String.◌++◌ c.password "@"))

-- `access_url`: `scheme` and `netloc` are those of MinIO's URL.
unfoldable pub access_url : String → String → String → JobBucket → String
unfolding credentials
access_url scheme netloc role b =
    String.◌++◌ scheme (String.◌++◌ "://" (String.◌++◌ (login (credentials role b)) netloc))
