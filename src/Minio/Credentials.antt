-- ===== src/Minio/Credentials.antt =====
-- executor.py: the credentials that `JobBucket` makes for its bucket and takes back.
--
-- MinIO is what it holds, and `Answers` whether each of its calls succeeds; a call that fails
-- changes nothing. Removing a user is taken to succeed.
use Prim.Native.String
use text.Mathlib.Text.{◌==◌}
use valve_infra.Base.{
  String, Bool, true, false, ◌&&◌, ◌||◌, Option, List, [], ◌∷◌, if◌then◌else◌, get_or,
}
use valve_infra.Base.Dict.{Dict, insert}
use valve_infra.Base.Result.{Result, ok, err}
use valve_infra.Base.Action.{Action, pure, raise, ◌>>◌}

pub record Credentials : Type 0 where
  pub username : String
  pub password : String
  pub policy_name : String

-- `JobBucket`, with the users and the policies of users that MinIO holds.
pub record JobBucket : Type 0 where
  pub name : String
  pub credentials : Dict Credentials
  pub users : List String
  pub policies : List String

pub record Answers : Type 0 where
  pub add_user : Result (Unit {0})
  pub apply_user_policy : Result (Unit {0})
  pub add_user_to_group : String → Result (Unit {0})

abbrev pub without : String → List String → List String
without u [] = []
without u (v ∷ us) = let rest = without u us in if v == u then rest else v ∷ rest

-- `self.minio.add_user(user_name, password)`
unfoldable pub add_user : Answers → String → Action JobBucket (Unit {0})
add_user a user b = elim a.add_user [
  | ok _ ↦ (ok tt, record b { users = user ∷ b.users })
  | err e ↦ (err e, b)
]

-- `self.minio.remove_user(user_name)`
unfoldable remove_user : String → Action JobBucket (Unit {0})
remove_user user b = (ok tt, record b { users = without user b.users })

unfoldable pub apply_user_policy : Answers → String → Action JobBucket (Unit {0})
apply_user_policy a policy b = elim a.apply_user_policy [
  | ok _ ↦ (ok tt, record b { policies = policy ∷ b.policies })
  | err e ↦ (err e, b)
]

-- `try: apply_user_policy(...) except Exception as e: remove_user(user_name); raise e`
unfoldable apply_or_remove : Answers → String → String → Action JobBucket (Unit {0})
unfolding apply_user_policy remove_user
apply_or_remove a policy user b =
    let (r, b') = apply_user_policy a policy b in
    elim r [ ok _ ↦ (ok tt, b') | err e ↦ (remove_user user >> raise e) b' ]

-- `for group_name in groups: self.minio.add_user_to_group(user_name, group_name)`
unfoldable join_groups : Answers → List String → Action JobBucket (Unit {0})
join_groups a [] = pure tt
join_groups a (g ∷ groups) = (λ b. (a.add_user_to_group g, b)) >> join_groups a groups

-- `create_owner_credentials`; `token` is what `secrets.token_hex` gives.
unfoldable pub create_owner_credentials :
    Answers
    → String
    → String
    → Option String
    → Option String
    → List String
    → Action JobBucket Credentials
unfolding add_user apply_or_remove join_groups
create_owner_credentials a token role user_name password groups b =
    let user = get_or user_name (String.◌++◌ b.name (String.◌++◌ "-" role)) in
    let policy = String.◌++◌ "policy_" user in
    let made : Credentials = record {
      username = user;
      password = get_or password token;
      policy_name = policy;
    } in
    (do
      add_user a user
      apply_or_remove a policy user
      join_groups a groups
      λ b. (ok made, record b { credentials = insert role made b.credentials }))
      b

abbrev pub is_ok {ℓ} : {A : Type ℓ} → Result A → Bool
is_ok (ok a) = true
is_ok (err e) = false

-- Every group takes the user.
abbrev pub groups_take : Answers → List String → Bool
groups_take a [] = true
groups_take a (g ∷ groups) = is_ok (a.add_user_to_group g) && groups_take a groups

abbrev holds_user : String → List String → Bool
holds_user u [] = false
holds_user u (v ∷ us) = v == u || holds_user u us
