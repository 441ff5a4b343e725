-- ===== src/Minio/Removal/Left.antt =====
-- What MinIO holds of a job once its bucket is removed.
use text.Mathlib.Text.{◌==◌}
use valve_infra.Base.{
  String, Bool, false, ◌||◌, ◌≡◌, refl, ap, List, [], ◌∷◌, if◌then◌else◌, Bool-cases, inl, inr,
}
use valve_infra.Base.Dict.{Dict}
use valve_infra.Base.Result.{ok}
use valve_infra.Minio.Credentials.{Credentials, JobBucket, without}
use valve_infra.Minio.Removal.{Removals, remove, remove_all, remove_user_policy, remove_user}

-- Whether some credentials of the bucket have the name, by `of`.
abbrev pub is_named : (Credentials → String) → Dict Credentials → String → Bool
is_named of [] name = false
is_named of ((role, c) ∷ cs) name = name == of c || is_named of cs name

-- The names that no credentials have.
abbrev pub unnamed : (Credentials → String) → Dict Credentials → List String → List String
unnamed of cs [] = []
unnamed of cs (name ∷ names) =
    let rest = unnamed of cs names in if is_named of cs name then rest else name ∷ rest

module _ (of : Credentials → String) where
  unnamed_none : (names : List String) → unnamed of [] names ≡ names
  unnamed_none [] = refl
  unnamed_none (n ∷ names) = ap (λ ns. n ∷ ns) (unnamed_none names)

  unnamed_step :
      (role : String) (c : Credentials) (cs : Dict Credentials) (names : List String)
      → unnamed of cs (without (of c) names) ≡ unnamed of ((role, c) ∷ cs) names
  unnamed_step role c cs [] = refl
  unnamed_step role c cs (n ∷ names) = elim (Bool-cases (n == of c)) [
    | inl e ↦ rw e (unnamed_step role c cs names)
    | inr e ↦ rw (e, unnamed_step role c cs names) refl
  ]

-- Every call succeeds.
pub record Succeeds (a : Removals) : Type 0 where
  pub bucket : a.bucket ≡ ok tt
  pub unset : (p : String) → a.unset p ≡ ok tt
  pub policy : (p : String) → a.policy p ≡ ok tt
  pub user : (u : String) → a.user u ≡ ok tt

remove_all_lem :
    (a : Removals) (cs : Dict Credentials) (b : JobBucket)
    → Succeeds a
    → remove_all a cs b ≡ (
      ok tt,
      record b {
        users = unnamed (λ c. c.username) cs b.users;
        policies = unnamed (λ c. c.policy_name) cs b.policies;
      },
    )
unfolding remove_all remove_user_policy remove_user
remove_all_lem a [] b h =
    rw (unnamed_none (λ c. c.username) b.users, unnamed_none (λ c. c.policy_name) b.policies) refl
remove_all_lem a ((role, c) ∷ cs) b h =
    let b' : JobBucket = record b {
      users = without c.username b.users;
      policies = without c.policy_name b.policies;
    } in
    let rest = remove_all_lem a cs b' h in
    rw (h.unset c.policy_name, h.policy c.policy_name, h.user c.username)
      (rw
        (
          rest,
          unnamed_step (λ c. c.username) role c cs b.users,
          unnamed_step (λ c. c.policy_name) role c cs b.policies,
        )
        refl)

-- Where MinIO carries out every call, removing a bucket takes away exactly the users and the policies
-- that its credentials name; a user without credentials stays.
pub remove_lem :
    (a : Removals) (b : JobBucket)
    → Succeeds a
    → ((remove a b).0 ≡ ok tt)
      × ((remove a b).1.users ≡ unnamed (λ c. c.username) b.credentials b.users)
      × ((remove a b).1.policies ≡ unnamed (λ c. c.policy_name) b.credentials b.policies)
unfolding remove
remove_lem a b h =
    let all = remove_all_lem a b.credentials b h in rw (h.bucket, all) (refl, refl, refl)
