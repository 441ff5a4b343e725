-- ===== src/Minio/Request.antt =====
-- executor.py: `JobBucket.from_job_request` and the constructor of `JobBucket`, with the buckets
-- that MinIO holds, `make_bucket` of minioclient.py and the removal by `JobBucket.__del__` of an
-- object whose constructor raised.
--
-- `Service` is what the MinIO library's check of a name says, and what MinIO answers to a new name
-- and to a removal; a call that fails changes
-- nothing. `now` and `rand_int` are the digits that make a name unique.
pub mod Taken
use valve_infra.Base.{
  ◌≡◌, refl, ap, ◌∙◌, Bool, true, false, not, ◌&&◌, ◌||◌, List, [], ◌∷◌, ◌++◌, arith, if◌then◌else◌,
  Bool-cases, inl, inr,
}
use valve_infra.Base.Text.{codes, ◌=b◌, =b_iff}
use valve_infra.Base.Result.{Result, ok, err, Exception, value_error}
use valve_infra.Base.Action.{Action}
use valve_infra.Message.Framing.{Bytes}
use valve_infra.Minio.BucketName.{create_valid_bucket_name}

-- The answer of the MinIO library to `make_bucket`.
pub data Made : Type 0 where
  made s3_error : Made
  raised : Exception → Made

pub record Service : Type 0 where
  pub checks : Bytes → Result (Unit {0})
  pub makes : Bytes → Made
  pub removes : Bytes → Bool

abbrev pub has : Bytes → List Bytes → Bool
has b [] = false
has b (c ∷ bs) = (b =b c) || has b bs

abbrev pub without : Bytes → List Bytes → List Bytes
without b [] = []
without b (c ∷ bs) = let rest = without b bs in if b =b c then rest else c ∷ rest

-- `MinioClient.make_bucket`
unfoldable pub make_bucket : Service → Bytes → Action (List Bytes) (Unit {0})
make_bucket minio name buckets = elim (minio.makes name) [
  | made ↦ (ok tt, name ∷ buckets)
  | s3_error ↦ (err value_error, buckets)
  | raised e ↦ (err e, buckets)
]

-- `__del__` of an object without credentials: an exception is printed.
unfoldable pub del : Service → Bytes → List Bytes → List Bytes
del minio name buckets = if minio.removes name then without name buckets else buckets

abbrev pub named : Bytes → Result (Unit {0}) → Result Bytes
named name (ok _) = ok name
named name (err e) = err e

-- An object whose constructor raised is removed once nothing refers to it.
unfoldable pub del_failed : Service → Bytes → Result (Unit {0}) → List Bytes → List Bytes
unfolding del
del_failed minio name (ok _) buckets = buckets
del_failed minio name (err e) buckets = del minio name buckets

-- `f"{bucket_name}-{now}-{rand_int}"`
abbrev pub unique : Bytes → Bytes → Bytes → Bytes
unique name now rand_int = name ++ 45 ∷ (now ++ 45 ∷ rand_int)

-- `f"job-{machine.id}-{request.job_id}"`
abbrev pub base_name : Bytes → Bytes → Bytes
base_name machine_id job_id = codes "job-" ++ (machine_id ++ 45 ∷ job_id)

-- The handler of `except ValueError`: the traceback keeps the first object until it has returned.
unfoldable pub make_unique : Service → Bytes → Bytes → Action (List Bytes) Bytes
unfolding make_bucket del del_failed
make_unique minio name longer buckets =
    let (r, bs) = make_bucket minio longer buckets in
    (named longer r, del_failed minio longer r (del minio name bs))

unfoldable pub on_failure : Service → Bytes → Bytes → Result (Unit {0}) → Action (List Bytes) Bytes
unfolding make_unique del
on_failure minio name longer (ok _) buckets = (ok name, buckets)
on_failure minio name longer (err value_error) buckets = make_unique minio name longer buckets
on_failure minio name longer (err e) buckets = (err e, del minio name buckets)

abbrev pub named_bucket : Service → Bytes → Bytes → Result Bytes → Action (List Bytes) Bytes
unfolding make_bucket on_failure
named_bucket minio now rand_int (err e) buckets = (err e, buckets)
named_bucket minio now rand_int (ok name) buckets =
    let (r, bs) = make_bucket minio name buckets in
    on_failure minio name (unique name now rand_int) r bs

-- `from_job_request`, which answers with the name of the bucket.
unfoldable pub from_job_request :
    (Bytes → Bool) → Service → Bytes → Bytes → Bytes → Bytes → Action (List Bytes) Bytes
unfolding create_valid_bucket_name make_bucket on_failure
from_job_request is_ip minio machine_id job_id now rand_int buckets =
    named_bucket minio now rand_int
      (create_valid_bucket_name minio.checks is_ip (base_name machine_id job_id)) buckets
