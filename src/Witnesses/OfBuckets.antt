-- ===== src/Witnesses/OfBuckets.antt =====
-- The bucket of a job: a run of the theorem.
use valve_infra.Base.{◌≡◌, refl, Bool, false, not, ◌&&◌, ◌||◌, List, [], ◌∷◌, if◌then◌else◌, true}
use valve_infra.Base.Text.{codes, ◌=b◌}
use valve_infra.Base.Result.{ok}
use valve_infra.Message.Framing.{Bytes}
use valve_infra.Minio.BucketName.{valid_name}
use valve_infra.Minio.Request.{made, s3_error, Service, has, from_job_request}
use valve_infra.Minio.Request.Taken.{from_job_request_lem}

abbrev taken : Bytes
taken = codes "job-m-1"

abbrev longer : Bytes
longer = codes "job-m-1-5-7"

abbrev buckets : List Bytes
buckets = taken ∷ codes "other" ∷ []

abbrev no_ip : Bytes → Bool
no_ip name = false

abbrev service : Service
service = record {
  checks = λ name. ok tt;
  makes = λ name. if name =b taken then s3_error else made;
  removes = λ name. true;
}

-- The job 1 on the machine m, at the time 5 and with the number 7.
from_job_request_example :
    let after =
      from_job_request no_ip service (codes "m") (codes "1") (codes "5") (codes "7") buckets in
    (after.0 ≡ ok longer)
    × ((b : Bytes) → has b after.1 ≡ (((b =b longer) || has b buckets) && not (b =b taken)))
unfolding valid_name
from_job_request_example =
    from_job_request_lem no_ip service (codes "m") (codes "1") (codes "5") (codes "7") buckets refl
      refl refl refl
