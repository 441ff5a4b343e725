-- ===== src/Minio/Request/Taken.antt =====
-- executor.py: the bucket of a job whose name is taken. The object that could not make a bucket is
-- removed like any other, and the bucket of its name with it.
use valve_infra.Base.{
  ◌≡◌, refl, ap, ◌∙◌, Bool, true, false, not, ◌&&◌, ◌||◌, List, [], ◌∷◌, arith, Bool-cases, inl,
  inr,
}
use valve_infra.Base.Text.{◌=b◌, =b_iff}
use valve_infra.Base.Result.{◌>>◌, ok, err, value_error}
use valve_infra.Message.Framing.{Bytes}
use valve_infra.Minio.BucketName.{create_valid_bucket_name, valid_name}
use valve_infra.Minio.Request.{
  named_bucket, del_failed, made, s3_error, Service, has, without, make_bucket, del, make_unique,
  unique, base_name, on_failure, from_job_request,
}

differ : (b c d : Bytes) → (b =b d) ≡ true → (c =b d) ≡ false → (b =b c) ≡ false
differ b c d same other = grind (arith, =b_iff b c, =b_iff b d, =b_iff c d)

has-without : (b c : Bytes) (bs : List Bytes) → has b (without c bs) ≡ (has b bs && not (b =b c))
has-without b c [] = refl
has-without b c (d ∷ bs) = elim (Bool-cases (c =b d)) [
  | inl same ↦ grind (arith, has-without b c bs, =b_iff b c, =b_iff b d, =b_iff c d)
  | inr other ↦ grind (arith, has-without b c bs, =b_iff b c, =b_iff b d, =b_iff c d)
]

make_bucket_taken :
    (minio : Service) (name : Bytes) (buckets : List Bytes)
    → minio.makes name ≡ s3_error
    → make_bucket minio name buckets ≡ (err value_error, buckets)
unfolding make_bucket
make_bucket_taken minio name buckets taken = rw (make_bucket, taken) refl

make_unique_free :
    (minio : Service) (name longer : Bytes) (buckets : List Bytes)
    → minio.makes longer ≡ made
    → minio.removes name ≡ true
    → make_unique minio name longer buckets ≡ (ok longer, without name (longer ∷ buckets))
unfolding make_unique make_bucket del del_failed
make_unique_free minio name longer buckets free gone = rw (make_bucket, free, gone) refl

taken_lem :
    (minio : Service) (name longer : Bytes) (buckets : List Bytes)
    → minio.makes name ≡ s3_error
    → minio.makes longer ≡ made
    → minio.removes name ≡ true
    → let (r, bs) = make_bucket minio name buckets in
      on_failure minio name longer r bs ≡ (ok longer, without name (longer ∷ buckets))
unfolding on_failure
taken_lem minio name longer buckets taken free gone =
    rw (make_bucket_taken minio name buckets taken)
      (make_unique_free minio name longer buckets free gone)

-- Where the library's check lets the name of a job's bucket pass, MinIO says that it is taken, takes
-- the longer name and carries out the removal, the job gets a bucket of the longer name. The bucket
-- that had the first name is no longer held, and the other buckets stay.
pub from_job_request_lem :
    (is_ip : Bytes → Bool) (minio : Service) (machine_id job_id now rand_int : Bytes)
    → (buckets : List Bytes)
    → let name = valid_name is_ip (base_name machine_id job_id) in
      let longer = unique name now rand_int in
      (minio.checks name ≡ ok tt)
      → (minio.makes name ≡ s3_error)
      → (minio.makes longer ≡ made)
      → (minio.removes name ≡ true)
      → let after = from_job_request is_ip minio machine_id job_id now rand_int buckets in
        (after.0 ≡ ok longer)
        × ((b : Bytes) → has b after.1 ≡ (((b =b longer) || has b buckets) && not (b =b name)))
unfolding from_job_request create_valid_bucket_name
from_job_request_lem is_ip minio machine_id job_id now rand_int buckets fine taken free gone =
    let name = valid_name is_ip (base_name machine_id job_id) in
    let longer = unique name now rand_int in
    let after =
      ap (λ r. named_bucket minio now rand_int (r >> ok name) buckets) fine
      ∙ taken_lem minio name longer buckets taken free gone in
    (ap (λ a. a.0) after, λ b. ap (λ a. has b a.1) after ∙ has-without b name (longer ∷ buckets))
