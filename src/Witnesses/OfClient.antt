-- ===== src/Witnesses/OfClient.antt =====
-- The client: runs of the theorems.
use valve_infra.Base.{
  ℕ, String, ◌≡◌, refl, ◌⊎◌, true, false, Option, none, some, List, [], ◌∷◌, ◌++◌, arith,
}
use valve_infra.Base.Result.{ok}
use valve_infra.Message.Framing.{Bytes}
use valve_infra.Message.Status.{pass}
use valve_infra.Client.{job_io, session_end, control, Event, key, message, end_status, forward}
use valve_infra.Client.Session.{written, forward_lem}
use valve_infra.Client.Queue.{
  Response, Reply, object, queued, queue_job, run, start, parse_response,
}
use valve_infra.Client.Queue.Success.{Announced, run-Announced}

abbrev decode : Bytes → String
decode s = "PASS"

-- The executor logs, the job writes, and the user types CTRL+A.
abbrev quiet : List Event
quiet =
    message (ok (control (76 ∷ []))) (ok tt)
    ∷ message (ok (job_io (72 ∷ []))) (ok tt)
    ∷ key (1 ∷ []) (ok tt)
    ∷ []

forward_example :
    let (r, p') = forward decode (quiet ++ message (ok (session_end pass)) (ok tt) ∷ []) start in
    (r ≡ ok (some (end_status pass (ok tt)))) × (p'.shown ≡ [] ++ written quiet)
forward_example = forward_lem decode quiet pass (ok tt) start (tt, (tt, (tt, tt)))

-- The machines are busy at first.
abbrev replies : List (Option (ℕ × Reply))
replies =
    some (409, object (some 1) none none false) ∷ some (200, object (some 1) none none false) ∷ []

abbrev session : List Event
session = quiet ++ message (ok (session_end pass)) (ok tt) ∷ []

run-Announced_example :
    (r : Response) × (queue_job true replies ≡ ok (queued r))
    × (true ≡ true)
    × ((r.version ≡ 0) ⊎ (true ≡ true))
    × Announced pass session
unfolding run queue_job parse_response forward
run-Announced_example =
    run-Announced decode true replies true true session pass (tt, (tt, (tt, (tt, tt))))
      (omega arith) refl
