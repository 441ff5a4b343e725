-- ===== src/Client/Queue/Success.antt =====
-- client.py: what a verdict of the job rests on.
use valve_infra.Base.{
  ℕ, ◌≤◌, String, Bool, true, false, ◌≡◌, refl, ◌⊎◌, inl, inr, Option, none, some, List, [], ◌∷◌,
  ◌∙◌, ap, arith, All,
}
use valve_infra.Base.Result.{Result, ok, err}
use valve_infra.Message.Framing.{Bytes}
use valve_infra.Message.Status.{JobStatus, incomplete, unknown, setup_fail, status_code}
use valve_infra.Client.{
  control, job_io, session_end, Proxy, Event, key, message, lines, interrupt, handle, forward, next,
  read_v1,
}
use valve_infra.Client.Queue.{
  Response, Reply, Queued, queued, refused, waiting, unreachable, queue_job, run, connected,
  proxied, status_or_unknown, start,
}

-- An event of a connection of version 1.
abbrev pub IsV1 : Event → Type 0
IsV1 (lines _) = ⊥
IsV1 _ = Unit

-- The end of the session arrived with this status, and the job bucket was downloaded.
abbrev pub Announced : JobStatus → List Event → Type 0
Announced s [] = ⊥
Announced s (e ∷ es) =
    ((download : Unit {0}) × (e ≡ message (ok (session_end s)) (ok download))) ⊎ Announced s es

-- What the machine reports, as against what the client makes up.
abbrev pub IsVerdict : JobStatus → Type 0
IsVerdict s = status_code s ≤ 3

made_up : (s t : JobStatus) → IsVerdict s → 4 ≤ status_code t → ¬ (t ≡ s)
made_up s t i made e = let same = ap status_code e in omega arith

module _ (decode : Bytes → String) where
  quits :
      (sends : Result (Unit {0})) (s : JobStatus) (p : Proxy) (b : Bool)
      → p.control_char_pressed ≡ b
      → (handle decode (interrupt sends) p).0 ≡ ok (some s)
      → incomplete ≡ s
  unfolding handle
  quits (ok u) s p true e h = grind arith
  quits (err x) s p true e h = ground arith
  quits (ok u) s p false e h = ground arith
  quits (err x) s p false e h = ground arith

  one_announced :
      (e : Event) (s : JobStatus) (p : Proxy)
      → IsV1 e
      → IsVerdict s
      → (handle decode e p).0 ≡ ok (some s)
      → (download : Unit {0}) × (e ≡ message (ok (session_end s)) (ok download))
  unfolding handle read_v1
  one_announced (message (ok (control text)) download) s p v i h = cc
  one_announced (message (ok (job_io buf)) download) s p v i h = cc
  one_announced (message (ok (session_end t)) (ok u)) s p v i h = (u, cc)
  one_announced (message (ok (session_end t)) (err e)) s p v i h =
      elim (made_up s incomplete i (omega arith) cc) [ ]
  one_announced (message (err e) download) s p v i h =
      elim (made_up s incomplete i (omega arith) cc) [ ]
  one_announced (lines _) s p v i h = elim v [ ]
  one_announced (key buf (ok _)) s p v i h = ground arith
  one_announced (key buf (err e)) s p v i h = ground arith
  one_announced (interrupt sends) s p v i h =
      elim (made_up s incomplete i (omega arith)
        (quits sends s p p.control_char_pressed refl h)) [ ]

  forward-Announced :
      (es : List Event) (s : JobStatus) (p : Proxy)
      → All IsV1 es
      → IsVerdict s
      → (forward decode es p).0 ≡ ok (some s)
      → Announced s es
  unfolding forward
  forward-Announced [] s p v i h = cc
  forward-Announced (e ∷ es) s p (v, vs) i h =
      after (forward-Announced es s (handle decode e p).1 vs i) (handle decode e p).0 refl h
    where
      after :
          ((forward decode es (handle decode e p).1).0 ≡ ok (some s) → Announced s es)
          → (r : Result (Option JobStatus)) → (handle decode e p).0 ≡ r
          → (next decode r (forward decode es) (handle decode e p).1).0 ≡ ok (some s)
          → Announced s (e ∷ es)
      after rest (ok none) at h = inr (rest h)
      after rest (ok (some t)) at h = inl (one_announced e s p v i (at ∙ h))
      after rest (err x) at h = cc

  -- A job that a client of version 1 reports as PASS, WARN, COMPLETE or FAIL was queued, the executor
  -- connected back to it, MinIO's client is installed unless the answer was one of version 0, and the
  -- end of the session arrived with this very status and a job bucket that could be downloaded.
  pub run-Announced :
      (wait : Bool) (replies : List (Option (ℕ × Reply))) (accepted has_mcli : Bool)
      (es : List Event) (s : JobStatus)
      → All IsV1 es
      → IsVerdict s
      → run decode wait replies accepted has_mcli es ≡ some s
      → (r : Response) × (queue_job wait replies ≡ ok (queued r))
        × (accepted ≡ true)
        × ((r.version ≡ 0) ⊎ (has_mcli ≡ true))
        × Announced s es
  unfolding run
  run-Announced wait replies accepted has_mcli es s v i h = by_queue (queue_job wait replies) refl h
    where
      by_status :
          (o : Result (Option JobStatus))
          → (forward decode es start).0 ≡ o
          → status_or_unknown o ≡ some s
          → Announced s es
      by_status (ok o) at h = forward-Announced es s start v i (at ∙ ap (λ x. ok x) h)
      by_status (err e) at h = elim (made_up s unknown i (omega arith) cc) [ ]

      by_proxy :
          (r : Response) (b m : Bool)
          → proxied decode b r m es ≡ some s
          → (b ≡ true) × ((r.version ≡ 0) ⊎ (m ≡ true)) × Announced s es
      by_proxy r false m h = elim (made_up s unknown i (omega arith) cc) [ ]
      by_proxy r true true h =
          (refl, inr refl, by_status (forward decode es start).0 refl (ground arith))
      by_proxy r true false h =
          (refl, inl (ground arith), by_status (forward decode es start).0 refl (ground arith))

      by_queue :
          (q : Result Queued)
          → queue_job wait replies ≡ q
          → connected decode q accepted has_mcli es ≡ some s
          → (r : Response) × (queue_job wait replies ≡ ok (queued r))
            × (accepted ≡ true)
            × ((r.version ≡ 0) ⊎ (has_mcli ≡ true))
            × Announced s es
      by_queue (err e) at h = elim (made_up s unknown i (omega arith) cc) [ ]
      by_queue (ok waiting) at h = cc
      by_queue (ok unreachable) at h = elim (made_up s setup_fail i (omega arith) cc) [ ]
      by_queue (ok (refused r)) at h = elim (made_up s setup_fail i (omega arith) cc) [ ]
      by_queue (ok (queued r)) at h =
          let (accepts, client, told) = by_proxy r accepted has_mcli h in
          (r, at, accepts, client, told)
