-- ===== src/Client/Session.antt =====
-- client.py: what the user sees and types while a job runs.
use valve_infra.Base.{
  ℕ, String, Bool, true, false, ◌≡◌, refl, Option, none, some, List, [], ◌∷◌, ◌++◌, arith,
  if◌then◌else◌, replicate, append_assoc, ap, sym, ◌∙◌, All, zero, suc, append-nil,
}
use valve_infra.Base.Text.{◌=b◌}
use valve_infra.Base.Result.{Result, ok, err}
use valve_infra.Message.Framing.{Bytes}
use valve_infra.Message.Status.{JobStatus, incomplete}
use valve_infra.Client.{
  Received, control, job_io, session_end, Proxy, Event, key, message, lines, interrupt, Call, next,
  handle, forward, read_v1, read_v0, find_status, end_status, status_of, control_char,
}

-- Messages that arrive, keys that are sent: nothing ends the session.
abbrev pub IsQuiet : Event → Type 0
IsQuiet (key buf (ok _)) = Unit
IsQuiet (message (ok (control text)) download) = Unit
IsQuiet (message (ok (job_io buf)) download) = Unit
IsQuiet _ = ⊥

-- What the executor logged and the job wrote, in the messages.
abbrev pub text_of : Received → Bytes
text_of (control text) = text
text_of (job_io buf) = buf
text_of (session_end s) = []

abbrev pub written : List Event → Bytes
written [] = []
written (message (ok m) download ∷ es) = text_of m ++ written es
written (_ ∷ es) = written es

-- Whether the last key is CTRL+A; `b` where there is none.
abbrev pub last_is_control : Bool → List Event → Bool
last_is_control b [] = b
last_is_control b (key buf sends ∷ es) = last_is_control (buf =b control_char) es
last_is_control b (_ ∷ es) = last_is_control b es

module _ (decode : Bytes → String) where
  one_quiet :
      (e : Event) (p : Proxy)
      → IsQuiet e
      → let (r, p') = handle decode e p in
        (r ≡ ok none)
        × (p'.shown ≡ p.shown ++ written (e ∷ []))
        × (p'.control_char_pressed ≡ last_is_control p.control_char_pressed (e ∷ []))
  unfolding handle read_v1
  one_quiet (key buf (ok _)) p h = (ground arith, ground (arith, append-nil p.shown), ground arith)
  one_quiet (message (ok (control text)) download) p h =
      (refl, ap (λ b. p.shown ++ b) (sym (append-nil text)), refl)
  one_quiet (message (ok (job_io buf)) download) p h =
      (refl, ap (λ b. p.shown ++ b) (sym (append-nil buf)), refl)
  one_quiet (key buf (err _)) p h = elim h [ ]
  one_quiet (message (ok (session_end _)) download) p h = elim h [ ]
  one_quiet (message (err _) download) p h = elim h [ ]
  one_quiet (lines _) p h = elim h [ ]
  one_quiet (interrupt _) p h = elim h [ ]

  written-cons : (e : Event) (es : List Event) → written (e ∷ []) ++ written es ≡ written (e ∷ es)
  written-cons (key _ _) es = refl
  written-cons (message (ok m) _) es = ap (λ b. b ++ written es) (append-nil (text_of m))
  written-cons (message (err _) _) es = refl
  written-cons (lines _) es = refl
  written-cons (interrupt _) es = refl

  last_is_control-cons :
      (b : Bool) (e : Event) (es : List Event)
      → last_is_control (last_is_control b (e ∷ [])) es ≡ last_is_control b (e ∷ es)
  last_is_control-cons b (key _ _) es = refl
  last_is_control-cons b (message _ _) es = refl
  last_is_control-cons b (lines _) es = refl
  last_is_control-cons b (interrupt _) es = refl

  next-none :
      (r : Result (Option JobStatus)) (rest : Call (Option JobStatus)) (p : Proxy)
      → r ≡ ok none
      → next decode r rest p ≡ rest p
  next-none r rest p e = ap (λ x. next decode x rest p) e

  quiet_lem :
      (es : List Event) (p : Proxy)
      → All IsQuiet es
      → let (r, p') = forward decode es p in
        (r ≡ ok none)
        × (p'.shown ≡ p.shown ++ written es)
        × (p'.control_char_pressed ≡ last_is_control p.control_char_pressed es)
  unfolding forward
  quiet_lem [] p h = (refl, sym (append-nil p.shown), refl)
  quiet_lem (e ∷ es) p (h, hs) =
      let (one_r, one_s, one_c) = one_quiet e p h in
      let (r, s, c) = quiet_lem es (handle decode e p).1 hs in
      let eq = next-none (handle decode e p).0 (forward decode es) (handle decode e p).1 one_r in
      (
        ap (λ x. x.0) eq ∙ r,
        ap (λ x. x.1.shown) eq
            ∙ s
            ∙ ap (λ b. b ++ written es) one_s
            ∙ append_assoc p.shown (written (e ∷ [])) (written es)
            ∙ ap (λ b. p.shown ++ b) (written-cons e es),
        ap (λ x. x.1.control_char_pressed) eq
            ∙ c
            ∙ ap (λ b. last_is_control b es) one_c
            ∙ last_is_control-cons p.control_char_pressed e es,
      )

  forward-append :
      (es rest : List Event) (p : Proxy)
      → All IsQuiet es
      → forward decode (es ++ rest) p ≡ forward decode rest (forward decode es p).1
  unfolding forward
  forward-append [] rest p h = refl
  forward-append (e ∷ es) rest p (h, hs) =
      let (one_r, one_s, one_c) = one_quiet e p h in
      let eq = λ (more : List Event).
        next-none (handle decode e p).0 (forward decode more) (handle decode e p).1 one_r in
      eq (es ++ rest)
      ∙ forward-append es rest (handle decode e p).1 hs
      ∙ ap (λ x. forward decode rest x.1) (sym (eq es))

  -- While messages arrive, keys are sent and nothing else happens, the client shows exactly what
  -- the executor logged and the job wrote, in the order in which the messages came; when the end of the session then arrives, the client returns the
  -- status of that message, or INCOMPLETE where the download of the job bucket fails.
  pub forward_lem :
      (es : List Event) (s : JobStatus) (download : Result (Unit {0})) (p : Proxy)
      → All IsQuiet es
      → let (r, p') = forward decode (es ++ message (ok (session_end s)) download ∷ []) p in
        (r ≡ ok (some (end_status s download))) × (p'.shown ≡ p.shown ++ written es)
  unfolding forward handle read_v1
  forward_lem es s download p h =
      let (r, shown, c) = quiet_lem es p h in
      let eq = forward-append es (message (ok (session_end s)) download ∷ []) p h in
      (ap (λ x. x.0) eq, ap (λ x. x.1.shown) eq ∙ shown)

  ctrl_c :
      (b : Bool) (p : Proxy)
      → p.control_char_pressed ≡ b
      → let (r, p') = forward decode (interrupt (ok tt) ∷ []) p in
        (r ≡ ok (if b then some incomplete else none))
        × (p'.typed ≡ (if b then p.typed else p.typed ++ (3 ∷ []) ∷ []))
  unfolding forward handle
  ctrl_c true p e = (ground arith, ground arith)
  ctrl_c false p e = (ground arith, ground arith)

  -- A CTRL+C behind messages and sent keys ends the client, as INCOMPLETE, exactly if the last of
  -- the keys was CTRL+A (if there were none, exactly if a CTRL+A is pending from before). Else it is
  -- sent to the job, and the client goes on.
  pub interrupt_lem :
      (es : List Event) (p : Proxy)
      → All IsQuiet es
      → let (r, p') = forward decode (es ++ interrupt (ok tt) ∷ []) p in
        let typed = (forward decode es p).1.typed in
        (r ≡ ok (if last_is_control p.control_char_pressed es then some incomplete else none))
        × (p'.typed
            ≡ (if last_is_control p.control_char_pressed es then typed else typed ++ (3 ∷ []) ∷ []))
  interrupt_lem es p h =
      let (r, shown, c) = quiet_lem es p h in
      let eq = forward-append es (interrupt (ok tt) ∷ []) p h in
      let (status, typed) =
        ctrl_c (last_is_control p.control_char_pressed es) (forward decode es p).1 c in
      (ap (λ x. x.0) eq ∙ status, ap (λ x. x.1.typed) eq ∙ typed)

  -- In version 0, where the lines that the job wrote have no status, the client goes on reading for
  -- ever from a connection that is closed.
  closed_v0 :
      (n : ℕ) (p : Proxy)
      → find_status p.final_lines ≡ none
      → forward decode (replicate n (lines (ok []))) p ≡ (ok none, p)
  unfolding forward handle read_v0
  closed_v0 zero p h = refl
  closed_v0 (suc n) p h =
      next-none (ok (status_of decode (find_status p.final_lines)))
        (forward decode (replicate n (lines (ok [])))) p (ap (λ w. ok (status_of decode w)) h)
      ∙ closed_v0 n p h
