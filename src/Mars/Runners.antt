-- ===== src/Mars/Runners.antt =====
-- mars.py: `ConfigGitlabRunner`, and the part of `ConfigDUT.expose_on_forges` that uses it.
--
-- `Gitlab` is what a GitLab server answers to the calls of gitlab.py, which raise where it cannot be
-- reached.
use valve_infra.Base.{
  ℕ, String, ◌≡◌, Bool, true, false, ◌&&◌, ◌||◌, not, Option, none, some, arith, leb, if◌then◌else◌,
  get_or,
}
use valve_infra.Base.Result.{Result, ok, err}
use valve_infra.Base.Action.{Action, pure, raise, ◌>>=◌, ◌>>◌}
use valve_infra.Mars.{Dut, available}

-- A runner's token: `"<invalid default>"`, or one that GitLab gave.
pub data Token : Type 0 where
  invalid_default : Token
  token : String → Token

pub record Runner : Type 0 where
  pub token : Token
  pub exposed : Bool

pub record Gitlab : Type 0 where
  pub verify_runner_token : Token → Result Bool
  pub unregister_runner : String → Result Bool
  pub register_runner : Result (Option String)

-- `ConfigGitlab`; the registration token is kept as its length.
pub record ConfigGitlab : Type 0 where
  pub registration_token : Option ℕ
  pub expose_runners : Bool

unfoldable pub has_valid_looking_registration_token : ConfigGitlab → Bool
has_valid_looking_registration_token gl = leb 8 (get_or gl.registration_token 0)

abbrev pub Call : Type 0 → Type 0
Call = Action Runner

abbrev dropped : Result Bool → Call Bool
dropped (ok true) r = (ok true, record r { token = invalid_default })
dropped (ok false) r = (ok false, r)
dropped (err e) r = (err e, r)

abbrev remove_token : Gitlab → Token → Call Bool
remove_token g invalid_default = pure true
remove_token g (token t) = dropped (g.unregister_runner t)

-- `ConfigGitlabRunner.remove`
unfoldable pub remove : Gitlab → Call Bool
remove g r = remove_token g r.token r

abbrev registered : Result (Option String) → Call (Unit {0})
registered (ok none) r = (ok tt, r)
registered (ok (some new)) r = (ok tt, record r { token = token new })
registered (err e) r = (err e, r)

abbrev renewed : Gitlab → ConfigGitlab → Bool → Call (Unit {0})
unfolding has_valid_looking_registration_token
renewed g gl false = pure tt
renewed g gl true =
    if has_valid_looking_registration_token gl then registered g.register_runner else pure tt

abbrev verified : Gitlab → ConfigGitlab → Result Bool → Call (Unit {0})
unfolding remove has_valid_looking_registration_token
verified g gl (ok true) = pure tt
verified g gl (ok false) = do removed ← remove g; renewed g gl removed
verified g gl (err e) = raise e

-- `ConfigGitlabRunner.verify_or_renew_token`
unfoldable verify_or_renew_token : Gitlab → ConfigGitlab → Call (Unit {0})
unfolding remove has_valid_looking_registration_token
verify_or_renew_token g gl r = verified g gl (g.verify_runner_token r.token) r

-- `expose_on_forges`, on the runner that a machine has on one of the servers.
unfoldable pub expose : Gitlab → ConfigGitlab → Dut → Call (Unit {0})
unfolding verify_or_renew_token remove available
expose g gl d r =
    if available d
    then (if gl.expose_runners && r.exposed then verify_or_renew_token g gl r else (ok tt, r))
    else if d.is_retired
    then (do remove g; pure tt) r
    else (ok tt, r)

-- GitLab accepts a token that it has just given, if it can be reached.
abbrev accepts : Result Bool → Bool
accepts (ok b) = b
accepts (err e) = true

abbrev given_accepted : Gitlab → Result (Option String) → Bool
given_accepted g (ok (some t)) = accepts (g.verify_runner_token (token t))
given_accepted g _ = true

abbrev pub fresh_is_valid : Gitlab → Bool
fresh_is_valid g = given_accepted g g.register_runner

-- Where GitLab accepts the tokens that it gives, a runner stays as it is when its machine is exposed
-- a second time, whatever GitLab answers otherwise, and also where a call raised the first time.
pub expose_twice :
    (g : Gitlab) (gl : ConfigGitlab) (d : Dut) (r : Runner)
    → fresh_is_valid g ≡ true
    → (expose g gl d (expose g gl d r).1).1 ≡ (expose g gl d r).1
unfolding expose verify_or_renew_token remove
expose_twice g gl d r fresh = ground (arith, fresh)

abbrev refuses : Result Bool → Bool
refuses (ok b) = not b
refuses (err e) = false

-- There is no token, or GitLab accepts it, or does not unregister it.
abbrev pub is_settled : Gitlab → Token → Bool
is_settled g invalid_default = true
is_settled g (token t) =
    accepts (g.verify_runner_token (token t)) || refuses (g.unregister_runner t)
