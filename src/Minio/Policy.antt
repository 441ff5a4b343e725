-- ===== src/Minio/Policy.antt =====
-- minioclient.py: `MinIOPolicyStatement` and `generate_policy`; executor.py: the statements that
-- `JobBucket.create_owner_credentials` asks for.
--
-- What a policy lets through is read by MinIO: `permits` below is the documented meaning of such
-- a document, with `within` for whether an address is in a range.
use Prim.Native.String
use valve_infra.Base.{
  String, ◌≡◌, Bool, true, false, ◌&&◌, ◌||◌, not, Option, none, some, List, [], ◌∷◌, ◌++◌, arith,
  map, any, if◌then◌else◌,
}

pub record Statement : Type 0 where
  pub buckets : List String
  pub actions : List String
  pub allow : Bool
  pub source_ips : Option (List String)
  pub not_source_ips : Option (List String)

-- The rendered statement. A condition is a list of addresses; an empty condition is left out.
pub record Rendered : Type 0 where
  pub action : List String
  pub effect_allow : Bool
  pub resource : List String
  pub ip_address : Option (List String)
  pub not_ip_address : Option (List String)

abbrev pub arn : String → String
arn b = String.◌++◌ "arn:aws:s3:::" b

-- `[arn of b for b in s.buckets]`, then the same with `/*`.
unfoldable pub resources : List String → List String
resources buckets = map arn buckets ++ map (λ b. String.◌++◌ (arn b) "/*") buckets

-- `if ips and len(ips) > 0`
abbrev pub condition : Option (List String) → Option (List String)
condition none = none
condition (some []) = none
condition (some (ip ∷ ips)) = some (ip ∷ ips)

-- The loop of `generate_policy`.
unfoldable pub generate_policy : List Statement → List Rendered
unfolding resources
generate_policy [] = []
generate_policy (s ∷ statements) =
    record {
      action = s.actions;
      effect_allow = s.allow;
      resource = resources s.buckets;
      ip_address = condition s.source_ips;
      not_ip_address = condition s.not_source_ips;
    }
    ∷ generate_policy statements

abbrev pub is_nonempty : List String → Bool
is_nonempty [] = false
is_nonempty (ip ∷ ips) = true

-- The statements of `create_owner_credentials`.
unfoldable pub owner_statements : String → List String → List Statement
owner_statements name whitelisted_ips =
    record {
      buckets = name ∷ [];
      actions = "s3:*" ∷ [];
      allow = true;
      source_ips = some whitelisted_ips;
      not_source_ips = none;
    }
    ∷ (if is_nonempty whitelisted_ips
        then record {
          buckets = "*" ∷ [];
          actions = "s3:*" ∷ [];
          allow = false;
          source_ips = none;
          not_source_ips = some whitelisted_ips;
        }
          ∷ []
        else [])

-- How MinIO reads a policy: some statement allows the request and none denies it. A statement is
-- about a request if one of its actions covers what is to be done, one of its resources names what
-- it is to be done to, and its conditions hold.
module _ (covers names within : String → String → Bool) where
  abbrev pub holds : Option (List String) → String → Bool
  holds none ip = true
  holds (some ips) ip = any (within ip) ips

  abbrev pub fails : Option (List String) → String → Bool
  fails none ip = true
  fails (some ips) ip = not (any (within ip) ips)

  abbrev concerns : Rendered → String → String → String → Bool
  concerns r action what ip =
      any (covers action) r.action
      && any (names what) r.resource
      && holds r.ip_address ip
      && fails r.not_ip_address ip

  abbrev allowed : List Rendered → String → String → String → Bool
  allowed [] action what ip = false
  allowed (r ∷ rs) action what ip =
      (r.effect_allow && concerns r action what ip) || allowed rs action what ip

  abbrev denied : List Rendered → String → String → String → Bool
  denied [] action what ip = false
  denied (r ∷ rs) action what ip =
      (not r.effect_allow && concerns r action what ip) || denied rs action what ip

  abbrev pub permits : List Rendered → String → String → String → Bool
  permits rs action what ip = allowed rs action what ip && not (denied rs action what ip)

  -- The policy of a bucket's owner permits exactly the actions that `s3:*` covers, on what the name
  -- of the bucket or a path in it names, and, where addresses are listed, only from one of these.
  pub owner_permits :
      (name action what ip : String) (ips : List String)
      → permits (generate_policy (owner_statements name ips)) action what ip
        ≡ covers action "s3:*"
          && (names what (String.◌++◌ "arn:aws:s3:::" name)
              || names what (String.◌++◌ (String.◌++◌ "arn:aws:s3:::" name) "/*"))
          && (if is_nonempty ips then any (within ip) ips else true)
  unfolding generate_policy owner_statements resources
  owner_permits name action what ip [] = ground arith
  owner_permits name action what ip (i ∷ ips) = ground arith
