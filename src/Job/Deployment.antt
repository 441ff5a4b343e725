-- ===== src/Job/Deployment.antt =====
-- job.py: `Deployment` and the two deployments that `Job.Schema.make` builds from a job's data.
use Prim.Native.String
use valve_infra.Base.{String, ◌≡◌, Option, none, some, List, [], ◌∷◌, arith, or_else}
use valve_infra.Base.Result.{Result, ok, err, assertion_error}

-- A multi-line string in the job's YAML: a string, a list of strings, or anything else.
pub data Lines : Type 0 where
  text : String → Lines
  lines : List String → Lines
  other : Lines

-- `" ".join(lines)`
unfoldable join_spaces : List String → String
join_spaces [] = ""
join_spaces (s ∷ []) = s
join_spaces (s ∷ t ∷ rest) = String.◌++◌ s (String.◌++◌ " " (join_spaces (t ∷ rest)))

-- `_multiline_string`
unfoldable multiline_string : Lines → Result String
unfolding join_spaces
multiline_string (text s) = ok s
multiline_string (lines ls) = ok (join_spaces ls)
multiline_string other = err assertion_error

-- What the schema has loaded: `none` where the job does not have the key.
pub record KernelData : Type 0 where
  pub url : Option String
  pub cmdline : Option String

pub record DeploymentData : Type 0 where
  pub kernel : Option KernelData
  pub initramfs : Option (Option String)

pub record Deployment : Type 0 where
  pub kernel_url : Option String
  pub initramfs_url : Option String
  pub kernel_cmdline : Option String

-- `Deployment.__init__`: the command line is set from the kernel's URL.
unfoldable pub init : Option String → Option String → Option String → Deployment
init kernel_url initramfs_url kernel_cmdline = record {
  kernel_url = kernel_url;
  initramfs_url = initramfs_url;
  kernel_cmdline = kernel_url;
}

-- `data.get('kernel', {}).get('url')` and the like
abbrev pub kernel_url_of : DeploymentData → Option String
kernel_url_of d = elim d.kernel [ none ↦ none | some k ↦ k.url ]

abbrev pub kernel_cmdline_of : DeploymentData → Option String
kernel_cmdline_of d = elim d.kernel [ none ↦ none | some k ↦ k.cmdline ]

abbrev pub initramfs_url_of : DeploymentData → Option String
initramfs_url_of d = elim d.initramfs [ none ↦ none | some url ↦ url ]

-- `Deployment.update`
unfoldable pub update : DeploymentData → Deployment → Deployment
update data' d = record {
  kernel_url = or_else (kernel_url_of data') d.kernel_url;
  kernel_cmdline = or_else (kernel_cmdline_of data') d.kernel_cmdline;
  initramfs_url = or_else (initramfs_url_of data') d.initramfs_url;
}

-- `deployment.get('continue', {})`
abbrev pub or_empty : Option DeploymentData → DeploymentData
or_empty none = record { kernel = none; initramfs = none }
or_empty (some d) = d

unfoldable pub deployment_start : DeploymentData → Deployment
unfolding init update
deployment_start start = update start (init none none none)

-- The `continue` deployment starts from the data of the `start` one.
unfoldable pub deployment_continue : DeploymentData → Option DeploymentData → Deployment
unfolding init update
deployment_continue start cont = update (or_empty cont) (update start (init none none none))

-- Field by field, the first boot uses what `start` says, and the later ones what `continue` says
-- or else what `start` says.
pub deployments_inherit :
    (start : DeploymentData) (cont : Option DeploymentData)
    → let s = deployment_start start in
      let c = deployment_continue start cont in
      (s.kernel_url ≡ kernel_url_of start)
      × (s.kernel_cmdline ≡ kernel_cmdline_of start)
      × (s.initramfs_url ≡ initramfs_url_of start)
      × (c.kernel_url ≡ or_else (kernel_url_of (or_empty cont)) s.kernel_url)
      × (c.kernel_cmdline ≡ or_else (kernel_cmdline_of (or_empty cont)) s.kernel_cmdline)
      × (c.initramfs_url ≡ or_else (initramfs_url_of (or_empty cont)) s.initramfs_url)
unfolding deployment_start deployment_continue
deployments_inherit start cont = ground arith
