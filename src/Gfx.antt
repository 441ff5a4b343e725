-- ===== src/Gfx.antt =====
-- gfxinfo/src/valve_gfx_ci/gfxinfo/amdgpu.py: the properties of AMD GPUs, by their chip.
pub mod Tables
pub mod Database
use valve_infra.Base.{
  ℕ, String, Bool, true, false, Option, none, some, List, [], ◌∷◌, if◌then◌else◌, get_or,
}
use valve_infra.Base.Dict.{Dict, lookup}

abbrev pub codenames : Dict String
codenames =
    ("SIENNA_CICHLID", "NAVI21")
    ∷ ("NAVY_FLOUNDER", "NAVI22")
    ∷ ("DIMGREY_CAVEFISH", "NAVI23")
    ∷ ("BEIGE_GOBY", "NAVI24")
    ∷ ("YELLOW_CARP", "REMBRANDT")
    ∷ []

-- `codename`
unfoldable pub codename : String → String
codename amdgpu_codename = get_or (lookup amdgpu_codename codenames) amdgpu_codename

abbrev pub families : Dict String
families =
    ("TAHITI", "SI")
    ∷ ("PITCAIRN", "SI")
    ∷ ("VERDE", "SI")
    ∷ ("OLAND", "SI")
    ∷ ("HAINAN", "SI")
    ∷ ("BONAIRE", "CI")
    ∷ ("HAWAII", "CI")
    ∷ ("KAVERI", "CI")
    ∷ ("KABINI", "KV")
    ∷ ("TONGA", "VI")
    ∷ ("FIJI", "VI")
    ∷ ("POLARIS10", "VI")
    ∷ ("POLARIS11", "VI")
    ∷ ("POLARIS12", "VI")
    ∷ ("VEGAM", "VI")
    ∷ ("CARRIZO", "CZ")
    ∷ ("STONEY", "CZ")
    ∷ ("VEGA10", "AI")
    ∷ ("VEGA12", "AI")
    ∷ ("VEGA20", "AI")
    ∷ ("ARCTURUS", "AI")
    ∷ ("RAVEN", "RV")
    ∷ ("RENOIR", "RV")
    ∷ ("NAVI10", "NV")
    ∷ ("NAVI12", "NV")
    ∷ ("NAVI14", "NV")
    ∷ ("MULLINS", "UNK")
    ∷ ("TOPAZ", "UNK")
    ∷ ("CYAN_SKILLFISH", "UNK")
    ∷ ("NAVI21", "UNK")
    ∷ ("VANGOGH", "UNK")
    ∷ ("NAVI22", "UNK")
    ∷ ("NAVI23", "UNK")
    ∷ ("NAVI24", "UNK")
    ∷ ("REMBRANDT", "UNK")
    ∷ ("ALDEBARAN", "UNK")
    ∷ []

-- `family`
unfoldable pub family : String → Option String
unfolding codename
family amdgpu_codename = lookup (codename amdgpu_codename) families

abbrev pub architectures : Dict String
architectures =
    ("TAHITI", "GCN1")
    ∷ ("PITCAIRN", "GCN1")
    ∷ ("VERDE", "GCN1")
    ∷ ("OLAND", "GCN1")
    ∷ ("HAINAN", "GCN1")
    ∷ ("KAVERI", "GCN2")
    ∷ ("BONAIRE", "GCN2")
    ∷ ("HAWAII", "GCN2")
    ∷ ("KABINI", "GCN2")
    ∷ ("MULLINS", "GCN2")
    ∷ ("TOPAZ", "GCN3")
    ∷ ("TONGA", "GCN3")
    ∷ ("FIJI", "GCN3")
    ∷ ("CARRIZO", "GCN3")
    ∷ ("STONEY", "GCN3")
    ∷ ("POLARIS10", "GCN4")
    ∷ ("POLARIS11", "GCN4")
    ∷ ("POLARIS12", "GCN4")
    ∷ ("VEGAM", "GCN4")
    ∷ ("VEGA10", "GCN5")
    ∷ ("VEGA12", "GCN5")
    ∷ ("RAVEN", "GCN5")
    ∷ ("VEGA20", "GCN5.1")
    ∷ ("RENOIR", "GCN5.1")
    ∷ ("ARCTURUS", "CDNA")
    ∷ ("ALDEBARAN", "CDNA2")
    ∷ ("NAVI10", "RDNA1")
    ∷ ("NAVI12", "RDNA1")
    ∷ ("NAVI14", "RDNA1")
    ∷ ("CYAN_SKILLFISH", "RDNA1")
    ∷ ("NAVI21", "RDNA2")
    ∷ ("NAVI22", "RDNA2")
    ∷ ("NAVI23", "RDNA2")
    ∷ ("NAVI24", "RDNA2")
    ∷ ("VANGOGH", "RDNA2")
    ∷ ("REMBRANDT", "RDNA2")
    ∷ []

-- `architecture`
unfoldable pub architecture : String → Option String
unfolding codename
architecture amdgpu_codename = lookup (codename amdgpu_codename) architectures

abbrev pub versions : Dict String
versions =
    ("GCN1", "gfx6")
    ∷ ("GCN2", "gfx7")
    ∷ ("GCN3", "gfx8")
    ∷ ("GCN4", "gfx8")
    ∷ ("GCN5", "gfx9")
    ∷ ("GCN5.1", "gfx9")
    ∷ ("CDNA", "gfx9")
    ∷ ("CDNA2", "gfx9")
    ∷ ("RDNA1", "gfx10")
    ∷ ("RDNA2", "gfx10")
    ∷ []

abbrev pub version_of : Option String → Option String
version_of none = none
version_of (some a) = lookup a versions

-- `gfx_version`
unfoldable pub gfx_version : String → Option String
unfolding architecture
gfx_version amdgpu_codename = version_of (architecture amdgpu_codename)
