-- ===== src/Boots/Ipxe.antt =====
-- boots.py: the iPXE script that a machine boots from, `BootService.ipxe_boot_script`, and the
-- configuration it takes from the executor of the machine, `Executor.boot_config_query`.
pub mod Semicolons
use valve_infra.Base.{
  ℕ, zero, suc, Bool, true, false, not, ◌≡◌, refl, ap, Option, none, some, List, [], ◌∷◌, ◌++◌,
  arith, ◌==◌, All, ◌&&◌, if◌then◌else◌,
}
use valve_infra.Base.Text.{codes, ◌=b◌}
use valve_infra.Message.Framing.{Bytes}

-- `BootConfig`
pub record BootConfig : Type 0 where
  pub kernel : Bytes
  pub initrd : Bytes
  pub cmdline : Option Bytes

-- `platform != "pcbios"`
abbrev pub is_pcbios : Option Bytes → Bool
is_pcbios none = false
is_pcbios (some p) = p =b codes "pcbios"

-- `_platform_cmdline`
unfoldable pub platform_cmdline : Option Bytes → Bytes
platform_cmdline platform = if is_pcbios platform then [] else codes "initrd=initrd"

-- How iPXE writes the setting that the script gives the byte of a semicolon.
abbrev pub setting : Bytes
setting = codes "${semicolon:string}"

-- `cmdline.replace(";", "${semicolon:string}")`
unfoldable pub escaped : Bytes → Bytes
escaped [] = []
escaped (c ∷ s) = let rest = escaped s in if c == 59 then setting ++ rest else c ∷ rest

-- A text or None in an f-string.
abbrev pub formatted : Option Bytes → Bytes
formatted none = codes "None"
formatted (some s) = s

abbrev pub escaped_or_none : Option Bytes → Option Bytes
unfolding escaped
escaped_or_none none = none
escaped_or_none (some s) = some (escaped s)

abbrev pub line : Bytes → Bytes → Bytes
line s rest = s ++ 10 ∷ rest

-- The line of the kernel, but for the word `kernel` and the end.
abbrev pub kernel_args : BootConfig → Option Bytes → Bytes
unfolding platform_cmdline
kernel_args config platform =
    config.kernel
    ++ 32 ∷ (platform_cmdline platform ++ 32 ∷ formatted (escaped_or_none config.cmdline))

-- `_gen_ipxe_boot_script`
unfoldable pub gen_ipxe_boot_script : BootConfig → Option Bytes → Bytes
unfolding platform_cmdline escaped
gen_ipxe_boot_script config platform = line (codes "#!ipxe") (
    line [] (
      line (codes "set semicolon:hex 3b") (
        line [] (
          line (codes "echo") (
            line [] (
              line (codes "echo Downloading the kernel") (
                line (codes "kernel " ++ kernel_args config platform) (
                  line [] (
                    line (codes "echo Downloading the initrd") (
                      line (codes "initrd --name initrd " ++ config.initrd)
                        (line [] (line (codes "echo Booting!") (line (codes "boot") [])))))))))))))

-- `boot_config_query`: what it logs, and its answer.
unfoldable pub boot_config_query :
    Option BootConfig → Option Bytes → Option Bytes → Bytes × Option BootConfig
boot_config_query config platform buildarch = (
  codes "The machine queried the boot configuration as a "
      ++ (formatted platform
          ++ (codes " / " ++ (formatted buildarch ++ (codes " platform" ++ 10 ∷ [])))),
  config,
)

abbrev pub or_default : BootConfig → Option BootConfig → BootConfig
or_default default none = default
or_default default (some config) = config

-- `ipxe_boot_script`, with the configuration of the executor where the machine is known and has
-- one: what is logged there, and the script.
unfoldable pub ipxe_boot_script :
    BootConfig
    → Option (Option (Option BootConfig))
    → Option Bytes
    → Option Bytes
    → List Bytes × Bytes
unfolding boot_config_query gen_ipxe_boot_script
ipxe_boot_script default (some (some config)) platform buildarch =
    let answer = boot_config_query config platform buildarch in
    (answer.0 ∷ [], gen_ipxe_boot_script (or_default default (answer.1)) platform)
ipxe_boot_script default (some none) platform buildarch =
    ([], gen_ipxe_boot_script default platform)
ipxe_boot_script default none platform buildarch = ([], gen_ipxe_boot_script default platform)
