-- ===== src/Boots.antt =====
-- executor/server/src/valve_gfx_ci/executor/server/boots.py: the network boot service, on ASCII
-- texts. This file is `split_mac_addr`; Hosts is the hosts file of dnsmasq,
-- Ipxe the script that a machine boots from.
pub mod Mac
pub mod Hosts
pub mod Ipxe
use valve_infra.Base.{
  ℕ, ◌+◌, Bool, true, false, ◌&&◌, ◌||◌, Option, none, some, List, [], ◌∷◌, ◌==◌, ltb, leb,
  if◌then◌else◌, map, zero, suc,
}
use valve_infra.Base.Result.{Result, ok, err, value_error}
use valve_infra.Message.Framing.{Bytes}

-- `s.lower()`
abbrev pub lower : ℕ → ℕ
lower c = if leb 65 c && leb c 90 then c + 32 else c

-- `[0-9a-f]`
abbrev pub is_hex : ℕ → Bool
is_hex c = (leb 48 c && leb c 57) || (leb 97 c && leb c 102)

-- `[-:]`
abbrev pub is_delim : ℕ → Bool
is_delim c = (c == 45) || (c == 58)

-- `[0-9a-f]{2}`: what is behind it.
unfoldable pub pair : Bytes → Option Bytes
pair (a ∷ b ∷ s) = if is_hex a && is_hex b then some s else none
pair _ = none

-- `\1`, which is empty or the one byte that the group matched.
abbrev pub again : Option ℕ → Bytes → Option Bytes
again none s = some s
again (some d) [] = none
again (some d) (c ∷ s) = if c == d then some s else none

abbrev pub then_pair : Option Bytes → Option Bytes
then_pair none = none
then_pair (some s) = pair s

-- `(\1[0-9a-f]{2}){n}`
unfoldable pub pairs : Option ℕ → ℕ → Option Bytes → Option Bytes
unfolding pair
pairs d n none = none
pairs d zero (some s) = some s
pairs d (suc n) (some s) = pairs d n (then_pair (again d s))

-- `$`
abbrev pub is_end : Option Bytes → Bool
is_end none = false
is_end (some []) = true
is_end (some (c ∷ [])) = c == 10
is_end (some (c ∷ d ∷ s)) = false

-- `([-:]?)`, behind the first two digits: the byte that it matched, and the rest.
abbrev pub group : Option Bytes → Option ℕ × Option Bytes
group none = (none, none)
group (some []) = (none, some [])
group (some (c ∷ s)) = if is_delim c then (some c, some s) else (none, some (c ∷ s))

abbrev pub onto : ℕ → List Bytes → List Bytes
onto c [] = (c ∷ []) ∷ []
onto c (piece ∷ pieces) = (c ∷ piece) ∷ pieces

-- `s.split(d)`
unfoldable pub split_at : ℕ → Bytes → List Bytes
split_at d [] = [] ∷ []
split_at d (c ∷ s) = let rest = split_at d s in if c == d then [] ∷ rest else onto c rest

-- `[s[i:i+2] for i in range(0, len(s), 2)]`
unfoldable pub by_two : Bytes → List Bytes
by_two [] = []
by_two (a ∷ []) = (a ∷ []) ∷ []
by_two (a ∷ b ∷ s) = (a ∷ b ∷ []) ∷ by_two s

abbrev pub pieces : Option ℕ → Bytes → List Bytes
pieces none s = by_two s
pieces (some d) s = split_at d s

abbrev pub matched : Bytes → Option ℕ × Option Bytes → Result (List Bytes)
matched s (d, rest) =
    if is_end (pairs d 4 (then_pair rest)) then ok (pieces d s) else err value_error

-- `split_mac_addr`
unfoldable pub split_mac_addr : Bytes → Result (List Bytes)
unfolding pair pairs split_at by_two
split_mac_addr text = let s = map lower text in matched s (group (pair s))
