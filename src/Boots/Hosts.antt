-- ===== src/Boots/Hosts.antt =====
-- boots.py: the file that tells dnsmasq the static addresses, `parse_dhcp_hosts`,
-- `Dnsmasq.add_static_address` and the template dnsmasq-dhcp-host.jinja.
pub mod Lines
pub mod Refines
use valve_infra.Base.{
  ℕ, Bool, true, false, ◌&&◌, ◌||◌, not, Option, none, some, List, [], ◌∷◌, ◌++◌, ◌==◌, leb,
  if◌then◌else◌,
}
use valve_infra.Base.Text.{codes, ◌=b◌, precedes}
use valve_infra.Base.Result.{Result, ok, err, runtime_error, ◌>>=◌, ◌>>◌}
use valve_infra.Message.Framing.{Bytes}
use valve_infra.Boots.{split_mac_addr, onto}

-- `Host`
pub record Host : Type 0 where
  pub mac_addr : Bytes
  pub ip_addr : Bytes
  pub hostname : Bytes

-- The ends of lines that `splitlines` knows.
abbrev pub is_break : ℕ → Bool
is_break c = (leb 10 c && leb c 13) || (leb 28 c && leb c 30)

abbrev pub at_newline : Bytes → Bool
at_newline [] = false
at_newline (c ∷ s) = c == 10

-- `s.splitlines()`
unfoldable pub splitlines : Bytes → List Bytes
splitlines [] = []
splitlines (c ∷ s) =
    let rest = splitlines s in
    if is_break c then if (c == 13) && at_newline s then rest else [] ∷ rest else onto c rest

abbrev pub is_space : ℕ → Bool
is_space c = (leb 9 c && leb c 13) || (leb 28 c && leb c 32)

unfoldable pub lstrip : Bytes → Bytes
lstrip [] = []
lstrip (c ∷ s) = let rest = lstrip s in if is_space c then rest else c ∷ s

abbrev pub unless_blank : ℕ → Bytes → Bytes
unless_blank c [] = if is_space c then [] else c ∷ []
unless_blank c (d ∷ s) = c ∷ d ∷ s

unfoldable pub rstrip : Bytes → Bytes
rstrip [] = []
rstrip (c ∷ s) = unless_blank c (rstrip s)

-- `host_desc.strip()`
unfoldable pub strip : Bytes → Bytes
unfolding lstrip rstrip
strip s = rstrip (lstrip s)

abbrev pub pushed : ℕ → Option (Bytes × Bytes) → Option (Bytes × Bytes)
pushed c none = none
pushed c (some (x, s)) = some (c ∷ x, s)

-- `[^,]*,`
unfoldable pub until_comma : Bytes → Option (Bytes × Bytes)
until_comma [] = none
until_comma (c ∷ s) = let rest = until_comma s in if c == 44 then some ([], s) else pushed c rest

abbrev pub nonempty : Option (Bytes × Bytes) → Option (Bytes × Bytes)
nonempty none = none
nonempty (some ([], s)) = none
nonempty (some (c ∷ x, s)) = some (c ∷ x, s)

unfoldable pub behind : Bytes → Bytes → Option Bytes
behind [] s = some s
behind (p ∷ ps) [] = none
behind (p ∷ ps) (c ∷ s) = let rest = behind ps s in if p == c then rest else none

-- `set:(?P<hostname>.+)$`
abbrev pub with_hostname : Bytes → Bytes → Option Bytes → Option Host
with_hostname mac ip none = none
with_hostname mac ip (some []) = none
with_hostname mac ip (some (c ∷ s)) =
    some (record { mac_addr = mac; ip_addr = ip; hostname = c ∷ s })

abbrev pub with_ip : Bytes → Option (Bytes × Bytes) → Option Host
with_ip mac none = none
with_ip mac (some (ip, s)) = with_hostname mac ip (behind (codes "set:") s)

abbrev pub with_mac : Option (Bytes × Bytes) → Option Host
with_mac none = none
with_mac (some (mac, s)) = with_ip mac (nonempty (until_comma s))

-- The expression of a line.
unfoldable pub match_host : Bytes → Option Host
unfolding until_comma behind
match_host line = with_mac (nonempty (until_comma line))

abbrev pub is_skipped : Bytes → Bool
is_skipped [] = true
is_skipped (c ∷ s) = c == 35

abbrev pub added : Option Host → Result (List Host) → Result (List Host)
added none hosts = err runtime_error
added (some h) (ok hosts) = ok (h ∷ hosts)
added (some h) (err e) = err e

-- The loop of `parse_dhcp_hosts`. Whichever line it is that raises, it raises the same.
unfoldable pub parse_lines : List Bytes → Result (List Host)
unfolding strip match_host
parse_lines [] = ok []
parse_lines (line ∷ lines) =
    let rest = parse_lines lines in
    let host_desc = strip line in
    if is_skipped host_desc then rest else added (match_host host_desc) rest

-- `parse_dhcp_hosts`
unfoldable pub parse_dhcp_hosts : Bytes → Result (List Host)
unfolding splitlines parse_lines
parse_dhcp_hosts s = parse_lines (splitlines s)

-- One round of the template's loop, but for the end of the line.
abbrev pub line_of : Host → Bytes
line_of h = h.mac_addr ++ 44 ∷ (h.ip_addr ++ 44 ∷ (codes "set:" ++ h.hostname))

-- dnsmasq-dhcp-host.jinja
unfoldable pub render : List Host → Bytes
render [] = []
render (h ∷ hosts) = line_of h ++ 10 ∷ render hosts

-- `[m for m in machines if m.mac_addr != mac_addr]`
unfoldable pub others : Bytes → List Host → List Host
others mac [] = []
others mac (h ∷ hosts) = let rest = others mac hosts in if h.mac_addr =b mac then rest else h ∷ rest

-- `sorted(..., key=lambda m: m[0])`, which keeps the order of equal keys.
unfoldable pub sort_in : Host → List Host → List Host
sort_in h [] = h ∷ []
sort_in h (g ∷ hosts) =
    let rest = sort_in h hosts in if precedes g.mac_addr h.mac_addr then g ∷ rest else h ∷ g ∷ hosts

unfoldable pub sorted : List Host → List Host
unfolding sort_in
sorted [] = []
sorted (h ∷ hosts) = sort_in h (sorted hosts)

-- `':'.join(pieces)`
unfoldable pub join_colons : List Bytes → Bytes
join_colons [] = []
join_colons (p ∷ []) = p
join_colons (p ∷ q ∷ ps) = p ++ 58 ∷ join_colons (q ∷ ps)

-- `add_static_address`, from the file that it reads to the file that it leaves.
unfoldable pub add_static_address : Bytes → Bytes → Bytes → Bytes → Result Bytes
unfolding split_mac_addr parse_dhcp_hosts render others sorted join_colons
add_static_address mac ip hostname file = do
  pieces ← split_mac_addr mac
  let mac_addr = join_colons pieces
  machines ← parse_dhcp_hosts file
  let new : Host = record { mac_addr = mac_addr; ip_addr = ip; hostname = hostname }
  ok (render (sorted (others mac_addr machines ++ new ∷ [])))
