-- ===== src/Security/Context/Verify.antt =====
-- `Verify` of go-susi/security/context.go: whether a peer may talk to this server.
use limux_gosa.Base.{
  ℕ, Bool, true, false, ◌&&◌, ◌||◌, ◌==◌, leb, length, drop, Option, none, some, List, [], ◌∷◌,
  ◌++◌, any, if◌then◌else◌, ◌-◌,
}
use mathlib.Core.List.{reverse}
use limux_gosa.Base.Text.{Text, codes, text_eq}
use limux_gosa.Security.Context.{Config, Ip, Context}

-- `strings.HasPrefix` and `strings.HasSuffix`
unfoldable pub has_prefix : Text → Text → Bool
has_prefix s [] = true
has_prefix [] (b ∷ p) = false
has_prefix (a ∷ s) (b ∷ p) = a == b && has_prefix s p

unfoldable pub has_suffix : Text → Text → Bool
has_suffix s p = leb (length p) (length s) && text_eq (drop (length s - length p) s) p

-- The first twelve bytes of an IPv4 address in 16 bytes.
abbrev pub v4_prefix : Text
v4_prefix = 0 ∷ 0 ∷ 0 ∷ 0 ∷ 0 ∷ 0 ∷ 0 ∷ 0 ∷ 0 ∷ 0 ∷ 255 ∷ 255 ∷ []

-- `ip.Equal`: an IPv4 address in 4 bytes is the one in 16 bytes.
unfoldable pub ip_eq : Ip → Ip → Bool
ip_eq a b =
    if length a == length b
    then text_eq a b
    else if length a == 4 && length b == 16
    then text_eq (v4_prefix ++ a) b
    else length a == 16 && length b == 4 && text_eq a (v4_prefix ++ b)

-- `ip.IsLoopback`
unfoldable pub is_loopback : Ip → Bool
is_loopback ip =
    let v4 = if length ip == 16 && has_prefix ip v4_prefix then drop 12 ip else ip in
    if length v4 == 4
    then has_prefix v4 (127 ∷ [])
    else text_eq ip (0 ∷ 0 ∷ 0 ∷ 0 ∷ 0 ∷ 0 ∷ 0 ∷ 0 ∷ 0 ∷ 0 ∷ 0 ∷ 0 ∷ 0 ∷ 0 ∷ 0 ∷ 1 ∷ [])

-- The loop that sets the last bytes of the peer to 0, both addresses given from the end.
unfoldable pub blank : Ip → Ip → Ip
blank [] ip = []
blank (p ∷ peer) [] = p ∷ peer
blank (p ∷ peer) (i ∷ ip) = let rest = blank peer ip in if i == 0 then 0 ∷ rest else p ∷ peer

unfoldable pub wild_peer : Ip → Ip → Ip
unfolding blank
wild_peer peer ip = reverse (blank (reverse peer) (reverse ip))

-- One round of the loop over the addresses; `none` is the panic of `ip[len(ip)-1]` on an empty address.
unfoldable pub ip_matches : Ip → Ip → Option Bool
ip_matches peer ip = elim (reverse ip) [
  | [] ↦ if ip_eq ip peer then some true else none
  | z ∷ _ ↦ some (ip_eq ip peer || (z == 0 && ip_eq ip (wild_peer peer ip)))
]

-- `strings.TrimRight(peerName, ".")`
cons_trimmed : ℕ → Text → Text
cons_trimmed c [] = if c == b'.' then [] else c ∷ []
cons_trimmed c (d ∷ s) = c ∷ d ∷ s

unfoldable pub trim_dots : Text → Text
unfolding cons_trimmed
trim_dots [] = []
trim_dots (c ∷ s) = cons_trimmed c (trim_dots s)

-- Whether a name of the certificate allows a name of the peer.
unfoldable pub name_matches : Text → Text → Bool
name_matches peer_name name =
    if has_prefix name (codes "*")
    then has_suffix (trim_dots peer_name) (drop 1 name)
    else text_eq (trim_dots peer_name) name

unfoldable pub found_reverse : Option (List Text) → List Text → Bool
found_reverse none names = false
found_reverse (some peer_names) names =
    any (λ name. any (λ p. name_matches p name) peer_names) names

-- What is behind the first colon, with it, and what is before it.
unfoldable pub port_of : Text → Option Text
port_of [] = none
port_of (c ∷ s) = let rest = port_of s in if c == b':' then some (c ∷ s) else rest

unfoldable pub host_of : Text → Text
host_of [] = []
host_of (c ∷ s) = let rest = host_of s in if c == b':' then [] else c ∷ rest

unfoldable pub found_forward : Option (List Ip) → Ip → Bool
found_forward none peer = false
found_forward (some ips) peer = any (λ ip. ip_eq ip peer) ips

-- A check that ends the search, and one that is made if it does not; a panic ends both.
or_else : Option Bool → Option Bool → Option Bool
or_else none next = none
or_else (some true) next = some true
or_else (some false) next = next

if_allowed : Option Bool → Bool → Option Bool
if_allowed none next = none
if_allowed (some false) next = some false
if_allowed (some true) next = some next

-- `net.ParseIP`, `net.LookupIP` and `net.LookupAddr`, on text or on an address.
module _ (config : Config) (parse_ip : Text → Option Ip) (lookup_ip : Text → Option (List Ip))
    (lookup_addr : Ip → Option (List Text)) where
  -- The address that a loop-back address in a certificate stands for; `nil` is the empty one.
  abbrev pub own_ip : Ip
  own_ip = elim (parse_ip config.ip) [ none ↦ [] | some ip ↦ ip ]

  unfoldable pub allowed_by_ip : Ip → List Ip → Option Bool
  unfolding or_else
  allowed_by_ip peer [] = some false
  allowed_by_ip peer (ip ∷ ips) =
      or_else (ip_matches peer (if is_loopback ip then own_ip else ip)) (allowed_by_ip peer ips)

  -- The loop over the names, by the addresses that they have.
  unfoldable pub allowed_forward : Ip → List Text → Bool
  unfolding found_forward
  allowed_forward peer names = any (λ n. found_forward (lookup_ip n) peer) names

  -- The loop over the names, by the names that the peer has.
  unfoldable pub allowed_reverse : Ip → List Text → Bool
  unfolding found_reverse
  allowed_reverse peer names = found_reverse (lookup_addr peer) names

  abbrev pub fq_name : Text
  fq_name = config.hostname ++ (codes "." ++ config.domain)

  -- The tests on a name without its port.
  unfoldable pub is_me : Text → Bool
  is_me comm =
      text_eq comm config.hostname
      || text_eq comm fq_name
      || text_eq comm config.ip
      || (has_prefix comm (codes "*") && has_suffix fq_name (drop 1 comm))

  -- One round of the loop over `CommunicateWith`, by the port in the name.
  talks_at : Text → Option Text → Bool
  talks_at comm none = is_me comm
  talks_at comm (some port) = has_suffix config.server_source_address port && is_me (host_of comm)

  unfoldable pub may_talk : Text → Bool
  unfolding talks_at
  may_talk comm = talks_at comm (port_of comm)

  -- The three ways in which the peer may be allowed, one after the other.
  unfoldable pub peer_allowed : Context → Option Bool
  unfolding or_else
  peer_allowed c = or_else (allowed_by_ip c.peer_id.ip c.peer_id.allowed_ips) (
      some (
        allowed_forward c.peer_id.ip c.peer_id.allowed_names
        || allowed_reverse c.peer_id.ip c.peer_id.allowed_names))

  -- `Verify`; `none` is a panic.
  unfoldable pub verify : Context → Option Bool
  unfolding peer_allowed if_allowed
  verify c = if_allowed (peer_allowed c) (any may_talk c.limits.communicate_with)
