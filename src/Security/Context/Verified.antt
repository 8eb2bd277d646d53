-- ===== src/Security/Context/Verified.antt =====
-- What `Verify` of go-susi/security/context.go lets through.
use limux_gosa.Base.{
  ℕ, Bool, true, false, ◌&&◌, ◌||◌, length, length-append, drop, leb, ◌+◌, ◌-◌, Option, none, some,
  List, [], ◌∷◌, ◌++◌, ◌≡◌, refl, arith, if◌then◌else◌,
}
use limux_gosa.Base.Text.{Text, codes, text_eq, text_eq_refl}
use limux_gosa.Security.Context.{
  Config, Ip, Context, any_ip, ip_or_any, set_legacy_defaults, set_tls_defaults,
}
use limux_gosa.Security.Context.Verify.{
  v4_prefix, ip_matches, ip_eq, is_loopback, has_prefix, wild_peer, allowed_by_ip, verify, may_talk,
  port_of, host_of, is_me, has_suffix, found_reverse, allowed_forward, allowed_reverse,
}

-- An IPv4 address, in 4 bytes or in 16.
abbrev pub ipv4 : Bool → ℕ → ℕ → ℕ → ℕ → Ip
ipv4 wide a b c d = (if wide then v4_prefix else []) ++ a ∷ b ∷ c ∷ d ∷ []

third_true : (a b c : Bool) → (a || b || true || c) ≡ true
third_true true b c = refl
third_true false true c = refl
third_true false false c = refl

or_true : (b : Bool) → (b || true) ≡ true
or_true true = refl
or_true false = refl

wild_v4 : (wide : Bool) (a b c d : ℕ) → ip_eq any_ip (wild_peer (ipv4 wide a b c d) any_ip) ≡ true
unfolding wild_peer ip_eq text_eq
wild_v4 true a b c d = refl
wild_v4 false a b c d = refl

any_ip_matches : (wide : Bool) (a b c d : ℕ) → ip_matches (ipv4 wide a b c d) any_ip ≡ some true
unfolding ip_matches
any_ip_matches wide a b c d = rw (wild_v4 wide a b c d, or_true (ip_eq any_ip (ipv4 wide a b c d)))

any_ip-not_loopback : is_loopback any_ip ≡ false
unfolding is_loopback has_prefix text_eq
any_ip-not_loopback = refl

port_of-append : (s p : Text) → port_of s ≡ none → port_of (s ++ b':' ∷ p) ≡ some (b':' ∷ p)
unfolding port_of
port_of-append [] p e = refl
port_of-append (c ∷ s) p e = ground (arith, port_of-append s p)

host_of-append : (s p : Text) → port_of s ≡ none → host_of (s ++ b':' ∷ p) ≡ s
unfolding port_of host_of
host_of-append [] p e = refl
host_of-append (c ∷ s) p e = ground (arith, host_of-append s p)

drop-length : (s t : Text) → drop (length s) (s ++ t) ≡ t
drop-length [] t = refl
drop-length (c ∷ s) t = drop-length s t

has_suffix-append : (s t : Text) → has_suffix (s ++ t) t ≡ true
unfolding has_suffix
has_suffix-append s t =
    let e : length (s ++ t) ≡ length s + length t = length-append s t in
    let f : length (s ++ t) - length t ≡ length s = omega (arith, e) in
    let g : leb (length t) (length (s ++ t)) ≡ true = ground (arith, e) in
    rw (g, f, drop-length s t) (text_eq_refl t)

module _ (config : Config) (parse_ip : Text → Option Ip) (lookup_ip : Text → Option (List Ip))
    (lookup_addr : Ip → Option (List Text)) where
  legacy_peer :
      (wide : Bool) (a b c d : ℕ)
      → allowed_by_ip config parse_ip lookup_ip lookup_addr (ipv4 wide a b c d) (any_ip ∷ [])
        ≡ some true
  unfolding allowed_by_ip
  legacy_peer wide a b c d = rw (any_ip-not_loopback, any_ip_matches wide a b c d)

  is_me_ip : is_me config parse_ip lookup_ip lookup_addr config.ip ≡ true
  unfolding is_me
  is_me_ip = rw (text_eq_refl config.ip) (
      third_true (text_eq config.ip config.hostname)
        (text_eq config.ip (config.hostname ++ (codes "." ++ config.domain)))
        (has_prefix config.ip (codes "*")
          && has_suffix (config.hostname ++ (codes "." ++ config.domain)) (drop 1 config.ip)))

  own_port :
      (port : Text)
      → config.server_source_address ≡ config.ip ++ b':' ∷ port
      → port_of config.ip ≡ none
      → may_talk config parse_ip lookup_ip lookup_addr config.server_source_address ≡ true
  unfolding may_talk is_me
  own_port port e n =
      rw
        (
          e,
          port_of-append config.ip port n,
          host_of-append config.ip port n,
          has_suffix-append config.ip (b':' ∷ port),
        )
        is_me_ip

  legacy_ip : (wide : Bool) (a b c d : ℕ) → ip_or_any (ipv4 wide a b c d) ≡ ipv4 wide a b c d
  unfolding ip_or_any
  legacy_ip true a b c d = refl
  legacy_ip false a b c d = refl

  no_ips : (peer : Ip) → allowed_by_ip config parse_ip lookup_ip lookup_addr peer [] ≡ some false
  unfolding allowed_by_ip
  no_ips peer = refl

  no_names : (peer : Ip) (found : Option (List Text)) → found_reverse found [] ≡ false
  unfolding found_reverse
  no_names peer none = refl
  no_names peer (some names) = refl

  -- If the address of the server is its IP, which has no colon, and a port, then a connection with the
  -- defaults for no TLS is let through for every IPv4 peer, in 4 bytes or in 16, and one with the defaults
  -- for TLS, whose lists of names are empty, is refused for every peer; whatever the look-ups return.
  pub verify_defaults :
      (c d : Context) (port : Text) (wide : Bool) (p q r s : ℕ)
      → config.server_source_address ≡ config.ip ++ b':' ∷ port
      → port_of config.ip ≡ none
      → c.peer_id.ip ≡ ipv4 wide p q r s
      → (verify config parse_ip lookup_ip lookup_addr (set_legacy_defaults config c) ≡ some true)
        × (verify config parse_ip lookup_ip lookup_addr (set_tls_defaults config d) ≡ some false)
  unfolding verify set_legacy_defaults set_tls_defaults allowed_forward allowed_reverse
  verify_defaults c d port wide p q r s e n i = (
    rw (i, legacy_ip wide p q r s, legacy_peer wide p q r s, own_port port e n),
    rw (no_ips d.peer_id.ip, no_names d.peer_id.ip (lookup_addr d.peer_id.ip)),
  )
