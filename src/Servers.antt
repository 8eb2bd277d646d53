-- ===== src/Servers.antt =====
-- go-susi/db/serverdb.go: what is known of the peer servers, as a database of package xml.
pub mod Keys
pub mod Laws
pub mod Tests
use limux_gosa.Base.{
  ℕ, Bool, true, false, not, ◌&&◌, ◌||◌, Option, none, some, List, [], ◌∷◌, ◌++◌, ◌==◌, any, take,
  drop, Ordering, if◌then◌else◌,
}
use limux_gosa.Base.Text.{Text, codes, text_eq, is_digit, compare_text, to_lower}
use limux_gosa.Xml.Hash.{Hash, items, named, get, field, new_hash, add}
use limux_gosa.Xml.Filter.{Filter, filter_all, filter_or, filter_simple}
use limux_gosa.Xml.Db.{Db, new_db, init, replace, shutdown, column_values}
use limux_gosa.Xml.Db

-- The variables of package config that are read, and whether `TLSClientConfig` is set.
pub record ServerConfig : Type 0 where
  pub source_address : Text
  pub ip : Text
  -- `ModuleKey["[ServerPackages]"]`
  pub module_key : Text
  pub has_tls : Bool

-- `strings.Index(addr, ":") >= 0`
unfoldable pub has_colon : Text → Bool
has_colon addr = any (λ c. c == b':') addr

-- The expression `^...:[0-9]+$` with the quoted address.
are_digits : Text → Bool
are_digits [] = true
are_digits (c ∷ s) = is_digit c && are_digits s

unfoldable pub is_port_of : Text → Text → Bool
unfolding are_digits
is_port_of (a ∷ addr) [] = false
is_port_of (a ∷ addr) (c ∷ s) = a == c && is_port_of addr s
is_port_of [] [] = false
is_port_of [] (c ∷ s) = not (text_eq s []) && are_digits s && c == b':'

unfoldable pub filter_ports : Text → Text → Filter
unfolding is_port_of
filter_ports column addr none = false
filter_ports column addr (some h) = any (is_port_of addr) (get h (column ∷ []))

-- The entries with this address, or with any port at it, in this column.
unfoldable pub entries_at : Text → Text → Filter
unfolding has_colon filter_ports filter_simple
entries_at column addr =
    if has_colon addr then filter_simple (column ∷ addr ∷ []) else filter_ports column addr

unfoldable pub keys_of : List Hash → List Text
keys_of [] = []
keys_of (server ∷ servers) = get server (codes "key" ∷ []) ++ keys_of servers

-- `ServerKeys`
unfoldable pub server_keys : Db → Text → List Text
unfolding entries_at keys_of
server_keys db addr =
    keys_of (named (codes "xml") (items (Db.query db (entries_at (codes "source") addr))))

-- The filter for the entries that `ServerUpdate` replaces.
unfoldable pub outdated : Hash → Filter
unfolding filter_or filter_simple
outdated server =
    let macaddress = field server (codes "macaddress") in
    let same_source = filter_simple (codes "source" ∷ field server (codes "source") ∷ []) in
    if not (text_eq macaddress [])
    then filter_or (filter_simple (codes "macaddress" ∷ macaddress ∷ []) ∷ same_source ∷ [])
    else same_source

-- The server with the first of the keys that were known.
unfoldable pub with_old_key : Hash → List Text → Hash
with_old_key server [] = server
with_old_key server (key ∷ keys) = add server (codes "key") (key ∷ [])

-- `ServerUpdate`
unfoldable pub server_update : Hash → Db → Db
unfolding with_old_key outdated
server_update server db =
    let full = with_old_key server (server_keys db (field server (codes "source"))) in
    (replace db (outdated full) false (full ∷ [])).1

unfoldable pub first_of : List Hash → Option Hash
first_of [] = none
first_of (x ∷ xs) = some x

-- `ServerRemove`
unfoldable pub server_remove : Text → Db → Option Hash × Db
unfolding first_of
server_remove addr db =
    let (removed, rest) = Db.remove db (filter_simple (codes "source" ∷ addr ∷ [])) in
    (first_of (named (codes "xml") (items removed)), rest)

-- `ServerKeysForAllServers`
unfoldable pub server_keys_for_all_servers : Db → List Text
server_keys_for_all_servers db = column_values db (codes "key")

-- `Servers`
unfoldable pub servers : Db → Hash
servers db = Db.query db filter_all

-- `ServerAddresses`
unfoldable pub server_addresses : Db → List Text
server_addresses db = column_values db (codes "source")

-- `ServerWithMAC`
unfoldable pub server_with_mac : Db → Text → Option Hash
unfolding first_of
server_with_mac db macaddress = first_of (
    named (codes "xml")
      (items (Db.query db (filter_simple (codes "macaddress" ∷ macaddress ∷ [])))))

-- `strings.Replace(key, ".", "", -1)`
without_dots : Text → Text
without_dots [] = []
without_dots (c ∷ s) = let rest = without_dots s in if c == b'.' then rest else c ∷ rest

-- The key of an entry that is made up for the server at `ip`.
unfoldable pub dummy_key : ServerConfig → Text → Text
unfolding without_dots
dummy_key config ip =
    let pair : Text = elim (compare_text ip config.ip) [
      | Ordering.lt ↦ ip ++ config.ip
      | _ ↦ config.ip ++ ip
    ] in
    if config.has_tls then [] else config.module_key ++ without_dots pair

-- `len(keys) == 0`
is_empty : List Text → Bool
is_empty [] = true
is_empty _ = false

-- `addServer`, with the address and the port that the standard library and golib make of the server's
-- name; none is an error of theirs.
unfoldable pub add_server : ServerConfig → Option (Text × Text) → Db → Db
unfolding dummy_key server_keys is_empty
add_server config none db = db
add_server config (some (ip, port)) db =
    let source = ip ++ b':' ∷ port in
    let server =
      add (add (new_hash (codes "xml") []) (codes "source") (source ∷ [])) (codes "key")
        (dummy_key config ip ∷ []) in
    if text_eq source config.source_address
    then db
    else if is_empty (server_keys db source)
    then server_update server db
    else db

-- `addServersFromConfig` and `addServersFromDNS`, for the servers of the list.
unfoldable pub add_servers : ServerConfig → List (Option (Text × Text)) → Db → Db
add_servers config [] db = db
add_servers config (server ∷ more) db = add_servers config more (add_server config server db)

-- `ServersInit`; the file, the servers of the DNS where it is asked, and those of the configuration.
unfoldable pub servers_init :
    ServerConfig
    → Bool
    → Option Hash
    → Option (List (Option (Text × Text)))
    → List (Option (Text × Text))
    → Db
unfolding add_servers
servers_init config fresh file dns peers =
    let empty = new_db (codes "serverdb") true file in
    let read : Db = elim file [ none ↦ empty | some h ↦ if fresh then empty else init empty h ] in
    let found : Db = elim dns [ none ↦ read | some l ↦ add_servers config l read ] in
    add_servers config peers found

-- `ServersShutdown`; the flag says that the storer has returned no error.
unfoldable pub servers_shutdown : Bool → Db → Db
servers_shutdown stores db = shutdown stores db
