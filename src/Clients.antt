-- ===== src/Clients.antt =====
-- go-susi/db/clientdb.go: what is known of the clients, and the strikes of those that register too often.
pub mod Laws
pub mod Tests
use limux_gosa.Base.{
  ℕ, suc, ◌+◌, ◌*◌, ◌^◌, Bool, true, false, not, ◌&&◌, ◌||◌, Option, none, some, List, [], ◌∷◌,
  ◌++◌, ltb, if◌then◌else◌,
}
use limux_gosa.Base.Text.{Text, codes, text_eq}
use limux_gosa.Xml.Hash.{Hash, items, named, children, field, new_hash}
use limux_gosa.Xml.Filter.{Filter, filter_or, filter_simple}
use limux_gosa.Xml.Db.{Db, new_db, init, replace, shutdown, column_values}
use limux_gosa.Xml.Db
use limux_gosa.Servers.{entries_at, keys_of, first_of, with_old_key}

-- `hiaEntry`, with the time in nanoseconds.
pub record HiaEntry : Type 0 where
  pub last : ℕ
  pub strikes : ℕ

pub record Clients : Type 0 where
  -- `config.ServerSourceAddress`
  pub server : Text
  pub db : Db
  -- `ClientsWeMayHave`
  pub may_have : Hash
  -- `hiaDB`: the entries, each with its MAC address
  pub hia : List (Text × HiaEntry)

-- `ClientsInit`, for what the file holds.
unfoldable pub clients_init : Bool → Option Hash → Clients → Clients
unfolding filter_simple
clients_init fresh none c = record c { db = new_db (codes "clientdb") true none }
clients_init fresh (some h) c =
    let empty = new_db (codes "clientdb") true (some h) in
    let (mine, others) =
      Db.remove (init empty h) (filter_simple (codes "source" ∷ c.server ∷ [])) in
    if fresh then record c { db = empty } else record c { db = others; may_have = mine }

-- `ClientsShutdown`; the flag says that the storer has returned no error.
unfoldable pub clients_shutdown : Bool → Clients → Clients
clients_shutdown stores c = record c { db = shutdown stores c.db }

unfoldable pub find_hia : Text → List (Text × HiaEntry) → Option HiaEntry
find_hia macaddress [] = none
find_hia macaddress ((m, e) ∷ more) =
    let rest = find_hia macaddress more in if text_eq m macaddress then some e else rest

-- `hiaDB[macaddress] = ...`: the newest entry stands first, and hides an older one.
abbrev put_hia : Text → HiaEntry → List (Text × HiaEntry) → List (Text × HiaEntry)
put_hia macaddress e table = (macaddress, e) ∷ table

-- The strikes at the time `now`. A new entry starts at -1, and both branches make it 0.
unfoldable pub next_strikes : Option HiaEntry → ℕ → ℕ
next_strikes none now = 0
next_strikes (some e) now = if ltb (e.last + 120 * 10 ^ 9) now then 0 else suc e.strikes

-- `ClientThrottle`
unfoldable pub client_throttle : Text → ℕ → Clients → Clients × ℕ
unfolding find_hia next_strikes
client_throttle macaddress now c =
    let n = next_strikes (find_hia macaddress c.hia) now in
    (record c { hia = put_hia macaddress (record { last = now; strikes = n }) c.hia }, n)

forgiven : Option HiaEntry → Text → ℕ → List (Text × HiaEntry) → List (Text × HiaEntry)
forgiven none macaddress now table = table
forgiven (some e) macaddress now table =
    put_hia macaddress (record { last = now; strikes = 0 }) table

-- `ClientUnthrottle`
unfoldable pub client_unthrottle : Text → ℕ → Clients → Clients
unfolding find_hia forgiven
client_unthrottle macaddress now c = record c {
  hia = forgiven (find_hia macaddress c.hia) macaddress now c.hia;
}

-- `ClientWithMAC`
unfoldable pub client_with_mac : Text → Clients → Option Hash
unfolding first_of
client_with_mac macaddress c = first_of (
    named (codes "xml")
      (items (Db.query c.db (filter_simple (codes "macaddress" ∷ macaddress ∷ [])))))

-- `ClientWithAddress`
unfoldable pub client_with_address : Text → Clients → Option Hash
unfolding first_of entries_at
client_with_address addr c =
    first_of (named (codes "xml") (items (Db.query c.db (entries_at (codes "client") addr))))

-- `ClientsRegisteredAtThisServer`
unfoldable pub clients_registered_at_this_server : Clients → Hash
clients_registered_at_this_server c = Db.query c.db (filter_simple (codes "source" ∷ c.server ∷ []))

-- `ClientsQuery`
unfoldable pub clients_query : Filter → Clients → Hash
clients_query f c = Db.query c.db f

-- `ClientKeys`
unfoldable pub client_keys : Text → Clients → List Text
unfolding entries_at keys_of
client_keys addr c =
    keys_of (named (codes "xml") (items (Db.query c.db (entries_at (codes "client") addr))))

-- `ClientKeysForAllClients`
unfoldable pub client_keys_for_all_clients : Clients → List Text
client_keys_for_all_clients c = column_values c.db (codes "key")

-- The entries that an update replaces.
unfoldable pub same_client : Hash → Filter
unfolding filter_or filter_simple
same_client client = filter_or (
    filter_simple (codes "macaddress" ∷ field client (codes "macaddress") ∷ [])
    ∷ filter_simple (codes "client" ∷ field client (codes "client") ∷ [])
    ∷ [])

-- The addresses of the clients that have been taken away from this server.
unfoldable pub taken_away : Text → List Hash → List Text
taken_away server [] = []
taken_away server (old ∷ olds) =
    let rest = taken_away server olds in
    if text_eq (field old (codes "source")) server then field old (codes "client") ∷ rest else rest

-- `ClientUpdate`, with the addresses for which it starts a goroutine.
unfoldable pub client_update : Hash → Clients → Clients × List Text
unfolding client_keys with_old_key same_client taken_away
client_update client c =
    let full = with_old_key client (client_keys (field client (codes "client")) c) in
    let (old, db) = replace c.db (same_client full) false (full ∷ []) in
    let gone =
      if text_eq (field full (codes "source")) c.server
      then []
      else taken_away c.server (children (items old)) in
    if text_eq (field client (codes "macaddress")) [] || text_eq (field client (codes "client")) []
    then (c, [])
    else (record c { db = db }, gone)

-- Whether the goroutine for an address sends "deregistered" to it, once it has waited.
must_deregister : Text → Option Hash → Bool
must_deregister server none = true
must_deregister server (some client) = not (text_eq (field client (codes "source")) server)

unfoldable pub sends_deregistered : Text → Clients → Bool
unfolding client_with_address must_deregister
sends_deregistered addr c = must_deregister c.server (client_with_address addr c)
