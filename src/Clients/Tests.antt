-- ===== src/Clients/Tests.antt =====
-- A client that registers three times, for go-susi/db/clientdb.go.
use limux_gosa.Base.{false, not, keep, ◌++◌, take, true, none, [], ◌∷◌, ◌≡◌, refl}
use limux_gosa.Base.Text.{Text, codes, text_eq}
use limux_gosa.Xml.Hash.{Hash, new_hash, add, field, get, clone}
use limux_gosa.Xml.Hash
use limux_gosa.Base.Text
use limux_gosa.Xml.Db.Laws.{items_of}
use limux_gosa.Xml.Db.{new_db}
use limux_gosa.Servers.{has_colon}
use limux_gosa.Servers.Keys.{known_keys}
use limux_gosa.Clients.{Clients, client_throttle, client_update}
use limux_gosa.Clients.Laws.{is_older, keyed_client, client_update_lem}

abbrev no_clients : Clients
no_clients = record {
  server = codes "10.0.0.1:20081";
  db = new_db (codes "clientdb") true none;
  may_have = new_hash (codes "clientdb") [];
  hia = [];
}

-- The second time comes too early, the third one does not.
strikes :
    let first = (client_throttle (codes "aa") 1000000000 no_clients).0 in
    let second = (client_throttle (codes "aa") 2000000000 first).0 in
    ((client_throttle (codes "aa") 2000000000 first).1 ≡ 1)
    × ((client_throttle (codes "aa") 122000000001 second).1 ≡ 0)
unfolding client_throttle text_eq
strikes = (refl, refl)

abbrev laptop : Hash
laptop =
    add
      (add (add (new_hash (codes "xml") []) (codes "macaddress") (codes "aa" ∷ [])) (codes "client")
        (codes "10.0.0.9:20083" ∷ []))
      (codes "key") (codes "secret" ∷ [])

has_addresses :
    (text_eq (field laptop (codes "macaddress")) [] ≡ false)
    × (text_eq (field laptop (codes "client")) [] ≡ false)
unfolding field Hash.get add new_hash text_eq Hash.set_text Hash.append_child Hash.append_string
    Hash.append_strings Hash.append_text Hash.content Hash.drop_text Hash.join Hash.text_fragments
    Hash.text_of Text.lower
has_addresses = (refl, refl)

with_port : has_colon (field laptop (codes "client")) ≡ true
unfolding has_colon field Hash.get add new_hash text_eq Hash.set_text
with_port = refl

client_update_example :
    (items_of (client_update laptop no_clients).0.db
      ≡ keep (λ x. not (is_older laptop x)) (items_of no_clients.db)
        ++ clone (keyed_client laptop no_clients) ∷ [])
    × (get (clone (keyed_client laptop no_clients)) (codes "key" ∷ [])
        ≡ get laptop (codes "key" ∷ [])
          ++ take 1 (
              known_keys (codes "client") (field laptop (codes "client")) (items_of no_clients.db)))
    × ((m : Text)
        → text_eq (codes "key") m ≡ false
        → get (clone (keyed_client laptop no_clients)) (m ∷ []) ≡ get laptop (m ∷ []))
client_update_example =
    client_update_lem laptop no_clients has_addresses.0 has_addresses.1 with_port
