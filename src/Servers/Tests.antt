-- ===== src/Servers/Tests.antt =====
-- An update of a server whose key changes, for go-susi/db/serverdb.go.
use limux_gosa.Base.{true, false, not, none, [], ◌∷◌, ◌++◌, take, keep, ◌≡◌, refl}
use limux_gosa.Base.Text.{Text, codes, text_eq}
use limux_gosa.Xml.Hash.{Hash, new_hash, add, get, field}
use limux_gosa.Xml.Db.{Db, new_db, add_items}
use limux_gosa.Xml.Db.Laws.{items_of}
use limux_gosa.Xml.Hash
use limux_gosa.Base.Text
use limux_gosa.Servers.Keys.{known_keys}
use limux_gosa.Servers.{has_colon, server_update, is_port_of}
use limux_gosa.Servers.Laws.{is_older, stored_server, server_update_lem}

-- The entry of one server, with this key.
abbrev peer : Text → Hash
peer key =
    add (add (new_hash (codes "xml") []) (codes "source") (codes "10.0.0.2:20081" ∷ []))
      (codes "key") (key ∷ [])

abbrev peers : Db
peers = add_items (new_db (codes "serverdb") true none) (peer (codes "old") ∷ [])

ports :
    (is_port_of (codes "10.0.0.2") (codes "10.0.0.2:20081") ≡ true)
    × (is_port_of (codes "10.0.0.2") (codes "10.0.0.2:") ≡ false)
    × (is_port_of (codes "10.0.0.2") (codes "10.0.0.21:1") ≡ false)
unfolding is_port_of text_eq
ports = (refl, refl, refl)

with_port : has_colon (field (peer (codes "new")) (codes "source")) ≡ true
unfolding has_colon field Hash.get add new_hash text_eq Hash.set_text
with_port = refl

old_key :
    known_keys (codes "source") (field (peer (codes "new")) (codes "source")) (items_of peers)
    ≡ codes "old" ∷ []
unfolding field Hash.get add new_hash text_eq Hash.set_text add_items Hash.clone Hash.children
    new_db Hash.add_clone Text.lower
old_key = refl

server_update_example :
    (items_of (server_update (peer (codes "new")) peers)
      ≡ keep (λ x. not (is_older (peer (codes "new")) x)) (items_of peers)
        ++ stored_server (peer (codes "new")) peers ∷ [])
    × (get (stored_server (peer (codes "new")) peers) (codes "key" ∷ [])
        ≡ get (peer (codes "new")) (codes "key" ∷ [])
          ++ take 1 (
              known_keys
                (codes "source")
                (field (peer (codes "new")) (codes "source"))
                (items_of peers)))
    × ((m : Text)
        → text_eq (codes "key") m ≡ false
        → get (stored_server (peer (codes "new")) peers) (m ∷ [])
          ≡ get (peer (codes "new")) (m ∷ []))
server_update_example = server_update_lem (peer (codes "new")) peers with_port
