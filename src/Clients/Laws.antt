-- ===== src/Clients/Laws.antt =====
-- What an update of a client does to the database of go-susi/db/clientdb.go.
use limux_gosa.Base.{
  Bool, true, false, not, ◌||◌, some, List, [], ◌∷◌, ◌++◌, take, keep, ◌≡◌, refl, ap, ◌∙◌,
}
use limux_gosa.Base.Text.{Text, codes, text_eq}
use limux_gosa.Xml.Hash.{Hash, clone, get, field}
use limux_gosa.Xml.Hash.CloneFields.{get-clone}
use limux_gosa.Xml.Filter.{filter_simple}
use limux_gosa.Xml.Db.Laws.{items_of, replace_lem}
use limux_gosa.Servers.{has_colon, with_old_key}
use limux_gosa.Servers.Laws.{
  get-with_old_key, get-with_old_key_other, field-with_old_key, filter_or_lem, keep-same,
}
use limux_gosa.Servers.Keys.{has_text, known_keys, filter_simple_lem, keys_of_lem}
use limux_gosa.Clients.{Clients, client_keys, same_client, client_update}

-- The client with the key that was known.
abbrev pub keyed_client : Hash → Clients → Hash
keyed_client client c = with_old_key client (client_keys (field client (codes "client")) c)

-- The entries that are taken for older ones of a client: those with its MAC address or its address.
abbrev pub is_older : Hash → Hash → Bool
is_older client x =
    has_text (codes "macaddress") (field client (codes "macaddress")) x
    || has_text (codes "client") (field client (codes "client")) x

same_client_lem : (client x : Hash) → same_client client (some x) ≡ is_older client x
unfolding same_client
same_client_lem client x =
    let f = filter_simple (codes "macaddress" ∷ field client (codes "macaddress") ∷ []) in
    let g = filter_simple (codes "client" ∷ field client (codes "client") ∷ []) in
    rw
      (
        filter_or_lem f g x,
        filter_simple_lem (codes "macaddress") (field client (codes "macaddress")) x,
        filter_simple_lem (codes "client") (field client (codes "client")) x,
      )
      refl

older-with_old_key :
    (client x : Hash) (keys : List Text) → is_older (with_old_key client keys) x ≡ is_older client x
older-with_old_key client x keys =
    rw
      (
        field-with_old_key client keys (codes "macaddress") (unfold text_eq in refl),
        field-with_old_key client keys (codes "client") (unfold text_eq in refl),
      )
      refl

db-client_update :
    (client : Hash) (c : Clients)
    → text_eq (field client (codes "macaddress")) [] ≡ false
    → text_eq (field client (codes "client")) [] ≡ false
    → items_of (client_update client c).0.db
      ≡ keep (λ x. not (is_older client x)) (items_of c.db) ++ clone (keyed_client client c) ∷ []
unfolding client_update
db-client_update client c m a =
    let keys = client_keys (field client (codes "client")) c in
    let full = keyed_client client c in
    rw (m, a)
      ((replace_lem c.db (same_client full) false (full ∷ [])).1
        ∙ ap (λ xs. xs ++ clone full ∷ [])
            (keep-same (λ x. not (same_client full (some x))) (λ x. not (is_older client x))
              (items_of c.db)
              (λ x. ap not (same_client_lem full x ∙ older-with_old_key client x keys))))

-- The entry of a client that has a MAC address and an address with a port comes behind the entries that stay: those
-- that have neither of the two, letter case aside, in order. Its keys are those that the client brings and
-- then the first of those of the entries with its address, and its other fields are those that it brings.
pub client_update_lem :
    (client : Hash) (c : Clients)
    → text_eq (field client (codes "macaddress")) [] ≡ false
    → text_eq (field client (codes "client")) [] ≡ false
    → has_colon (field client (codes "client")) ≡ true
    → (items_of (client_update client c).0.db
        ≡ keep (λ x. not (is_older client x)) (items_of c.db) ++ clone (keyed_client client c) ∷ [])
      × (get (clone (keyed_client client c)) (codes "key" ∷ [])
          ≡ get client (codes "key" ∷ [])
            ++ take 1 (known_keys (codes "client") (field client (codes "client")) (items_of c.db)))
      × ((m : Text)
          → text_eq (codes "key") m ≡ false
          → get (clone (keyed_client client c)) (m ∷ []) ≡ get client (m ∷ []))
unfolding client_keys
client_update_lem client c m a colon =
    let keys = client_keys (field client (codes "client")) c in
    (
      db-client_update client c m a,
      get-clone (keyed_client client c) (codes "key")
          ∙ get-with_old_key client keys
          ∙ ap (λ ks. get client (codes "key" ∷ []) ++ take 1 ks)
              (keys_of_lem c.db (codes "client") (field client (codes "client")) colon),
      λ n e. get-clone (keyed_client client c) n ∙ get-with_old_key_other client keys n e,
    )
