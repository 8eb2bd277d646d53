-- ===== src/Servers/Laws.antt =====
-- What an update of a peer server does to the database of go-susi/db/serverdb.go.
use limux_gosa.Base.{
  Bool, true, false, not, ◌&&◌, ◌||◌, some, List, [], ◌∷◌, ◌++◌, take, keep, append-nil, ◌≡◌, refl,
  sym, ap, ◌∙◌, arith, inl, inr, Bool-cases,
}
use limux_gosa.Base.Text.{Text, codes, text_eq}
use limux_gosa.Xml.Hash.{Hash, clone, get, field, text_of, separator, join}
use limux_gosa.Xml.Filter.{Filter, filter_simple, filter_or}
use limux_gosa.Xml.Hash.Edit.{add_lem}
use limux_gosa.Xml.Hash.CloneFields.{get-clone}
use limux_gosa.Xml.Db.{Db}
use limux_gosa.Xml.Db.Laws.{items_of, replace_lem}
use limux_gosa.Servers.{has_colon, server_keys, outdated, with_old_key, server_update}
use limux_gosa.Servers.Keys.{has_text, known_keys, filter_simple_lem, keys_of_lem}

-- The entry that is stored for a server.
abbrev pub stored_server : Hash → Db → Hash
stored_server server db =
    clone (with_old_key server (server_keys db (field server (codes "source"))))

pub get-with_old_key :
    (server : Hash) (keys : List Text)
    → get (with_old_key server keys) (codes "key" ∷ [])
      ≡ get server (codes "key" ∷ []) ++ take 1 keys
unfolding with_old_key text_eq join
get-with_old_key server [] = sym (append-nil (get server (codes "key" ∷ [])))
get-with_old_key server (key ∷ keys) = (add_lem server (codes "key") (key ∷ []) (codes "key")).0

pub get-with_old_key_other :
    (server : Hash) (keys : List Text) (m : Text)
    → text_eq (codes "key") m ≡ false
    → get (with_old_key server keys) (m ∷ []) ≡ get server (m ∷ [])
unfolding with_old_key
get-with_old_key_other server [] m e = refl
get-with_old_key_other server (key ∷ keys) m e =
    rw ((add_lem server (codes "key") (key ∷ []) m).0, e) (append-nil (get server (m ∷ [])))

or_false : (b : Bool) → (b || false) ≡ b
or_false b = ground arith

or_comm : (b c : Bool) → (b || c) ≡ (c || b)
or_comm b c = ground arith

-- The entries that are taken for older ones of a server: those with its address, and those with its MAC
-- address, if it has one.
abbrev pub is_older : Hash → Hash → Bool
is_older server x =
    has_text (codes "source") (field server (codes "source")) x
    || (not (text_eq (field server (codes "macaddress")) [])
        && has_text (codes "macaddress") (field server (codes "macaddress")) x)

pub field-with_old_key :
    (server : Hash) (keys : List Text) (m : Text)
    → text_eq (codes "key") m ≡ false
    → field (with_old_key server keys) m ≡ field server m
unfolding field text_of
field-with_old_key server keys m e = ap (join separator) (get-with_old_key_other server keys m e)

pub filter_or_lem :
    (f g : Filter) (x : Hash) → filter_or (f ∷ g ∷ []) (some x) ≡ (f (some x) || g (some x))
unfolding filter_or
filter_or_lem f g x = ground arith

outdated_lem : (server x : Hash) → outdated server (some x) ≡ is_older server x
unfolding outdated
outdated_lem server x =
    let by_source = filter_simple_lem (codes "source") (field server (codes "source")) x in
    let by_mac = filter_simple_lem (codes "macaddress") (field server (codes "macaddress")) x in
    let same_source = filter_simple (codes "source" ∷ field server (codes "source") ∷ []) in
    let same_mac = filter_simple (codes "macaddress" ∷ field server (codes "macaddress") ∷ []) in
    elim (Bool-cases (text_eq (field server (codes "macaddress")) [])) [
      | inl e ↦ rw (e, by_source) (sym (or_false _))
      | inr e ↦
          rw (e, filter_or_lem same_mac same_source x, by_source, by_mac)
            (or_comm (has_text (codes "macaddress") (field server (codes "macaddress")) x)
              (has_text (codes "source") (field server (codes "source")) x))
    ]

older-with_old_key :
    (server x : Hash) (keys : List Text) → is_older (with_old_key server keys) x ≡ is_older server x
older-with_old_key server x keys =
    rw
      (
        field-with_old_key server keys (codes "source") (unfold text_eq in refl),
        field-with_old_key server keys (codes "macaddress") (unfold text_eq in refl),
      )
      refl

pub keep-same :
    (f g : Hash → Bool) (xs : List Hash) → ((x : Hash) → f x ≡ g x) → keep f xs ≡ keep g xs
keep-same f g [] e = refl
keep-same f g (x ∷ xs) e = rw (e x, keep-same f g xs e) refl

-- An update of a server whose address has a port takes out the entries with its address, and those with its
-- MAC address if it has one, letter case aside. It leaves the other entries as they are, and in order, and
-- puts that of the server behind them. Its keys are those that the server brings and then the first of those
-- of the entries with its address; its other fields are those that the server brings.
pub server_update_lem :
    (server : Hash) (db : Db)
    → has_colon (field server (codes "source")) ≡ true
    → (items_of (server_update server db)
        ≡ keep (λ x. not (is_older server x)) (items_of db) ++ stored_server server db ∷ [])
      × (get (stored_server server db) (codes "key" ∷ [])
          ≡ get server (codes "key" ∷ [])
            ++ take 1 (known_keys (codes "source") (field server (codes "source")) (items_of db)))
      × ((m : Text)
          → text_eq (codes "key") m ≡ false
          → get (stored_server server db) (m ∷ []) ≡ get server (m ∷ []))
unfolding server_update server_keys
server_update_lem server db colon =
    let keys = server_keys db (field server (codes "source")) in
    let full = with_old_key server keys in
    (
      (replace_lem db (outdated full) false (full ∷ [])).1
          ∙ ap (λ xs. xs ++ clone full ∷ [])
              (keep-same (λ x. not (outdated full (some x))) (λ x. not (is_older server x))
                (items_of db)
                (λ x. ap not (outdated_lem full x ∙ older-with_old_key server x keys))),
      get-clone full (codes "key")
          ∙ get-with_old_key server keys
          ∙ ap (λ ks. get server (codes "key" ∷ []) ++ take 1 ks)
              (keys_of_lem db (codes "source") (field server (codes "source")) colon),
      λ m e. get-clone full m ∙ get-with_old_key_other server keys m e,
    )
