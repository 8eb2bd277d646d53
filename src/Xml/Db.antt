-- ===== src/Xml/Db.antt =====
-- go-susi/xml/xml_db.go: the database over a fragment. The mutex makes each operation one step; what it
-- guards is the record `Db`. `Storer.Store` is not in this file: `Persist` is given its outcome.
pub mod Laws
pub mod Persistence
use limux_gosa.Base.{
  ℕ, zero, suc, ◌+◌, Bool, true, false, not, ◌||◌, Option, none, some, List, [], ◌∷◌, ◌++◌,
  if◌then◌else◌,
}
use limux_gosa.Base.Text.{Text}
use limux_gosa.Xml.Hash.{Hash, items, children, get, new_hash, add_clone}
use limux_gosa.Xml.Filter.{Filter}
use limux_gosa.Xml.Select.{stateless}
use limux_gosa.Xml.Select

pub record Db : Type 0 where
  -- the field `data`
  pub hash : Hash
  -- `persist != nil`
  pub has_storer : Bool
  pub block_persist_jobs : Bool
  -- goroutines that `persistJob` has started, and that have not called `Persist` yet
  pub jobs : ℕ
  -- what the storer holds, and whether its last call returned an error
  pub stored : Option Hash
  pub store_failed : Bool
  -- the mutex after `Shutdown`, which does not unlock it
  pub is_shut_down : Bool

-- `NewDB`
unfoldable pub new_db : Text → Bool → Option Hash → Db
unfolding new_hash
new_db n has_storer on_disk = record {
  hash = new_hash n [];
  has_storer = has_storer;
  block_persist_jobs = not has_storer;
  jobs = 0;
  stored = on_disk;
  store_failed = false;
  is_shut_down = false;
}

-- `Init`
abbrev pub init : Db → Hash → Db
init db h = record db { hash = h }

-- `persistJob`
unfoldable pub persist_job : Db → Db
persist_job db =
    if not db.block_persist_jobs
    then record db { block_persist_jobs = true; jobs = db.jobs + 1 }
    else db

-- `persistWithLock`; the flag says that `Store` returned no error.
unfoldable pub persist_with_lock : Bool → Db → Db
persist_with_lock stores db =
    if stores
    then record db { stored = some db.hash; store_failed = false }
    else record db { store_failed = true }

-- `Persist`
unfoldable pub persist : Bool → Db → Db
unfolding persist_with_lock
persist stores db =
    if not db.has_storer
    then db
    else persist_with_lock stores (record db { block_persist_jobs = false })

-- `Shutdown`
unfoldable pub shutdown : Bool → Db → Db
unfolding persist_with_lock
shutdown stores db = record (persist_with_lock stores db) { is_shut_down = true }

-- The loop that adds clones of the items.
unfoldable pub add_clones : Hash → List Hash → Hash
add_clones h [] = h
add_clones h (x ∷ xs) = add_clones (add_clone h x) xs

-- `AddClone`
unfoldable pub add_items : Db → List Hash → Db
unfolding persist_job add_clones
add_items db xs = persist_job (record db { hash = add_clones db.hash xs })

-- `Query`
unfoldable pub query : Db → Filter → Hash
query db f = (Select.query (stateless f) tt db.hash).0

column_values_of : List Hash → Text → List Text
column_values_of [] column = []
column_values_of (x ∷ xs) column = get x (column ∷ []) ++ column_values_of xs column

-- `ColumnValues`
unfoldable pub column_values : Db → Text → List Text
unfolding column_values_of
column_values db column = column_values_of (children (items db.hash)) column

-- `Remove`
unfoldable pub remove : Db → Filter → Hash × Db
unfolding persist_job
remove db f =
    let (removed, rest, _) = Select.remove (stateless f) tt db.hash in
    (removed, persist_job (record db { hash = rest }))

-- `result.FirstChild() != nil`
abbrev pub has_child : Hash → Bool
has_child h = elim (children (items h)) [ [] ↦ false | _ ↦ true ]

-- `Replace`
unfoldable pub replace : Db → Filter → Bool → List Hash → Hash × Db
unfolding persist_job add_clones
replace db f must_match xs =
    let (removed, rest, _) = Select.remove (stateless f) tt db.hash in
    (
      removed,
      persist_job (record db {
        hash = if not must_match || has_child removed then add_clones rest xs else rest;
      }),
    )
