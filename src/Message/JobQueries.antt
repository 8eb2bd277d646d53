-- ===== src/Message/JobQueries.antt =====
-- The handlers of go-susi/message/gosa_delete_jobdb_entry.go and gosa_update_status_jobdb_entry.go, and the
-- error reply of process_msg.go.
use limux_gosa.Base.{none, some, [], ◌∷◌}
use limux_gosa.Base.Text.{Text, codes}
use limux_gosa.Xml.Hash.{Hash, new_hash, add, first, field}
use limux_gosa.Xml.Filter.{Filter, Result, ok, err, WhereError, where_filter}
use limux_gosa.Jobs.{JobDb, jobs_modify, jobs_remove}

-- `ErrorReplyXML` for a text
unfoldable pub error_reply : Text → Text → Hash
error_reply server message =
    add
      (add
        (add
          (add (add (new_hash (codes "xml") []) (codes "header") (codes "answer" ∷ []))
            (codes "error_string") (message ∷ []))
          (codes "source") (server ∷ []))
        (codes "target") (codes "GOSA" ∷ []))
      (codes "answer1") (codes "1" ∷ [])

-- The reply of both handlers.
unfoldable pub done_reply : Text → Hash → Hash
done_reply server xmlmsg =
    add
      (add
        (add
          (add (add (new_hash (codes "xml") []) (codes "header") (codes "answer" ∷ []))
            (codes "source") (server ∷ []))
          (codes "target") (field xmlmsg (codes "source") ∷ []))
        (codes "answer1") (codes "0" ∷ []))
      (codes "session_id") (codes "1" ∷ [])

-- The filter of the message; without a where expression it is that of an empty one.
unfoldable pub message_filter : Hash → Result Filter
message_filter xmlmsg = elim (first xmlmsg (codes "where")) [
  | none ↦ where_filter (new_hash (codes "where") [])
  | some c ↦ where_filter c.here
]

-- The text of an error of `WhereFilter`.
module _ (describe : WhereError → Text) where
  deleted : Result Filter → Hash → JobDb → Hash × JobDb
  deleted (err e) xmlmsg j = (error_reply j.server (describe e), j)
  deleted (ok f) xmlmsg j = (done_reply j.server xmlmsg, jobs_remove f j)

  -- `gosa_delete_jobdb_entry`
  unfoldable pub gosa_delete_jobdb_entry : Hash → JobDb → Hash × JobDb
  unfolding deleted
  gosa_delete_jobdb_entry xmlmsg j = deleted (message_filter xmlmsg) xmlmsg j

  -- `if update := xmlmsg.First("update"); update != nil`
  unfoldable pub modify_by : Filter → Hash → JobDb → JobDb
  modify_by f xmlmsg j = elim (first xmlmsg (codes "update")) [
    | none ↦ j
    | some c ↦ jobs_modify f c.here j
  ]

  updated : Result Filter → Hash → JobDb → Hash × JobDb
  updated (err e) xmlmsg j = (error_reply j.server (describe e), j)
  updated (ok f) xmlmsg j = (done_reply j.server xmlmsg, modify_by f xmlmsg j)

  -- `gosa_update_status_jobdb_entry`
  unfoldable pub gosa_update_status_jobdb_entry : Hash → JobDb → Hash × JobDb
  unfolding updated
  gosa_update_status_jobdb_entry xmlmsg j = updated (message_filter xmlmsg) xmlmsg j
