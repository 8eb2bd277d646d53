-- ===== src/Jobs/Message.antt =====
-- `JobUpdateXMLMessage` of go-susi/db/jobdb.go and the base64 text that it stores, and the messages that
-- the job database sends.
use limux_gosa.Base.{ℕ, ◌+◌, ◌-◌, ◌*◌, ◌/◌, ◌%◌, ltb, ◌==◌, [], ◌∷◌, ◌++◌, if◌then◌else◌}
use limux_gosa.Base.Text.{Text, codes, text_eq, decimal}
use limux_gosa.Xml.Hash.{Hash, new_hash, add, rename, field, set_field}

-- The digit of a value below 64 in the alphabet of `base64.StdEncoding`.
base64_digit : ℕ → ℕ
base64_digit n =
    if ltb n 26
    then n + 65
    else if ltb n 52
    then n + 71
    else if ltb n 62
    then n - 4
    else if n == 62
    then 43
    else 47

-- `base64.StdEncoding.EncodeToString`, three bytes at a time, with the padding at the end.
unfoldable pub base64 : Text → Text
unfolding base64_digit
base64 [] = []
base64 (a ∷ []) = base64_digit (a / 4) ∷ base64_digit (a % 4 * 16) ∷ b'=' ∷ b'=' ∷ []
base64 (a ∷ b ∷ []) =
    base64_digit (a / 4)
    ∷ base64_digit (a % 4 * 16 + b / 16)
    ∷ base64_digit (b % 16 * 4)
    ∷ b'='
    ∷ []
base64 (a ∷ b ∷ c ∷ s) =
    base64_digit (a / 4)
    ∷ base64_digit (a % 4 * 16 + b / 16)
    ∷ base64_digit (b % 16 * 4 + c / 64)
    ∷ base64_digit (c % 64)
    ∷ base64 s

-- The message of a job.
unfoldable pub xml_message : Hash → Text
xml_message job =
    let peri =
      if text_eq (field job (codes "periodic")) []
      then codes "none"
      else field job (codes "periodic") in
    codes "<xml><source>GOSA</source><header>job_"
    ++ field job (codes "headertag")
    ++ codes "</header><target>"
    ++ field job (codes "targettag")
    ++ codes "</target><macaddress>"
    ++ field job (codes "macaddress")
    ++ codes "</macaddress><timestamp>"
    ++ field job (codes "timestamp")
    ++ codes "</timestamp><periodic>"
    ++ peri
    ++ codes "</periodic></xml>"

-- `JobUpdateXMLMessage`
unfoldable pub update_message : Hash → Hash
unfolding base64 xml_message
update_message job = set_field job (codes "xmlmessage") (base64 (xml_message job))

-- `job.Rename("answer"+strconv.FormatUint(count, 10))`
unfoldable pub rename_answer : ℕ → Hash → Hash
unfolding decimal
rename_answer count job = rename job (codes "answer" ++ decimal count)

-- `xml.NewHash("xml","header","foreign_job_updates")`
unfoldable pub new_updates : Hash
unfolding new_hash
new_updates = add (new_hash (codes "xml") []) (codes "header") (codes "foreign_job_updates" ∷ [])

-- The source, the target and the kind of synchronisation of a message; an empty target is all peers.
unfoldable pub address_updates : Text → Text → Hash → Hash
unfolding add
address_updates server target fju =
    add
      (add (add fju (codes "source") (server ∷ [])) (codes "target")
        (if text_eq target [] then [] else target ∷ []))
      (codes "sync") (codes "ordered" ∷ [])
