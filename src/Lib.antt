-- ===== src/Lib.antt =====
-- go-susi, the server and client of GOsa: its XML fragments and database, its TFTP server and client, its
-- limits on connections, access rights and encryption, its databases of jobs, servers and clients, its
-- search of audit files, its actions for jobs, its dispatch of messages, and the registration of a client.
--
-- Base passes on the names that all modules share; Base/Text has Go strings as lists of bytes, Base/Int the
-- int64 values, Base/Lists and Base/Tests lists and Boolean tests over the native numbers.
--
-- Xml is the package go-susi/xml. Xml/Hash models xml_hash.go: a Hash is a name and the sequence of tokens
-- up to its end tag, with an operation for each method: NewHash is `new_hash`, SetText `set_text`, Add
-- `add`, First `first`, Next `next`, Get `get`, Text `content` and `text_of`, Subtags `subtags`, FirstOrAdd
-- `at_first_or_add`, RemoveFirst `remove_first`, Clone `clone`. A change through a pointer into a fragment
-- is a change of the child in its place. Xml/Select has Query and Remove over filters that may carry state,
-- and LimitFilter of go-susi/security/util.go. Xml/Filter models xml_filter.go: a filter is its method
-- Accepts, and WhereFilter is `where_filter`. Xml/Db models xml_db.go: the fields that the mutex guards are
-- a record, each method is one step, and the goroutines of persistJob are a counter of pending jobs; what
-- Store does is a step's choice. Xml/Serial has WriteTo as `write_to`, and StringToHash as `string_to_hash`
-- over the tokens that encoding/xml delivers.
--
-- Tftp is go-susi/tftp/server.go and get.go. Tftp/Request has the checks and the options of
-- handleConnection, Tftp/Ack sendAndWaitForAck, Tftp/Transfer the loop that sends the blocks. Tftp/Get is
-- go-susi/tftp/get.go. The network and the clock are an argument: for each call, what is read after each
-- send. The fuel of the block loop is one more than the length of the file, since every round but the last
-- takes at least one byte; the loops of sendAndWaitForAck recur on what the network delivers.
--
-- Security/Limits is go-susi/security/connectionlimits.go: the table of limits with its three functions,
-- over times in nanoseconds; the parser of addresses is a parameter.
--
-- Security/Context is go-susi/security/context.go: the types with the access bits, SetLegacyDefaults as
-- `set_legacy_defaults`, SetTLSDefaults as `set_tls_defaults`, and Verify as `verify`. The look-ups of
-- names and the parser of addresses are parameters; a panic on an empty address is `none`.
--
-- Security/Crypt is go-susi/security/gosacrypt.go: GosaEncrypt is `gosa_encrypt`, GosaDecrypt
-- `gosa_decrypt`, GosaEncryptBuffer `gosa_encrypt_buffer` and GosaDecryptBuffer `gosa_decrypt_buffer`, over
-- a record `Crypto` of the functions that other packages give; what they document is stated as laws.
--
-- Message/ForeignUpdates is go-susi/message/foreign_job_updates.go, over the requests of Jobs, and
-- Message/JobQueries the handlers of gosa_delete_jobdb_entry.go and gosa_update_status_jobdb_entry.go.
-- Message/Triggers has the handlers of job_trigger_action.go, gosa_trigger_action.go and
-- job_send_user_msg.go. Message/Registration is RegistrationHandler of registered.go: a round is `handle`,
-- and the steps are rounds, messages that come in and goroutines that wake up. Message/Dispatch is
-- ProcessXMLMessage of go-susi/message/process_msg.go up to the call of a handler: a Go switch is a list of
-- cases, each with its labels, its condition on the access bits and its handler.
--
-- Jobs is go-susi/db/jobdb.go. Its functions put requests into a channel, which one goroutine carries out:
-- `JobDb` has the channel, the database, and what goes to ForeignJobUpdates, PendingActions and the other
-- parts. JobAddLocal is `job_add_local` and `run_add`, for what it does at once and for the request;
-- JobsRemoveLocal, JobsModifyLocal, JobsRemoveForeign and JobsAddOrModifyForeign are split in the same way,
-- as is JobsSyncAll; the request of JobsUpdateNameForMAC is `run_update_name`. Jobs/Message has
-- JobUpdateXMLMessage and the parts of a message. Jobs/Start has JobsInit and JobsShutdown; Jobs/Clock and
-- Jobs/Groom have the ticker and what it grooms, Jobs/Forward the request of JobsForwardModifyRequest. What
-- the database's file holds at the start, as `FileToHash` returns it, is an argument. The job that the
-- caller passes is not changed by others while its request waits, and the channels are taken to have room.
--
-- Servers is go-susi/db/serverdb.go, over a database of package xml; the expression that finds the ports of
-- a machine is `is_port_of`, and the names of servers come resolved. Clients is go-susi/db/clientdb.go,
-- with the goroutines that ClientUpdate starts as the list of their addresses.
--
-- Audit is go-susi/db/audit.go: AuditScanSubdirs is `audit_scan_subdirs`, auditScanDir `audit_scan_dir` and
-- findFirstEntry `find_first_entry`. Audit/PropTree has makePropTree as `make_prop_tree` and IndexOf as
-- `index_of`, Audit/File auditScanFile as `audit_scan_file`. A directory is the list of its names, and a
-- file the bytes that it holds; an index past its end is the panic from which the code recovers. The fuel
-- of the loops is one more than the number of bytes, since each round takes at least one.
--
-- Action is go-susi/action/process_act.go: Init is `handle_pending`, for one job from PendingActions, and
-- Forward is `forward` and `forwarded`. What the actions in the other files of the package do is an event
-- with the job. Action/Periodic has the loop over the instances of a periodic job, as `next_time`: each
-- round reads the clock, and the fuel is the number of rounds; a round for each nanosecond by which the
-- clock may be ahead is enough for a period that does not overflow. Package time is a parameter.
--
-- The modules named Tests run the definitions and hold the theorems at concrete inputs.
--
-- Not modelled: logging; files, sockets and external programs; text that is not ASCII, for which ToLower
-- and the regular expressions have rules of their own; the layout of the token list in memory; the system
-- and FAI databases, the other message handlers and their replies, the certificate parsers,
-- what the actions do, and the reading of the configuration.
pub mod Base
pub mod Xml
pub mod Tftp
pub mod Jobs
pub mod Security
pub mod Message
pub mod Servers
pub mod Clients
pub mod Audit
pub mod Action
