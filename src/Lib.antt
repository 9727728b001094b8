-- ===== src/Lib.antt =====
-- A model of genro-mail-proxy, a queue and dispatcher for outgoing mail, with the theorems that make
-- its core correct.
--
-- Clients of several tenants put messages into a database. A dispatcher selects the messages that are
-- ready, in the order of priority, caps them for each account, builds each email, asks the rate
-- limiter, sends over SMTP, and records what happened as events, which change the message and are
-- later reported to the client. Messages that were reported are removed after a while.
--
-- Which file models what:
--   Prelude and its children: Booleans, lists over the native numbers, Python's dict (Dict), JSON
--     values (Json), integers (Int), texts as code points (Text).
--   Smtp/RateLimiter: src/core/mail_proxy/smtp/rate_limiter.py. The state is the history of sends and
--     the reserved slots of each account id; each method is a function on it. Fields, Window and Limits
--     hold the lemmas, Trace the sequences of calls, Deferral the answers.
--   Smtp/Retry: src/core/mail_proxy/smtp/retry.py. Schedule is on the delays, Classes on the errors.
--   Smtp/Email and Smtp/Sender: src/core/mail_proxy/smtp/sender.py. Email is `_build_email`;
--     Sender/Attempt is `_dispatch_message` with `_send_with_limits`, as functions on a World of the
--     database, the limiter, the result queue and the counters; Sender/Cycle is `_process_cycle` with
--     `_dispatch_batch`, and Sender/Tasks its tasks in any order. An exception of the email that is neither
--     a KeyError nor a ValueError ends an attempt with nothing recorded. Progress, Slots, SecondAttempt,
--     Cycle/Groups and the modules below Tasks hold theorems.
--   Queue: the tables of src/core/mail_proxy/entities over src/sql/table.py. Messages is the upsert and
--     the updates of message/table.py, Fetch its query for ready messages, Cleanup its retention, Events
--     is message_event/table.py, Suspension the batches of tenant/table.py, Deletion `delete_batch` and
--     `cleanup` of message/endpoint.py. Rows, Upsert, Batch, Deletion/Isolation, Deletion/Judgement,
--     Deletion/Answers, Fetch/Ready, Fetch/Selection, Cleanup/Retention and Suspension/Effect hold lemmas
--     and theorems.
--   Proxy: src/core/mail_proxy/proxy.py. Priority is `_normalise_priority`, Enqueue is
--     `_handle_add_messages` with `_validate_enqueue_payload`, Commands the commands that delete,
--     SyncStatus the status of the reports; Priority/Range, Enqueue/DefaultPriority,
--     Enqueue/Processed, Enqueue/Resubmission, Commands/Refusal and SyncStatus/Agreement hold theorems.
--   Cache: src/core/mail_proxy/smtp/cache.py. Memory is `MemoryCache`, Disk `DiskCache`, Tiered
--     `TieredCache`. Memory/Counted, Room, Valid, Recent, Evictions and Reads hold lemmas and theorems, as do
--     Disk/Space, Disk/Bounded and Tiered/Reads. The loop of `MemoryCache` that evicts runs on fuel,
--     as much as there are entries.
--   Smtp/Pool: src/core/mail_proxy/smtp/pool.py. Each part under the lock is a function on the pool;
--     Pool/Bounds has the interleaved steps of the tasks, Fresh and Cleanup what is handed out and kept.
--     The rounds of `acquire` run on fuel, one more than there are idle connections: that is enough for an
--     answer, since each round that gives none drops one. The clock and the servers may change between
--     rounds.
--   Reporter: src/core/mail_proxy/reporting/client_reporter.py. Payloads is `_events_to_payloads`,
--     Sending the two methods that make requests, Cycle `_process_cycle`; Acknowledged and Marking hold
--     lemmas and theorems.
--   Enterprise: src/enterprise/mail_proxy. Pec is `_detect_receipt_type` of pec/parser.py, Receipts
--     `_handle_receipt` and `_check_pec_timeouts` of pec/receiver.py with the queries of
--     entities/message/table_ee.py, Bounce `_extract_dsn_info` and Bounce/Report `_parse_dsn` of
--     bounce/parser.py, Receiver `_process_bounces` of bounce/receiver.py and `fetch_since_uid` of
--     imap/client.py. Pec/Subjects, Receipts/Timeouts, Receipts/Settled, Bounce/Types,
--     Bounce/Parts and Receiver/Polls hold theorems.
--   Smtp/Attachments: src/core/mail_proxy/smtp/attachments.py. Filename is `parse_filename`, Fetchers
--     the classes that fetch; Routes and Cached hold theorems.
--   Tools/Encryption: src/tools/encryption.py, the encryption of single values and where the global key
--     comes from; Opens and Keys hold theorems.
--   Sql: src/sql/table.py. Fields is the encoding of JSON and encrypted columns, Adapter what is asked of
--     a database, Table the operations of `Table` and `RecordUpdater`, Table/Many `update_batch`;
--     Fields/Each, Fields/RoundTrip, Table/Encoding and Table/Stored hold lemmas, Table/Upserted,
--     Table/Unreadable and Table/Batch theorems.
--   Accounts: src/core/mail_proxy/entities/account/table.py, add, get and remove over Sql; Fields and Added
--     hold lemmas and theorems.
--   Storage: src/storage/manager.py and src/storage/node.py, mount points, paths and signed URLs; Names and
--     Urls hold theorems.
--   Tests: each theorem that has conditions at a small input.
--
-- How the parts meet. Proxy and the sender write messages and events into the database of Queue; the
-- reporter reads the events that wait, calls the clients, and marks what was answered; the receivers of
-- Enterprise add events and change rows. The sender owns the limiter; the cache and the pool serve the
-- sender, and are modelled by themselves. Sql is the layer below the tables, over rows of any columns:
-- Accounts adds and reads accounts through it; the tables of Queue are modelled one level above, as
-- records of their columns.
--
-- Conventions. Times are natural numbers of seconds (microseconds where Storage checks a token), and the
-- wall clock is an argument. A failed lookup is none. What comes from outside is a parameter: what the
-- connection answers, the text that Python makes of a value, the headers and bodies that the email package
-- refuses with an exception, the attachments of an email, the keys of new rows, the replies of the clients,
-- which connections are alive, the mailboxes, the files. A function that walks a list recurses on it, so
-- that only the two loops named above use fuel. The tasks of a batch, which the source runs in one event
-- loop with semaphores, run one after the other in Sender/Cycle, and in any order in Sender/Tasks, where a
-- task gives way to others when it waits for the server; the tasks that use the pool are interleaved, too.
-- Log lines, timestamps inside published dicts, the names among the labels of metrics and the column
-- `updated_at` are left out.
-- Numbers in JSON values are integers; `lower`, `strip`, `int` of a text, `LIKE` and the patterns of
-- the parsers are modelled on ASCII.
--
-- Not modelled: the other commands of the proxy and the HTTP, command line and form interfaces, which
-- call the tables; the background loops; the wait for a connection when the pool is full; directories
-- and file errors of the disk cache; the files, the
-- configuration file and the cloud backends of the storage nodes; the text of the SQL statements, the database
-- drivers and migrations; of the enterprise modules the reading of emails and their parts, the
-- heuristics on bounces without a delivery status, and the connections over IMAP.
pub mod Prelude
pub mod Queue
pub mod Smtp
pub mod Cache
pub mod Proxy
pub mod Reporter
pub mod Enterprise
pub mod Storage
pub mod Tools
pub mod Sql
pub mod Accounts
pub mod Tests
