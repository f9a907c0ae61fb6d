-- ===== src/Lib.antt =====
-- ShardLure is an SSH honeypot's backend: it ingests the logs of a Cowrie sensor, keeps what the
-- attackers did in SQLite, fetches the payloads that they name, and offers vetted results to public
-- services. This library models the parts that decide what leaves the host, the parts that keep
-- concurrent processes apart on one database, and the parts that recognise one operator behind several
-- sessions.
--
-- The parts and their files:
--   Common          shared helpers: Boolean tests on the native numbers, byte strings and the
--                   functions of Go's package strings on them (Common/Text), a result type with do
--                   blocks and `return_if` for an early return (Common/Result), Go's `time.Time`
--                   and its saturating `Sub` (Common/Time), Go's int (Common/Int), slices by index
--                   (Common/Slices), its map of texts (Common/Maps), and the test of
--                   package utf8 (Common/Utf8).
--   Netmatch        internal/netmatch: `IsPublicIP` with its tables (Netmatch/Public) and the set of
--                   admin or trusted addresses, `New`, `Invalid`, `Has`, `HasIP` (Netmatch/Matcher).
--                   Netmatch/Ip holds Go's `net.IP` and `net.IPNet`, Netmatch/Parse the parsers and
--                   printers of package net as an interface.
--   Intel           internal/intel: the gates in front of the public services. Intel/Host is
--                   intelutil/host.go, which two of the gates share; Intel/Abuseipdb, Intel/Bazaar,
--                   Intel/Urlhaus and Intel/Threatfox are the `Vet` functions of the four vet.go,
--                   Threatfox with the label table of malpedia.go; Intel/Url is package net/url as
--                   an interface, Intel/Options the optional window that every gate takes.
--   Store/Lease     internal/store/campaign_lease.go: the lease by which one process at a time runs
--                   the campaign worker, `AcquireCampaignLease`, `ReleaseCampaignLease`,
--                   `RenewCampaignLease`, `campaignLeaseHeldTx`.
--   Store/Refetch   internal/store/refetch.go: the schedule on which a captured URL is fetched
--                   again, `NextRefetch`, `seedRefetchTx`, `ClaimRefetch`, `CompleteRefetch`,
--                   `ReleaseRefetch`, `purgeRefetchSchedule`, over the rows of refetch_schedule and
--                   artifacts.
--   Store/Capture   internal/store/artifacts.go: the queue of URLs to capture, with its budget of
--                   attempts, leases and backoff: `DueArtifactCaptures`, `ClaimArtifactCapture`,
--                   `CompleteArtifactCapture`.
--   Store/Files     internal/store/capture_files.go: the queue of the files that Cowrie kept. Events
--                   become jobs (Store/Files/Names, Rows, Discover: `queueFileCaptureRows`,
--                   `DiscoverFileCaptures`, `BackfillUploadCaptures`), workers claim them
--                   (Store/Files/Claim: `ClaimFileCaptures`) and complete them with the artifact that
--                   they archived (Store/Files/Verdicts, Artifacts, Complete: `CompleteFileCapture`).
--   Script          internal/script: how a session's script is one text (Script/Encoding) and falls into
--                   simple commands (Script/Commands), and how many actors may share a value that
--                   links (Script/Linking), of normalize.go; distance.go, how far apart two scripts are
--                   and which family a script belongs to (Script/Distance); and the
--                   canonical form of the SSH public keys of sshkey.go, by which they are
--                   fingerprinted (Script/Key).
--   Observability   internal/observability/state.go: the monitor of the process, its phases, workers
--                   and counters, and when it reports that the process is ready.
--   Campaign        internal/campaign/group.go: the aliases by which an operator's merges join
--                   campaigns, `MergeAliases` and `Resolve` (Campaign/Aliases), the union-find of
--                   sessions that share a value, `sessionUnion` (Campaign/Sessions), and the
--                   choice of a lineage by the actors of a value, `actorMajority`
--                   (Campaign/Majority).
--   Actor           internal/actor/playbook.go: the playbook that an attacker's user names, rate and
--                   banner suggest, which the AbuseIPDB gate reads.
--   Capture         internal/capture: hostgate.go, by which the workers fetch from a host one at a
--                   time, and space_gate.go, which pauses writes on a full disk.
--   Web             internal/web/swr_cache.go: the cache that serves an expired value while one
--                   refresh runs in the background.
--   Tests           the properties at concrete inputs.
--
-- How the parts interact. A gate reads a candidate and never changes a state; the AbuseIPDB gate
-- asks the set of admin addresses, the URLhaus and ThreatFox gates ask the host rules, and these
-- three ask `IsPublicIP`. A session's script and the fingerprints of its keys are values by which
-- the campaign grouping joins sessions. The operations of the store are transactions; each is a
-- function from the rows to an answer and the rows, SQLite runs them one at a time, and an
-- interleaving of processes is a list of them. The workers of the file queue and its discovery are
-- two kinds of steps, each with its own theorems: discovery only adds jobs, and the workers keep the
-- events of the jobs. The monitor, the gates of the capture workers and the cache hold a mutex for
-- each call, or for each half of a refresh, so they are modelled the same way.
--
-- Conventions. A text is the list of its bytes; `strings.ToLower` and `strings.TrimSpace` act on
-- ASCII and leave other bytes as they are. A time is a number of nanoseconds since Go's zero time,
-- so `IsZero` is a test for 0; `Sub` saturates where Go's does. Sizes, depths, scores and counts,
-- which the program never makes negative, are natural numbers. Reasons are constructors in place of
-- messages. A text column that holds a time is the time; SQLite's julianday is taken to compare
-- times. A failing database aborts a transaction and changes nothing, and is not modelled.
--
-- Fuel. The loop of `purgeRefetchSchedule` runs on fuel; one round for each row and one more are
-- enough when others add fewer than 5000 rows between two transactions. What SQLite's order and other
-- writers make of the table there is an argument of the loop. The loop that counts the high zero bits of an RSA modulus has eight rounds, and a byte
-- other than 0, which the modulus starts with, needs seven. `Resolve` has the bound that the source
-- gives it, and `find` of the union-find has as many rounds as there are sessions, and no path is
-- longer. The theorem that discovery catches up counts its rounds: as many as the greatest event ID
-- are enough. Everything else is structural recursion.
--
-- Not modelled: the retention of finished file jobs and their artifacts, the syntax of the ledger's
-- timestamps, which is a parameter, HTTP clients and handlers, the rest of the capture runner, the
-- rest of the campaign grouping, the normalisation of a script's lines, which rests on regular
-- expressions, the ingestion of logs, backups and the file helpers. The SSH keys of a command are
-- found by a regular expression, base64 and SHA-256 around the part that is modelled; a point's
-- curve is a parameter.
pub mod Common
pub mod Netmatch
pub mod Intel
pub mod Script
pub mod Store
pub mod Observability
pub mod Campaign
pub mod Actor
pub mod Capture
pub mod Web
mod Tests
