-- ===== src/Lib.antt =====
-- ipld-eth-beacon-indexer: a service that copies beacon blocks and states from a beacon node into
-- PostgreSQL. At head it follows the event stream of the node; for the past it takes ranges of slots
-- from the tables eth_beacon.historic_process and eth_beacon.known_gaps. What it could not process
-- becomes an entry of eth_beacon.known_gaps.
--
-- The program's parts and the files that model them:
--
-- Word.antt, Slot.antt: uint64 and int arithmetic that wraps; ParseSlot, Slot.Format, Plus, PlusInt
-- (pkg/beaconclient/consensus.go) and calculateEpoch (databasewrite.go). Consensus.antt with
-- Consensus/Block.antt and Consensus/State.antt: the objects of the three forks, their decoding,
-- encoding and accessors (pkg/beaconclient/consensus.go). Server.antt: querySsz
-- (pkg/beaconclient/queryserver.go). Models.antt, Metrics.antt: the rows of
-- pkg/beaconclient/models.go and the counters of metrics.go. Sql.antt: the statements with their
-- arguments and the interface of the driver (pkg/database/sql/interfaces.go); Sql/Tables.antt: what
-- each statement does to tables; Sql/Laws.antt: what is relied on of PostgreSQL; Sql/Memory.antt: a
-- server that has these laws. Action.antt: calls that change the world (server and counters) and
-- return, exit by log.Fatal or panic; its children have the rules for sequences of calls.
-- Writer/Slot.antt: DatabaseWriter and the writes of one slot (pkg/beaconclient/databasewrite.go,
-- multihash.go); Writer/Slot/Present.antt: IsSlotInDb. Writer/Reorgs.antt: transactReorgs and
-- writeReorgs. Writer/KnownGaps.antt: transactKnownGaps, writeKnownGaps, writeStartUpGaps,
-- updateKnownGapErrors. Writer/Kept.antt and the children of these files hold their proofs;
-- Writer/Transact.antt: what the two functions that open a transaction share. ProcessSlot.antt with
-- Hashes, Store and Full under ProcessSlot/: processFullSlot with the retrieval from the node, the
-- check of the database, the models, the comparison with the previous slot, and its wrappers
-- processHeadSlot and handleHistoricSlot (pkg/beaconclient/processslot.go). Head.antt: handleHead
-- and handleReorg (pkg/beaconclient/processevents.go), by message; Head/Sequence.antt: the loop over
-- several messages; Head/Schedule.antt: the messages and the calls that they start, in any order.
-- Events.antt: the event streams that bring the messages (incomingsse.go, capturehead.go), as a step
-- relation. Batch.antt: the rounds of the batch process (pkg/beaconclient/capturehistoric.go,
-- processhistoric.go, processknowngaps.go); Batch/Entries.antt: the loop that takes the entries of
-- the database and collects at most five errors; Batch/Range.antt: the slots of a range, each with
-- the goroutine of its errors; Batch/Pipeline.antt: the goroutines of a range and their channels, as
-- a step relation. Text.antt: strings.ToLower and strconv.Atoi. Status.antt: the state of the node
-- (pkg/beaconclient/checkbeaconserverstatus.go, healthcheck.go). Postgres.antt: the connection to
-- the database (pkg/database/sql/postgres). Client.antt: the construction of the client and the
-- registration of its counters (beaconclient.go, metrics.go). Boot.antt: the start with its retries
-- (internal/boot/boot.go). Config.antt: the flags and their binding to the keys of the configuration
-- (cmd/capture.go, cmd/root.go). Commands.antt: the commands (cmd/head.go, cmd/historic.go,
-- cmd/full.go, cmd/boot.go). Shutdown.antt: what stops the services, in stages of which the timeout
-- may leave some undone (internal/shutdown/shutdown.go); Shutdown/Graceful.antt: the signal, the
-- timer and the goroutines around it (pkg/gracefulshutdown/gracefulshutdown.go), as a step relation.
-- Tests.antt: runs and instances on concrete inputs.
--
-- A head message (Head) starts ProcessSlot, which reads by Server and Consensus and writes by
-- Writer/Slot; before it commits it compares the slot with the previous one and calls Writer/Reorgs
-- or Writer/KnownGaps in the same transaction. Batch takes a range, sends its slots to ProcessSlot
-- and gives what failed to Writer/KnownGaps. Commands reads Config and calls Boot, which makes the
-- Client on a database that Postgres connects, after the checks of Status; Shutdown gives back the
-- rows that Batch has checked out.
--
-- Parameters: the server (Driver, with the laws IsPostgres, PicksOpen, IsAvailable and
-- AbortsFailed), the zrnt library (Zrnt, with the law RoundTrips), the multihash and key libraries
-- (Ipfs), the node with the HTTP client (Node), the json decoder (Json), the pgx library (Pgx,
-- Pool), the prometheus registry (Prometheus, with the law IsRegistry), the command line
-- (CommandLine) and viper (Viper, with the law IsViper). The laws treat the session of the program
-- alone: no other session changes the tables between the begin and the end of a transaction.
--
-- Bounds and fuel: printing a slot has fuel 20, the digits of a uint64. The rounds of
-- transactKnownGaps are the value of its int counter. The distributor has two rounds more than the
-- width of the range, one for each slot and one for the last test; it runs out of fuel only where
-- the code does not end, at the greatest uint64. The boot with no bound on its retries has as fuel
-- the number of attempts; one more than the number of the attempt that succeeds is enough. The
-- reference for transactKnownGaps has as fuel the width of the range, which is enough, since every
-- entry takes one slot at least.
--
-- Not modelled: logging, the performance metrics, the configuration file and the set-up of the log
-- (cmd/root.go), the server of the metrics, the cancelling of contexts, the statistics of the pool,
-- and the parts of the driver that the program does not use. Goroutines are given as rounds of their
-- loops or as turns, and the interleaving of the two retrievals of a slot by a Schedule. The step
-- relations leave the result of a call open and give no order to the calls of different goroutines.
pub mod Base
pub mod Word
pub mod Slot
pub mod Models
pub mod Metrics
pub mod Action
pub mod Sql
pub mod Writer
pub mod Tests
pub mod Consensus
pub mod Server
pub mod Text
pub mod Status
pub mod Postgres
pub mod Client
pub mod Boot
pub mod Shutdown
pub mod ProcessSlot
pub mod Batch
pub mod Head
pub mod Events
pub mod Config
pub mod Commands
