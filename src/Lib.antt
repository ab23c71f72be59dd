-- ===== src/Lib.antt =====
-- The repair path of renterd (sia-build-env/src/renterd-2.9.3-modified/): which slabs to repair
-- first, where the repaired shards go, the memory that the transfers take, and parts of the
-- daemon beside it. Paths below are from that directory.
--
-- The parts, from the one that is used to the one that uses it:
--
-- * Memory (internal/memory/memory.go). The manager is a record of its totals and of the goroutines
--   that sleep in `sync.Cond.Wait` or were woken. A call is the critical sections it is made of:
--   `acquire_memory` up to the first wait, `resume` for each return from `Wait`, `release` and
--   `release_some`; `step` and `run` put them in any order, next to the `remaining` of every value
--   that is alive. Memory/Limit is the limited manager in front of its parent: its `AcquireMemory`
--   is `limit_acquire` up to the first wait, and `limit_resume_child` or `limit_resume_parent` for
--   each return from a wait of either half. Additions and subtractions wrap at 2 ^ 64, as in Go; a
--   panic is `none`.
-- * Risk/Policy (api/slab_risk.go): the policy, its default and `Validate`.
-- * Risk/Loss (stores/slab_risk.go): structural health and the Poisson-binomial loss tail, with the
--   table of the source updated in place.
-- * Risk/Estimate (stores/repair_policy.go): the failure probability of a host, the mixture over
--   scenarios and the explanatory cutoff, over the rows of stores/sql/slab_risk.go.
-- * Risk/Matching and Risk/Placement (`independentPlacement`): at most one host for each shard, by
--   augmenting paths.
-- * Risk/Evaluate (`evaluateSlabRisk`): every check of it in order, with the placement, the
--   estimators and the loss tail that it calls.
-- * Risk/Queue (`repairPriorityLess`, `SlabsForMigrationWithRisk`): the scan over the pages, the
--   bounded selection, the expiry behind it and the state that is stored.
-- * Migrator/Plan (autopilot/migrator/worker.go, `migrate` up to the transfers): the hosts that are
--   avoided, the shards that move, and their destinations.
-- * Locker (internal/bus/contractlocker.go): the locks of contracts with their queues and timers.
-- * Sectors (internal/bus/sectorscache.go): the sectors of uploads that are not finished.
-- * Alerts (alerts/alerts.go): the manager of alerts and its pages.
-- * Gouging (internal/gouging/gouging.go): the checks of a host's prices.
-- * Slab (object/slab.go): `stripedSplit` and `stripedJoin` over the shards, the region of a slice in
--   words of 32 bits, and `Encode` and `Recover` around the erasure code, a parameter. Cells, Split
--   and Join read the shards as rows of leaves.
-- * Accounts (internal/accounts/accounts.go): the calls on one account, as functions of what the
--   function that is passed gives; Accounts/Manager has the map of accounts, the refills in progress
--   and `refillAccount`, with the syncer, the funder and the limiter as parameters.
-- * Upload (internal/upload/uploadmanager.go): the upload of the shards of a slab: candidates, sectors
--   and counters in Upload, and the loop of `uploadShards` in Upload/Shards, as turns over responses
--   and the timer. The list `sent` is what uploaders were given and have not answered.
-- * Download (internal/download/downloadmanager.go): `slabsForDownload`, and in Download/Slab the
--   download of the sectors of a slab, as steps in any order.
-- * Spending (internal/contracts/spending.go): the recorder of contract spending and its buffer.
--
-- Prelude has the shared lists, maps, words, integers and sorting; Floats is the interface to
-- `float64` and package math, a parameter of everything that computes with probabilities. No law of
-- rounding is assumed. The theorems on the order of slabs take the laws of IEEE 754 comparisons as a
-- hypothesis, `IsOrdered`. Tests runs the theorems on decimals with eight places.
--
-- Durations are integers in nanoseconds, and a time is nanoseconds since the zero time. Public keys
-- and encryption keys are numbers, in the order of their strings. A Go map is a list of its keys, in
-- the order in which the loop at hand happens to read it. Sorting is by insertion; the source uses
-- `sort.Slice`, which is not stable, so only orders that the comparison fixes are meant.
--
-- Bounds and fuel: a search for an augmenting path takes one more than the number of shards as
-- fuel, since each call below another has marked one more shard. The loops of `stripedSplit` and
-- `stripedJoin` take a bound on their rounds as fuel: the bytes of the buffer, and the bytes up to the
-- end of the slice, since a round reads at least one byte. All other loops are structural.
--
-- The database is the list of outcomes of its transactions. The legacy query, the JSON and the hash
-- of the policy are parameters. What the last transaction of a selection returns, and what the
-- transfers of a migration do, is left out. The HTTP interfaces, the SQL statements, the contractor,
-- the goroutines of uploaders and downloaders, and the rest of the daemon are not modelled.
mod Prelude
mod Floats
pub mod Memory
pub mod Risk
pub mod Migrator
pub mod Locker
pub mod Sectors
pub mod Alerts
pub mod Gouging
pub mod Slab
pub mod Accounts
pub mod Upload
pub mod Spending
pub mod Download
mod Tests
