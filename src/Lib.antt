-- ===== src/Lib.antt =====
-- SmoothNAS is a storage appliance: the daemon tierd plans where the files of a tiered pool live,
-- watches the health of disks and arrays, and changes the network settings under a countdown. This
-- library models parts of the daemon and proves what makes them correct. Paths are from the
-- repository's root.
--
-- Placement: the planner of the mdadm adapter (tierd/internal/tiering/mdadm/placement.go).
-- Capacity has tierTargetCapBytes, tierFullCapBytes and the release of the candidates' own bytes;
-- Admit has admitWithFallback and admitAtFullCap; Assign has assignCandidateRanks; Moves has
-- planMoveOrder, the loop of planPoolPlacement that carries the moves out and the status it reports;
-- SizeBias has sizeBucketRank and idealRank. A tier is found by its rank in an association list. The
-- sort of the standard library is an interface (SortSlice) of which only the permutation is used.
-- Smart: the alarm rules and their evaluation (tierd/internal/smart/alarms.go). The monitor records
-- the events that it gives.
-- Monitor: the health monitor (tierd/internal/monitor/monitor.go): State has the alerts and the
-- dismissals, Cycle the bookkeeping of a cycle, Checks the four checks and poll, Format the printing
-- of numbers.
-- Meta: the store of a record for each file (tierd/internal/tiering/meta): Record the 32 bytes and
-- the keys, Cache the sharded cache of inodes, Shard the queue and the batching writer of a bucket,
-- Pool the PoolMetaStore over the shards of every rank (store.go), and Reconcile the boot-time walk and
-- its sweep (reconcile.go). The hash of an inode is a parameter. The writer runs in rounds that the
-- caller names; each transaction on one record commits.
-- Lun: the move of a live iSCSI LUN between tiers (tierd/internal/api): State has the intent journal
-- and the operator's calls (sharing.go); Executor the steps of the executor and its crash recovery,
-- Waiting its wait for the kernel, Destination the choice of the pool and the tier
-- (iscsi_active_lun_executor.go); Safety every order of calls, steps and restarts, as a relation;
-- StepsLeft, Runs and Stopped how a run ends, and how one that a stop of the daemon cuts short. Each
-- outside effect, each journal entry and each poll is one step, whose outcome is given; enabling the
-- target and saving its configuration (iscsi/iscsi.go) are two. At most one run at a time.
-- Network: the test-and-confirm workflow of network changes (tierd/internal/network/safeapply.go), and
-- the default bond: Texts has the files of systemd-networkd (interface.go, bond.go, policy.go), Nics
-- the NICs it takes (policy.go, interface.go, bond.go) and BondPolicy what writes and removes them
-- (policy.go). What the host answers is an argument.
-- Spindown: the windows in which disks may be active (tierd/internal/spindown/policy.go). What
-- the clock of the zone shows at a moment is a parameter.
-- Plugin: the checks of a plugin's manifest (tierd/internal/plugin/manifest.go): Cycle has
-- dependsCycle, Sizes parseByteSize, Checks the lists of references, volumes, ports and fields.
-- Instances: the instances of plugins and their scaling (tierd/internal/plugin): Rows has the rows and
-- the transactions on them (state.go, scale.go), Paths the directories of volumes (scale.go),
-- Materialise the creation and the start of containers (lifecycle.go, scale.go), Scale the scaling and
-- its rollback (scale.go), Names the names of containers (payload.go). A call that leaves the program
-- succeeds or fails as an argument says.
-- Snapshot: coordinated ZFS snapshots and the movement workers (tierd/internal/tiering/zfsmgd): Quiesce
-- has the controller (quiesce.go), System workers and calls of CreateNamespaceSnapshot (snapshot.go) as
-- processes, whose steps interleave in any order, for any number of either.
-- Tiers: the rules on pools (tierd/internal/tiermeta): Rules has the validation of names and tiers, the
-- tables of state transitions and the sizes of metadata volumes (meta.go, size.go).
-- Prelude: Boolean tests on numbers, lists, maps, machine words and texts. Tests: concrete runs.
--
-- Byte counts, sizes and sensor readings are 64-bit patterns, with addition, subtraction and order of
-- int64 written out (Prelude.Words). The loop of sizeBucketRank runs on fuel 16 and the one of
-- formatInt64 on fuel 20: they divide by 16 and by 10, and 64 bits hold fewer digits than that. The
-- writer's inner loop is bounded by the items that arrive before its deadline, which a round names;
-- the search of NextActive by its own 8 days of minutes. dependsCycle has as much fuel as there are
-- services: each call within a call turns a name gray.
--
-- Not modelled: the file-system walk and the copying of files, SQL, smartctl, mdadm, zpool and
-- networkctl, whose answers are inputs; goroutines and locks: an operation is one call that nothing
-- interrupts, whether the code holds a lock for it or, as for scaling and the default bond, none, but
-- for the LUN moves, whose steps interleave with calls and restarts, and the snapshots; the other HTTP handlers, the rest of the lifecycle of plugins, compose plugins, backups
-- and the web interface. The tiering scheduler
-- and the movement worker of the ZFS adapter (tierd/internal/tiering) read jobs through functions of the
-- store that are stubs, so they plan and move nothing.
pub mod Prelude
pub mod Placement
pub mod Smart
pub mod Monitor
pub mod Lun
pub mod Meta
pub mod Plugin
pub mod Tests
pub mod Network
pub mod Spindown
pub mod Tiers
pub mod Snapshot
pub mod Instances
