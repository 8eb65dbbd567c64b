-- ===== src/Lib.antt =====
-- kube-rsync-machine backs up Kubernetes volumes with rsync into hard-linked restore points.
-- The manager runs the control plane (internal/control): an event hub with a bounded replay for
-- each run, and a service that logs commands for the target of a run and takes its reports. The
-- data plane (internal/dataplane) runs in the pods, next to the data.
--
-- Control.antt and Control/: internal/control. `Types` are the messages of types.go, `Validate` the
-- validators of service.go and `RunKey.Validate`, `Hub` is `EventHub` of eventhub.go and `Service`
-- is `Service` of service.go. The hub's and the service's operations take the state and return the
-- new one: a method that locks the mutex is one step, and calls are made one at a time. A channel is
-- the list of what it holds, with the hub's or the service's buffer as its size; a subscriber or a
-- stream is named by its address. Messages are values, so the copies that the code makes against
-- sharing have no counterpart. `none` as a result of a publication is a call that never returns;
-- `waiting` is a send on a full channel. What the code takes from k8s.io/apimachinery and from the
-- parser of times is the parameter `Names`.
--
-- Dataplane.antt and Dataplane/: internal/dataplane/snapshot.go. `Paths` are the normalization of
-- paths and the test of run ids, `Lock` is the target's lock file, `Files` the file system below
-- the target root, `Finalize` is `FinalizeBackup`, `Retention` is `ApplyRetention`, `Recovery` is
-- `RecoverSpace`, `Partials` is `CleanupStalePartials` and `Scan` is `ScanRestorePoints`, with the
-- reading of dates as a parameter. In `Lock` and in `Files` a record says which system calls fail.
-- A link is followed at the end of a path that is given to `os.Stat`, but not in its middle, and a
-- tier's directory that is itself a link is an error, where `os.ReadDir` would follow it.
-- `Files.max_links` is the number of links that the kernel follows, 40.
--
-- Controller.antt and Controller/: of internal/controller first events.go, by which the manager
-- writes events into the status of runs. `Clock` has the time of the call and the parser of times
-- as parameters, `Conditions` and `Transfers` are the parts of a status, `Runs` the handlers for a
-- `BackupJob` and `Restores` and `Machines` those for a `RestoreJob` and an `RsyncMachine`; each
-- returns the new status and whether it changed. A handler reads one time, where the code may read
-- the clock more than once. Then helpers.go, which says which sources a run of a machine has and
-- where their data goes: `Refs` are references and the namespaces that a machine admits,
-- `Destinations` the paths, and `RunSet` is `CalculateTargetRunSet` with its detectors of
-- conflicts and overlaps; a map of sources is the list of its values in the order of one
-- iteration. Last the lease that guards a machine, of reconcilers.go: `Guard`, with
-- `acquireTargetGuard` in `Guard.Acquire`. The Kubernetes client is a parameter whose state moves
-- on with each call, and its optimistic concurrency is the hypothesis `IsOptimistic`; the loop
-- makes three attempts, as the code does. `History` says which finished jobs are pruned,
-- `Snapshots` which snapshot a restore reads, `Labels` are the generated names, with the hash as a
-- parameter, and `Schedule` is `reconcileSchedule`, which starts the runs of a machine's schedule,
-- with the reader of schedules as a parameter; `Schedule.Ticks` is a cluster for it that may
-- refuse any call, and in which a job is created once for each activation. `JobTransfers` is what
-- the reconciler itself writes into the transfers of a run, and the retry of a source whose target
-- was out of space.
--
-- Common.antt and Common/ are the helpers: strings as lists of bytes, association lists, sorting,
-- results. Tests.antt and Tests/ are the theorems at concrete inputs.
--
-- Not modelled: of internal/dataplane rsync's arguments and the transport; of internal/controller
-- the reconcilers but for these parts, and the builders of pods; internal/snapshot,
-- internal/manager, internal/liveapi, internal/tlsutil, internal/metrics and internal/cli, which
-- mostly call Kubernetes, gRPC, crypto and process APIs; and the API types of api/v1alpha1 beyond
-- the fields that the modelled handlers use.
pub mod Common
pub mod Dataplane
pub mod Control
pub mod Controller
pub mod Tests
