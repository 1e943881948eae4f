-- ===== src/Lib.antt =====
-- A verification library for shell-operator: the queues of tasks through which it runs hooks.
--
-- Shell-operator turns events of Kubernetes, schedules and webhooks into tasks. Each task names a hook and carries
-- binding contexts, which tell the hook what has happened. Tasks wait in named queues; one worker per queue takes the
-- first task, runs its handler, and settles the result. Before a hook runs, and when a queue has grown, tasks of one hook
-- are merged into one and their binding contexts are compacted. Apart from the queues, a conversion webhook
-- looks for a chain of conversion hooks between two versions of a custom resource, and runs them on the objects of a
-- request; a schedule manager shares the jobs of a cron library among bindings. Events of Kubernetes come from monitors,
-- one for each binding of a hook, which keep the objects that they watch in the caches of informers; events are held
-- back until the hook has run with the objects that were there at first.
--
-- Which file models which part:
--   LinkedList/Sequence   pkg/utils/list/list.go, as the sequence of elements that it promises its clients;
--   Storage               pkg/task/queue/task_storage.go: TaskStorage with its list and its index of ids, every operation
--                         under its name in the source (addAfter is add_after, ProcessResult is process_result);
--   Task                  pkg/task/task.go, pkg/hook/task_metadata/task_metadata.go and the fields of
--                         pkg/hook/binding_context/binding_context.go: a task is a pointer into a heap, which
--                         holds what changes while the task waits;
--   Contexts              compactBindingContexts of pkg/task/queue/task_queue.go, and the last loop of
--                         pkg/shell-operator/combine_binding_context.go;
--   Counter               pkg/task/queue/task_counter.go: the counts are uint, so they wrap at 2^64;
--   Queue/Status          pkg/task/queue/queue_status_type.go;
--   Queue/State           the fields of TaskQueue (pkg/task/queue/task_queue.go), and what is taken from outside;
--   Queue/Merge           TaskQueue.compaction;
--   Queue/Operations      TaskQueue's AddFirst, AddLast, AddAfter, AddBefore, the removals, the reads and DeleteFunc;
--   Queue/Worker          TaskQueue.processOne, and TaskResult of pkg/task/queue/task_result.go;
--   Queue/Waiting         TaskQueue.waitForTask, over the events that its select takes;
--   Queue/Loop            the loop of TaskQueue.Start, over what each of its turns meets;
--   Combine               combineBindingContextForHook of pkg/shell-operator/combine_binding_context.go;
--   QueueSet              pkg/task/queue/queue_set.go over pkg/task/queue/queue_storage.go: the queues by their names;
--   Conversion            pkg/webhook/conversion/chain.go, which finds a chain of rules from one version of a custom
--                         resource to another: the matching of versions in Versions, FindConversionChain in Find;
--   Review                ConversionEventHandler.Handle of pkg/shell-operator/webhook_handlers.go, and handleReviewRequest and
--                         ExtractAPIVersions of pkg/webhook/conversion/handler.go;
--   Schedule              Add and Remove of pkg/schedule_manager/schedule_manager.go, with gopkg.in/robfig/cron.v2 as a
--                         parameter, of which it is assumed that a new job has an unused id, and that
--                         it refuses exactly the crontabs that it cannot parse;
--   Schedule/Links        the schedules of a hook, pkg/hook/controller/schedule_bindings_controller.go;
--   Watch                 pkg/kube_events_manager: the values of types/types.go, applyFilter of filter.go, resourceId of
--                         util.go;
--   Informer              pkg/kube_events_manager/resource_informer.go: the cache of objects, the buffer of events and the
--                         callback; take_watch_event and pass_event are the two steps of handleWatchEvent;
--   Monitor               pkg/kube_events_manager/monitor.go and the selectors of monitor_config.go;
--   Bindings              pkg/hook/controller/kubernetes_bindings_controller.go over the index of monitors of
--                         pkg/kube_events_manager/kube_events_manager.go;
--   Snapshots             UpdateSnapshots of pkg/hook/controller/hook_controller.go, over SnapshotsFor of the controller of
--                         Kubernetes bindings;
--   Operator              pkg/shell-operator/operator.go: taskHandleHookRun in Attempts over handleRunHook in HookRun, and
--                         taskHandleEnableKubernetesBindings in Enabling, with its tasks of hook_task_factory.go;
--   Events                one turn of the loop of pkg/shell-operator/manager_events_handler.go, with the callbacks of operator.go
--                         over pkg/hook/hook_manager.go;
--   Backoff               pkg/utils/exponential_backoff/delay.go, in 64 bits.
--
-- The modules below these prove; a module named Tests holds concrete runs. A storage call holds its mutex from start to
-- end, so a history of calls is a list of calls. A handler is a function that answers with the queue as the handler and
-- all other goroutines leave it. The order in which Go walks a map, the events that a waiting worker meets, the text
-- of a duration, a queue's backoff function, and what slices from a pool hold after a compaction are parameters. Loops
-- are structural, but for the one of FindConversionChain, which runs on fuel: one more than the target versions without
-- a path are enough, since every round but the last finds a path to one of them. That loop stops where `append` may
-- write into the array of another path.
--
-- Not modelled: logs, metrics, slices that an earlier compaction has given back to a pool, panics that escape a
-- worker's step, the processes of hooks, their configuration, the shared informers of client-go, and the servers of
-- webhooks. They are input and output around these parts, or built on libraries that are not in the repository. API
-- calls, jq filters and hashes are parameters; an object of Kubernetes is a value of a type that is a parameter too.
pub mod Base
pub mod LinkedList
pub mod Storage
pub mod Task
pub mod Contexts
pub mod Counter
pub mod Queue
pub mod Combine
pub mod QueueSet
pub mod Conversion
pub mod Review
pub mod Schedule
pub mod Watch
pub mod Events
pub mod Informer
pub mod Monitor
pub mod Bindings
pub mod Snapshots
pub mod Operator
pub mod Backoff
