-- ===== src/Lib.antt =====
-- The verification library of tclaw, a multi-channel host for an agent: messages come in from chat
-- transports, schedules and other channels, wait in a queue until the agent takes them, and its
-- replies go out through an outbox; a git proxy and a rate limiter stand at its borders.
--
-- The parts, and the files that model them:
--
--   internal/channel/channel.go            Channel: messages and their sources
--   internal/channel/activity.go           Channel/Activity: ActivityTracker. MessageReceivedFrom,
--     TurnStarted, TurnEnded, IsBusy, NotifyIdle and the callback of the idle timer are
--     message_received_from, turn_started, turn_ended, is_busy, notify_idle and timer_fired.
--     History sees the tracker as a history of calls, Waiters and Wakeups follow the waiters and their timer.
--   internal/queue/queue.go                Queue: Push, tryDequeue, coalesceBatch and the rest by
--     their names. Queue/Next is the loop Next with its two selects, Queue/Idle the waiting for busy
--     channels, Queue/Restart what LoadPersisted finds.
--   internal/channel/outbox/outbox.go      Outbox: Send, Edit, Done, dequeue, persistence.
--     Outbox/Delivery is deliver with its retries, the rounds of deliverLoop, and Flush;
--     Outbox/Restart is loadPersisted, Outbox/Gaps what a crash loses.
--   internal/router/done.go                Confirmation/Interception: interceptPendingConfirmation,
--     with the pending action (internal/channel/runtime_state.go) in Confirmation and the buttons
--     (internal/channel/prompt.go) in Confirmation/Prompt; what a confirmed action does is its
--     handler's and stays outside.
--   internal/gitproxy/refs.go              GitProxy/Commands: the parser of a push's ref commands
--   internal/gitproxy/gitproxy.go          GitProxy/Requests: handle and checkPush
--   internal/router/repos.go               GitProxy/Lapse: what the proxy's lookup returns
--   internal/repo/repo.go                  Repo: a tracked repository and its access tier
--   internal/oauth/ratelimit.go            RateLimiter: Allow, gc and the middleware
--   internal/libraries/logbuffer/logbuffer.go   LogBuffer: New, Load and Write;
--     LogBuffer/Query is Query with its filters.
--   internal/remotemcpstore/remotemcpstore.go   RemoteMcpStore: Operations are those of Manager,
--     Pruning follows the deletion of a channel, Names, Steps and Reading what is stored.
--   internal/schedule/schedule.go          Schedule: the store of schedules, over Base/Collections
--   internal/schedule/scheduler.go         Schedule/Scheduler: Run's choice of a wait (wait) and
--     fireReadySchedules. Waiting is about the former, Firing and Again about the latter; Arming and
--     Steps are about both and the tools.
--   internal/tool/scheduletools            Schedule/Tools: the tools that change schedules
--   internal/dev/store.go                  DevSessions: the sessions and which of them a channel
--     may act on
--   internal/config/config.go              Config: the parsed configuration; Config/Checks and
--     Config/Validation are validate without the knowledge section.
--   internal/config/writer.go              Config/Writer: changes of a user's channels in the file
--   internal/channel/runtime_state.go      Runtime: the states of channels, with platform_state.go and
--     the interface of provisioner.go
--   internal/reconciler/reconciler.go      Reconciler: Reconcile and ReconcileOne
--   internal/channel/session_store.go      Sessions: the sessions of each channel
--   internal/router/session_cleanup.go     Sessions/Cleanup: cleanupStaleSessions
--   egress/main.go                         Egress: the CONNECT proxy for hosts that refuse the hosting
--     provider; Egress/Targets is net.SplitHostPort.
--   internal/egressproxy/egressproxy.go    Egress/Client: the client's side of it
--   internal/router/ephemeral.go           Ephemeral: cleanupOnce, with parent_notify.go
--   (JSON arrays in a store)               Base/Collections
--   (Go's maps, strings and results)       Base
--
-- How they interact: the queue asks the tracker whether a message's channel is busy, and waits with
-- the tracker's waiters; the agent's turns and the arriving messages drive the tracker; the git
-- proxy serves tracked repositories under the tier in force at the time of the request. In the
-- queue's model the tracker is part of World, which stands for what surrounds the queue at a moment.
--
-- The clean-up of an idle ephemeral channel goes through the configuration, the runtime states, the
-- dev sessions, the remote MCP servers and the queue, each by its own operations; the reconciler and
-- the clean-up call the same provisioners.
--
-- State and time: a mutable object is a value that each operation returns anew, a map an
-- association list, a slice a list, a byte string a list of numbers. A call of the clock is an
-- argument, Go's zero time is none, or 0 where the code compares
-- it (Schedule); a uint64 counter is taken modulo 2 ^ 64. Concurrency is a
-- sequence of steps: the critical sections under a mutex are the steps, and what other goroutines
-- do between them comes as a list of events (Queue/Next) or as arguments of each attempt
-- (Outbox/Delivery). A store holds decoded states, and a flag says whether a write succeeds; that
-- decoding gives back what was encoded is taken from the JSON library.
--
-- Fuel: the parser of ref commands runs on one more than the bytes that its limit lets through,
-- and each line takes four of them at least; the loop of LogBuffer's Write runs on the bytes it
-- has, and each line takes its newline. The loops of deliver and of the rounds run on the
-- number of attempts and of operations; Next consumes a list of events, and blocked is its outcome
-- when the events run out.
--
-- Not modelled: the starting and joining of goroutines (Outbox.Start and Stop apart from their
-- persistence), enqueues by other goroutines during a delivery, logging, the listening sockets and
-- the reverse proxy behind the git proxy, and the transports, the agent subprocess and most
-- tools. The cron library with the time zones, the vocabularies and parsers that the validation
-- consults, and the provisioners of platforms are arguments. The YAML file is its decoded
-- configuration; its knowledge section and the resolving of secrets are left out.
pub mod Base
pub mod Channel
pub mod Config
pub mod Confirmation
pub mod DevSessions
pub mod Egress
pub mod Ephemeral
pub mod GitProxy
pub mod LogBuffer
pub mod Outbox
pub mod Queue
pub mod RateLimiter
pub mod Reconciler
pub mod RemoteMcpStore
pub mod Repo
pub mod Runtime
pub mod Schedule
pub mod Sessions
