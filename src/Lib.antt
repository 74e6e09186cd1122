-- ===== src/Lib.antt =====
-- Innerwall: the policy core of a microsegmentation control plane and its agent.
--
-- The control plane keeps authored policy (rulesets of rules whose peers are label selectors, address
-- groups or CIDRs) beside a registry of workloads. The compiler renders both into one policy for each
-- workload, plans which persisted policies change, and saves and announces those in one transaction.
-- What changed travels on a sync stream as a delta of typed changes, which an agent applies to the
-- policy it holds and acknowledges; a failure is answered with a snapshot.
--
--   Prelude    names, Boolean tests, orders, sorting, maps as association lists, text, results
--   Netip      what the program uses of Go's net/netip, as an interface with its documented laws
--   Rendered   internal/rendered/rendered.go: Canonical, NormalizeCIDR, HostRoute
--   Delta      internal/rendered/rendered.go: Equal, Diff, Delta, Apply
--   Policy     internal/policy/model.go: authored objects, Selector.Matches; registry LabelMap;
--              internal/policy/labels.go: the label grammar; internal/policy/validate.go:
--              ValidateRuleset, ValidateService, ValidateAddressGroup
--   Compiler   internal/compiler/render.go, internal/rendered/ruleid.go: Render and what it calls
--   Plan       internal/compiler/plan.go and engine.go: Plan, RenderIn, Render
--   DryRun     internal/compiler/dryrun.go: DryRun
--   Sync       internal/agent/sync/daemon.go (handle, applyUpdate, Backoff, the outcome of a session in
--              Run), internal/agent/enforce/store.go (PolicyStore, MemoryStore), internal/gateway/sync.go
--              (a stream's opening, handleAck, sendRecoverySnapshot, pushLatest); Sync/Link runs both
--              ends of a stream as a step relation
--   Enforce    internal/agent/enforce/nft: allocator.go (Allocate, reusable, Rule, Mark, Save and
--              loadAllocator without the file's encoding), render.go and delta.go (Render,
--              RenderDelta), store.go (Apply, Load, Restore, Classify);
--              internal/agent/enforce/durable.go (the outcomes of WriteDurable)
--   Throttle   internal/api/throttle.go: Allow, the bounded limiter of login attempts
--   Agent      internal/agent/collect: gaps.go (Gaps), the record of lost evidence; collect.go
--              (Aggregator), the open window of observations; buffer.go (Buffer), the bounded buffer of
--              closed windows
--   Examples   a concrete network and concrete runs
--
-- Correspondence. A Go function keeps its name in snake case. A map is an association list whose
-- keys are distinct; a loop over a map is modelled in the list's order; but for Gaps.CutOpen, whose
-- order no theorem depends on, the source sorts what it makes of such a loop. A string is its list
-- of code points, so that Go's byte order of strings is the order of the lists. A uuid is its
-- canonical text. A protobuf enum is an open number. A uint64 version wraps at 2^64. The faults with
-- which a document was converted are a function of the object, and the quoting of a text in a
-- finding is a parameter. Errors are values of Result; an error of the database is a parameter
-- (Faults), and a transaction that fails leaves the database as it was. A nil policy, which reads as
-- the empty one, is an Option where the source meets it. Loops are structural recursion, but for
-- `decimal`, whose fuel is more than the number of digits, and for the loop of Gaps.shrink, whose
-- fuel is the number of held gaps: each round makes one gap fewer. An instant is a number of
-- nanoseconds. The agent's locks are left out: a call under a lock is one step. In the step relation
-- of a stream each handler of the gateway and of the agent is one step, in any order; a policy that
-- a handler loads outside its session's lock is any that was persisted by then. The opening of a
-- stream is two steps, since its lock is free between recording the policy as sent and queueing its
-- snapshot: pushes may come in between. A stream's run (Run) is apart from what is reached where
-- streams end and new ones open (Reach), and from what the agent's handling alone leads to
-- (Deliveries). The messages of a stream arrive in order, and the random draw of the backoff is a
-- parameter. The store of the
-- applied policy is a value with its two files and the scripts that its kernel ran; a Machine says
-- how each write and each script ends, and a script that fails leaves the kernel as it was. The
-- number of allocations is below 2^64 where a theorem says that none has wrapped. The marks
-- file holds what Save writes, before its encoding, and a start reads it back through loadAllocator
-- with its checks; that its bytes verified is the outcome that they are read at all.
--
-- Not modelled: the protobuf wire encoding, the write times that the store keeps beside authored
-- objects, logging, and the parts that are input and output (the SQL store, the HTTP and gRPC
-- servers, the command lines, the kernel interfaces of the agent, what nftables does with a script).
pub mod Prelude
pub mod Netip
pub mod Rendered
pub mod Delta
pub mod Policy
pub mod Compiler
pub mod Plan
pub mod DryRun
pub mod Sync
pub mod Enforce
pub mod Throttle
pub mod Agent
pub mod Examples
