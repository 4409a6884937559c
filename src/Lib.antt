-- ===== src/Lib.antt =====
-- Reeve decides, inside a CI job, whether the infrastructure changes of a pull request may be applied,
-- and keeps the state of that decision in a bucket. This library models the decisions as values.
--
-- The parts and their files:
--
-- * Locks (internal/core/locks/locks.go): the lock of one stack with its FIFO queue. `Lock`, `Holder`
--   and `QueueItem` are the structs; `try_acquire`, `release`, `unlock_pr` and `reap` are TryAcquire,
--   Release, UnlockPR and Reap, with `evict_if_expired`, `install`, `promote_next` and `remove_pr`
--   under them. An acquired lock comes back with the flag and the error of the source. Locks/History
--   has sequences of transitions.
-- * Keys (internal/blob/key.go): `slug_component` is SlugComponent, over a digest that is a parameter, and
--   `key` is Store.key of the lock store.
-- * Store (internal/blob/locks/store.go): the lock of Locks as an object of a bucket. `Bucket` is the part
--   of blob.Store that locks use, a parameter; its calls answer the next state of the bucket, in which
--   others may have written. A closure that the source hands to mutate or maintain is a `Transition`
--   of Store/Changes (`acquiring`, `releasing`, `forcing`, `unlocking`, `reaping`); `mutate` and
--   `maintain_from` are the retry loops, recursions on the attempts that are left (MaxRetries and one
--   more), with `mutate_round` and `maintain_round` as one round. Store/Walks has the walks over all locks,
--   `reap_all`, `unlock_pr_all` and `list_all`, over the keys that the bucket lists. The clock stands still
--   within a round, and a lock that is encoded and decoded is itself.
-- * Cas (internal/blob/cas.go): the probe of the bucket that the lock store runs before it writes.
--   `probe_conditional_writes` is probeConditionalWrites, with a function for each step from its write on;
--   `ensure` is Ensure. The bucket is a parameter, with laws of its own for what it documents.
-- * Filesystem (internal/blob/filesystem/filesystem.go): a directory as such a bucket. A step of `run` is one call
--   of `put`, `put_if_match`, `delete` or `delete_if_match`, with the place where the system fails as an argument;
--   `get` reads the object and its version from two disks, since it takes no lock.
-- * Gates (internal/core/preconditions/gates.go): the ten gates of an apply. `eval_gate_base` is
--   evalGateBase, `eval_gate` is evalGate with the break-glass overrides, `evaluate` and
--   `evaluate_all` are Evaluate and EvaluateAll.
-- * Approvals (internal/core/approvals/rules.go, sources.go): `resolve` is Resolve, with doublestar.Match
--   as a parameter; `evaluate` is Evaluate, cut into the sifting of the approvals (`verdict`,
--   `effective`), the owners (`effective_owners`), the default of one approval (`with_default`) and
--   the three gates (`add_required`, `add_groups`, `add_owners`). What Locks, Gates and Approvals find
--   is what the apply pipeline of internal/run hands to `Gates.evaluate` as its inputs.
-- * Breakglass (internal/core/breakglass/breakglass.go): who may apply in an emergency. `authorize` is
--   Authorize, cut behind its guards (`decide`) and source by source (`from_sources`,
--   `from_codeowners`, `from_anyone`); `authorizing_paths_touched` is AuthorizingPathsTouched. Trimming
--   and case folding of texts are those of ASCII.
--   Breakglass/Command is command.go: `parse_command` is ParseCommand.
-- * Discovery (internal/core/discovery/discovery.go): `affected_detailed` is AffectedDetailed, with
--   `file_matches_stack` for fileMatchesStack; `resolve` is Resolve and `validate_unique_refs` is
--   ValidateUniqueRefs. doublestar is a parameter. The stacks that are affected are those whose locks,
--   gates and approvals a run then asks for.
-- * Codeowners (internal/vcs/codeowners/parse.go): `parse` is Parse over the lines of the file, with
--   `split_line` for splitLine; `resolve` is Resolve over `match`, with doublestar.Match as a parameter.
-- * Drift (internal/drift/state.go, the end of runOne in runner.go): `classify` is Classify,
--   `damp_notification` is dampNotification, `settle` is what runOne does with a finished check.
--   Drift/Retry is retry.go and the loop of runOne that retries a check: `backoff` is the wait of
--   backoffSleep, `classify_drift_error` is classifyDriftError, `check_retried` the loop, a recursion on
--   the retries that are left. Drift/Filter is classify_filter.go: `filter` is filter, with `verdict` for
--   what its loop does with one resource, and Drift/Wildcard is wildcardMatch, a recursion on as many
--   rounds as a pattern and a text can take. Drift/Pending is pending.go: `dispatch_durable` is
--   DispatchDurable over a store of markers that is a parameter, with channels whose deliveries may depend on
--   the state of that store when they deliver, and `merge_pending` is MergePending.
-- * Run (internal/run/apply.go): the loop of Apply over the stacks, up to the engine. `decide_stack` takes
--   the lock by Store, evaluates Approvals and Freeze, hands them to Gates, asks the policy hooks where
--   there are any, and releases the lock of a blocked stack.
-- * Manifests (internal/run/preview_lookup.go): the preview that an apply is bound to. `newest_preview_manifest` is
--   newestPreviewManifest with `consider` for what its loop makes of one key, and `load_preview_snapshot` is what
--   LoadPreviewSnapshot makes of its answer.
-- * Notify (internal/notify/notify.go, grouping.go, dispatch.go): `group_payloads` is GroupPayloads and
--   `dispatch` is DispatchWith; how a delivery ends is a parameter.
-- * Freeze (internal/core/freeze/freeze.go): `active_for` is ActiveFor, whose answer the apply pipeline
--   hands to the gates; `most_recent_fire` is mostRecentFire, a recursion on the 10,000 rounds of its loop.
--   Cron expressions and doublestar.Match are parameters.
-- * Auth (internal/auth/binding.go, cache.go): the providers of a stack's run and their credentials.
--   `resolve_with_opts` is ResolveWithOpts and `validate` is Validate, with doublestar.Match as a parameter.
--   Auth/Cache is the cache as a state with steps, one for each stretch of code under the mutex: `begin` and
--   `finish` are acquireOne before and after its call of the provider, `invalidate_all` is InvalidateAll and
--   `close` is Close. A provider's answer is an argument of `finish`.
-- * Render (internal/core/render/trim.go, overflow.go): how a comment keeps to its limit. `descend_with_base` is
--   descendWithBase over a renderer that is an argument, with `fit_sections` and `fit_table` as its binary
--   searches, recursions on as many rounds as there are sections or rows. Render/Split divides a board into
--   parts, `split_stacks` is splitStacks, and Render/Pages renders them: `paginate` is paginate.
-- * Redact (internal/core/redact/redact.go): `redact` is Redact and `add_secret` is AddSecret, on bytes.
--   A rule is the places of the matches of its regular expression, a parameter.
--
-- Conventions. An instant is a number of nanoseconds from Go's zero time, which is 0; instants before it
-- are not told from it. A duration and an int that may be negative is a signed number (Prelude/Time);
-- neither wraps. A number that only counts, and a pull request's number, is a natural number. A
-- timestamp in a stored lock is what time.Parse makes of it: nothing, a whole second, or garbled. A Go
-- map is the list of its entries in the order in which they are met, a text of a message its kind and
-- arguments. Slices are values, so aliasing is not modelled; removePR copies. Loops are recursions on
-- the list they walk or on the attempts that are left; that of wildcardMatch is one on the rounds that its
-- pattern and its text leave room for.
--
-- Not modelled: the adapters of cloud storage, version control, engines, notification and the providers of
-- credentials, which only call services; of the directory as a bucket, lock files, temporary files and the walks
-- of List; the YAML configuration; the Markdown of the renderers; cmd, and of internal/run all but the lookup of
-- the preview and the decision on a stack; of the lock store, the heartbeat; of internal/core,
-- the cleaning of changed paths and the clusters of stacks; of internal/drift, suppressions and reports.
pub mod Prelude
pub mod Locks
pub mod Keys
pub mod Cas
pub mod Filesystem
pub mod Store
pub mod Gates
pub mod Approvals
pub mod Breakglass
pub mod Codeowners
pub mod Discovery
pub mod Freeze
pub mod Redact
pub mod Auth
pub mod Render
pub mod Run
pub mod Manifests
pub mod Notify
pub mod Drift
