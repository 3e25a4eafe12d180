-- ===== src/Lib.antt =====
-- A verification development for reflection: an agent's conversation is cut into segments, a server
-- extracts claims from each segment, resolves what they mention to known entities, and stores them
-- under identities that a retry finds again. This library models the segmentation and the domain
-- rules that both runtimes share, the server's worker, and the store of its jobs.
--
-- Segmentation/ is packages/shared/src/segmentation.ts, one file for each step of
-- `segmentMessages`, which Run.antt composes:
--   Message.antt    `OpenCodeMessage` and the tests on messages and parts, `textOf`,
--                   `modelVisibleCharWeightOf`
--   Weight.antt     the sizes that are added up, infinite included
--   History.antt    `canonicalHistory`: the turns of the normal user messages, and the messages that
--                   belong to them
--   Boundary.antt   `CommittedSegmentBoundary`, the errors, `boundaryVersion`
--   Intervals.antt  `betterBoundaryPlan`, `selectBoundaryIntervals`
--   Reconcile.antt  `reconcileV1Boundaries`, `resolveV2Boundaries`, `reconcileV2Boundaries`
--   Segment.antt    `makeV1Segment`, `makeV2Segment`, the submitted texts and their fallback to tool
--                   activity
--   Fragment.antt   `fragmentSourceRange`, `fragmentTurn`: an oversized turn is cut inside
--   Pack.antt       `packTurns`: ordinary turns are packed up to the limit
--   Run.antt        `segmentMessages`
--   Submission.antt `submissionSourceFingerprint`, through Domain/Identity.antt
--   Read.antt       `readSegmentMessages`
-- Domain/ is packages/shared/src/domain.ts:
--   Frame.antt       `utf8Frame`, the length-prefixed parts of a hashed text
--   Identity.antt    `segmentIdForRequest`, `sourceFingerprint`, `projectionFingerprintForBoundary`,
--                    `newMentionEntityIdFor`: the texts that they hash
--   Names.antt       `normalizeName`
--   Resolution.antt  `validateClaimDecisions`, `validateResolutionResult`, `unionCandidates`
-- Worker/ is server/src/worker.ts:
--   Process.antt  `ExtractionWorker.process` and `ResolutionLane`, as the calls that a job makes
--   Loop.antt     the work loop, the dispatch of its tasks and `stop`, as interleaved events
-- Jobs/ is server/src/database.ts, for the rows of one segment: the jobs, the target (the snapshot that
-- is wanted) and the committed segment, which every operation reads and writes under one lock:
--   Boundary.antt   `sourceBoundary`; `persistedBoundary` of server/src/ingestion.ts
--   Codec.antt      what is called of the schemas, JSON and hashes, and what is assumed of them
--   Rows.antt       the columns of `extraction_jobs`, `segment_targets` and `segments`
--   Match.antt      `targetMatchesRequest`, `targetMatchesJob`, `failedTargetMatchesJob`,
--                   `persistedJobMatchesClaim`
--   Eligible.antt   `STAGED_TARGET_ELIGIBILITY_SQL`
--   Want.antt, Enqueue.antt  `enqueue`
--   Claim.antt      `claimOldestJob` for the job that it selects, `#quarantinePersistedGroup`
--   Attempt.antt    `finishFailedAttempt`, `publishExtraction`, `#requeueLatestTarget`
--   Knowledge.antt, Commit.antt  `commitResolution`
--   Operate.antt    `retryFailedJob`, `supersedeFailedJob`
--   Recover.antt    `recoverRunningJobs`
--   Machine.antt    the operations as events, in any order and with any claims; the selection of a job
--                   and its claim are two events, since the lock is taken between them
--   Mailbox.antt    the abstract view: the newest wanted and the committed snapshot
-- Common/ has the shared notation and lemmas, and Tests/ runs of the model.
--
-- A JavaScript string is the list of its UTF-16 code units over the native natural numbers. A `Map`
-- is a lookup in the list that it is built from, the last entry of a key first. A thrown error is
-- the `err` of a result. An array that grows inside a loop is an argument of the loop's function.
--
-- Fuel: the loop of `segmentMessages` has the number of turns, since each round goes on by one turn
-- at least. The loop of `fragmentSourceRange` starts over behind a cut, so its fuel counts the cuts,
-- of which there are fewer than messages. A number is written with fuel above itself, which has
-- more than its digits.
--
-- Parameters: the rendering of tool states and media (packages/shared/src/tool-source.ts) is the
-- record `ToolSource`; the order of `localeCompare`, Unicode case folding, SHA-256 and UUIDs are
-- function arguments. What the engine and the database answer to the worker is the record `Replies`,
-- and what the database hands out to it is the relation `Offers`. The store's JSON, hashes and schemas
-- are the record `Codec`, with the laws `IsCodec`, which some results assume: what the schemas accept is
-- decoded from what it is encoded as; a request of version 1 or 2 is encoded without its source
-- (`persistedRequest`), one of version 3 with it; the priority is checked by itself, and neither the
-- segment nor the fingerprint depends on it. Whether a segment is owned is an argument of the operations
-- that go on with the answer; the others are modelled with an owned segment.
-- `has_index` says what the unique indexes and the key of a segment give: a row with the boundary of a
-- request conflicts with it, and one row at most does.
--
-- Timestamps are numbers of milliseconds, an identifier of a row is the next number of a sequence, and
-- another segment may take numbers in between. A transaction that throws leaves the state as it was.
--
-- Not modelled: the sizes of what a provider is sent (`modelWireSize`), `isSafeSegmentSnapshot`, the
-- ranking of claims by floating-point scores, the worker's outer loop with its advisory lock and
-- timers, the order in which the store selects among sessions, the adoption of rows without a source, its
-- queries for search, recall and status, the migrations, the plugins, HTTP and the scripts.
pub mod Common
pub mod Segmentation
pub mod Domain
pub mod Worker
pub mod Jobs
pub mod Tests
