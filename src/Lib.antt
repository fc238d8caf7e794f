-- ===== src/Lib.antt =====
-- EverDraw runs prize draws over the deposits of its vaults. The library models the JavaScript that
-- serves the draws off the chain: the computation of a draw's winners and of the Merkle tree they
-- claim with, and the keeper that takes the draws through their life on the chain.
--
-- The parts and the files that model them:
--
-- Base and Base/: tests on numbers, lists over the native numbers, results, integers, texts as code
-- points, association lists and sorting, shared by all parts.
--
-- Draw: scripts/draw/compute-winners.js. Draw/Input.antt is `normalize` with `hex32` and `uint`: the
-- JSON input, its refusals and its normal form. Draw/Leaves.antt is `pickWinner`, `buildLeaves`,
-- `allocatedFeeAmount` and `compute`; the loops' variables are the record `Out`. Draw/Merkle.antt is
-- `merkleRoot` and `merkleProofs`, with the fold of `_verify` of src/v5/ClaimManagerV5.sol, by which
-- the contract checks a proof. A bytes32 or an address is the number behind its text. keccak256 and
-- the ABI encoding of ethers are the fields of `Keccak`, and `getAddress` is a function that may
-- refuse. A value past the range of uint256, which ethers refuses to encode, is not modelled.
--
-- Keeper/Thresholds.antt: scripts/keeper/balance-thresholds.mjs, over integers.
--
-- Keeper/Claims.antt: `ClaimRetryState` of scripts/keeper/claim-isolation.mjs. The state is the claims
-- in memory and the file on disk; `step` is a call of one of the three methods that change them, and
-- `run` a sequence of calls, and `sessions` keepers that start one after the other on the same file,
-- whose JSON is taken for the dictionary itself. Keeper/Claims/Errors.antt is `terminalClaimError`, and
-- Keeper/Claims/Settle.antt is `claimFinalizedDrawSafely` with the handlers that `runOnce` of
-- scripts/keeper-v5.js gives it: `settle_claim` is one round of its claim loop for a finalized draw.
--
-- Keeper/Alerts.antt: scripts/keeper/v5-runtime-alert-policy.mjs. The map of the last alerts is a
-- function, 0 where it has no entry, which is what the code reads there.
--
-- Keeper/Actions.antt, Keeper/Lifecycle.antt, Keeper/Settlement.antt and Keeper/Loop.antt:
-- scripts/keeper-v5.js. An action is a function of the world and of what the keeper has done so far,
-- and returns or throws. `Chain` is what the keeper can ask and send; each answer may be an error and
-- may change the world, so that the other parties on the chain act between any two calls. The log of
-- `State` holds what was answered and sent. Keeper/Actions.antt is `rpcRead` and the tests on errors,
-- Keeper/Lifecycle.antt is `send`, `maybeStartDraw` and `maybeRerequestSeed`, Keeper/Settlement.antt
-- is `maybePropose`, `maybeFinalize`, `maybeClaim` and `reconcileLifecycleDraw`, over the `compute` of
-- Draw, and Keeper/Loop.antt is `runOnce` with `firstRecentDrawId` and `claimDrawIds`, over the claim
-- state and the thresholds. `buildAndPersistInput` and the root that compute_winners.py prints are
-- fields of `Chain`, and `claimStateKey` is one of `Settings`. `runOnce` ends with a success ping and a
-- loop around it repeats it; both are left out.
--
-- Logs: scripts/draw/write-watch-inputs.mjs. Logs/Ranges.antt is `getLogsRangeDirect` and the windows
-- of `queryLogsChunked`, Logs/Search.antt is `blockAtOrAfterTimestamp`, and Logs/Accounts.antt is
-- `participantAccountsFromLogs`. Logs/DrawInput.antt is `buildDrawInput` and
-- the watcher's `buildWatcherDrawInput` of scripts/draw/reconstruct-watcher-input.mjs, from the
-- contracts' answers to the input of Draw. The provider of the logs is a record parameter that answers or throws
-- from a world. The fuel of a read bounds how often a range is halved, and that of a search how often
-- it is narrowed; the number of blocks is enough for both. Logs/Retries.antt is the tests on
-- errors, `retryTransient` and `getLogsRange`, and Logs/Cache.antt is the scope of
-- `DrawInputEventCache` and its `ensureCanonical`; its scans are not modelled.
--
-- Keeper/Deployment.antt: scripts/keeper/v5-deployment.mjs, the selection of the deployment and of the
-- targets that the keeper runs on.
--
-- Watcher: scripts/draw/watch-root-proposals.mjs and scripts/draw/independent-watcher-cache.mjs, the
-- process that recomputes every proposed and finalized root. Watcher/Actions.antt is code that may throw
-- over a state, and Watcher/Node.antt the two RPC endpoints with all else outside, the configuration,
-- and a run's variables with its two files. Watcher/Batches.antt is `canonicalBlockHashes`,
-- `assertCanonicalLogBatch` and `queryLogsChunked` of write-watch-inputs.mjs. Watcher/Cache.antt and
-- Watcher/Cache/Incidents.antt are the state of `IndependentWatcherCache` and its methods,
-- Watcher/Sync.antt its `syncThrough` and `assertEvidenceCanonical` with
-- `ingestWatcherReconstructionLogs`, Watcher/Verify.antt `verifyIndependentRoot`, `verifyProposal` and
-- `publishClaimProofs`, and Watcher/Round.antt is `main`, one run. compute_winners.py and SHA-256 are
-- functions of the node. A call's retries and timeouts are part of its answer, but for the logs, which
-- are read by the functions of Logs. The texts of messages, the parsing of the acknowledged incidents
-- and the alarm after a run that threw are not modelled. The batches of windows run on fuel, one for
-- each window, which is enough since a batch takes one at least. Watcher/Round/Quiet.antt and its
-- modules are about a chain on which nothing is proposed.
--
-- The rounds of `merkleRoot` and `merkleProofs` run on fuel, one for each leaf, which is enough since a
-- round halves the level; `none` would mean that it ran out. The batches of claims run on fuel, one for
-- each claim, which is enough since a batch takes one at least.
--
-- Not modelled: process and network calls, the web application, the indexer (TypeScript over SQL),
-- the contracts (Solidity), and the scripts that deploy and migrate them.
--
pub mod Base
pub mod Draw
pub mod Keeper
pub mod Logs
pub mod Watcher
