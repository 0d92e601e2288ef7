-- ===== src/Lib.antt =====
-- Accrue keeps a loan against a token below the levels that its owner set. The program on the chain
-- holds the position; what is modelled here is the TypeScript around it: the arithmetic that the
-- web app and the keeper share with the program (packages/core), the keeper that looks at every open
-- position and proposes what the guard does (apps/keeper), the reading of the lending market's
-- accounts, the swap routers and the compiler of transactions (packages/solana), and those routes of
-- the web app's server that keep sessions, limits, acceptances and builds (apps/web/src/server and
-- apps/web/src/app/api). The keeper reads accounts into snapshots, watches each position,
-- decides on one action or a reason to wait, and runs rounds over the candidates in the order of
-- their loan to value. The amounts of an action come from the arithmetic of packages/core.
--
-- Which file is about which code, with its theorems in the files below it:
-- - Base: names that are passed on, lists, integers, rounded division, outcomes, texts.
-- - Core/Failure: what packages/core throws, one constructor for each message.
-- - Core/Money: packages/core/src/money.ts.
-- - Core/Guard: packages/core/src/guard.ts. Target is about repayToReachTarget and
--   borrowToReachTarget, Sale and Returning about destinationToSellForProtect, Closing about
--   usdcNeededToClose, Leaving about thereIsAReasonToLeave.
-- - Core/Strategy: packages/core/src/positions/strategy.ts.
-- - Core/Defaults: packages/core/src/positions/defaults.ts.
-- - Core/TopUp: packages/core/src/positions/topUp.ts and priceMargin.ts.
-- - Core/Stress: packages/core/src/risk/stress.ts.
-- - Keeper/Decide: apps/keeper/src/decide.ts. Priorities is about decideWhatToDo, Order about
--   mostStretchedFirst.
-- - Keeper/Shorten: packages/core/src/logging/shorten.ts.
-- - Keeper/Runs: apps/keeper/src/runs.ts.
-- - Keeper/Loop: apps/keeper/src/loop.ts. try_to_land is the try block of runOneRound and
--   write_the_failure its catch block.
-- - Keeper/Chain and Keeper/Instructions: the accounts and the inputs of the generated client in
--   packages/solana/src/program, as far as the keeper uses them.
-- - Keeper/Subject, Keeper/Inputs and Keeper/Guard: apps/keeper/src/guard.ts, with reserveAccounts of
--   packages/solana/src/kamino/addresses.ts. Asked has the parts that an instruction is built of, Built
--   is about what is built.
-- - Keeper/Watch: apps/keeper/src/watch.ts.
-- - Kamino: packages/solana/src/kamino. Bytes, Reserve, Obligation and Market are layout.ts, Caps is
--   caps.ts, Rates is rates.ts.
-- - Limiter: packages/solana/src/rpc/limiter.ts.
-- - Compile: packages/solana/src/transactions/compile.ts and transactionVersion.ts. Sizes has what a
--   transaction is compiled from and its budget, First the order of the formats; Fitting is about what
--   is returned, Refused about what is thrown, Budget about the budget's instructions.
-- - Swap: packages/solana/src/swap/sandbox.ts and jupiter.ts, with jupiter/route.ts in Route and
--   Jupiter. Filled and Capped are about their routes, Read about what the sandbox reads of a pool and
--   a mint, Within about the caps of a quote.
-- - Token: packages/solana/src/token.ts. Extensions is about the loop over a mint's extensions.
-- - Core/Freshness: packages/core/src/positions/freshness.ts, and the versions of terms/terms.ts and
--   risk/acknowledgement.ts.
-- - Server/Env and Server/Respond: apps/web/src/server/env.ts and respond.ts. Server/Tables: the tables
--   of packages/db/src/schema that the routes use.
-- - Server/Limits: apps/web/src/server/limitRules.ts and rateLimit.ts. Allowance is about any history of
--   requests.
-- - Server/Session: apps/web/src/server/session.ts and sessionRules.ts. Nonces and History are about any
--   history of nonces and of sessions, Sessions about the table.
-- - Server/SignIn: the routes of apps/web/src/app/api/auth, with recordInTheAuditLog of gates.ts.
-- - Server/Gates: apps/web/src/server/gates.ts.
-- - Server/Refused: apps/web/src/server/positions/whyTheChainRefused.ts.
-- - Server/Record: apps/web/src/server/positions/record.ts.
-- - Server/Send and Server/Submit: apps/web/src/app/api/positions/submit/route.ts. Send has what goes to
--   the chain and what is written of it, Submit the guards before that.
-- - Server/Abandon: apps/web/src/app/api/cron/abandon-builds/route.ts. OnePass turns the loop over builds
--   into one pass over positions, Given is about which positions are given up.
-- The files called Examples run the definitions on concrete inputs.
--
-- Conventions. A function keeps its name, in snake case. A bigint or a number that is never negative
-- is a natural number, and a difference that may be negative is an integer; a Number that the source
-- makes of a bigint is taken to be exact, which it is below 2 ^ 53. A function that throws returns an
-- Outcome. A promise is the value that it resolves to, and a rejection is a throw. A large function
-- is cut into helpers at its own branches, each with the lines that it stands for. Parameters are: the
-- decoder of base 58; what a round calls (building and sending an instruction, the log, the lines that
-- it reports, the clock), which act on a world that the round passes on; what the guard builds with
-- (derived addresses, the router, the generated builders); the client library of the compiler with the
-- calls of its network; the derived addresses, accounts and answers that a router reads, its amounts
-- as numbers and its price impact as a text, with what Math.round makes of that text, which may be no
-- number; and of the server the environment, the hash, the check of a signature, the decoder of a transaction and the
-- calls of the chain. Nothing is asked of them. An account is the list of its bytes.
--
-- A table of the database is the list of its rows, with the columns that the modelled code uses. A
-- statement sees all of the table at once, an insert of a key that is there throws, and a write that
-- the source catches may be refused. The readings of the clock, the random secrets, the cookie and the
-- body of a request are arguments, and a text is the list of its code points, which is what its length
-- counts. The requests of a history come one after another.
--
-- The loop over the extensions of a mint runs on fuel, one more than the bytes of the account, and a
-- theorem says that it is enough. Nothing else does: the loops over a list or over a fixed number of
-- entries are recursion on that list or number, the chain of causes of a failure is cut by the source itself after four or five messages,
-- and the limiter is a relation between a state and the readings of the clock, which are taken not to
-- run back.
--
-- Not modelled: the stress test for falls of more than the whole price, the sentences that the strategy
-- rules show, sizing a deposit and the other figures of the screens that are floating-point, reading
-- accounts over the network, the generated clients, the migrations and the connection of the database,
-- the ceilings of the server's settings, the routes of the server that read the chain or build
-- transactions, the pages of the web and rescue apps, and the program itself, which is written in Rust.
pub mod Base
pub mod Compile
pub mod Core
pub mod Kamino
pub mod Keeper
pub mod Limiter
pub mod Server
pub mod Swap
pub mod Token
