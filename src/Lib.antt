-- ===== src/Lib.antt =====
-- The floor contract: its on-chain program, programs/floor-program/src, and the administrator's
-- command line, admin-cli/src. Investors deposit USDC,
-- and sellers sell wALN to them at a floor price, in rounds. A round's start locks USDC of the
-- investors that take part, in proportion to the AAT volume that an NFT records for each. Sales are
-- paid out of the vault until the round is filled, or until the administrator closes it; then the
-- wALN is allocated to the participants, who claim it after a lock period.
--
-- Base holds what all files share: tests on native numbers, lists, integers. Program follows the
-- source:
--   Program/Errors       errors.rs, and results with the rules for postconditions
--   Program/Checked      checked_add, checked_sub, checked_mul, checked_div, try_from, and casts
--   Program/State        state.rs
--   Program/Host         what is called and not written here: runtime, token programs, framework
--   Program/Accounts     seeds.rs, the account constraints, and the chain: all of the program's
--                        accounts and the world around them
--   Program/Utils        utils.rs; the text of a volume is in Program/Host/Metadata
--   Program/Pool         the walks over the investor pool, of all handlers
--   Program/RoundStart   instructions/start_round.rs
--   Program/ForcedClose  the three passes of instructions/close_round.rs
--   Program/FullClose    the settlement in instructions/sell_waln.rs
--   Program/Allocations  the allocations that instructions/claim_waln.rs pays out of
--   Program/RoundAccounts  the accounts that the end of a round creates and writes
--   Program/Instructions the handlers: SellWaln, DepositUsdc, WithdrawUsdc, ClaimWaln, CloseRound,
--                        Initialize, Admin, RemoveInvestor, Authority, AatNft; and what is shown of
--                        single handlers: Deposits, Withdrawals, Volumes, SellWaln/Quotes,
--                        SellWaln/Restarts
--   Program/Dispatch     lib.rs: one call for each entry point
--   Program/Invariant    what every instruction keeps; the ledger of stakes, which is the program as
--                        an investor sees it; the chain as a state machine; and what it pays out
--   Program/Examples     runs on small pools, and chains on small hosts, one through a whole round
-- Client follows admin-cli/src:
--   Client               failures, and what the client calls: files, network, key texts
--   Client/Requests      the accounts and arguments of each request
--   Client/Addresses     utils.rs
--   Client/Accounts      handlers.rs: load_zero_copy and handle_info
--   Client/Handlers      handlers.rs: the request of each handler
--   Client/Commands      main.rs
--   Client/Service       the program's constraints on a request's accounts, and the call it makes
--   Client/Promises, Client/Runs  what commands come to at the program
--
-- A handler is a function of its accounts, its arguments and the chain; it returns the chain after
-- it, or an error. A failing instruction changes nothing, as on the chain itself. The order of the
-- checks and effects is the source's. What the program calls is the parameter Host: the world is a
-- type of its own, `invoke_signed` takes an instruction and the world to a new world or an error,
-- and views read mints, token accounts, lamports and the clock. One law comes with it: the decimals
-- of a mint stay what they were.
--
-- Numbers are unbounded, and each operation of the source that checks its width is a function that
-- fails beyond it; arguments are any numbers. A Pubkey is the number that its bytes spell, so that
-- byte order is the order of numbers. The pool's list holds the slots in use, so that its length is
-- the source's `count`. Mutation of one record is a new list of records.
--
-- Loops over the pool are recursion on the list. The selection of a round start runs on fuel, one
-- more than there are investors: each round but the last drops a candidate. The binary search runs
-- on fuel, the length of the list: each round makes the range smaller. Twenty digits print any
-- 64-bit number.
--
-- Not modelled: the bytes of accounts and logs, compute limits, and the creation of accounts by the
-- framework's `init`, whose results the handlers' accounts begin from; what the command line prints
-- around a request, and how it scales and lays out its report; sdk, tests, integration and
-- migrations, which are further clients of the program.
pub mod Base
pub mod Client
pub mod Program
