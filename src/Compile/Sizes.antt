-- ===== src/Compile/Sizes.antt =====
-- packages/solana/src/transactions/compile.ts and transactionVersion.ts: what a transaction is compiled
-- from and into, its size, and the settings of its compute budget.
use accrue.Base.{
  ℕ, zero, suc, ◌-◌, ◌*◌, ◌/◌, ◌%◌, ◌^◌, leb, ◌==◌, Bool, true, false, not, ◌&&◌, max, Option, none,
  some, List, [], ◌∷◌, length, reverse, if◌then◌else◌,
}
use accrue.Base.Outcome.{Outcome}
use accrue.Base.Text.{Text, text, includes}

abbrev pub max_unique_addresses_per_transaction : ℕ
max_unique_addresses_per_transaction = 64

abbrev pub max_transaction_size_bytes : ℕ
max_transaction_size_bytes = 4_096

abbrev pub max_legacy_transaction_size_bytes : ℕ
max_legacy_transaction_size_bytes = 1_232

abbrev pub loaded_accounts_data_size_limit : ℕ
loaded_accounts_data_size_limit = 64 * 1_024 * 1_024

abbrev pub a_probe_transaction_size : ℕ
a_probe_transaction_size = 1_400

-- What a call of the network throws: an `Error` with its message, or a value that is none.
pub data NetworkFailure : Type 0 where
  an_error : Text → NetworkFailure
  no_error : NetworkFailure

pub record Lifetime : Type 0 where
  pub blockhash : Text
  pub last_valid_block_height : ℕ

-- An instruction of the compute budget program, which has no accounts.
pub record BudgetInstruction : Type 0 where
  pub program_address : Text
  pub bytes : List ℕ

-- A draft of a message: its version, its header, and its instructions.
pub record Draft (Instruction : Type 0) : Type 0 where
  pub version : ℕ
  pub fee_payer : Text
  pub lifetime : Lifetime
  -- The header's compute unit limit, priority fee and limit of loaded data.
  pub budget : Option (ℕ × ℕ × ℕ)
  pub instructions : List Instruction

pub record Library (Instruction Message LookupTables Network : Type 0) : Type 0 where
  pub an_instruction : BudgetInstruction → Instruction
  pub message_of : Draft Instruction → Message
  pub compress : Message → LookupTables → Message
  -- `getBase64EncodedWireTransaction(compileTransaction(message))`
  pub wire_of : Message → Text
  -- `compileTransactionMessage(message).staticAccounts.length`
  pub static_accounts_of : Message → ℕ
  -- `btoa`, of the code units
  pub btoa : List ℕ → Text
  pub get_latest_blockhash : Network → Outcome NetworkFailure Lifetime × Network
  pub fetch_tables : List Text → Network → Outcome NetworkFailure LookupTables × Network
  pub simulate : Text → Network → Outcome NetworkFailure (Unit {0}) × Network

pub record CompileOptions : Type 0 where
  pub fee_payer : Text
  pub compute_unit_limit : ℕ
  pub priority_fee_lamports : ℕ
  pub lookup_tables : Option (List Text)
  pub wallet_takes_version_one : Option Bool

pub data Version : Type 0 where
  version_zero version_one : Version

pub record CompiledTransaction : Type 0 where
  pub wire : Text
  pub version : Version
  pub bytes : ℕ
  pub unique_addresses : ℕ
  pub blockhash_expires_at_height : ℕ
  pub used_lookup_tables : Bool

pub data CompileFailure : Type 0 where
  nothing_fits : ℕ → CompileFailure
  the_network_failed : NetworkFailure → CompileFailure

-- What the endpoint is known to accept, which is asked once, beside the network.
pub record Endpoint (Network : Type 0) : Type 0 where
  pub takes_four_kilobytes : Option Bool
  pub network : Network

-- The padding of a text that stands backwards.
abbrev padding_of : Text → ℕ
padding_of [] = 0
padding_of (c ∷ []) = if c == b'=' then 1 else 0
padding_of (c ∷ d ∷ cs) = if c == b'=' then (if d == b'=' then 2 else 1) else 0

-- The length of base 64 is a multiple of four.
unfoldable pub bytes_of_base64 : Text → ℕ
bytes_of_base64 wire = length wire / 4 * 3 - padding_of (reverse wire)

abbrev pub zeroes : ℕ → List ℕ
zeroes zero = []
zeroes (suc n) = 0 ∷ zeroes n

-- The lowest bytes of a value, `(value >> 8 * index) & 0xff` of each index.
unfoldable pub bytes_from : ℕ → ℕ → ℕ → List ℕ
bytes_from value index zero = []
bytes_from value index (suc left) =
    value / 2 ^ (index * 8) % 256 ∷ bytes_from value (suc index) left

abbrev pub set_compute_unit_limit : ℕ
set_compute_unit_limit = 2

abbrev pub set_compute_unit_price : ℕ
set_compute_unit_price = 3

abbrev pub set_loaded_accounts_data_size_limit : ℕ
set_loaded_accounts_data_size_limit = 4

abbrev pub micro_lamports_in_a_lamport : ℕ
micro_lamports_in_a_lamport = 1_000_000

abbrev pub width_of : ℕ → ℕ
width_of discriminator = if discriminator == set_compute_unit_price then 8 else 4

unfoldable pub compute_budget_instruction : ℕ → ℕ → BudgetInstruction
unfolding bytes_from
compute_budget_instruction discriminator value = record {
  program_address = text "ComputeBudget111111111111111111111111111111";
  bytes = discriminator ∷ bytes_from value 0 (width_of discriminator);
}

unfoldable pub per_compute_unit : CompileOptions → ℕ
per_compute_unit options =
    options.priority_fee_lamports * micro_lamports_in_a_lamport / max options.compute_unit_limit 1

unfoldable pub the_budget_as_instructions : CompileOptions → List BudgetInstruction
unfolding compute_budget_instruction per_compute_unit
the_budget_as_instructions options =
    compute_budget_instruction set_compute_unit_limit options.compute_unit_limit
    ∷ compute_budget_instruction set_compute_unit_price (per_compute_unit options)
    ∷ compute_budget_instruction set_loaded_accounts_data_size_limit loaded_accounts_data_size_limit
    ∷ []

-- `options.lookupTables ?? []`
abbrev pub tables_of : CompileOptions → List Text
tables_of options = elim options.lookup_tables [ none ↦ [] | some tables ↦ tables ]

-- `options.walletTakesVersionOne === false`
abbrev pub refuses_version_one : CompileOptions → Bool
refuses_version_one options = elim options.wallet_takes_version_one [
  | none ↦ false
  | some takes ↦ not takes
]

unfoldable pub fits_legacy : CompiledTransaction → Bool
fits_legacy compiled = leb compiled.bytes max_legacy_transaction_size_bytes

unfoldable pub fits_version_one : CompiledTransaction → Bool
fits_version_one compiled =
    leb compiled.bytes max_transaction_size_bytes
    && leb compiled.unique_addresses max_unique_addresses_per_transaction

-- What a failed probe says: only an `Error` about the size means no.
unfoldable pub does_not_refuse_the_size : NetworkFailure → Bool
does_not_refuse_the_size (an_error message) = not (includes message (text "too large"))
does_not_refuse_the_size no_error = true

-- What the versions that a wallet supports choose, where `legacy` is none of the numbers.
unfoldable pub choose_transaction_version : List ℕ → Version
choose_transaction_version [] = version_zero
choose_transaction_version (version ∷ versions) =
    let rest = choose_transaction_version versions in if version == 1 then version_one else rest
