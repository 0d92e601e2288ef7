-- ===== src/Compile/Examples.antt =====
-- A library whose messages are their drafts, with transactions of a few sizes; and the witnesses of the
-- theorems on what is compiled.
use accrue.Base.{
  ℕ, zero, suc, ◌+◌, ◌==◌, ◌≡◌, refl, arith, none, some, [], ◌∷◌, true, false, if◌then◌else◌,
}
use accrue.Base.Outcome.{ok, throw}
use accrue.Base.Text.{Text, text}
use accrue.Compile.First.{compile_the_first_that_fits}
use accrue.Compile.Budget.{compute_budget_instruction-carries}
use accrue.Compile.Fitting.{Fits, compile_the_first_that_fits-Fits}
use accrue.Compile.Refused.{NothingFits, compile_the_first_that_fits-NothingFits}
use accrue.Compile.Sizes.{
  Library, CompileOptions, CompiledTransaction, Endpoint, nothing_fits, version_zero,
  compute_budget_instruction, set_compute_unit_price, width_of,
}
use accrue.Kamino.Bytes.{unsigned_at}

-- Groups of four characters.
abbrev groups : ℕ → Text
groups zero = []
groups (suc n) = 65 ∷ 65 ∷ 65 ∷ 65 ∷ groups n

-- A version 0 message of a transaction of `small` bytes times three, and of `large` otherwise.
abbrev library : ℕ → ℕ → Library (Unit {0}) ℕ ℕ ℕ
library small large = record {
  an_instruction = λ instruction. tt;
  message_of = λ draft. draft.version;
  compress = λ message tables. message;
  wire_of = λ message. if message == 0 then groups small else groups large;
  static_accounts_of = λ message. 12;
  btoa = λ units. [];
  get_latest_blockhash = λ w. (ok (record { blockhash = []; last_valid_block_height = 150 }), w);
  fetch_tables = λ tables w. (ok 0, w);
  simulate = λ wire w. (ok tt, w + 1);
}

abbrev options : CompileOptions
options = record {
  fee_payer = text "payer";
  compute_unit_limit = 400_000;
  priority_fee_lamports = 10_000;
  lookup_tables = none;
  wallet_takes_version_one = some false;
}

abbrev unasked : Endpoint ℕ
unasked = record { takes_four_kilobytes = none; network = 0 }

abbrev compiled : CompiledTransaction
compiled = record {
  wire = groups 10;
  version = version_zero;
  bytes = 30;
  unique_addresses = 12;
  blockhash_expires_at_height = 150;
  used_lookup_tables = true;
}

is_compiled :
    compile_the_first_that_fits (library 10 600) options [] unasked ≡ (ok compiled, unasked)
unfolding compile_the_first_that_fits
is_compiled = refl

gives_up :
    compile_the_first_that_fits (library 500 600) options [] unasked
    ≡ (throw (nothing_fits 1_500), unasked)
unfolding compile_the_first_that_fits
gives_up = refl

compile_the_first_that_fits-Fits_example : Fits (library 10 600) options compiled unasked
compile_the_first_that_fits-Fits_example =
    compile_the_first_that_fits-Fits (library 10 600) options [] unasked unasked compiled
      is_compiled

compile_the_first_that_fits-NothingFits_example : NothingFits (library 500 600) options [] none
compile_the_first_that_fits-NothingFits_example =
    compile_the_first_that_fits-NothingFits (library 500 600) options [] unasked unasked 1_500
      gives_up

compute_budget_instruction-carries_example :
    unsigned_at
      (compute_budget_instruction set_compute_unit_price 25_000).bytes
      1
      (width_of set_compute_unit_price)
    ≡ 25_000
compute_budget_instruction-carries_example =
    compute_budget_instruction-carries set_compute_unit_price 25_000 (omega arith)
