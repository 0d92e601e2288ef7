-- ===== src/Swap/Sandbox/Read.antt =====
-- What is read of a pool and of a mint.
use accrue.Base.{◌≤◌, ltb, ◌≡◌, refl, arith, ap, sym, ◌∙◌, Option, none, some, length}
use accrue.Base.Outcome.{ok, throw, first_returned, past_the_throw, ok-injective}
use accrue.Base.Text.{Text}
use accrue.Kamino.Bytes.{byte_at, unsigned_at}
use accrue.Swap.Route.{decode_mint_decimals}
use accrue.Swap.Sandbox.{
  decode_sandbox_pool, SandboxServices, SandboxPool, MintReading, Account, Reading, and_then,
  read_mint, mint_of,
}

-- The two numbers of a pool stand in the bytes of its account.
pub record RateIsOf (pool : SandboxPool) (account : Account) : Type 0 where
  pub numerator : pool.numerator ≡ unsigned_at account.bytes 168 8
  pub denominator : pool.denominator ≡ unsigned_at account.bytes 176 8

module _ {Network : Type 0} (services : SandboxServices Network) (swap_program : Text) where
  open services use {base58, pool_address, account_info}

  pub decode_sandbox_pool-RateIsOf :
      (account : Account) (pool : SandboxPool)
      → decode_sandbox_pool base58 account.bytes ≡ ok pool
      → RateIsOf pool account
  unfolding decode_sandbox_pool
  decode_sandbox_pool-RateIsOf account pool h =
      let (_, marked) = past_the_throw (ltb (length account.bytes) 185) _ _ h in
      let (_, rest) = past_the_throw _ _ _ marked in
      record {
        numerator = ap (λ (p : SandboxPool). p.numerator) (sym (ok-injective rest));
        denominator = ap (λ (p : SandboxPool). p.denominator) (sym (ok-injective rest));
      }

  -- A mint is read out of the account at its address: byte 44 is its decimals and the owner of the
  -- account its token program.
  pub record MintIsRead (mint : Text) (before : Network) (reading : MintReading) (after : Network)
      : Type 0 where
    pub account : Account
    pub found : account_info mint before ≡ (ok (some account), after)
    pub whole : 82 ≤ length account.bytes
    pub decimals : reading.decimals ≡ byte_at account.bytes 44
    pub token_program : reading.token_program ≡ account.owner

  pub returned :
      {A B : Type 0} (next : A → Network → Reading services swap_program B)
      (first : Reading services swap_program A) (result : B) (after : Network)
      → and_then services swap_program next first ≡ (ok result, after)
      → (value : A) × (w : Network) × (first ≡ (ok value, w)) × (next value w ≡ (ok result, after))
  returned next (ok value, w) result after h = (value, w, refl, h)
  returned next (throw failure, w) result after h = cc

  mint_of-ok :
      (account : Option Account) (reading : MintReading)
      → mint_of services swap_program account ≡ ok reading
      → (held : Account) × (account ≡ some held)
        × (82 ≤ length held.bytes)
        × (reading.decimals ≡ byte_at held.bytes 44)
        × (reading.token_program ≡ held.owner)
  unfolding decode_mint_decimals
  mint_of-ok none reading h = cc
  mint_of-ok (some held) reading h =
      let (decimals, read, made) = first_returned _ (decode_mint_decimals held.bytes) h in
      let (long, is_byte) = past_the_throw (ltb (length held.bytes) 82) _ _ read in
      let same = sym (ok-injective made) in
      (
        held,
        refl,
        ground arith,
        ap (λ (r : MintReading). r.decimals) same ∙ sym (ok-injective is_byte),
        ap (λ (r : MintReading). r.token_program) same,
      )

  pub read_mint-MintIsRead :
      (mint : Text) (before after : Network) (reading : MintReading)
      → read_mint services swap_program mint before ≡ (ok reading, after)
      → MintIsRead mint before reading after
  unfolding read_mint
  read_mint-MintIsRead mint before after reading h =
      let (account, w, found, made) =
        returned (λ account w. (mint_of services swap_program account, w))
          (account_info mint before) reading after h in
      let (held, is_held, long, decimals, program) =
        mint_of-ok account reading (ap (λ p. p.0) made) in
      record {
        account = held;
        found =
            found
            ∙ ap (λ (a : Option Account). (ok a, w)) is_held
            ∙ ap (λ (v : Network). (ok (some held), v)) (ap (λ p. p.1) made);
        whole = long;
        decimals = decimals;
        token_program = program;
      }
