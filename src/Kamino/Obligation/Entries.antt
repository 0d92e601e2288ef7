-- ===== src/Kamino/Obligation/Entries.antt =====
-- The entries of an obligation: which reserves the snapshot lists, and which amount it finds.
use accrue.Base.{
  ℕ, zero, suc, ◌+◌, ◌*◌, ◌<◌, ◌≤◌, ◌≡◌, refl, sym, ◌==◌, ◌⊎◌, inl, inr, arith, Bool, true, false,
  Bool-cases, List,
}
use accrue.Base.Text.{Text, same_text}
use accrue.Kamino.Bytes.{unsigned_at, address_at}
use accrue.Kamino.Obligation.{
  amount_from, deposited_amount_for, borrowed_amount_scaled_for, obligation_deposits,
  obligation_borrows, deposit_entry_length, borrow_entry_length, deposit_deposited_amount,
  borrow_borrowed_amount, max_obligation_deposits, max_obligation_borrows,
}

-- The entries of one kind in an account: `count` of them from `first` on.
pub record Entries : Type 0 where
  pub bytes : List ℕ
  pub first : ℕ
  pub entry_length : ℕ
  -- Where the amount stands in an entry, and how many bytes it takes.
  pub inside : ℕ
  pub width : ℕ

abbrev pub base : Entries → ℕ → ℕ
base entries slot = entries.first + slot * entries.entry_length

abbrev pub deposits : List ℕ → Entries
deposits bytes = record {
  bytes = bytes;
  first = obligation_deposits;
  entry_length = deposit_entry_length;
  inside = deposit_deposited_amount;
  width = 8;
}

abbrev pub borrows : List ℕ → Entries
borrows bytes = record {
  bytes = bytes;
  first = obligation_borrows;
  entry_length = borrow_entry_length;
  inside = borrow_borrowed_amount;
  width = 16;
}

module _ (base58 : List ℕ → Text) where
  -- Whether an entry names a reserve.
  abbrev pub names : Entries → Text → ℕ → Bool
  names entries reserve slot =
      same_text (address_at base58 entries.bytes (base entries slot)) reserve

  -- The amount is that of the first entry from `from` on that names the reserve.
  pub record IsFirstAmount (entries : Entries) (reserve : Text) (from count amount : ℕ)
      : Type 0 where
    pub slot : ℕ
    pub from-le : from ≤ slot
    pub lt-count : slot < count
    pub named : names entries reserve slot ≡ true
    pub earlier : (i : ℕ) → from ≤ i → i < slot → names entries reserve i ≡ false
    pub amount_eq :
        amount ≡ unsigned_at entries.bytes (base entries slot + entries.inside) entries.width

  abbrev pub IsNowhere : Entries → Text → ℕ → ℕ → Type 0
  IsNowhere entries reserve from count =
      (i : ℕ) → from ≤ i → i < count → names entries reserve i ≡ false

  abbrev pub IsAmountOf : Entries → Text → ℕ → ℕ → ℕ → Type 0
  IsAmountOf entries reserve from count amount =
      IsFirstAmount entries reserve from count amount
      ⊎ (IsNowhere entries reserve from count × (amount ≡ 0))

  from_the_next :
      (entries : Entries) (reserve : Text) (index count : ℕ)
      → names entries reserve index ≡ false
      → IsNowhere entries reserve (index + 1) count
      → IsNowhere entries reserve index count
  from_the_next entries reserve index count e h i from under = elim (Bool-cases (index == i)) [
    | inl q ↦ let same : index ≡ i = ground arith in rw (sym same) e
    | inr q ↦ let after : index + 1 ≤ i = ground arith in h i after under
  ]

  amount_from-IsAmountOf :
      (entries : Entries) (reserve : Text) (left index : ℕ)
      → IsAmountOf entries reserve index (index + left) (
          amount_from base58 entries.bytes entries.first entries.entry_length entries.inside
            entries.width reserve left index)
  unfolding amount_from
  amount_from-IsAmountOf entries reserve zero index = inr (λ i h k. absurd (omega arith), refl)
  amount_from-IsAmountOf entries reserve (suc left) index =
      elim (Bool-cases (names entries reserve index)) [
        | inl e ↦ inl (record {
          slot = index;
          from-le = omega arith;
          lt-count = omega arith;
          named = e;
          earlier = λ i h k. absurd (omega arith);
          amount_eq = rw e refl;
        })
        | inr e ↦ elim (amount_from-IsAmountOf entries reserve left (index + 1)) [
          | inl f ↦ inl (record {
            slot = f.slot;
            from-le = omega arith;
            lt-count = omega arith;
            named = f.named;
            earlier = from_the_next entries reserve index f.slot e f.earlier;
            amount_eq = rw e f.amount_eq;
          })
          | inr (n, z) ↦ inr (
            λ i from under. from_the_next entries reserve index _ e n i from (omega arith),
            rw e z,
          )
        ]
      ]

  -- The amount that an obligation has of a reserve, deposited or borrowed, is read in the first
  -- of its eight deposits, or five borrows, that names the reserve, and is nothing when none does.
  pub amounts-IsAmountOf :
      (bytes : List ℕ) (reserve : Text)
      → IsAmountOf
          (deposits bytes)
          reserve
          0
          max_obligation_deposits
          (deposited_amount_for base58 bytes reserve)
        × IsAmountOf
            (borrows bytes)
            reserve
            0
            max_obligation_borrows
            (borrowed_amount_scaled_for base58 bytes reserve)
  unfolding deposited_amount_for borrowed_amount_scaled_for
  amounts-IsAmountOf bytes reserve = (
    amount_from-IsAmountOf (deposits bytes) reserve max_obligation_deposits 0,
    amount_from-IsAmountOf (borrows bytes) reserve max_obligation_borrows 0,
  )
