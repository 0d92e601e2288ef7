-- ===== src/Core/Freshness.antt =====
-- packages/core/src/positions/freshness.ts, terms/terms.ts and risk/acknowledgement.ts: the age of a
-- quote and of a price, and the versions of the texts that a wallet accepts.
use accrue.Base.{ℕ, ◌/◌, ltb, ◌==◌, Bool, false, ◌&&◌, Option, none, some}
use accrue.Base.Int.{pos, negsuc, sub_ℕ}

abbrev pub quote_lifetime_seconds : ℕ
quote_lifetime_seconds = 60

abbrev pub a_second_in_milliseconds : ℕ
a_second_in_milliseconds = 1_000

-- A negative age, rounded down, is still negative and counts as none.
unfoldable pub quote_age_seconds : ℕ → ℕ → ℕ
quote_age_seconds quoted_at now = elim (sub_ℕ now quoted_at) [
  | pos age ↦ age / a_second_in_milliseconds
  | negsuc ahead ↦ 0
]

unfoldable pub the_quote_is_stale : ℕ → ℕ → Bool
unfolding quote_age_seconds
the_quote_is_stale quoted_at now = ltb quote_lifetime_seconds (quote_age_seconds quoted_at now)

unfoldable pub the_price_is_too_old : ℕ → ℕ → Bool
the_price_is_too_old age_in_slots max_price_age_slots =
    ltb 0 max_price_age_slots && ltb max_price_age_slots age_in_slots

abbrev pub current_terms_version : ℕ
current_terms_version = 1

abbrev pub current_risk_acknowledgement_version : ℕ
current_risk_acknowledgement_version = 1

unfoldable pub terms_are_current : Option ℕ → Bool
terms_are_current none = false
terms_are_current (some version) = version == current_terms_version

unfoldable pub acknowledgement_is_current : Option ℕ → Bool
acknowledgement_is_current none = false
acknowledgement_is_current (some version) = version == current_risk_acknowledgement_version
