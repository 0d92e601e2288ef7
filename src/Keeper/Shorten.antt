-- ===== src/Keeper/Shorten.antt =====
-- packages/core/src/logging/shorten.ts: addresses are shortened before they are written anywhere.
-- A text is a list of code points, which are the units that the source counts where it matters:
-- addresses, signatures and amounts.
use accrue.Base.{
  ℕ, ◌-◌, ◌*◌, leb, Bool, true, false, ◌&&◌, ◌||◌, [], ◌∷◌, ◌++◌, length, take, drop, if◌then◌else◌,
}
use accrue.Base.Text.{Text}

abbrev pub kept_at_each_end : ℕ
kept_at_each_end = 4

abbrev pub shortest_encoded_key : ℕ
shortest_encoded_key = 32

-- The horizontal ellipsis.
abbrev pub ellipsis : ℕ
ellipsis = 0x2026

unfoldable pub shorten_address : Text → Text
shorten_address value =
    if leb (length value) (kept_at_each_end * 2)
    then value
    else take kept_at_each_end value ++ (ellipsis ∷ drop (length value - kept_at_each_end) value)

abbrev between : ℕ → ℕ → ℕ → Bool
between first last c = leb first c && leb c last

-- `[A-HJ-NP-Za-km-z]`
unfoldable pub is_a_letter : ℕ → Bool
is_a_letter c =
    between b'A' b'H' c
    || between b'J' b'N' c
    || between b'P' b'Z' c
    || between b'a' b'k' c
    || between b'm' b'z' c

-- `[1-9A-HJ-NP-Za-km-z]`
unfoldable pub is_base58 : ℕ → Bool
unfolding is_a_letter
is_base58 c = between b'1' b'9' c || is_a_letter c

unfoldable pub has_a_letter : Text → Bool
unfolding is_a_letter
has_a_letter [] = false
has_a_letter (c ∷ cs) = is_a_letter c || has_a_letter cs

-- What the replacement puts for a run of base58 characters that nothing of its kind surrounds.
unfoldable pub replace_run : Text → Text
unfolding shorten_address has_a_letter
replace_run run =
    if leb shortest_encoded_key (length run) && has_a_letter run then shorten_address run else run

-- The line with each longest run replaced; `run` is what the scan has read of the current one.
unfoldable pub replace_runs : Text → Text → Text
unfolding replace_run is_base58
replace_runs run [] = replace_run run
replace_runs run (c ∷ cs) = elim (is_base58 c) [
  | true ↦ replace_runs (run ++ (c ∷ [])) cs
  | false ↦ replace_run run ++ (c ∷ replace_runs [] cs)
]

unfoldable pub shorten_every_address : Text → Text
unfolding replace_runs
shorten_every_address line = replace_runs [] line
