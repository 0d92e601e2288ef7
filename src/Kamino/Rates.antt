-- ===== src/Kamino/Rates.antt =====
-- packages/solana/src/kamino/rates.ts: what a borrower pays and a depositor earns. A rate between two
-- points is a quotient over their span, rounded to the nearest as `Math.round` does.
pub mod Between
mod Examples
use accrue.Base.{ℕ, ◌+◌, ◌-◌, ◌*◌, ◌/◌, ◌^◌, leb, ◌==◌, Bool, List, [], ◌∷◌, if◌then◌else◌}
use accrue.Base.Int.{ℤ, sub_ℕ}
use accrue.Kamino.Reserve.{BorrowCurvePoint, ReserveSnapshot}

abbrev pub basis_points : ℕ
basis_points = 10_000

abbrev pub scaled_fraction_one : ℕ
scaled_fraction_one = 2 ^ 60

abbrev pub percent : ℕ
percent = 100

unfoldable pub utilisation_bps : ReserveSnapshot → ℕ
utilisation_bps reserve =
    let borrowed = reserve.liquidity_borrowed_scaled / scaled_fraction_one in
    let total = borrowed + reserve.liquidity_available_amount in
    if total == 0 then 0 else borrowed * basis_points / total

unfoldable pub usable_points : List BorrowCurvePoint → List BorrowCurvePoint
usable_points [] = []
usable_points (point ∷ points) =
    let rest = usable_points points in
    if leb basis_points point.utilisation_bps then point ∷ [] else point ∷ rest

-- `Math.round(below + rise * (at - from) / span)`, brought over the span.
unfoldable pub rate_between : BorrowCurvePoint → BorrowCurvePoint → ℕ → ℕ
rate_between below above at =
    let span = above.utilisation_bps - below.utilisation_bps in
    let into = at - below.utilisation_bps in
    let weighed = below.borrow_rate_bps * (span - into) + above.borrow_rate_bps * into in
    (2 * weighed + span) / (2 * span)

-- The loop over the points, with the one below the next.
unfoldable pub rate_above : ℕ → BorrowCurvePoint → List BorrowCurvePoint → ℕ
unfolding rate_between
rate_above at below [] = below.borrow_rate_bps
rate_above at below (above ∷ points) =
    let rest = rate_above at above points in
    if leb at above.utilisation_bps
    then (if leb above.utilisation_bps below.utilisation_bps
        then above.borrow_rate_bps
        else rate_between below above at)
    else rest

unfoldable pub rate_at : ℕ → List BorrowCurvePoint → ℕ
unfolding rate_above
rate_at at [] = 0
rate_at at (first ∷ points) =
    if leb at first.utilisation_bps then first.borrow_rate_bps else rate_above at first points

unfoldable pub borrow_rate_bps : ReserveSnapshot → ℕ
unfolding rate_at utilisation_bps usable_points
borrow_rate_bps reserve =
    rate_at (utilisation_bps reserve) (usable_points reserve.borrow_rate_curve)

-- What is kept may be more than what is paid where the share is over the whole.
unfoldable pub supply_rate_bps : ReserveSnapshot → ℤ
unfolding borrow_rate_bps utilisation_bps
supply_rate_bps reserve =
    let paid = borrow_rate_bps reserve * utilisation_bps reserve / basis_points in
    sub_ℕ paid (paid * reserve.protocol_take_rate_pct / percent)
