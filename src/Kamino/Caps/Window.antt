-- ===== src/Kamino/Caps/Window.antt =====
-- The window of a cap: what is left in it, and when it starts again.
use accrue.Base.{ℕ, ◌+◌, ◌==◌, ◌≤◌, ◌<◌, ◌≡◌, ◌⊎◌, inl, inr, refl, arith, leb, true, Bool-cases}
use accrue.Base.Int.{
  ℤ, pos, negsuc, pos_part, neg_part, ◌≤ℤ◌, ◌<ℤ◌, ◌-ℤ◌, ◌+ℤ◌, ltb_ℤ, leb_ℤ, int_laws, -ℤ_parts,
}
use accrue.Kamino.Reserve.{WithdrawalCapSnapshot}
use accrue.Kamino.Caps.{CapacityLeft, remaining_of, capacity_left, uncapped, no_cap}

-- What a cap of `capacity` leaves of what was used: the rest, or nothing.
remaining_of-IsRest :
    (capacity used : ℤ)
    → ((used <ℤ capacity) × (remaining_of capacity used +ℤ used ≡ capacity))
      ⊎ ((capacity ≤ℤ used) × (remaining_of capacity used ≡ pos 0))
unfolding remaining_of
remaining_of-IsRest capacity used = elim (Bool-cases (ltb_ℤ used capacity)) [
  | inl e ↦ rw e (inl (ground arith, grind int_laws))
  | inr e ↦ rw e (inr (ground arith, refl))
]

one_part : (z : ℤ) → (pos_part z ≡ 0) ⊎ (neg_part z ≡ 0)
one_part (pos n) = inr refl
one_part (negsuc n) = inl refl

remaining_of-nonneg : (capacity used : ℤ) → pos 0 ≤ℤ remaining_of capacity used
unfolding remaining_of
remaining_of-nonneg capacity used = elim (Bool-cases (ltb_ℤ used capacity)) [
  | inl e ↦
      let under : used <ℤ capacity = ground arith in
      rw e (omega (arith, -ℤ_parts capacity used, one_part (capacity -ℤ used)))
  | inr e ↦ rw e (omega arith)
]

remaining_of-unused : (capacity : ℤ) → pos 0 ≤ℤ capacity → remaining_of capacity (pos 0) ≡ capacity
unfolding remaining_of ◌-ℤ◌
remaining_of-unused (pos n) h = ground arith
remaining_of-unused (negsuc n) h = absurd (omega arith)

pub record IsWithinWindow (cap : WithdrawalCapSnapshot) (now : ℕ) (left : CapacityLeft)
    : Type 0 where
  pub capped : left.is_capped ≡ true
  pub capacity : left.capacity ≡ cap.capacity
  pub not_negative : pos 0 ≤ℤ left.remaining
  pub resets_later : now < left.window_resets_at
  pub rest :
      ((cap.window_started_at + cap.window_length_seconds ≤ now) × (left.remaining ≡ cap.capacity))
      ⊎ ((now < cap.window_started_at + cap.window_length_seconds)
          × (((cap.used_in_this_window <ℤ cap.capacity)
                × (left.remaining +ℤ cap.used_in_this_window ≡ cap.capacity))
              ⊎ ((cap.capacity ≤ℤ cap.used_in_this_window) × (left.remaining ≡ pos 0))))

-- A cap is off when its capacity is below zero or its window is empty, and then nothing is shown
-- of it. Otherwise what is left is never negative, the window starts again after now, and what is
-- left is the whole capacity once the window has passed and until then the capacity less what was
-- used, or nothing when that is as much.
pub capacity_left_lem :
    (cap : WithdrawalCapSnapshot) (now : ℕ)
    → (((cap.capacity ≤ℤ no_cap) ⊎ (cap.window_length_seconds ≡ 0))
        × (capacity_left cap now ≡ uncapped))
      ⊎ IsWithinWindow cap now (capacity_left cap now)
unfolding capacity_left
capacity_left_lem cap now = elim (Bool-cases (leb_ℤ cap.capacity no_cap)) [
  | inl e ↦ inl (inl (ground arith), rw e refl)
  | inr e ↦ elim (Bool-cases (cap.window_length_seconds == 0)) [
    | inl e' ↦ inl (inr (ground arith), rw (e, e') refl)
    | inr e' ↦
        let positive : pos 0 ≤ℤ cap.capacity = ground arith in
        let some_length : 0 < cap.window_length_seconds = ground arith in
        elim (Bool-cases (leb (cap.window_started_at + cap.window_length_seconds) now)) [
          | inl e'' ↦
              let passed : cap.window_started_at + cap.window_length_seconds ≤ now = ground arith in
              inr (
                rw (e, e', e'')
                  (record {
                    capped = refl;
                    capacity = refl;
                    not_negative = remaining_of-nonneg cap.capacity (pos 0);
                    resets_later = omega arith;
                    rest = inl (passed, remaining_of-unused cap.capacity positive);
                  }))
          | inr e'' ↦
              let not_yet : now < cap.window_started_at + cap.window_length_seconds =
                ground arith in
              inr (
                rw (e, e', e'')
                  (record {
                    capped = refl;
                    capacity = refl;
                    not_negative = remaining_of-nonneg cap.capacity cap.used_in_this_window;
                    resets_later = not_yet;
                    rest = inr (not_yet, remaining_of-IsRest cap.capacity cap.used_in_this_window);
                  }))
        ]
  ]
]
