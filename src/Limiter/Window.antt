-- ===== src/Limiter/Window.antt =====
-- No second has more requests than the rate, and a caller sleeps at most once.
use mathlib.Core.List.{append_assoc}
use accrue.Base.{
  ℕ, ◌+◌, ◌≤◌, ◌<◌, ◌≡◌, ◌⊎◌, refl, sym, ap, ◌∙◌, inl, inr, arith, leb, ltb, Bool, true, Bool-cases,
  List, [], ◌∷◌, ◌++◌, All, length, length-append, count_if, count_if-append,
}
use accrue.Limiter.{taken, must_sleep, look, shift_the_old, sleep_until_old}

-- What the limiter comes to: all the starts that it allowed, those that it keeps, and the last
-- reading of the clock, which does not run back.
pub data Reached (requests_per_second : ℕ) : List ℕ → List ℕ → ℕ → Type 0 where
  created : (now : ℕ) → Reached requests_per_second [] [] now
  turn_taken :
      {history started left : List ℕ} {last now : ℕ}
      → Reached requests_per_second history started last
      → last ≤ now
      → look requests_per_second now started ≡ taken left
      → Reached requests_per_second (history ++ (now ∷ [])) left now
  slept :
      {history started left : List ℕ} {last now milliseconds : ℕ}
      → Reached requests_per_second history started last
      → last ≤ now
      → look requests_per_second now started ≡ must_sleep left milliseconds
      → Reached requests_per_second history left now

-- The starts of less than a second before `now`.
abbrev pub in_the_second_before : ℕ → List ℕ → ℕ
in_the_second_before now = count_if (λ start. ltb now (start + 1_000))

-- The limiter has let go only of starts that are a second old, and keeps at most its rate.
record IsWindow (requests_per_second : ℕ) (history started : List ℕ) (last : ℕ) : Type 0 where
  gone : List ℕ
  split : history ≡ gone ++ started
  old : All (λ start. start + 1_000 ≤ last) gone
  few : length started ≤ requests_per_second

shift_the_old-split :
    (now : ℕ) (started : List ℕ)
    → (gone : List ℕ) × (started ≡ gone ++ shift_the_old now started)
      × All (λ start. start + 1_000 ≤ now) gone
unfolding shift_the_old
shift_the_old-split now [] = ([], refl, tt)
shift_the_old-split now (start ∷ later) = elim (Bool-cases (leb (start + 1_000) now)) [
  | inl e ↦
      let (gone, split, old) = shift_the_old-split now later in
      let is_old : start + 1_000 ≤ now = ground arith in
      rw (shift_the_old, e) (start ∷ gone, ap (λ l. start ∷ l) split, (is_old, old))
  | inr e ↦ rw (shift_the_old, e) ([], refl, tt)
]

All-append :
    (last now : ℕ) (xs ys : List ℕ)
    → last ≤ now
    → All (λ start. start + 1_000 ≤ last) xs
    → All (λ start. start + 1_000 ≤ now) ys
    → All (λ start. start + 1_000 ≤ now) (xs ++ ys)
All-append last now [] ys h a b = b
All-append last now (x ∷ xs) ys h a b = (omega arith, All-append last now xs ys h a.1 b)

count_if-old :
    (last now : ℕ) (xs : List ℕ)
    → last ≤ now
    → All (λ start. start + 1_000 ≤ last) xs
    → in_the_second_before now xs ≡ 0
count_if-old last now [] h a = refl
count_if-old last now (x ∷ xs) h a =
    let rest = count_if-old last now xs h a.1 in let older = a.0 in ground arith

count_if-le : (p : ℕ → Bool) (xs : List ℕ) → count_if p xs ≤ length xs
count_if-le p [] = omega arith
count_if-le p (x ∷ xs) = let rest = count_if-le p xs in ground arith

-- Shifting keeps the window.
shifted-IsWindow :
    (requests_per_second last now : ℕ) (history started : List ℕ)
    → last ≤ now
    → IsWindow requests_per_second history started last
    → IsWindow requests_per_second history (shift_the_old now started) now
shifted-IsWindow requests_per_second last now history started h w =
    let (gone, split, old) = shift_the_old-split now started in
    record {
      gone = w.gone ++ gone;
      split =
          w.split
          ∙ (ap (λ l. w.gone ++ l) split
              ∙ sym (append_assoc w.gone gone (shift_the_old now started)));
      old = All-append last now w.gone gone h w.old old;
      few = omega (arith, w.few, ap length split, length-append gone (shift_the_old now started));
    }

look-cases :
    (requests_per_second now : ℕ) (started : List ℕ)
    → ((length (shift_the_old now started) < requests_per_second)
        × (look requests_per_second now started ≡ taken (shift_the_old now started ++ (now ∷ []))))
      ⊎ ((requests_per_second ≤ length (shift_the_old now started))
          × (look requests_per_second now started
              ≡ must_sleep
                  (shift_the_old now started)
                  (sleep_until_old now (shift_the_old now started))))
unfolding look
look-cases requests_per_second now started =
    elim (Bool-cases (ltb (length (shift_the_old now started)) requests_per_second)) [
      | inl e ↦ rw e (inl (ground arith, refl))
      | inr e ↦ rw e (inr (ground arith, refl))
    ]

taken-injective : {a b : List ℕ} → taken a ≡ taken b → a ≡ b
taken-injective h = cc

must_sleep-injective :
    {a b : List ℕ} {m n : ℕ} → must_sleep a m ≡ must_sleep b n → (a ≡ b) × (m ≡ n)
must_sleep-injective h = (cc, cc)

taken-IsWindow :
    (requests_per_second now : ℕ) (history started : List ℕ)
    → length started < requests_per_second
    → IsWindow requests_per_second history started now
    → IsWindow requests_per_second (history ++ (now ∷ [])) (started ++ (now ∷ [])) now
taken-IsWindow requests_per_second now history started h w = record {
  gone = w.gone;
  split = ap (λ l. l ++ (now ∷ [])) w.split ∙ append_assoc w.gone started (now ∷ []);
  old = w.old;
  few = omega (arith, length-append started (now ∷ []));
}

Reached-IsWindow :
    {requests_per_second : ℕ} {history started : List ℕ} {last : ℕ}
    → Reached requests_per_second history started last
    → IsWindow requests_per_second history started last
Reached-IsWindow (created now) = record { gone = []; split = refl; old = tt; few = omega arith }
Reached-IsWindow {requests_per_second = rate}
      (turn_taken {history} {started} {left} {last} {now} r h e) =
    let w = shifted-IsWindow rate last now history started h (Reached-IsWindow r) in
    elim (look-cases rate now started) [
      | inl (room, e') ↦
          rw (sym (taken-injective (sym e' ∙ e)))
            (taken-IsWindow rate now history (shift_the_old now started) room w)
      | inr (full, e') ↦ cc
    ]
Reached-IsWindow {requests_per_second = rate}
      (slept {history} {started} {left} {last} {now} r h e) =
    let w = shifted-IsWindow rate last now history started h (Reached-IsWindow r) in
    elim (look-cases rate now started) [
      | inl (room, e') ↦ cc
      | inr (full, e') ↦ rw (sym (must_sleep-injective (sym e' ∙ e)).0) w
    ]

-- Whatever the limiter has come to, and at every reading of the clock from then on, the starts that
-- it allowed in the second before are at most its rate.
pub Reached-at_most_the_rate :
    {requests_per_second : ℕ} {history started : List ℕ} {last : ℕ} (now : ℕ)
    → Reached requests_per_second history started last
    → last ≤ now
    → in_the_second_before now history ≤ requests_per_second
Reached-at_most_the_rate {started = started} {last = last} now r h =
    let w = Reached-IsWindow r in
    let recent : ℕ → Bool = λ start. ltb now (start + 1_000) in
    omega (
      arith,
      w.few,
      ap (count_if recent) w.split,
      count_if-append recent w.gone started,
      count_if-old last now w.gone h w.old,
      count_if-le recent started,
    )

length-shift_the_old-le :
    (now : ℕ) (started : List ℕ) → length (shift_the_old now started) ≤ length started
length-shift_the_old-le now started =
    let (gone, split, old) = shift_the_old-split now started in
    omega (arith, ap length split, length-append gone (shift_the_old now started))

room_after_sleeping :
    (requests_per_second now later : ℕ) (left : List ℕ)
    → 0 < requests_per_second
    → length left ≤ requests_per_second
    → now + sleep_until_old now left ≤ later
    → length (shift_the_old later left) < requests_per_second
unfolding shift_the_old sleep_until_old
room_after_sleeping rate now later [] h k l = omega arith
room_after_sleeping rate now later (oldest ∷ rest) h k l =
    let is_old : leb (oldest + 1_000) later ≡ true = ground arith in
    rw (shift_the_old, is_old) (omega (arith, length-shift_the_old-le later rest))

-- After the sleep that a full window asks for, the turn is taken: a rate that is not zero makes a
-- caller sleep at most once when the limiter keeps no more than its rate.
pub look_after_sleeping :
    (requests_per_second now later milliseconds : ℕ) (started left : List ℕ)
    → 0 < requests_per_second
    → length started ≤ requests_per_second
    → look requests_per_second now started ≡ must_sleep left milliseconds
    → now + milliseconds ≤ later
    → (left' : List ℕ) × (look requests_per_second later left ≡ taken left')
look_after_sleeping rate now later milliseconds started left h k e l =
    elim (look-cases rate now started) [
      | inl (room, e') ↦ cc
      | inr (full, e') ↦
          let (same, lasts) = must_sleep-injective (sym e' ∙ e) in
          let room =
            room_after_sleeping rate now later left h
              (rw (sym same) (omega (arith, length-shift_the_old-le now started)))
              (omega (arith, l, lasts, ap (sleep_until_old now) same)) in
          elim (look-cases rate later left) [
            | inl (_, taken_then) ↦ (_, taken_then)
            | inr (none_left, _) ↦ absurd (omega (arith, room, none_left))
          ]
    ]
