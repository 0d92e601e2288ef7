-- ===== src/Server/Env.antt =====
-- apps/web/src/server/env.ts: settings. The variables of the process are a function, and so is what
-- `Number` makes of one where that is finite; a setting is a whole number that is not negative.
use accrue.Base.{ℕ, Option, none, some, [], ◌∷◌}
use accrue.Base.Outcome.{Outcome, ok, throw}
use accrue.Base.Text.{Text}

pub record Environment : Type 0 where
  -- `process.env[name]`
  pub variable : Text → Option Text
  -- `Number(process.env[name])` where it is finite
  pub finite_number : Text → Option ℕ

-- The variable that an `Error` says is not set.
pub data Unset : Type 0 where
  is_not_set : Text → Unset

unfoldable pub required : Environment → Text → Outcome Unset Text
required environment name = elim (environment.variable name) [
  | none ↦ throw (is_not_set name)
  | some value ↦ elim value [ [] ↦ throw (is_not_set name) | c ∷ cs ↦ ok (c ∷ cs) ]
]

unfoldable pub number : Environment → Text → ℕ → ℕ
number environment name fallback = elim (environment.finite_number name) [
  | some value ↦ value
  | none ↦ fallback
]
