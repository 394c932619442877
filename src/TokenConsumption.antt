-- ===== src/TokenConsumption.antt =====
-- src/token_consumption.rs: the token counts of a run. `add_counts` writes its fields one by one, so
-- a late overflow leaves the earlier writes: the new counts come back beside the error.
-- The reading of a provider's JSON line is not modelled; its three counts are the arguments.
pub mod Totals
use rustgrid_agent.Prelude.{ℕ, ◌+◌, Bool, true, false, Option, none, some, ltb, if◌then◌else◌}
use rustgrid_agent.Words.{u64_max}

pub record TokenConsumption : Type 0 where
  pub input_tokens : ℕ  -- u64
  pub cached_input_tokens : ℕ  -- u64
  pub output_tokens : ℕ  -- u64

abbrev pub no_tokens : TokenConsumption
no_tokens = record { input_tokens = 0; cached_input_tokens = 0; output_tokens = 0 }

-- `u64::checked_add`
unfoldable pub checked_add : ℕ → ℕ → Option ℕ
checked_add a b = if ltb u64_max (a + b) then none else some (a + b)

unfoldable pub total_tokens : TokenConsumption → Option ℕ
unfolding checked_add
total_tokens t = checked_add t.input_tokens t.output_tokens

pub data AddError : Type 0 where
  cached_exceeds_input input_overflow cached_overflow output_overflow total_overflow : AddError

abbrev checked_total : TokenConsumption → Option ℕ → TokenConsumption × Option AddError
checked_total t none = (t, some AddError.total_overflow)
checked_total t (some total) = (t, none)

abbrev write_output : TokenConsumption → Option ℕ → TokenConsumption × Option AddError
write_output t none = (t, some AddError.output_overflow)
write_output t (some n) =
    let t' : TokenConsumption = record t { output_tokens = n } in checked_total t' (total_tokens t')

abbrev write_cached : TokenConsumption → ℕ → Option ℕ → TokenConsumption × Option AddError
write_cached t output none = (t, some AddError.cached_overflow)
write_cached t output (some n) =
    write_output (record t { cached_input_tokens = n }) (checked_add t.output_tokens output)

abbrev write_input : TokenConsumption → ℕ → ℕ → Option ℕ → TokenConsumption × Option AddError
write_input t cached output none = (t, some AddError.input_overflow)
write_input t cached output (some n) =
    write_cached (record t { input_tokens = n }) output (checked_add t.cached_input_tokens cached)

unfoldable pub add_counts : TokenConsumption → ℕ → ℕ → ℕ → TokenConsumption × Option AddError
unfolding checked_add total_tokens
add_counts t input_tokens cached_input_tokens output_tokens =
    if ltb input_tokens cached_input_tokens
    then (t, some AddError.cached_exceeds_input)
    else write_input t cached_input_tokens output_tokens (checked_add t.input_tokens input_tokens)
