-- ===== src/TokenConsumption/Totals.antt =====
-- The counts after adding.
use rustgrid_agent.Prelude.{ℕ, ◌+◌, ◌≤◌, ◌<◌, ◌≡◌, ◌↔◌, none, some, arith}
use rustgrid_agent.Words.{u64_max}
use rustgrid_agent.TokenConsumption.{TokenConsumption, AddError, total_tokens, add_counts}

pub record IsValid (t : TokenConsumption) : Type 0 where
  pub cached : t.cached_input_tokens ≤ t.input_tokens
  pub total : t.input_tokens + t.output_tokens ≤ u64_max

module _ (t : TokenConsumption) (i c o : ℕ) where
  -- On valid counts, an addition succeeds exactly when its cached part is within its input and the
  -- new total fits in a u64.
  pub add_counts_exact :
      IsValid t
      → ((add_counts t i c o).1 ≡ none)
        ↔ ((c ≤ i) × (t.input_tokens + i + (t.output_tokens + o) ≤ u64_max))
  unfolding add_counts
  add_counts_exact v = ground arith

  -- An addition that succeeds on valid counts leaves valid counts, in which each field has grown by
  -- its count.
  pub add_counts-IsValid :
      IsValid t
      → (add_counts t i c o).1 ≡ none
      → IsValid (add_counts t i c o).0
        × ((add_counts t i c o).0 ≡ record {
          input_tokens = t.input_tokens + i;
          cached_input_tokens = t.cached_input_tokens + c;
          output_tokens = t.output_tokens + o;
        })
  unfolding add_counts
  add_counts-IsValid v h = ground arith

  -- The error of a total that does not fit is reported after the fields were written: on valid counts
  -- and with the cached part within the input, where the new input and the new output fit and
  -- their total does not, every field has grown by its count and the counts have no total any more.
  pub add_counts_overflow :
      IsValid t
      → c ≤ i
      → t.input_tokens + i ≤ u64_max
      → t.output_tokens + o ≤ u64_max
      → u64_max < t.input_tokens + i + (t.output_tokens + o)
      → ((add_counts t i c o).1 ≡ some AddError.total_overflow)
        × ((add_counts t i c o).0 ≡ record {
          input_tokens = t.input_tokens + i;
          cached_input_tokens = t.cached_input_tokens + c;
          output_tokens = t.output_tokens + o;
        })
        × (total_tokens (add_counts t i c o).0 ≡ none)
  unfolding add_counts
  add_counts_overflow v h a b over = ground arith
