-- ===== src/Tokens.antt =====
-- The token counters that a usage report comes to, packages/agentenkit/src/core/usage.ts
-- (attributeTokens, fillTokens and the counters beside them). A reported number is a natural number
-- or is not finite; the fields of the provider's metadata are those that the code reads.
pub mod Attribution
mod Samples
use agentic_kit.Base.{
  ℕ, ◌+◌, ◌-◌, Bool, true, false, List, [], ◌∷◌, Option, none, some, ltb, if◌then◌else◌,
}

pub data Reported : Type 0 where
  finite : ℕ → Reported
  not_finite : Reported

pub record InputTokenDetails : Type 0 where
  pub no_cache_tokens : Option Reported
  pub cache_read_tokens : Option Reported
  pub cache_write_tokens_reported : Option Reported

pub record UsageLike : Type 0 where
  pub input : Option Reported
  pub cached_input : Option Reported
  pub output : Option Reported
  pub prompt : Option Reported
  pub completion : Option Reported
  pub input_token_details : Option InputTokenDetails
  pub output_reasoning : Option Reported
  pub reasoning : Option Reported

pub record ProviderMetadataLike : Type 0 where
  pub openai_cached_prompt_tokens : Option Reported
  pub openai_reasoning_tokens : Option Reported
  pub anthropic_cache_read_input_tokens : Option Reported
  pub anthropic_cache_creation_input_tokens : Option Reported
  pub bedrock_cache_write_input_tokens : Option Reported

pub record TokenAttribution : Type 0 where
  pub input_tokens : ℕ
  pub cached_input_tokens : ℕ
  pub output_tokens : ℕ
  pub total_tokens : ℕ

-- The first that is a finite number, and 0 if none is.
unfoldable pub pick : List (Option Reported) → ℕ
pick [] = 0
pick (some (finite n) ∷ vals) = n
pick (some not_finite ∷ vals) = pick vals
pick (none ∷ vals) = pick vals

pub record InputSplit : Type 0 where
  pub cache_read : ℕ
  pub no_cache : ℕ

unfoldable pub split_of : UsageLike → InputTokenDetails → InputSplit
split_of u d = record {
  cache_read = pick (d.cache_read_tokens ∷ []);
  no_cache = no_cache_of d.no_cache_tokens;
}
  where
    no_cache_of : Option Reported → ℕ
    no_cache_of (some n) = pick (some n ∷ [])
    no_cache_of none =
        (pick (u.input ∷ []) - pick (d.cache_read_tokens ∷ []))
        - pick (d.cache_write_tokens_reported ∷ [])

abbrev pub reads_details :
    UsageLike → InputTokenDetails → Option Reported → Option Reported → Option InputSplit
reads_details u d none none = none
reads_details u d none (some n) = some (split_of u d)
reads_details u d (some m) n = some (split_of u d)

abbrev pub details_in : UsageLike → Option InputTokenDetails → Option InputSplit
details_in u none = none
details_in u (some d) = reads_details u d d.cache_read_tokens d.no_cache_tokens

unfoldable pub input_details : UsageLike → Option InputSplit
input_details u = details_in u u.input_token_details

abbrev pub reported_input : UsageLike → ℕ
reported_input u = pick (u.input ∷ u.prompt ∷ [])

abbrev pub reported_output : UsageLike → ℕ
reported_output u = pick (u.output ∷ u.completion ∷ [])

-- Without the split, a cache hit is read from the metadata.
abbrev pub from_metadata : UsageLike → ProviderMetadataLike → TokenAttribution
from_metadata u meta =
    let openai_cached = pick (meta.openai_cached_prompt_tokens ∷ []) in
    let anthropic_cached = pick (meta.anthropic_cache_read_input_tokens ∷ []) in
    let cached = (pick (u.cached_input ∷ []) + openai_cached) + anthropic_cached in
    let fresh =
      if ltb 0 openai_cached then reported_input u - openai_cached else reported_input u in
    record {
      input_tokens = fresh;
      cached_input_tokens = cached;
      output_tokens = reported_output u;
      total_tokens = (fresh + cached) + reported_output u;
    }

abbrev pub from_split : UsageLike → ProviderMetadataLike → Option InputSplit → TokenAttribution
from_split u meta none = from_metadata u meta
from_split u meta (some d) = record {
  input_tokens = d.no_cache;
  cached_input_tokens = d.cache_read;
  output_tokens = reported_output u;
  total_tokens = (d.no_cache + d.cache_read) + reported_output u;
}

unfoldable pub attribute_tokens : UsageLike → ProviderMetadataLike → TokenAttribution
attribute_tokens u meta = from_split u meta (input_details u)

unfoldable pub count_tokens : UsageLike → ProviderMetadataLike → ℕ
count_tokens u meta = (attribute_tokens u meta).total_tokens

abbrev pub reported_writes : Option InputTokenDetails → Option Reported
reported_writes none = none
reported_writes (some d) = d.cache_write_tokens_reported

unfoldable pub cache_write_tokens : ProviderMetadataLike → UsageLike → ℕ
cache_write_tokens meta u = pick (
    reported_writes u.input_token_details
    ∷ meta.anthropic_cache_creation_input_tokens
    ∷ meta.bedrock_cache_write_input_tokens
    ∷ [])

unfoldable pub reasoning_tokens : UsageLike → ProviderMetadataLike → ℕ
reasoning_tokens u meta =
    pick (u.output_reasoning ∷ u.reasoning ∷ meta.openai_reasoning_tokens ∷ [])

pub record FilledTokens : Type 0 where
  pub filled_input : ℕ
  pub filled_cache_read : ℕ
  pub filled_cache_write : ℕ
  pub filled_output : ℕ
  pub filled_reasoning : ℕ
  pub filled_total : ℕ

unfoldable pub fill_tokens : UsageLike → ProviderMetadataLike → FilledTokens
fill_tokens u meta =
    let a = attribute_tokens u meta in
    record {
      filled_input = a.input_tokens;
      filled_cache_read = a.cached_input_tokens;
      filled_cache_write = cache_write_tokens meta u;
      filled_output = a.output_tokens;
      filled_reasoning = reasoning_tokens u meta;
      filled_total = a.total_tokens;
    }
