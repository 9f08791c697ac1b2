-- ===== src/Tokens/Samples.antt =====
-- Token counters of concrete reports.
use agentic_kit.Base.{none, some}
use agentic_kit.Tokens.{finite, UsageLike, ProviderMetadataLike}

abbrev reported : UsageLike
reported = record {
  input = some (finite 100);
  cached_input = none;
  output = some (finite 7);
  prompt = none;
  completion = none;
  input_token_details = some (record {
    no_cache_tokens = none;
    cache_read_tokens = some (finite 60);
    cache_write_tokens_reported = some (finite 30);
  });
  output_reasoning = none;
  reasoning = none;
}

abbrev no_metadata : ProviderMetadataLike
no_metadata = record {
  openai_cached_prompt_tokens = none;
  openai_reasoning_tokens = none;
  anthropic_cache_read_input_tokens = none;
  anthropic_cache_creation_input_tokens = none;
  bedrock_cache_write_input_tokens = none;
}
