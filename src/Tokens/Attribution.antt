-- ===== src/Tokens/Attribution.antt =====
-- The counters of a row agree with what was reported.
use agentic_kit.Base.{ℕ, ◌+◌, ◌≤◌, ◌≡◌, refl, Option, none, some, arith}
use agentic_kit.Tokens.{
  finite, UsageLike, ProviderMetadataLike, InputTokenDetails, InputSplit, pick, split_of,
  input_details, from_split, attribute_tokens, count_tokens, cache_write_tokens, fill_tokens,
}

-- The total of a row is its fresh input, its cache reads and its output, whatever was reported.
pub fill_tokens-total :
    (u : UsageLike) (meta : ProviderMetadataLike)
    → let t = fill_tokens u meta in
      (t.filled_total ≡ (t.filled_input + t.filled_cache_read) + t.filled_output)
      × (t.filled_total ≡ count_tokens u meta)
unfolding fill_tokens attribute_tokens count_tokens
fill_tokens-total u meta = (split_total (input_details u), refl)
  where
    split_total :
        (d : Option InputSplit)
        → (from_split u meta d).total_tokens
          ≡ ((from_split u meta d).input_tokens + (from_split u meta d).cached_input_tokens)
            + (from_split u meta d).output_tokens
    split_total none = refl
    split_total (some d) = refl

-- A cache hit is counted once. Where the SDK reports its split without an uncached count, the row's
-- fresh input, cache reads and cache writes are together the input reported. Where it reports no
-- split and only OpenAI's metadata tells of a cache hit, the fresh input and the cache reads are.
pub fill_tokens-input :
    (u : UsageLike) (meta : ProviderMetadataLike) (total read writes : ℕ)
    → u.input ≡ some (finite total)
    → read + writes ≤ total
    → ((d : InputTokenDetails)
        → u.input_token_details ≡ some d
        → d.no_cache_tokens ≡ none
        → d.cache_read_tokens ≡ some (finite read)
        → d.cache_write_tokens_reported ≡ some (finite writes)
        → let t = fill_tokens u meta in
          (t.filled_input + t.filled_cache_read) + t.filled_cache_write ≡ total)
      × (u.input_token_details ≡ none
          → u.cached_input ≡ none
          → meta.anthropic_cache_read_input_tokens ≡ none
          → meta.openai_cached_prompt_tokens ≡ some (finite read)
          → (fill_tokens u meta).filled_input + (fill_tokens u meta).filled_cache_read ≡ total)
unfolding fill_tokens attribute_tokens input_details split_of pick cache_write_tokens
fill_tokens-input u meta total read writes e le = (
  λ d a b c w. simp (a, b, c, w, e) (omega (arith, le)),
  λ a b c o. simp (a, b, c, o, e) (ground (arith, le)),
)
