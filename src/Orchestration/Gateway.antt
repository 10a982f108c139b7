-- ===== src/Orchestration/Gateway.antt =====
-- `ModelGateway.invoke` of app/modules/orchestration/gateway.py.
use Prim.Native.String.{◌++◌ as append}
use fast_api_layers.Prelude.{ℕ, zero, suc, ◌+◌, ◌*◌, String, [], ◌∷◌, ltb, if◌then◌else◌}
use fast_api_layers.Value.{Value, int, float, text, obj, Fields, end, dict, get_or, truthy}
use fast_api_layers.Effect.{ok, Action, pure, lift, catch, ◌>>=◌}
use fast_api_layers.Platform.{Host, str}
use fast_api_layers.Orchestration.Run.{Machine, Run, perf_counter, elapsed_ms, mapping}

-- app/modules/orchestration/schemas.py
pub record ModelInvocationResult : Type 0 where
  pub content : String
  pub latency_ms : ℕ
  pub token_input : ℕ
  pub token_output : ℕ
  pub cost_usd : ℕ
  pub model_name : String
  pub provider : String

-- `result.model_dump(mode="json")`
unfoldable pub dump_result : ModelInvocationResult → Fields
dump_result r = dict (
    ("content", text r.content)
    ∷ ("latency_ms", float r.latency_ms)
    ∷ ("token_input", int r.token_input)
    ∷ ("token_output", int r.token_output)
    ∷ ("cost_usd", float r.cost_usd)
    ∷ ("model_name", text r.model_name)
    ∷ ("provider", text r.provider)
    ∷ [])

-- `s[:n]`
unfoldable pub take_chars : ℕ → String → String
take_chars zero s = String.[]
take_chars (suc n) String.[] = String.[]
take_chars (suc n) (String.◌∷◌ c s) = String.◌∷◌ c (take_chars n s)

-- `max(1, words * 2)`
abbrev pub token_count : ℕ → ℕ
token_count words = if ltb 1 (words * 2) then words * 2 else 1

module _ ⦃h : Host⦄ where
  -- `str(v or default)`
  abbrev pub or_text : Value → String → String
  or_text v default = if truthy v then str v else default

  unfoldable pub fallback_response : String → Value → String
  unfolding take_chars
  fallback_response prompt model_name = append "[" (
      append (or_text model_name "mock-model")
        (append "] synthesized response for: " (take_chars 240 prompt)))

  -- the number of this POST
  unfoldable pub next_post : Action Run ℕ
  next_post s = (ok s.posts, record s { posts = s.posts + 1 })

  module _ ⦃m : Machine⦄ where
    -- the content of the endpoint's reply
    unfoldable pub call_endpoint : Value → String → Value → Action Run String
    call_endpoint endpoint_url prompt model_name = do
      posted ← next_post
      reply ←
          lift
            (m.post posted (append (m.rstrip_slash (str endpoint_url)) "/invoke") prompt model_name)
      body ← lift (mapping reply)
      pure (str (get_or "content" (text "") body))

    unfoldable pub content_of : String → Value → Value → Action Run String
    content_of prompt endpoint_url model_name =
        if truthy endpoint_url
        then catch (call_endpoint endpoint_url prompt model_name)
            (λ e. pure (fallback_response prompt model_name))
        else pure (fallback_response prompt model_name)

    -- `n / 1000 * rate`
    abbrev pub cost_of_tokens : ℕ → ℕ → ℕ
    cost_of_tokens n rate = m.times (m.over (m.of_nat n) (m.of_nat 1000)) rate

    -- The default rates are the doubles 0.001 and 0.002.
    unfoldable pub invoke :
        String → Value → Value → Value → Value → Action Run ModelInvocationResult
    invoke prompt endpoint_url provider model_name pricing = do
      started ← perf_counter
      content ← content_of prompt endpoint_url model_name
      latency_ms ← elapsed_ms started
      let token_input = token_count (m.words prompt)
      let token_output = token_count (m.words content)
      rates ← lift (mapping (if truthy pricing then pricing else obj end))
      input_rate ← lift (m.to_float (get_or "input_per_1k" (float 4562254508917369340) rates))
      output_rate ← lift (m.to_float (get_or "output_per_1k" (float 4566758108544739836) rates))
      pure (record {
        content = content;
        latency_ms = latency_ms;
        token_input = token_input;
        token_output = token_output;
        cost_usd =
            m.plus (cost_of_tokens token_input input_rate)
              (cost_of_tokens token_output output_rate);
        model_name = or_text model_name "mock-model";
        provider = or_text provider "mock";
      })
