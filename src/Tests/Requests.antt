-- ===== src/Tests/Requests.antt =====
-- The theorems on streaming, authentication and the chat handler at concrete inputs.
use llm_inference_gateway.Base.{
  ℕ, ◌≡◌, refl, ap, true, false, List, [], ◌∷◌, Option, none, some, arith, if◌then◌else◌, Text,
  codes, length, All, ◌==◌, text_eq,
}
use llm_inference_gateway.Base.Int.{pos}
use llm_inference_gateway.Tests.{openai, mistral, gpt, breaker_config, readings}
use llm_inference_gateway.Breaker.Registry.{new_registry}
use llm_inference_gateway.Router.{Tier, Router, new_router}
use llm_inference_gateway.Retry.{Engine, Oracle, World, answered, api}
use llm_inference_gateway.Retry.Stream.{Streaming, Streamed, execute_stream}
use llm_inference_gateway.Retry.Delivery.{Delivery, execute_stream-Delivery}
use llm_inference_gateway.Auth.{
  Identity, CachedEntry, Codec, Answer, known, Cache, resolve, answered as resolution_of,
}
use llm_inference_gateway.Auth.Coherence.{IsCodec, Coherent, resolve-store}
use llm_inference_gateway.Exchange.{check_caches, Request, Response, Deps, done}
use llm_inference_gateway.ChatStream.{handle_streaming, streaming_of}
use llm_inference_gateway.ChatStream.Wire.{chunks}
use llm_inference_gateway.ChatStream.Delivered.{
  any_refusal, stored_contents, call_content, handle_streaming-one_call, handle_streaming-cached,
  handle_streaming-refusal,
}
use llm_inference_gateway.Chat.{handle_request}
use llm_inference_gateway.Chat.Settlement.{Balanced, handle_request-recorded}

-- The first provider breaks off after one delta, without content; the second streams two.
abbrev oracle : Oracle Streamed
oracle = record {
  complete = λ n name model timeout.
      if name == openai
      then answered (record {
        deltas = record { content = []; finish_reason = []; usage = none } ∷ [];
        final = some (api (record { status_code = 404; message = []; retry_after = 0 }));
      })
      else answered (record {
        deltas =
            record { content = codes "hel"; finish_reason = []; usage = none }
            ∷ record { content = codes "lo"; finish_reason = codes "stop"; usage = none }
            ∷ [];
        final = none;
      });
  duration = λ n. 5;
  monotonic = λ n. n;
  unix = λ n. 100;
  failure_readings = λ n. readings;
  rand = λ n k. 0;
  remaining = λ n. none;
  timer_first = λ n. true;
  is_done = λ n. false;
  others = λ n r. r;
}

abbrev streaming : Streaming
streaming = record { oracle = oracle; on_delta = λ sent name model d. none }

abbrev engine : Engine
engine = record {
  is_configured = λ name. true;
  provider_timeout = λ name. 30000000000;
  cfg = record { max_attempts_per_provider = 2; base_backoff = 100; max_backoff = 1000 };
}

abbrev tiers : List Tier
tiers =
    record {
      candidates =
          record { provider_name = openai; model = gpt; weight = 3 }
          ∷ record { provider_name = mistral; model = gpt; weight = 1 }
          ∷ [];
    }
    ∷ []

abbrev world : World
world = record {
  registry = new_registry breaker_config;
  queries = 0;
  attempts = [];
  provider_duration = 0;
}

stream_example :
    Delivery
      (execute_stream streaming engine tiers world).1
      (execute_stream streaming engine tiers world).2
stream_example = execute_stream-Delivery streaming engine tiers world

abbrev alice : Identity
alice = record {
  org_id = codes "org";
  team_id = codes "team";
  key_id = codes "key";
  allowed_models = [];
  org_tpm_limit = pos 1000;
  team_tpm_limit = pos 500;
  key_tpm_limit = none;
}

-- Hashes are the keys themselves, and an entry of `alice` is a text of one unit.
abbrev read_back : Text → Option CachedEntry
read_back [] = none
read_back (c ∷ t) = some (record { identity = alice; revoked = false })

abbrev pub codec : Codec
codec = record { hash = λ t. t; hex = λ t. t; marshal = λ entry. none; unmarshal = read_back }

pub codec-IsCodec : IsCodec codec
codec-IsCodec = record {
  hex_injective = λ h h' e. e;
  round_trip = λ entry raw e. absurd (ground (arith, e));
}

abbrev store : Text → Answer
store h = known alice false

some-injective {ℓ} : {A : Type ℓ} {a b : A} → some a ≡ some b → a ≡ b
some-injective e = ground arith

reads_alice :
    (raw : Text) (entry : CachedEntry)
    → read_back raw ≡ some entry
    → known alice false ≡ known entry.identity entry.revoked
reads_alice [] entry e = absurd (ground (arith, e))
reads_alice (c ∷ raw) entry e =
    ap (λ (x : CachedEntry). known x.identity x.revoked) (some-injective e)

abbrev stored : Cache
stored = (codes "vk:sk-1", 7 ∷ []) ∷ []

stored-Coherent : Coherent codec store stored
unfolding Coherent
stored-Coherent = λ h raw entry found read. reads_alice raw entry read

resolver_example :
    ((resolve codec store true true (codes "sk-1") stored).1 ≡ resolution_of (known alice false))
    × Coherent codec store (resolve codec store true true (codes "sk-1") stored).0
resolver_example =
    resolve-store codec store true true (codes "sk-1") stored codec-IsCodec stored-Coherent

abbrev reply : Response
reply = record {
  model = gpt;
  choices = record { content = codes "hello"; finish_reason = codes "stop" } ∷ [];
  usage = record { prompt_tokens = 5; completion_tokens = 7; total_tokens = 12 };
}

abbrev router : Router
router =
    new_router (record { name = openai; priority = 1; weight = 1 } ∷ [])
      ((codes "smart", (openai, gpt) ∷ []) ∷ []) []

abbrev pub deps : Deps
deps = record {
  router = router;
  identity = some alice;
  count_messages = λ ms. 6;
  estimate_completion_tokens = pos 100;
  default_tpm = pos 1000;
  reserve = λ limits cost. some (record {
    allowed = true;
    retry_after_ms = some 0;
    limiting_scope = none;
    remaining = pos 0;
  });
  cache_nonzero_temperature = false;
  max_client_ttl = pos 60;
  parse_duration = λ t. some (pos 90);
  exact_key = λ org q. none;
  exact_get = none;
  embed = none;
  semantic_get = none;
  tools_canonical = λ q. [];
  format_canonical = λ q. [];
  execute = λ ts. done openai gpt [] reply;
  count_text = λ t. length t;
  can_flush = true;
  write_succeeds = λ n. true;
  oracle = oracle;
  engine = engine;
  world = world;
}

abbrev request : Request
request = record {
  model = codes "smart";
  messages = record { role = codes "user"; content = codes "hi" } ∷ [];
  max_tokens = none;
  stream = false;
  cache_ttl = codes "90s";
  temperature_is_zero = true;
}

-- The same request, as a stream.
abbrev streaming_request : Request
streaming_request = record request { stream = true }

recorded_example : Balanced deps streaming_request (handle_request deps streaming_request)
recorded_example = handle_request-recorded deps streaming_request

one_call_example :
    (n : ℕ) × (chunks (handle_streaming deps streaming_request none tiers (pos 106) 6 alice)
      ≡ call_content n (execute_stream (streaming_of deps) engine tiers world).1)
unfolding check_caches
one_call_example =
    handle_streaming-one_call deps streaming_request none tiers (pos 106) 6 alice refl

-- With an exact cache that misses.
abbrev caching : Deps
caching = record deps { exact_key = λ org q. some (codes "k"); exact_get = some (λ key. some none) }

cached_example :
    let es = handle_streaming caching streaming_request none tiers (pos 106) 6 alice in
    All (λ t. t ≡ chunks es) (stored_contents es)
cached_example =
    handle_streaming-cached caching streaming_request none tiers (pos 106) 6 alice refl (λ n. refl)

-- No candidate is left.
refusal_example : chunks (handle_streaming deps streaming_request none [] (pos 106) 6 alice) ≡ []
unfolding handle_streaming any_refusal
refusal_example = handle_streaming-refusal deps streaming_request none [] (pos 106) 6 alice refl
