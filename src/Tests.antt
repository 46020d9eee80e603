-- ===== src/Tests.antt =====
-- Concrete data for the modules below, which run the model on it.
mod Breakers
mod Routing
mod Retries
mod Services
mod Caches
mod Pieces
mod Operator
mod Vendors
mod Requests
use llm_inference_gateway.Base.{ℕ, ◌*◌, List, [], ◌∷◌, Text, codes, leb}
use llm_inference_gateway.Breaker.{
  Threshold, Config, Breaker, Readings, open_state, half_open, new_breaker,
}

abbrev pub openai : Text
openai = codes "openai"

abbrev pub mistral : Text
mistral = codes "mistral"

abbrev pub gpt : Text
gpt = codes "gpt-4o"

-- Half of the requests failed.
abbrev pub half : Threshold
half = record { reaches = λ failures total. leb total (failures * 2) }

-- A window of 10 seconds, a cooldown of 5 seconds that grows up to a minute.
abbrev pub breaker_config : Config
breaker_config = record {
  error_rate_threshold = half;
  min_requests = 4;
  window = 10000000000;
  cooldown = 5000000000;
  cooldown_max = 60000000000;
  half_open_probes = 2;
}

abbrev pub fresh : Breaker
fresh = new_breaker openai gpt breaker_config

-- Opened at instant 0.
abbrev pub opened : Breaker
opened = record fresh { state = open_state; gauge = 2 }

-- Half open, with its probe slots spent.
abbrev pub spent : Breaker
spent = record fresh { state = half_open; gauge = 1; half_open_allowed = 0 }

abbrev pub readings : Readings
readings = record { recorded = 100; tripped = 100; instant = 100000000000 }
