-- ===== src/Server/Tests.antt =====
-- Two clients, and a channel of two streams of which the second can be read in the second attempt.
use majmun.Base.{ℕ, ◌≡◌, ◌↔◌, refl, Bool, true, false, none, some, List, [], ◌∷◌, arith, inl}
use majmun.Base.Tests.{if◌then◌else◌, ◌==◌}
use majmun.Base.Text.{Text, codes, text_eq}
use majmun.Samples.{sha, parse}
use majmun.Server.Access.Granted.{FirstOpens, proxy_auth-granted, proxy_auth-expired}
use majmun.Server.Access.{Client, granted, unauthorized, proxy_auth}
use majmun.Server.Proxy.Answered.{Answers}
use majmun.Server.Proxy.Handled.{
  Refused, Within, handle_stream_proxy-Answers, handle_stream_proxy_bounds,
  handle_stream_proxy_leaks,
}
use majmun.Server.Proxy.{handle_stream_proxy}
use majmun.Server.Stream.{
  Playlist, Provider, playlist, epg, Opening, no_permit, failed, reader, Permits, Exchange,
  Surroundings,
}
use majmun.Urlgen.Types.{Data, RequestType, ProviderType, Stream}
use majmun.Urlgen.{Codec, Generator, not_authentic}

abbrev main : Playlist
main = record {
  name = codes "main";
  limit_streamer = codes "limit";
  upstream_error_streamer = codes "upstream";
}

abbrev stream_of : Text → Stream
stream_of url = record {
  provider_info = record { provider_type = ProviderType.playlist; provider_name = codes "main" };
  url = url;
  hidden = false;
}

abbrev streams : List Stream
streams = stream_of (codes "a") ∷ stream_of (codes "b") ∷ []

abbrev around : Bool → Surroundings
around client_granted = record {
  sha256 = sha;
  unix_now = codes "1";
  raw_query = [];
  get_provider = λ info. some (playlist main);
  get_reader = λ attempt i req.
      if attempt == 1 then (if i == 1 then reader (codes "video") true else failed) else no_permit;
  manager_granted = true;
  client_granted = client_granted;
  status_text = λ code. codes "status";
}

abbrev begun : Exchange
begun = record {
  writer = record { header = []; status = none; body = [] };
  permits = record { manager = some 3; client = some 1 };
  tried = [];
  sleeps = 0;
}

handle_stream_proxy-Answers_example :
    Answers
      (codes "status")
      (some (codes "video"))
      (some main)
      false
      false
      begun.writer
      (handle_stream_proxy (around true) streams begun).writer
unfolding majmun.Server.Stream.acquire_semaphores
handle_stream_proxy-Answers_example = handle_stream_proxy-Answers (around true) streams begun refl

handle_stream_proxy_bounds_example :
    Within (around true) streams begun (handle_stream_proxy (around true) streams begun)
unfolding majmun.Server.Stream.acquire_semaphores
handle_stream_proxy_bounds_example = handle_stream_proxy_bounds (around true) streams begun refl

handle_stream_proxy_leaks_example :
    ((handle_stream_proxy (around false) streams begun).permits
      ≡ record { manager = some 2; client = some 1 })
    × Refused (around false) streams begun (handle_stream_proxy (around false) streams begun)
handle_stream_proxy_leaks_example =
    handle_stream_proxy_leaks (around false) streams begun {free = 2} {taken = 1} refl refl refl
      refl

-- A link to the first stream, made long ago.
abbrev link_data : Data
link_data = record {
  request_type = RequestType.stream;
  created_at = 1;
  stream_data = record { channel_name = codes "One"; streams = streams };
  file = record {
    provider_info = record { provider_type = ProviderType.playlist; provider_name = [] };
    url = [];
  };
}

-- A stand-in for the cipher: a key opens the token that is the key itself.
abbrev keyed : Codec
keyed = record {
  sha256 = sha;
  nonce_size = 0;
  seal = λ key nonce s. key;
  unseal = λ key nonce s. if text_eq key s then some [] else none;
  marshal = λ d. some [];
  unmarshal = λ s. some link_data;
  encode = λ s. s;
  decode = λ s. some s;
  parse_url = parse;
}

abbrev client_with : ℕ → ℕ → Client
client_with key ttl = record {
  secret = key ∷ [];
  generator = record { public_url = []; key = key ∷ []; stream_ttl = ttl; file_ttl = 0 };
  playlist_providers = main ∷ [];
  epg_providers = [];
}

proxy_auth-granted_example :
    (proxy_auth keyed 9_000_000_000
        (λ p. none)
        (client_with 1 5 ∷ client_with 2 0 ∷ [])
        (some (2 ∷ []))
      ≡ granted (client_with 2 0) (playlist main) link_data)
    ↔ FirstOpens keyed 9_000_000_000
        (2 ∷ [])
        (λ p. none)
        (client_with 1 5 ∷ client_with 2 0 ∷ [])
        (client_with 2 0)
        (playlist main)
        link_data
proxy_auth-granted_example =
    proxy_auth-granted keyed 9_000_000_000 (λ p. none) 2 [] (client_with 1 5 ∷ client_with 2 0 ∷ [])
      (client_with 2 0) (playlist main) link_data

proxy_auth-expired_example :
    proxy_auth keyed 9_000_000_000
      (λ p. some (codes "expired"))
      (client_with 1 5 ∷ client_with 2 5 ∷ [])
      (some (2 ∷ []))
    ≡ unauthorized
unfolding majmun.Urlgen.decrypt text_eq
proxy_auth-expired_example =
    proxy_auth-expired keyed 9_000_000_000 (λ p. some (codes "expired")) 2 [] (client_with 1 5 ∷ [])
      [] (client_with 2 5) (inl (not_authentic, refl, λ e. ground arith), tt) refl
