-- ===== src/Urlgen.antt =====
-- internal/urlgen/urlgen.go: the links of the gateway carry sealed data. Times are in nanoseconds of
-- Unix time, but for the seconds of `created_at`. The standard library's cipher, JSON, base64 and
-- URL parsing are the fields of a parameter, and `Contract` says what is relied on.
pub mod Types
pub mod Utf8
pub mod Extension
pub mod RoundTrip
pub mod Tests
use majmun.Base.{
  ℕ, ◌+◌, ◌*◌, ◌≡◌, ◌≤◌, Bool, true, false, ◌&&◌, Option, none, some, List, [], ◌∷◌, ◌++◌,
}
use majmun.Base.Tests.{ltb, ◌==◌, if◌then◌else◌}
use majmun.Base.Lists.{length, take, drop}
use majmun.Base.Text.{Text, codes}
use majmun.Base.Result.{Result, ok, err, ◌>>=◌}
use Types.{
  Url, ProviderInfo, Stream, StreamData, FileData, Data, RequestType, ProviderType, playlist,
  stream, file,
}
use Utf8.{IsUtf8}

-- sha256.Sum256, the AES-GCM cipher of a key, encoding/json, base64.RawURLEncoding and url.Parse.
pub record Codec : Type 0 where
  pub sha256 : List ℕ → List ℕ
  pub nonce_size : ℕ
  pub seal : List ℕ → List ℕ → List ℕ → List ℕ
  pub unseal : List ℕ → List ℕ → List ℕ → Option (List ℕ)
  pub marshal : Data → Option (List ℕ)
  pub unmarshal : List ℕ → Option Data
  pub encode : List ℕ → Text
  pub decode : Text → Option (List ℕ)
  pub parse_url : Text → Option Url

pub record Contract (c : Codec) : Type 0 where
  pub sha256_length : (s : List ℕ) → length (c.sha256 s) ≡ 32
  pub nonce_fits : c.nonce_size ≤ 32
  pub unseal-seal :
      (key nonce plain : List ℕ) → c.unseal key nonce (c.seal key nonce plain) ≡ some plain
  pub unmarshal-marshal :
      (d : Data) (json : List ℕ) → IsUtf8 d → c.marshal d ≡ some json → c.unmarshal json ≡ some d
  pub decode-encode : (s : List ℕ) → c.decode (c.encode s) ≡ some s

pub record Generator : Type 0 where
  pub public_url : Text
  pub key : List ℕ
  pub stream_ttl : ℕ
  pub file_ttl : ℕ

pub data Error : Type 0 where
  bad_encoding invalid_token not_authentic bad_json expired_stream_url expired_file_url : Error
  marshal_failed bad_url : Error

-- strings.Cut at the first question mark, the part before it.
unfoldable pub before_query : Text → Text
before_query [] = []
before_query (c ∷ s) = let rest = before_query s in if c == b'?' then [] else c ∷ rest

-- filepath.Ext: what begins at the last dot behind the last slash. `found` is the best so far.
unfoldable pub ext_loop : Text → Text → Text
ext_loop found [] = found
ext_loop found (c ∷ s) = ext_loop (if c == b'/' then [] else if c == b'.' then c ∷ s else found) s

unfoldable pub or_file : Text → Text
or_file [] = codes ".file"
or_file (c ∷ s) = c ∷ s

unfoldable pub file_extension : Text → Text
unfolding or_file ext_loop before_query
file_extension [] = codes ".file"
file_extension (c ∷ s) = or_file (ext_loop [] (before_query (c ∷ s)))

unfoldable pub extension_of : RequestType → Text → Text
unfolding file_extension
extension_of stream url = codes ".ts"
extension_of file url = file_extension url

unfoldable pub determine_extension : Data → Text
unfolding extension_of
determine_extension d = extension_of d.request_type d.file.url

or_error {ℓ} : {A : Type ℓ} → Error → Option A → Result Error A
or_error e none = err e
or_error e (some a) = ok a

pub expired : RequestType → Error
expired stream = expired_stream_url
expired file = expired_file_url

unfoldable pub ttl_of : Generator → RequestType → ℕ
ttl_of g stream = g.stream_ttl
ttl_of g file = g.file_ttl

-- Is the link too old at time `now`? A creation time or a lifetime of 0 stands for no limit.
unfoldable pub is_expired : Generator → ℕ → Data → Bool
unfolding ttl_of
is_expired g now d =
    let ttl = ttl_of g d.request_type in
    ltb 0 d.created_at && (ltb 0 ttl && ltb (d.created_at * 1000000000 + ttl) now)

module _ (c : Codec) where
  -- NewGenerator; a key of 32 bytes is never refused.
  unfoldable pub new_generator : Text → Text → ℕ → ℕ → Generator
  new_generator public_url secret stream_ttl file_ttl = record {
    public_url = public_url;
    key = c.sha256 secret;
    stream_ttl = stream_ttl;
    file_ttl = file_ttl;
  }

  unfoldable pub token_of : Generator → List ℕ → Text
  token_of g json =
      let nonce = take c.nonce_size (c.sha256 json) in c.encode (nonce ++ c.seal g.key nonce json)

  unfoldable pub create_url : Generator → Data → Result Error Url
  unfolding or_error token_of
  create_url g d = do
    json ← or_error marshal_failed (c.marshal d)
    or_error bad_url (
        c.parse_url
          (g.public_url ++ codes "/" ++ token_of g json ++ codes "/f" ++ determine_extension d))

  unfoldable pub create_stream_url : Generator → ℕ → Text → List Stream → Result Error Url
  unfolding create_url
  create_stream_url g seconds channel_name streams = create_url g (record {
    request_type = stream;
    created_at = seconds;
    stream_data = record { channel_name = channel_name; streams = streams };
    file = record {
      provider_info = record { provider_type = playlist; provider_name = [] };
      url = [];
    };
  })

  unfoldable pub create_file_url : Generator → ℕ → ProviderInfo → Text → Result Error Url
  unfolding create_url
  create_file_url g seconds provider_info file_url = create_url g (record {
    request_type = file;
    created_at = seconds;
    stream_data = record { channel_name = []; streams = [] };
    file = record { provider_info = provider_info; url = file_url };
  })

  check_age : Generator → ℕ → Data → Result Error Data
  unfolding expired is_expired
  check_age g now d = if is_expired g now d then err (expired d.request_type) else ok d

  open_sealed : Generator → ℕ → List ℕ → Result Error Data
  unfolding or_error check_age
  open_sealed g now ct = do
    plain ← or_error not_authentic (c.unseal g.key (take c.nonce_size ct) (drop c.nonce_size ct))
    d ← or_error bad_json (c.unmarshal plain)
    check_age g now d

  unfoldable pub decrypt : Generator → ℕ → Text → Result Error Data
  unfolding or_error open_sealed
  decrypt g now token = do
    ct ← or_error bad_encoding (c.decode token)
    if ltb (length ct) c.nonce_size then err invalid_token else open_sealed g now ct
