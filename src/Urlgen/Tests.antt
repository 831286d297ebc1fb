-- ===== src/Urlgen/Tests.antt =====
-- The laws of links with a codec that seals by leaving the text as it is.
use majmun.Base.{ℕ, ◌≡◌, refl, true, false, Option, none, some, List, [], ◌∷◌, arith}
use majmun.Base.Text.{Text, codes}
use majmun.Urlgen.Types.{Data, RequestType, ProviderType, Stream, playlist, epg, file, stream}
use majmun.Urlgen.{
  Codec, Contract, Generator, expired, is_expired, new_generator, token_of, decrypt,
  determine_extension,
}
use majmun.Urlgen.RoundTrip.{Opens, decrypt-token_of}
use majmun.Urlgen.Utf8.{IsUtf8, is_utf8}
use majmun.Samples.{sha, parse}

abbrev logo : Data
logo = record {
  request_type = file;
  created_at = 100;
  stream_data = record { channel_name = []; streams = [] };
  file = record {
    provider_info = record { provider_type = playlist; provider_name = codes "main" };
    url = codes "http://h/a.b/logo.png?v=1.2";
  };
}

-- A stand-in for JSON: the data of files of a playlist without a name, and no other.
abbrev json_of : RequestType → ProviderType → ℕ → Text → List Stream → Text → Text → Option (List ℕ)
json_of file playlist created_at [] [] [] url = some (created_at ∷ url)
json_of _ _ _ _ _ _ _ = none

abbrev file_of : ℕ → Text → Data
file_of created_at file_url = record {
  request_type = file;
  created_at = created_at;
  stream_data = record { channel_name = []; streams = [] };
  file = record {
    provider_info = record { provider_type = playlist; provider_name = [] };
    url = file_url;
  };
}

abbrev data_of : List ℕ → Option Data
data_of [] = none
data_of (n ∷ url) = some (file_of n url)

abbrev plain : Codec
plain = record {
  sha256 = sha;
  nonce_size = 12;
  seal = λ key nonce s. s;
  unseal = λ key nonce s. some s;
  marshal = λ d.
      json_of d.request_type d.file.provider_info.provider_type d.created_at
        d.stream_data.channel_name d.stream_data.streams d.file.provider_info.provider_name
        d.file.url;
  unmarshal = data_of;
  encode = λ s. s;
  decode = λ s. some s;
  parse_url = parse;
}

json_of-data_of :
    (t : RequestType) (p : ProviderType) (n : ℕ) (name : Text) (ss : List Stream)
    (provider url : Text) (json : List ℕ)
    → json_of t p n name ss provider url ≡ some json
    → data_of json
      ≡ some (record {
        request_type = t;
        created_at = n;
        stream_data = record { channel_name = name; streams = ss };
        file = record {
          provider_info = record { provider_type = p; provider_name = provider };
          url = url;
        };
      })
json_of-data_of file playlist n [] [] [] url json e = ground arith
json_of-data_of file playlist n [] [] (x ∷ s) url json e = absurd (cc e)
json_of-data_of file playlist n [] (x ∷ s) q url json e = absurd (cc e)
json_of-data_of file playlist n (x ∷ s) r q url json e = absurd (cc e)
json_of-data_of file epg n r s q url json e = absurd (cc e)
json_of-data_of stream p n r s q url json e = absurd (cc e)

plain-Contract : Contract plain
plain-Contract = record {
  sha256_length = λ s. refl;
  nonce_fits = omega arith;
  unseal-seal = λ key nonce s. refl;
  unmarshal-marshal = λ d json text.
      json_of-data_of d.request_type d.file.provider_info.provider_type d.created_at
        d.stream_data.channel_name d.stream_data.streams d.file.provider_info.provider_name
        d.file.url json;
  decode-encode = λ s. refl;
}

abbrev gateway : Generator
gateway = new_generator plain (codes "http://g") (codes "secret") 0 5000000000

is_text : IsUtf8 (file_of 100 (codes "http://h/x.png"))
unfolding majmun.Urlgen.Utf8.is_utf8
is_text = record { channel_name = refl; streams = tt; provider_name = refl; url = refl }

-- The bytes of "é" are UTF-8, and the second of them alone is not.
two_bytes : (is_utf8 (195 ∷ 169 ∷ []) ≡ true) × (is_utf8 (169 ∷ []) ≡ false)
unfolding majmun.Urlgen.Utf8.is_utf8
two_bytes = (refl, refl)

decrypt-token_of_example :
    Opens gateway 105000000001
      (file_of 100 (codes "http://h/x.png"))
      file
      (decrypt plain gateway 105000000001 (token_of plain gateway (100 ∷ codes "http://h/x.png")))
decrypt-token_of_example =
    decrypt-token_of plain gateway 105000000001 (file_of 100 (codes "http://h/x.png"))
      (100 ∷ codes "http://h/x.png") plain-Contract is_text refl

expired_then : is_expired gateway 105000000001 logo ≡ true
unfolding is_expired new_generator
expired_then = refl

alive_before : is_expired gateway 105000000000 logo ≡ false
unfolding is_expired new_generator
alive_before = refl

logo_extension : determine_extension logo ≡ codes ".png"
unfolding determine_extension majmun.Urlgen.extension_of majmun.Urlgen.file_extension
    majmun.Urlgen.ext_loop majmun.Urlgen.or_file majmun.Urlgen.before_query
logo_extension = refl
