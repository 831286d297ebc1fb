-- ===== src/Urlgen/RoundTrip.antt =====
-- internal/urlgen/urlgen.go: Decrypt undoes the token of CreateURL until the link expires.
use majmun.Base.{
  ℕ, ◌+◌, ◌*◌, ◌≡◌, ◌≤◌, ◌<◌, ◌⊎◌, ◌&&◌, refl, false, some, List, [], ◌∷◌, ◌++◌, zero, suc, arith,
  ap,
}
use majmun.Base.Tests.{ltb, if◌then◌else◌}
use majmun.Base.Lists.{length, take, drop, length-append}
use majmun.Base.Result.{Result, ok, err}
use majmun.Urlgen.Types.{Data, RequestType, stream, file}
use majmun.Urlgen.Utf8.{IsUtf8}
use majmun.Urlgen.{
  Codec, Contract, Generator, Error, expired_stream_url, expired_file_url, expired, ttl_of,
  is_expired, or_error, check_age, open_sealed, token_of, decrypt,
}

length-take : (n : ℕ) (s : List ℕ) → n ≤ length s → length (take n s) ≡ n
length-take zero s h = refl
length-take (suc n) [] h = absurd (ground arith)
length-take (suc n) (x ∷ s) h = ap suc (length-take n s (ground arith))

take-append : (n : ℕ) (s t : List ℕ) → length s ≡ n → take n (s ++ t) ≡ s
take-append zero [] t e = refl
take-append zero (x ∷ s) t e = absurd (ground arith)
take-append (suc n) [] t e = absurd (ground arith)
take-append (suc n) (x ∷ s) t e = ap (λ u. x ∷ u) (take-append n s t (ground arith))

drop-append : (n : ℕ) (s t : List ℕ) → length s ≡ n → drop n (s ++ t) ≡ t
drop-append zero [] t e = refl
drop-append zero (x ∷ s) t e = absurd (ground arith)
drop-append (suc n) [] t e = absurd (ground arith)
drop-append (suc n) (x ∷ s) t e = drop-append n s t (ground arith)

-- Is a link of that age and lifetime too old? A creation time or a lifetime of 0 stands for no limit.
abbrev pub Past : ℕ → ℕ → ℕ → Type 0
Past created_at ttl now = (0 < created_at) × (0 < ttl) × (created_at * 1000000000 + ttl < now)

-- What Decrypt returns for a link, by its kind.
abbrev pub Opens : Generator → ℕ → Data → RequestType → Result Error Data → Type 0
Opens g now d stream r =
    (Past d.created_at g.stream_ttl now × (r ≡ err expired_stream_url))
    ⊎ ((¬ Past d.created_at g.stream_ttl now) × (r ≡ ok d))
Opens g now d file r =
    (Past d.created_at g.file_ttl now × (r ≡ err expired_file_url))
    ⊎ ((¬ Past d.created_at g.file_ttl now) × (r ≡ ok d))

checked : Generator → ℕ → RequestType → ℕ → Data → Result Error Data
unfolding ttl_of expired
checked g now t created_at d =
    if ltb 0 created_at && (ltb 0 (ttl_of g t) && ltb (created_at * 1000000000 + ttl_of g t) now)
    then err (expired t)
    else ok d

checked-Opens :
    (g : Generator) (now : ℕ) (d : Data) (t : RequestType)
    → Opens g now d t (checked g now t d.created_at d)
unfolding checked
checked-Opens g now d stream = ground arith
checked-Opens g now d file = ground arith

opened :
    (c : Codec) (g : Generator) (now : ℕ) (d : Data) (json : List ℕ)
    → Contract c
    → IsUtf8 d
    → c.marshal d ≡ some json
    → decrypt c g now (token_of c g json) ≡ check_age c g now d
unfolding decrypt token_of open_sealed
opened c g now d json k text e =
    let nonce = take c.nonce_size (c.sha256 json) in
    let sealed = c.seal g.key nonce json in
    let size : length nonce ≡ c.nonce_size =
      length-take c.nonce_size (c.sha256 json) (rw (k.sha256_length json) k.nonce_fits) in
    let front : take c.nonce_size (nonce ++ sealed) ≡ nonce =
      take-append c.nonce_size nonce sealed size in
    let back : drop c.nonce_size (nonce ++ sealed) ≡ sealed =
      drop-append c.nonce_size nonce sealed size in
    let long : ltb (length (nonce ++ sealed)) c.nonce_size ≡ false =
      ground (arith, length-append nonce sealed) in
    rw
      (
        k.decode-encode (nonce ++ sealed),
        or_error,
        long,
        front,
        back,
        k.unseal-seal g.key nonce json,
        k.unmarshal-marshal d json text e,
      )
      refl

-- For every codec that keeps its contract: the token made of the JSON of some data, all strings of
-- which are UTF-8, is opened to that data while the link lives, and to the error of its kind of link
-- after that. Links to streams and to files live as long as the generator says for each. The token is
-- never refused for another reason.
pub decrypt-token_of :
    (c : Codec) (g : Generator) (now : ℕ) (d : Data) (json : List ℕ)
    → Contract c
    → IsUtf8 d
    → c.marshal d ≡ some json
    → Opens g now d d.request_type (decrypt c g now (token_of c g json))
unfolding check_age is_expired checked
decrypt-token_of c g now d json k text e =
    rw (opened c g now d json k text e) (checked-Opens g now d d.request_type)
