-- ===== src/Cache/Http.antt =====
-- What the cache uses of net/http: headers by their canonical names, requests and answers, and the
-- surroundings that a call sees. `send` is http.Client.Do, `parse_time` is time.Parse with RFC1123,
-- `new_request` says whether http.NewRequest takes a URL, `body_closes` and `reader_closes` whether the
-- Close of a body and of a gzip.Reader succeed, `gzip_header` whether gzip.NewReader finds a header,
-- and `compress` is what a gzip.Writer makes of all that is written to it.
use majmun.Base.{ℕ, ◌+◌, ◌-◌, Bool, true, ◌&&◌, Option, [], ◌∷◌}
use majmun.Base.Lists.{get_or}
use majmun.Base.Maps.{Map, lookup, insert}
use majmun.Base.Tests.{leb, ◌==◌, if◌then◌else◌}
use majmun.Base.Text.{Text}
use majmun.Cache.Disk.{Time, Refuses}

abbrev upper : ℕ → ℕ
upper c = if leb b'a' c && leb c b'z' then c - 32 else c

abbrev lower : ℕ → ℕ
lower c = if leb b'A' c && leb c b'Z' then c + 32 else c

canonical_loop : Bool → Text → Text
canonical_loop first [] = []
canonical_loop first (c ∷ s) = (if first then upper c else lower c) ∷ canonical_loop (c == b'-') s

-- textproto.CanonicalMIMEHeaderKey on the letters, digits and dashes of header names.
unfoldable pub canonical : Text → Text
unfolding canonical_loop
canonical s = canonical_loop true s

-- http.Header, with the first value of each name.
abbrev pub Header : Type 0
Header = Map Text

unfoldable pub header_get : Header → Text → Text
header_get h name = get_or (lookup (canonical name) h) []

unfoldable pub header_set : Text → Text → Header → Header
header_set name value h = insert (canonical name) value h

pub data Method : Type 0 where
  get head : Method

pub record Request : Type 0 where
  pub method : Method
  pub url : Text
  pub if_modified_since : Option Time
  pub if_none_match : Option Text

-- The length of the content is unknown where the server does not give it (-1 in the source).
pub record Response : Type 0 where
  pub status_code : ℕ
  pub header : Header
  pub content_length : Option ℕ

pub record World : Type 0 where
  pub now : Time
  pub parse_time : Text → Option Time
  pub new_request : Text → Bool
  pub send : Request → Option Response
  pub refuses : Refuses
  pub body_closes : Bool
  pub reader_closes : Bool
  pub gzip_header : Bool
  pub compress : Text → Text
