-- ===== src/Urlgen/Types.antt =====
-- internal/urlgen/urlgen.go: the data that a proxied link carries. A time is the seconds of Unix
-- time, and a URL is what the program reads of a *url.URL.
use majmun.Base.{ℕ, Bool, List}
use majmun.Base.Text.{Text}

pub record Url : Type 0 where
  pub scheme : Text
  pub host : Text
  pub string : Text

pub data RequestType : Type 0 where
  stream file : RequestType

pub data ProviderType : Type 0 where
  playlist epg : ProviderType

pub record ProviderInfo : Type 0 where
  pub provider_type : ProviderType
  pub provider_name : Text

pub record Stream : Type 0 where
  pub provider_info : ProviderInfo
  pub url : Text
  pub hidden : Bool

pub record StreamData : Type 0 where
  pub channel_name : Text
  pub streams : List Stream

pub record FileData : Type 0 where
  pub provider_info : ProviderInfo
  pub url : Text

pub record Data : Type 0 where
  pub request_type : RequestType
  pub created_at : ℕ
  pub stream_data : StreamData
  pub file : FileData
