-- ===== src/Samples.antt =====
-- Test data that the tests of several modules share.
use majmun.Base.{ℕ, zero, suc, true, false, Option, none, some, List, [], ◌∷◌}
use majmun.Base.Text.{Text, codes, starts_with}
use majmun.Urlgen.Types.{Url}
use majmun.Channel.{Channel, Playlist, attr_tvg_id}
use majmun.Store.{Store}
use majmun.Rules.Config.{Regexp}

abbrev pub link : Text → Url
link s = record { scheme = codes "http"; host = codes "h"; string = s }

-- A stand-in for url.Parse that refuses the empty string only.
abbrev pub parse : Text → Option Url
parse [] = none
parse (c ∷ s) = some (link (c ∷ s))

abbrev pub zeros : ℕ → List ℕ
zeros n = elim n [ zero ↦ [] | suc (k → rest) ↦ 0 ∷ rest ]

-- A stand-in for sha256.Sum256.
abbrev pub sha : Text → List ℕ
sha s = zeros 32

abbrev pub plain_playlist : Playlist
plain_playlist = record {
  name = codes "main";
  is_proxied = false;
  file_url = λ info s. some (link s);
  stream_url = λ s streams. some (link s);
}

abbrev pub channel : Text → Text → ℕ → Channel
channel id title priority = record {
  track = record {
    name = title;
    length = 0;
    uri = some (link (codes "http://h/"));
    attrs = (attr_tvg_id, id) ∷ [];
    tags = (codes "EXTGRP", codes "news") ∷ [];
  };
  playlist = plain_playlist;
  hidden = false;
  removed = false;
  priority = priority;
}

-- Channels 0 and 1 have one name in two qualities.
abbrev pub memory : ℕ → Channel
memory n = elim n [
  | zero ↦ channel (codes "a") (codes "One HD") 0
  | suc k ↦ elim k [
    | zero ↦ channel (codes "b") (codes "One") 0
    | suc j ↦ channel (codes "c") (codes "Two") 0
  ]
]

abbrev pub three : Store
three = record { channels = 0 ∷ 1 ∷ 2 ∷ []; counter = 3; memory = memory }

-- The pattern "HD" where it stands in front.
abbrev pub hd : Regexp
hd = record { source = codes "^HD"; match_string = λ s. starts_with (codes "HD") s; erase = λ s. s }

abbrev pub empty_pattern : Regexp
empty_pattern = record { source = []; match_string = λ s. true; erase = λ s. s }
