-- ===== src/Store.antt =====
-- internal/listing/m3u8/store/store.go. Channels are pointers: a store holds references, and the
-- memory maps a reference to the channel there. The n-th channel that is added lives at n.
pub mod Laws
pub mod Filled
pub mod Tests
use majmun.Base.{
  ℕ, suc, ◌≡◌, Bool, true, false, not, ◌&&◌, Option, none, some, List, [], ◌∷◌, ◌++◌, map,
}
use majmun.Base.Tests.{◌==◌, if◌then◌else◌}
use majmun.Base.Text.{Text, codes, text_eq}
use majmun.Common.{generate_hash_id}
use majmun.Channel.{Channel, attr_tvg_id, attr_tvg_name, get_attr, set_attr}

pub record Store : Type 0 where
  pub channels : List ℕ
  pub counter : ℕ
  pub memory : ℕ → Channel

unfoldable pub update : (ℕ → Channel) → ℕ → Channel → ℕ → Channel
update m r c q = if q == r then c else m q

-- A write through the reference `r`.
unfoldable pub modify : ℕ → (Channel → Channel) → Store → Store
unfolding update
modify r f st = record st { memory = update st.memory r (f (st.memory r)) }

-- The value under a key, unless it is missing or empty.
unfoldable pub non_empty : Option Text → Option Text
non_empty none = none
non_empty (some s) = if text_eq s [] then none else some s

unfoldable pub ensure_tvg_id : (Text → List ℕ) → Channel → Channel
unfolding non_empty
ensure_tvg_id sha256 c = elim (non_empty (get_attr c attr_tvg_id)) [
  | some id ↦ c
  | none ↦ elim (non_empty (get_attr c attr_tvg_name)) [
    | some tvg_name ↦ set_attr attr_tvg_id (generate_hash_id sha256 (tvg_name ∷ [])) c
    | none ↦ set_attr attr_tvg_id (generate_hash_id sha256 (c.track.name ∷ [])) c
  ]
]

unfoldable pub new_store : (ℕ → Channel) → Store
new_store memory = record { channels = []; counter = 0; memory = memory }

unfoldable pub add : (Text → List ℕ) → Channel → Store → Store
unfolding ensure_tvg_id update
add sha256 c st = record {
  channels = st.channels ++ st.counter ∷ [];
  counter = suc st.counter;
  memory = update st.memory st.counter (ensure_tvg_id sha256 c);
}

unfoldable pub replace : List ℕ → Store → Store
replace channels st = record st { channels = channels }

-- Adding the decoded channels of the playlists, in order.
unfoldable pub add_all : (Text → List ℕ) → List Channel → Store → Store
add_all sha256 [] st = st
add_all sha256 (c ∷ cs) st = add_all sha256 cs (add sha256 c st)
