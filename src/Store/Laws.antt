-- ===== src/Store/Laws.antt =====
-- The store keeps what was added, under distinct references.
use mathlib.Core.List.{append_assoc, append-nil}
use majmun.Base.{ℕ, suc, ◌<◌, ◌≡◌, ◌≢◌, refl, List, [], ◌∷◌, ◌++◌, map, arith}
use majmun.Base.Lists.{All, All-append}
use majmun.Base.Text.{Text}
use majmun.Channel.{Channel}
use majmun.Store.{Store, update, ensure_tvg_id, new_store, add, add_all}

-- No entry of the list is `r`.
abbrev pub Avoids : ℕ → List ℕ → Type 0
Avoids r [] = Unit {0}
Avoids r (q ∷ qs) = (r ≢ q) × Avoids r qs

abbrev pub Distinct : List ℕ → Type 0
Distinct [] = Unit {0}
Distinct (r ∷ rs) = Avoids r rs × Distinct rs

-- What the store holds, in order.
abbrev pub contents : Store → List Channel
contents st = map st.memory st.channels

-- The references are those of earlier additions, each held once.
pub record IsWell (st : Store) : Type 0 where
  pub fresh : All (λ r. r < st.counter) st.channels
  pub distinct : Distinct st.channels

Avoids-below : (n : ℕ) (rs : List ℕ) → All (λ r. r < n) rs → Avoids n rs
Avoids-below n [] h = tt
Avoids-below n (r ∷ rs) h = (omega arith, Avoids-below n rs h.1)

Avoids-append : (r n : ℕ) (rs : List ℕ) → r ≢ n → Avoids r rs → Avoids r (rs ++ n ∷ [])
Avoids-append r n [] h a = (h, tt)
Avoids-append r n (q ∷ rs) h a = (a.0, Avoids-append r n rs h a.1)

Distinct-append :
    (n : ℕ) (rs : List ℕ) → All (λ r. r < n) rs → Distinct rs → Distinct (rs ++ n ∷ [])
Distinct-append n [] h d = (tt, tt)
Distinct-append n (r ∷ rs) h d =
    (Avoids-append r n rs (omega arith) d.0, Distinct-append n rs h.1 d.1)

All-below-suc : (n : ℕ) (rs : List ℕ) → All (λ r. r < n) rs → All (λ r. r < suc n) rs
All-below-suc n [] h = tt
All-below-suc n (r ∷ rs) h = (omega arith, All-below-suc n rs h.1)

pub map-update :
    (m : ℕ → Channel) (r : ℕ) (c : Channel) (rs : List ℕ)
    → Avoids r rs
    → map (update m r c) rs ≡ map m rs
unfolding update
map-update m r c [] a = refl
map-update m r c (q ∷ rs) a = ground (arith, map-update m r c rs a.1)

pub update_self : (m : ℕ → Channel) (r : ℕ) (c : Channel) → update m r c r ≡ c
unfolding update
update_self m r c = ground arith

pub update_ne : (m : ℕ → Channel) (r q : ℕ) (c : Channel) → q ≢ r → update m r c q ≡ m q
unfolding update
update_ne m r q c h = ground arith

pub map-append_one {ℓ} :
    {A : Type ℓ} (f : ℕ → A) (rs : List ℕ) (r : ℕ) → map f (rs ++ r ∷ []) ≡ map f rs ++ f r ∷ []
map-append_one f [] r = refl
map-append_one f (q ∷ rs) r = rw (map-append_one f rs r)

module _ (sha256 : Text → List ℕ) where
  add-IsWell : (c : Channel) (st : Store) → IsWell st → IsWell (add sha256 c st)
  unfolding add
  add-IsWell c st w = record {
    fresh =
        All-append _ st.channels _ (All-below-suc st.counter st.channels w.fresh) (omega arith, tt);
    distinct = Distinct-append st.counter st.channels w.fresh w.distinct;
  }

  contents-add :
      (c : Channel) (st : Store)
      → IsWell st
      → contents (add sha256 c st) ≡ contents st ++ ensure_tvg_id sha256 c ∷ []
  unfolding add
  contents-add c st w = rw (
    map-append_one,
    map-update st.memory st.counter (ensure_tvg_id sha256 c) st.channels
        (Avoids-below st.counter st.channels w.fresh),
    update_self,
  )

  pub add_all-IsWell : (cs : List Channel) (st : Store) → IsWell st → IsWell (add_all sha256 cs st)
  unfolding add_all
  add_all-IsWell [] st w = w
  add_all-IsWell (c ∷ cs) st w = add_all-IsWell cs (add sha256 c st) (add-IsWell c st w)

  pub contents-add_all :
      (cs : List Channel) (st : Store)
      → IsWell st
      → contents (add_all sha256 cs st) ≡ contents st ++ map (ensure_tvg_id sha256) cs
  unfolding add_all
  contents-add_all [] st w = rw append-nil
  contents-add_all (c ∷ cs) st w =
      rw (
        contents-add_all cs (add sha256 c st) (add-IsWell c st w),
        contents-add c st w,
        append_assoc,
      )

pub new_store-IsWell : (memory : ℕ → Channel) → IsWell (new_store memory)
unfolding new_store
new_store-IsWell memory = record { fresh = tt; distinct = tt }
