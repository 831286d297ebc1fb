-- ===== src/Store/Filled.antt =====
-- The store after the decoded channels of the playlists are added: which channels it holds.
use majmun.Base.{◌≡◌, refl, inl, inr, Option, none, some, List, [], ◌∷◌, map, ℕ}
use majmun.Base.Maps.{lookup-insert}
use majmun.Base.Tests.{if◌then◌else◌, Bool-cases, Option-cases}
use majmun.Base.Text.{Text, text_eq, text_eq_iff}
use majmun.Common.{generate_hash_id}
use majmun.Channel.{Channel, attr_tvg_id, attr_tvg_name, get_attr, set_attr}
use majmun.Store.{non_empty, ensure_tvg_id, new_store, add_all}
use majmun.Store.Laws.{IsWell, contents, add_all-IsWell, contents-add_all, new_store-IsWell}

-- The hash of the attribute tvg-name, or of the name where that is missing or empty.
abbrev pub hash_of : (Text → List ℕ) → Text → Option Text → Text
hash_of sha256 name none = generate_hash_id sha256 (name ∷ [])
hash_of sha256 name (some []) = generate_hash_id sha256 (name ∷ [])
hash_of sha256 name (some (c ∷ s)) = generate_hash_id sha256 ((c ∷ s) ∷ [])

-- The attribute tvg-id where it is there and not empty, and otherwise that hash.
abbrev pub id_of : (Text → List ℕ) → Text → Option Text → Option Text → Text
id_of sha256 name none tvg_name = hash_of sha256 name tvg_name
id_of sha256 name (some []) tvg_name = hash_of sha256 name tvg_name
id_of sha256 name (some (c ∷ s)) tvg_name = c ∷ s

-- A channel as it stands in the store: it has a tvg-id, and all else is that of the channel added.
pub record Ensured (sha256 : Text → List ℕ) (c c' : Channel) : Type 0 where
  pub attrs :
      (key : Text)
      → get_attr c' key ≡ (
          if text_eq attr_tvg_id key
          then some (id_of sha256 c.track.name (get_attr c attr_tvg_id) (get_attr c attr_tvg_name))
          else get_attr c key)
  pub rest : record c' { track = record c'.track { attrs = c.track.attrs } } ≡ c

-- Two lists are related entry by entry.
abbrev pub Each : {A : Type 0} {B : Type 0} → (A → B → Type 0) → List A → List B → Type 0
Each R [] [] = Unit
Each R [] (y ∷ ys) = ⊥
Each R (x ∷ xs) [] = ⊥
Each R (x ∷ xs) (y ∷ ys) = R x y × Each R xs ys

module _ (sha256 : Text → List ℕ) where
  id_of-filled :
      (name id : Text) (o tvg_name : Option Text)
      → non_empty o ≡ some id
      → o ≡ some (id_of sha256 name o tvg_name)
  unfolding non_empty text_eq
  id_of-filled name id none tvg_name e = cc
  id_of-filled name id (some []) tvg_name e = cc
  id_of-filled name id (some (c ∷ s)) tvg_name e = refl

  id_of-missing :
      (name : Text) (o tvg_name : Option Text)
      → non_empty o ≡ none
      → id_of sha256 name o tvg_name ≡ hash_of sha256 name tvg_name
  unfolding non_empty text_eq
  id_of-missing name none tvg_name e = refl
  id_of-missing name (some []) tvg_name e = refl
  id_of-missing name (some (c ∷ s)) tvg_name e = cc

  hash_of-filled :
      (name t : Text) (o : Option Text)
      → non_empty o ≡ some t
      → hash_of sha256 name o ≡ generate_hash_id sha256 (t ∷ [])
  unfolding non_empty text_eq
  hash_of-filled name t none e = cc
  hash_of-filled name t (some []) e = cc
  hash_of-filled name t (some (c ∷ s)) e = let same : c ∷ s ≡ t = cc e in rw same refl

  hash_of-missing :
      (name : Text) (o : Option Text)
      → non_empty o ≡ none
      → hash_of sha256 name o ≡ generate_hash_id sha256 (name ∷ [])
  unfolding non_empty text_eq
  hash_of-missing name none e = refl
  hash_of-missing name (some []) e = refl
  hash_of-missing name (some (c ∷ s)) e = cc

  set-Ensured :
      (id : Text) (c : Channel)
      → id ≡ id_of sha256 c.track.name (get_attr c attr_tvg_id) (get_attr c attr_tvg_name)
      → Ensured sha256 c (set_attr attr_tvg_id id c)
  unfolding get_attr set_attr
  set-Ensured id c e = record {
    attrs = λ key. rw (← e) (lookup-insert attr_tvg_id key id c.track.attrs);
    rest = refl;
  }

  ensure_tvg_id-Ensured : (c : Channel) → Ensured sha256 c (ensure_tvg_id sha256 c)
  unfolding ensure_tvg_id
  ensure_tvg_id-Ensured c =
      let name = c.track.name in
      let id = get_attr c attr_tvg_id in
      let tvg_name = get_attr c attr_tvg_name in
      elim (Option-cases (non_empty id)) [
        | inr (i, e) ↦
            rw (e, ensure_tvg_id)
              (record {
                attrs = λ key. elim (Bool-cases (text_eq attr_tvg_id key)) [
                  | inl k ↦
                      rw (k, ← (text_eq_iff attr_tvg_id key).0 k)
                        (id_of-filled name i id tvg_name e)
                  | inr k ↦ rw k refl
                ];
                rest = refl;
              })
        | inl e ↦
            let hash = id_of-missing name id tvg_name e in
            elim (Option-cases (non_empty tvg_name)) [
              | inr (t, k) ↦
                  rw (e, k, ensure_tvg_id)
                    (set-Ensured _ c (rw (hash, hash_of-filled name t tvg_name k) refl))
              | inl k ↦
                  rw (e, k, ensure_tvg_id)
                    (set-Ensured _ c (rw (hash, hash_of-missing name tvg_name k) refl))
            ]
      ]

  map-Each : (cs : List Channel) → Each (Ensured sha256) cs (map (ensure_tvg_id sha256) cs)
  map-Each [] = tt
  map-Each (c ∷ cs) = (ensure_tvg_id-Ensured c, map-Each cs)

-- A store that is filled from nothing holds the added channels in order, under references that are all
-- different and below its counter. Each has its tvg-id, or, where that is missing or empty, the hash of
-- its tvg-name or else of its name; its other attributes and all its other fields are as they were.
pub add_all-refines :
    (sha256 : Text → List ℕ) (memory : ℕ → Channel) (cs : List Channel)
    → let st = add_all sha256 cs (new_store memory) in
      IsWell st × Each (Ensured sha256) cs (contents st)
unfolding new_store
add_all-refines sha256 memory cs =
    let empty = new_store-IsWell memory in
    let held : contents (add_all sha256 cs (new_store memory)) ≡ map (ensure_tvg_id sha256) cs =
      contents-add_all sha256 cs (new_store memory) empty in
    (add_all-IsWell sha256 cs (new_store memory) empty, rw held (map-Each sha256 cs))
