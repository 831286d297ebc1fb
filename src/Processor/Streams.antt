-- ===== src/Processor/Streams.antt =====
-- The streams of a map of channels, in all its entries.
use mathlib.Core.List.{Perm, append_assoc, append-nil, perm_append_comm}
use mathlib.Core.List.Perm
use majmun.Base.{ℕ, ◌≡◌, ◌≢◌, refl, sym, ◌∙◌, ap, subst, inl, inr, none, List, [], ◌∷◌, ◌++◌, arith}
use majmun.Base.Tests.{◌==◌, ==_iff, Bool-cases}
use majmun.Base.Lists.{get_or}
use majmun.Base.RefMap.{RefMap, find, put, erase, find-put, find-erase}

module _ {V : Type 0} where
  abbrev pub all_of : RefMap (List V) → List V
  all_of [] = []
  all_of (e ∷ m) = e.1 ++ all_of m

  abbrev pub KeysOnce : RefMap (List V) → Type 0
  KeysOnce [] = Unit {0}
  KeysOnce (e ∷ m) = (find e.0 m ≡ none) × KeysOnce m

  pub Perm-of_eq : {xs ys : List V} → xs ≡ ys → Perm xs ys
  Perm-of_eq {xs} e = subst (Perm xs) e Perm.rfl

  pub put-KeysOnce : (k : ℕ) (v : List V) (m : RefMap (List V)) → KeysOnce m → KeysOnce (put k v m)
  unfolding put find
  put-KeysOnce k v [] h = (refl, tt)
  put-KeysOnce k v ((j, w) ∷ m) h = elim (Bool-cases (j == k)) [
    | inl hit ↦ rw hit (rw (← (==_iff j k).0 hit) h.0, h.1)
    | inr miss ↦
        rw miss
          (ground (arith, find-put k j v m, h.0, ==_iff k j, ==_iff j k), put-KeysOnce k v m h.1)
  ]

  erase-none : (k : ℕ) (m : RefMap (List V)) → find k m ≡ none → erase k m ≡ m
  unfolding erase find
  erase-none k [] e = refl
  erase-none k ((j, w) ∷ m) e = elim (Bool-cases (j == k)) [
    | inl hit ↦ absurd (cc (rw hit at e))
    | inr miss ↦ rw miss (ap (λ t. (j, w) ∷ t) (erase-none k m (rw miss at e)))
  ]

  pub erase-KeysOnce : (k : ℕ) (m : RefMap (List V)) → KeysOnce m → KeysOnce (erase k m)
  unfolding erase find
  erase-KeysOnce k [] h = tt
  erase-KeysOnce k ((j, w) ∷ m) h = elim (Bool-cases (j == k)) [
    | inl hit ↦ rw hit (erase-KeysOnce k m h.1)
    | inr miss ↦ rw miss (ground (arith, find-erase k j m, h.0), erase-KeysOnce k m h.1)
  ]

  pub all_of-put_new :
      (k : ℕ) (v : List V) (m : RefMap (List V))
      → find k m ≡ none
      → all_of (put k v m) ≡ all_of m ++ v
  unfolding put find
  all_of-put_new k v [] e = append-nil v
  all_of-put_new k v ((j, w) ∷ m) e = elim (Bool-cases (j == k)) [
    | inl hit ↦ absurd (cc (rw hit at e))
    | inr miss ↦ rw (miss, append_assoc) (ap (λ t. w ++ t) (all_of-put_new k v m (rw miss at e)))
  ]

  pub all_of-put_more :
      (k : ℕ) (old v : List V) (m : RefMap (List V))
      → get_or (find k m) [] ≡ old
      → Perm (all_of (put k (old ++ v) m)) (all_of m ++ v)
  unfolding put find
  all_of-put_more k old v [] e = rw (← e) (Perm-of_eq (append-nil v))
  all_of-put_more k old v ((j, w) ∷ m) e = elim (Bool-cases (j == k)) [
    | inl hit ↦
        let same : w ≡ old = rw hit at e in
        rw (hit, append_assoc, append_assoc, same)
          (Perm.append_left old (perm_append_comm v (all_of m)))
    | inr miss ↦
        rw (miss, append_assoc) (Perm.append_left w (all_of-put_more k old v m (rw miss at e)))
  ]

  all_of-erase :
      (k : ℕ) (old : List V) (m : RefMap (List V))
      → KeysOnce m
      → get_or (find k m) [] ≡ old
      → Perm (old ++ all_of (erase k m)) (all_of m)
  unfolding erase find
  all_of-erase k old [] h e = rw (← e) Perm.rfl
  all_of-erase k old ((j, w) ∷ m) h e = elim (Bool-cases (j == k)) [
    | inl hit ↦
        let same : w ≡ old = rw hit at e in
        let gone : erase k m ≡ m = erase-none k m (rw (← (==_iff j k).0 hit) h.0) in
        rw (hit, gone, same) Perm.rfl
    | inr miss ↦ rw miss (
        Perm.trans (Perm-of_eq (sym (append_assoc old w (all_of (erase k m))))) (
          Perm.trans (Perm.append_right (all_of (erase k m)) (perm_append_comm old w)) (
            Perm.trans (Perm-of_eq (append_assoc w old (all_of (erase k m))))
              (Perm.append_left w (all_of-erase k old m h.1 (rw miss at e))))))
  ]

  erase-put :
      (k j : ℕ) (v : List V) (m : RefMap (List V))
      → k ≢ j
      → erase k (put j v m) ≡ put j v (erase k m)
  unfolding erase put
  erase-put k j v [] ne = ground (arith, ==_iff j k)
  erase-put k j v ((i, w) ∷ m) ne =
      ground (arith, erase-put k j v m ne, ==_iff j k, ==_iff i k, ==_iff i j)

  -- A new key takes over the list of an old one, with one more entry in front.
  pub all_of-supersede :
      (k j : ℕ) (x : V) (old : List V) (m : RefMap (List V))
      → KeysOnce m
      → k ≢ j
      → find j m ≡ none
      → get_or (find k m) [] ≡ old
      → Perm (all_of (erase k (put j (x ∷ old) m))) (all_of m ++ x ∷ [])
  all_of-supersede k j x old m h ne new e =
      let gone : find j (erase k m) ≡ none = ground (arith, find-erase k j m, new) in
      Perm.trans
        (Perm-of_eq
          (ap all_of (erase-put k j (x ∷ old) m ne) ∙ all_of-put_new j (x ∷ old) (erase k m) gone))
        (Perm.trans (perm_append_comm (all_of (erase k m)) (x ∷ old)) (
          Perm.trans (Perm.cons x (all_of-erase k old m h e))
            (perm_append_comm (x ∷ []) (all_of m))))
