-- ===== src/Rules/Fields/Laws.antt =====
-- The loops over channels and rules.
use majmun.Base.{
  ℕ, suc, ◌≡◌, refl, sym, ◌∙◌, inl, inr, ap, Bool, false, Option, List, [], ◌∷◌, arith, map,
}
use mathlib.Core.List.{foldl}
use majmun.Base.Tests.{Bool-cases}
use majmun.Base.Text.{Text}
use majmun.Base.Result.{Result, Result-cases, ok, err, map_ok, traverse, ◌>>=◌}
use majmun.Urlgen.Types.{Url}
use majmun.Channel.{Channel}
use majmun.Store.{Store, modify}
use majmun.Store.Laws.{IsWell, Avoids, Distinct, contents, map-update, update_self, update_ne}
use majmun.Rules.Config.{Rule}
use majmun.Rules.Fields.{Error, process_channel_rule, process_rules, apply_loop, apply}

module _ (parse_url : Text → Option Url) (client : Text) (rules : List Rule) where
  -- The loop writes through the references of its list only.
  loop_keeps :
      (cancelled_at : ℕ → Bool) (i q : ℕ) (rs : List ℕ) (st st' : Store)
      → Avoids q rs
      → apply_loop parse_url client cancelled_at rules i rs st ≡ ok st'
      → (st'.memory q ≡ st.memory q) × (st'.channels ≡ st.channels) × (st'.counter ≡ st.counter)
  unfolding apply_loop modify
  loop_keeps cancelled_at i q [] st st' a e = (ground arith, ground arith, ground arith)
  loop_keeps cancelled_at i q (r ∷ rs) st st' a e = elim (Bool-cases (cancelled_at i)) [
    | inl stop ↦ absurd (cc (rw stop at e))
    | inr go ↦ elim (Result-cases (process_rules parse_url client rules (st.memory r))) [
      | inl (x, failed) ↦ absurd (ground arith)
      | inr (ch, done) ↦
          let next = modify r (λ _. ch) st in
          let step = loop_keeps cancelled_at (suc i) q rs next st' a.1 (ground arith) in
          (step.0 ∙ update_ne st.memory r q ch a.0, step.1, step.2)
    ]
  ]

  loop-traverse :
      (i : ℕ) (rs : List ℕ) (st : Store)
      → Distinct rs
      → map_ok (λ st'. map st'.memory rs) (apply_loop parse_url client (λ _. false) rules i rs st)
        ≡ traverse (process_rules parse_url client rules) (map st.memory rs)
  unfolding apply_loop traverse modify
  loop-traverse i [] st d = refl
  loop-traverse i (r ∷ rs) st d =
      elim (Result-cases (process_rules parse_url client rules (st.memory r))) [
        | inl (x, failed) ↦ rw failed
        | inr (ch, done) ↦
            let next = modify r (λ _. ch) st in
            let rest =
              ap (traverse (process_rules parse_url client rules))
                (sym (map-update st.memory r ch rs d.0))
              ∙ sym (loop-traverse (suc i) rs next d.1) in
            elim (Result-cases (apply_loop parse_url client (λ _. false) rules (suc i) rs next)) [
              | inl (x, failed) ↦ rw (done, rest, failed)
              | inr (st', finished) ↦
                  rw (done, rest, finished)
                    (ap {B = Result Error (List Channel)} (λ c. ok (c ∷ map st'.memory rs))
                      ((loop_keeps (λ _. false) (suc i) r rs next st' d.0 finished).0
                        ∙ update_self st.memory r ch))
            ]
      ]

  -- The rules on one channel: each takes what the rules before it left, and an error stays.
  abbrev pub after_rules : Channel → Result Error Channel
  after_rules ch = foldl (λ r rule. r >>= process_channel_rule parse_url client rule) (ok ch) rules

  after_error :
      (x : Error) (rs : List Rule)
      → foldl (λ r rule. r >>= process_channel_rule parse_url client rule) (err x) rs ≡ err x
  after_error x [] = refl
  after_error x (rule ∷ rs) = after_error x rs

  process_rules-foldl :
      (rs : List Rule) (ch : Channel)
      → process_rules parse_url client rs ch
        ≡ foldl (λ r rule. r >>= process_channel_rule parse_url client rule) (ok ch) rs
  unfolding process_rules
  process_rules-foldl [] ch = refl
  process_rules-foldl (rule ∷ rs) ch =
      elim (Result-cases (process_channel_rule parse_url client rule ch)) [
        | inl (x, e) ↦ rw e (sym (after_error x rs))
        | inr (ch', e) ↦ rw e (process_rules-foldl rs ch')
      ]

  each_channel :
      (chs : List Channel)
      → traverse (process_rules parse_url client rules) chs ≡ traverse after_rules chs
  unfolding traverse
  each_channel [] = refl
  each_channel (ch ∷ chs) = rw (process_rules-foldl rules ch, each_channel chs) refl

-- While the context lives, applying the channel rules to a store is running, on each of its channels by
-- itself, each rule in order on what the rules before it left, up to the first error.
pub apply-traverse :
    (parse_url : Text → Option Url) (client : Text) (rules : List Rule) (st : Store)
    → IsWell st
    → map_ok (λ st'. map st'.memory st.channels) (apply parse_url client (λ _. false) rules st)
      ≡ traverse (after_rules parse_url client rules) (contents st)
unfolding apply
apply-traverse parse_url client rules st w =
    loop-traverse parse_url client rules 0 st.channels st w.distinct
    ∙ each_channel parse_url client rules (contents st)

-- Applying the channel rules keeps the list of channels and the counter of the store, and every
-- channel that is not in that list.
pub apply_keeps :
    (parse_url : Text → Option Url) (client : Text) (rules : List Rule) (cancelled_at : ℕ → Bool)
    (q : ℕ) (st st' : Store)
    → Avoids q st.channels
    → apply parse_url client cancelled_at rules st ≡ ok st'
    → (st'.memory q ≡ st.memory q) × (st'.channels ≡ st.channels) × (st'.counter ≡ st.counter)
unfolding apply
apply_keeps parse_url client rules cancelled_at q st st' a e =
    loop_keeps parse_url client rules cancelled_at 0 q st.channels st st' a e
