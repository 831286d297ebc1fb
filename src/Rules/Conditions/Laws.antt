-- ===== src/Rules/Conditions/Laws.antt =====
-- What a condition means.
use majmun.Base.{◌≡◌, refl, ◌⊎◌, ◌↔◌, Bool, true, false, not, ◌&&◌, Option, some, List, [], arith}
use majmun.Base.Tests.{if◌then◌else◌}
use majmun.Base.Text.{Text, contains, contains}
use majmun.Channel.{Channel, Selector, get_field_value}
use majmun.Rules.Config.{
  Regexp, Condition, Conditions, condition, nil, cons, is_empty, no_conditions,
}
use majmun.Rules.Conditions.{
  matches_regexps, evaluate_field, combine, matches_condition, evaluate_and, evaluate_or,
}

-- The meaning of a condition in the logic of types. Sub-conditions joined by `or` count only where
-- there are none joined by `and`.
abbrev pub FieldHolds :
    Text → Channel → Option Selector → List Regexp → List Text → List Text → Type 0
FieldHolds client ch selector patterns clients playlists =
    ((patterns ≡ [])
      ⊎ ((value : Text) × (get_field_value selector ch ≡ some value)
          × (matches_regexps value patterns ≡ true)))
    × ((clients ≡ []) ⊎ (contains clients client ≡ true))
    × ((playlists ≡ []) ⊎ (contains playlists ch.playlist.name ≡ true))

evaluate_field-Holds :
    (client : Text) (ch : Channel) (selector : Option Selector) (patterns : List Regexp)
    (clients playlists : List Text)
    → (evaluate_field client ch selector patterns clients playlists ≡ true)
      ↔ FieldHolds client ch selector patterns clients playlists
unfolding evaluate_field
evaluate_field-Holds client ch selector patterns clients playlists = ground arith

-- A Boolean test decides a statement.
abbrev Decides : Bool → Type 0 → Type 0
Decides b P = (b ≡ true) ↔ P

and_Decides : (a b : Bool) {P Q : Type 0} → Decides a P → Decides b Q → Decides (a && b) (P × Q)
and_Decides true b p q = (λ h. (p.0 refl, q.0 h), λ h. q.1 h.1)
and_Decides false b p q = (λ h. cc, λ h. p.1 h.0)

not_Decides : (b : Bool) {P : Type 0} → Decides b P → Decides (not b) (¬ P)
not_Decides true p = (λ h. cc, λ h. absurd (h (p.0 refl)))
not_Decides false p = (λ _ h. absurd (cc (p.1 h)), λ _. refl)

abbrev pub Turned : Bool → Type 0 → Type 0
Turned false P = P
Turned true P = ¬ P

-- What two lists of sub-conditions demand: the second counts only where the first is empty.
abbrev pub Joined : Bool → Bool → Type 0 → Type 0 → Type 0
Joined false any_empty P Q = P
Joined true false P Q = Q
Joined true true P Q = Unit

unfoldable mutual
  pub Holds : Text → Channel → Condition → Type 0
  Holds client ch (condition selector patterns clients playlists all_of any_of invert) =
      (ch.removed ≡ false)
      × Turned invert (
          FieldHolds client ch selector patterns clients playlists
          × Joined (no_conditions all_of) (no_conditions any_of) (HoldsAll client ch all_of)
              (HoldsAny client ch any_of))

  pub HoldsAll : Text → Channel → Conditions → Type 0
  HoldsAll client ch nil = Unit
  HoldsAll client ch (cons c cs) = Holds client ch c × HoldsAll client ch cs

  pub HoldsAny : Text → Channel → Conditions → Type 0
  HoldsAny client ch nil = ⊥
  HoldsAny client ch (cons c cs) = Holds client ch c ⊎ HoldsAny client ch cs

abbrev turn : Bool → Bool → Bool
turn true b = not b
turn false b = b

-- The outcome of matchesCondition by the tests on which it branches.
abbrev outcome : Bool → Bool → Bool → Bool → Bool → Bool → Bool → Bool
outcome removed all_empty any_empty invert field every some_one =
    not removed
    && turn invert
        (field && (if not all_empty then every else if not any_empty then some_one else true))

empty_parts :
    (client : Text) (ch : Channel) (selector : Option Selector) (patterns : List Regexp)
    (clients playlists : List Text) (all_of any_of : Conditions) (invert : Bool)
    → is_empty (condition selector patterns clients playlists all_of any_of invert) ≡ true
    → (evaluate_field client ch selector patterns clients playlists ≡ true)
      × (no_conditions all_of ≡ true)
      × (no_conditions any_of ≡ true)
      × (invert ≡ false)
unfolding is_empty evaluate_field
empty_parts client ch selector patterns clients playlists all_of any_of invert h =
    (ground arith, ground arith, ground arith, ground arith)

combine-outcome :
    (removed empty all_empty any_empty invert field every some_one : Bool)
    → (empty ≡ true → (field ≡ true) × (all_empty ≡ true) × (any_empty ≡ true) × (invert ≡ false))
    → combine removed empty all_empty any_empty invert field every some_one
      ≡ outcome removed all_empty any_empty invert field every some_one
unfolding combine
combine-outcome removed empty all_empty any_empty invert field every some_one h = ground arith

matches-outcome :
    (client : Text) (ch : Channel) (selector : Option Selector) (patterns : List Regexp)
    (clients playlists : List Text) (all_of any_of : Conditions) (invert : Bool)
    → matches_condition client ch
        (condition selector patterns clients playlists all_of any_of invert)
      ≡ outcome ch.removed
          (no_conditions all_of)
          (no_conditions any_of)
          invert
          (evaluate_field client ch selector patterns clients playlists)
          (evaluate_and client ch all_of)
          (evaluate_or client ch any_of)
unfolding matches_condition
matches-outcome client ch selector patterns clients playlists all_of any_of invert =
    combine-outcome ch.removed
      (is_empty (condition selector patterns clients playlists all_of any_of invert))
      (no_conditions all_of) (no_conditions any_of) invert
      (evaluate_field client ch selector patterns clients playlists) (evaluate_and client ch all_of)
      (evaluate_or client ch any_of)
      (empty_parts client ch selector patterns clients playlists all_of any_of invert)

Joined_Decides :
    (all_empty any_empty every some_one : Bool) {P Q : Type 0}
    → Decides every P
    → Decides some_one Q
    → Decides
        (if not all_empty then every else if not any_empty then some_one else true)
        (Joined all_empty any_empty P Q)
Joined_Decides false any_empty every some_one p q = p
Joined_Decides true false every some_one p q = q
Joined_Decides true true every some_one p q = (λ _. tt, λ _. refl)

Turned_Decides :
    (invert b : Bool) {P : Type 0} → Decides b P → Decides (turn invert b) (Turned invert P)
Turned_Decides false b p = p
Turned_Decides true b p = not_Decides b p

outcome_Decides :
    (removed all_empty any_empty invert field every some_one : Bool) {F P Q : Type 0}
    → Decides field F
    → Decides every P
    → Decides some_one Q
    → Decides
        (outcome removed all_empty any_empty invert field every some_one)
        ((removed ≡ false) × Turned invert (F × Joined all_empty any_empty P Q))
outcome_Decides removed all_empty any_empty invert field every some_one f p q =
    and_Decides (not removed) _ (ground arith) (
      Turned_Decides invert _
        (and_Decides field _ f (Joined_Decides all_empty any_empty every some_one p q)))

mutual
  unfolding Holds matches_condition

  matches-Holds :
      (client : Text) (ch : Channel) (c : Condition)
      → Decides (matches_condition client ch c) (Holds client ch c)
  matches-Holds client ch (condition selector patterns clients playlists all_of any_of invert) =
      rw (matches-outcome client ch selector patterns clients playlists all_of any_of invert) (
        outcome_Decides ch.removed (no_conditions all_of) (no_conditions any_of) invert
          (evaluate_field client ch selector patterns clients playlists)
          (evaluate_and client ch all_of) (evaluate_or client ch any_of)
          (evaluate_field-Holds client ch selector patterns clients playlists)
          (and-Holds client ch all_of) (or-Holds client ch any_of))

  and-Holds :
      (client : Text) (ch : Channel) (cs : Conditions)
      → Decides (evaluate_and client ch cs) (HoldsAll client ch cs)
  and-Holds client ch nil = (λ _. tt, λ _. refl)
  and-Holds client ch (cons c cs) =
      ground (arith, matches-Holds client ch c, and-Holds client ch cs)

  or-Holds :
      (client : Text) (ch : Channel) (cs : Conditions)
      → Decides (evaluate_or client ch cs) (HoldsAny client ch cs)
  or-Holds client ch nil = (λ h. cc, λ h. absurd h)
  or-Holds client ch (cons c cs) = ground (arith, matches-Holds client ch c, or-Holds client ch cs)

-- matchesCondition decides the meaning of a condition, however deep it is nested: the channel is not
-- removed, and the field, the clients, the playlists and the sub-conditions hold together, or, for
-- an inverted condition, do not. The sub-conditions hold if all those under `and` do or, where there
-- are none, one of those under `or` does; beside `and` those under `or` are not looked at.
pub matches_condition-Holds :
    (client : Text) (ch : Channel) (c : Condition)
    → (matches_condition client ch c ≡ true) ↔ Holds client ch c
matches_condition-Holds client ch c = matches-Holds client ch c

-- Nothing holds of a removed channel.
pub Holds-live :
    (client : Text) (ch : Channel) (c : Condition) → Holds client ch c → ch.removed ≡ false
unfolding Holds
Holds-live client ch (condition selector patterns clients playlists all_of any_of invert) h = h.0
