-- ===== src/Matcher/Priorities.antt =====
-- What the priorities of setPriorities mean.
use majmun.Base.{ℕ, suc, not, ◌&&◌, Option, none, some, List, [], ◌∷◌}
use majmun.Base.Tests.{◌==◌, if◌then◌else◌}
use majmun.Base.Lists.{length}
use majmun.Base.Text.{Text}
use majmun.Channel.{Channel}
use majmun.Rules.Config.{Regexp}

-- The first pattern, in the order of the rule, that matches and is not the one with priority `empty`.
pub first_match : ℕ → Text → List Regexp → Option ℕ
first_match empty v [] = none
first_match empty v (p ∷ ps) =
    let rest = first_match empty v ps in
    if p.match_string v && not (suc (length ps) == empty) then some (suc (length ps)) else rest
