-- ===== src/Store/Tests.antt =====
-- The laws of the store at concrete channels.
use majmun.Base.{List, [], ◌∷◌}
use majmun.Base.Text.{codes}
use majmun.Channel.{Channel}
use majmun.Store.{add_all, new_store}
use majmun.Store.Filled.{Ensured, Each, add_all-refines}
use majmun.Store.Laws.{IsWell, contents}
use majmun.Samples.{sha, memory, channel}

abbrev two : List Channel
two = channel (codes "a") (codes "One") 0 ∷ channel [] (codes "Two") 0 ∷ []

add_all-refines_example :
    IsWell (add_all sha two (new_store memory))
    × Each (Ensured sha) two (contents (add_all sha two (new_store memory)))
add_all-refines_example = add_all-refines sha memory two
