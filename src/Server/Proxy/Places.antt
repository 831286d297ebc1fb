-- ===== src/Server/Proxy/Places.antt =====
-- How often each place of the list of streams is tried.
use majmun.Base.{
  ℕ, suc, ◌+◌, ◌≤◌, Bool, false, Option, none, List, [], ◌∷◌, ◌++◌, ◌≡◌, ap, inl, inr, ◌∙◌, arith,
}
use majmun.Base.Tests.{leb, ◌==◌, if◌then◌else◌, Bool-cases, Option-cases}
use majmun.Server.Proxy.Tries.{answer_lem}
use majmun.Server.Proxy.Trials.{request_of, playlist_of}
use majmun.Server.Proxy.Rounds.{skip_lem, step_lem}
use majmun.Server.Stream.{
  Playlist, Surroundings, Exchange, try_stream, try_streams, try_all_streams, first_of,
}
use majmun.Urlgen.Types.{Stream}

-- The calls so far for the stream at place `j`.
abbrev pub tries_of : ℕ → List (ℕ × ℕ) → ℕ
tries_of j [] = 0
tries_of j ((attempt, i) ∷ calls) = (if i == j then 1 else 0) + tries_of j calls

tries_of-append :
    (j : ℕ) (xs ys : List (ℕ × ℕ)) → tries_of j (xs ++ ys) ≡ tries_of j xs + tries_of j ys
tries_of-append j [] ys = omega arith
tries_of-append j ((a, i) ∷ xs) ys = omega (arith, tries_of-append j xs ys)

module _ (e : Surroundings) (attempt : ℕ) where
  try_stream_tried :
      (i : ℕ) (stream : Stream) (x : Exchange)
      → (try_stream e attempt i stream x).0.tried ≡ x.tried ++ (attempt, i) ∷ []
  unfolding try_stream
  try_stream_tried i stream x =
      let x' = record x { tried = x.tried ++ (attempt, i) ∷ [] } in
      (answer_lem e x' (e.get_reader attempt i (request_of e stream))).3

  -- A round that begins behind a place.
  past :
      (j i a b : ℕ) → a ≤ b + (if leb (suc i) j then 1 else 0) → a ≤ b + (if leb i j then 1 else 0)
  past j i a b h = ground arith

  module _ (j i : ℕ) (stream : Stream) (x : Exchange) where
    abbrev after_call : Exchange
    after_call = (try_stream e attempt i stream x).0

    called : tries_of j after_call.tried ≤ tries_of j x.tried + (if leb i j then 1 else 0)
    called =
        let calls =
          ap (tries_of j) (try_stream_tried i stream x)
          ∙ tries_of-append j x.tried ((attempt, i) ∷ []) in
        ground (arith, calls)

    called_then :
        {a : ℕ}
        → a ≤ tries_of j after_call.tried + (if leb (suc i) j then 1 else 0)
        → a ≤ tries_of j x.tried + (if leb i j then 1 else 0)
    called_then h =
        let calls =
          ap (tries_of j) (try_stream_tried i stream x)
          ∙ tries_of-append j x.tried ((attempt, i) ∷ []) in
        ground (arith, calls)

  -- A round tries the places from its first one on, each at most once.
  try_streams_once :
      (j : ℕ) (streams : List Stream) (i : ℕ) (limit upstream : Bool) (first : Option Playlist)
      (x : Exchange)
      → tries_of j (try_streams e attempt i streams limit upstream first x).0.tried
        ≤ tries_of j x.tried + (if leb i j then 1 else 0)
  unfolding try_streams
  try_streams_once j [] i limit upstream first x = ground arith
  try_streams_once j (stream ∷ streams) i limit upstream first x =
      elim (Option-cases (playlist_of (e.get_provider stream.provider_info))) [
        | inl missing ↦
            rw (skip_lem e attempt i stream streams limit upstream first x missing)
              (past j i _ _ (try_streams_once j streams (suc i) limit upstream first x))
        | inr (p, found) ↦
            rw (step_lem e attempt i stream streams limit upstream first x p found)
              (elim (Bool-cases (try_stream e attempt i stream x).1.success) [
                | inl won ↦ rw won (called j i stream x)
                | inr lost ↦ rw lost (
                    called_then j i stream x (
                      try_streams_once j streams (suc i) _ _ (first_of e first p)
                        (try_stream e attempt i stream x).0))
              ])
      ]

  at_most_one : (i j a b : ℕ) → a ≤ b + (if leb i j then 1 else 0) → a ≤ b + 1
  at_most_one i j a b h = ground arith

  -- An attempt tries each place at most once.
  pub try_all_streams_once :
      (j : ℕ) (streams : List Stream) (x : Exchange)
      → tries_of j (try_all_streams e attempt streams x).0.tried ≤ tries_of j x.tried + 1
  unfolding try_all_streams
  try_all_streams_once j streams x =
      at_most_one 0 j _ _ (try_streams_once j streams 0 false false none x)
