-- ===== src/Pool/Counted.antt =====
-- The count of a segmenter covers the clients that have it.
use majmun.Base.{ℕ, ◌+◌, ◌≤◌, ◌<◌, ◌≡◌, ◌≢◌, refl, inl, inr, Option, [], ◌∷◌, ◌++◌, arith}
use majmun.Base.Tests.{◌==◌, ==_iff, if◌then◌else◌, Bool-cases, Option-cases}
use majmun.Base.Lists.{length, length-append, All-imp}
use majmun.Base.Text.{Text}
use majmun.Base.Maps.{lookup, insert}
use majmun.Pool.{
  Phase, acquiring, joining, waiting, Pool, new_segmenter, add_client, remove_client, set_phase,
  at_segmenter, get_or_create,
}
use majmun.Pool.Actions.{drop_client}
use majmun.Pool.Counts.{
  share, attached, attached_le, attached_move, attached_drop, count_at, count_at-add_client,
  count_at-remove_client, count_at-append, count_at-last, count_at-end, nth-within,
}
use majmun.Pool.Known.{Known, lookup-Known, insert-Known, length-modify_at, Quiet}

pub record Counted (p : Pool) : Type 0 where
  pub enough : (i n : ℕ) → attached i n p.phase ≤ count_at i p.made
  pub joined : (c i : ℕ) → p.phase c ≡ joining i → i < length p.made
  pub mapped : Known (length p.made) p.segmenters

pub Quiet-Counted : (p p' : Pool) → Quiet p p' → Counted p → Counted p'
Quiet-Counted p p' q h = record {
  enough = λ i n.
      omega (arith, attached_le i n p.phase p'.phase (q.shares i), h.enough i n, q.same_counts i);
  joined = λ c i e. omega (arith, h.joined c i (q.joins c i e), q.lengths);
  mapped = rw q.lengths (q.maps (length p.made) h.mapped);
}

-- The phase of a client that comes to join a segmenter, or does not.
moved-joined :
    (c i n : ℕ) (ph : Phase) (phase : ℕ → Phase)
    → ((j : ℕ) → ph ≡ joining j → j < n)
    → ((d j : ℕ) → phase d ≡ joining j → j < n)
    → (d : ℕ) → (if c == d then ph else phase d) ≡ joining i
    → i < n
moved-joined c i n ph phase new old d e = elim (Bool-cases (c == d)) [
  | inl hit ↦ new i (rw hit at e)
  | inr miss ↦ old d i (rw miss at e)
]

created-Counted :
    (c : ℕ) (key : Text) (semaphore : Option ℕ) (p : Pool)
    → Counted p
    → Counted (
        set_phase c (acquiring (length p.made)) (record p {
          segmenters = insert key (length p.made) p.segmenters;
          made = p.made ++ new_segmenter key semaphore ∷ [];
        }))
unfolding set_phase new_segmenter
created-Counted c key semaphore p h =
    let len = length p.made in
    let grown : length (p.made ++ new_segmenter key semaphore ∷ []) ≡ len + 1 =
      length-append p.made (new_segmenter key semaphore ∷ []) in
    record {
      enough = λ j n. elim (Bool-cases (j == len)) [
        | inl e ↦
            let last : j ≡ len = (==_iff j len).0 e in
            let one : share len (acquiring len) ≡ 1 = ground arith in
            rw last (
              omega (
                arith,
                attached_move len c n (acquiring len) p.phase,
                h.enough len n,
                count_at-end p.made,
                count_at-last p.made (new_segmenter key semaphore),
                one,
              ))
        | inr e ↦
            let nothing : share j (acquiring len) ≡ 0 = rw e refl in
            omega (
              arith,
              attached_move j c n (acquiring len) p.phase,
              h.enough j n,
              count_at-append j p.made (new_segmenter key semaphore),
              nothing,
            )
      ];
      joined = λ d j k. omega (
        arith,
        grown,
        moved-joined c j len (acquiring len) p.phase (λ j' same. absurd (cc same)) h.joined d k,
      );
      mapped = rw grown (
          insert-Known (len + 1) len key p.segmenters (omega arith)
            (All-imp (λ e k. omega (arith, k)) p.segmenters h.mapped));
    }

pub get_or_create-Counted :
    (c : ℕ) (key : Text) (semaphore : Option ℕ) (p : Pool)
    → Counted p
    → Counted (get_or_create c key semaphore p)
unfolding get_or_create set_phase
get_or_create-Counted c key semaphore p h = elim (Option-cases (lookup key p.segmenters)) [
  | inl e ↦ rw (e, get_or_create) (created-Counted c key semaphore p h)
  | inr (i, e) ↦
      rw (e, get_or_create)
        (record {
          enough = λ j n. omega (arith, attached_move j c n (joining i) p.phase, h.enough j n);
          joined = λ d j k.
              moved-joined c j (length p.made) (joining i) p.phase
                (λ j' same.
                  let at_i : i ≡ j' = cc same in
                  rw (← at_i) (lookup-Known (length p.made) i key p.segmenters h.mapped e))
                h.joined d k;
          mapped = h.mapped;
        })
]

pub join-Counted :
    (c i : ℕ) (p : Pool)
    → p.phase c ≡ joining i
    → Counted p
    → Counted (at_segmenter i add_client (set_phase c (waiting i) p))
unfolding at_segmenter set_phase
join-Counted c i p e h =
    let (s, at_i) = nth-within i p.made (h.joined c i e) in
    record {
      enough = λ j n. omega (
        arith,
        attached_move j c n (waiting i) p.phase,
        h.enough j n,
        count_at-add_client j i p.made s at_i,
      );
      joined = λ d j k. rw (length-modify_at i add_client p.made) (
          moved-joined c j (length p.made) (waiting i) p.phase (λ j' same. absurd (cc same))
            h.joined d k);
      mapped = rw (length-modify_at i add_client p.made) h.mapped;
    }

pub drop_client-Counted :
    (c i : ℕ) (ph : Phase) (p : Pool)
    → ((j : ℕ) → share j ph ≡ 0)
    → ((j : ℕ) → ph ≢ joining j)
    → ((j : ℕ) → share j (p.phase c) ≡ share j (waiting i))
    → Counted p
    → Counted (drop_client c i ph p)
unfolding drop_client at_segmenter set_phase
drop_client-Counted c i ph p gone apart had h = record {
  enough = λ j n. omega (
    arith,
    attached_drop j c n (count_at j p.made) ph p.phase (gone j) (h.enough j),
    count_at-remove_client j i p.made,
    had j,
  );
  joined = λ d j k. rw (length-modify_at i remove_client p.made) (
      moved-joined c j (length p.made) ph p.phase (λ j' same. absurd (apart j' same)) h.joined d k);
  mapped = rw (length-modify_at i remove_client p.made) h.mapped;
}
