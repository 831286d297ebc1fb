-- ===== src/Urlgen/Extension.antt =====
-- internal/urlgen/urlgen.go, determineExtension: what stands at the end of a link.
use majmun.Base.{ℕ, ◌≡◌, ◌≢◌, refl, ◌∙◌, ap, [], ◌∷◌, ◌++◌, arith, ◌⊎◌, inl, inr}
use majmun.Base.Tests.{◌==◌, ==_iff, Bool-cases}
use majmun.Base.Lists.{All, All-append}
use majmun.Base.Text.{Text, codes}
use majmun.Urlgen.Types.{Data, RequestType, stream, file}
use majmun.Urlgen.{
  before_query, ext_loop, or_file, file_extension, extension_of, determine_extension,
}

abbrev pub IsPlain : ℕ → Type 0
IsPlain c = (c ≢ b'?') × (c ≢ b'/') × (c ≢ b'.')

-- A dot, and no dot, slash or question mark after it.
abbrev pub IsExtension : Text → Type 0
IsExtension t = (p : Text) × (t ≡ b'.' ∷ p) × All IsPlain p

abbrev NoQuery : Text → Type 0
NoQuery s = All (λ c. c ≢ b'?') s

before_query-NoQuery : (s : Text) → NoQuery (before_query s)
unfolding before_query
before_query-NoQuery [] = tt
before_query-NoQuery (c ∷ s) = elim (Bool-cases (c == b'?')) [
  | inl e ↦ rw e tt
  | inr e ↦ rw e (ground (arith, ==_iff c b'?'), before_query-NoQuery s)
]

-- What is found before `s`: nothing, or what begins at the last dot.
abbrev IsFound : Text → Text → Type 0
IsFound found s = (found ≡ []) ⊎ ((p : Text) × (found ≡ b'.' ∷ (p ++ s)) × All IsPlain p)

append_one : (p : Text) (c : ℕ) (s : Text) → p ++ (c ∷ s) ≡ (p ++ c ∷ []) ++ s
append_one [] c s = refl
append_one (x ∷ p) c s = ap (λ t. x ∷ t) (append_one p c s)

IsFound-next :
    (found : Text) (c : ℕ) (s : Text) → IsPlain c → IsFound found (c ∷ s) → IsFound found s
IsFound-next found c s h (inl e) = inl e
IsFound-next found c s h (inr (p, e, a)) = inr (
  p ++ c ∷ [],
  e ∙ ap (λ t. b'.' ∷ t) (append_one p c s),
  All-append IsPlain p (c ∷ []) a (h, tt),
)

ext_loop-IsFound : (found s : Text) → NoQuery s → IsFound found s → IsFound (ext_loop found s) []
unfolding ext_loop
ext_loop-IsFound found [] h k = k
ext_loop-IsFound found (c ∷ s) h k = elim (Bool-cases (c == b'/')) [
  | inl slash ↦ rw slash (ext_loop-IsFound [] s h.1 (inl refl))
  | inr no_slash ↦ elim (Bool-cases (c == b'.')) [
    | inl dot ↦
        rw (no_slash, dot)
          (ext_loop-IsFound (c ∷ s) s h.1 (inr ([], ap (λ x. x ∷ s) ((==_iff c b'.').0 dot), tt)))
    | inr no_dot ↦
        rw (no_slash, no_dot)
          (ext_loop-IsFound found s h.1 (
            IsFound-next found c s
              (h.0, ground (arith, ==_iff c b'/'), ground (arith, ==_iff c b'.')) k))
  ]
]

file_suffix : IsExtension (codes ".file")
file_suffix = (codes "file", refl, ground arith)

or_file-IsExtension : (t : Text) → IsFound t [] → IsExtension (or_file t)
unfolding or_file
or_file-IsExtension [] h = file_suffix
or_file-IsExtension (c ∷ s) (inl e) = absurd (cc e)
or_file-IsExtension (c ∷ s) (inr (p, e, a)) = (p ++ [], e, All-append IsPlain p [] a tt)

file_extension-IsExtension : (t : Text) → IsExtension (file_extension t)
unfolding file_extension
file_extension-IsExtension [] = file_suffix
file_extension-IsExtension (c ∷ s) =
    or_file-IsExtension (ext_loop [] (before_query (c ∷ s)))
      (ext_loop-IsFound [] (before_query (c ∷ s)) (before_query-NoQuery (c ∷ s)) (inl refl))

-- The extension of a link is a dot with no further dot, slash or question mark, whatever the URL
-- behind the link is: the token stays the last path element but one.
pub determine_extension-IsExtension : (d : Data) → IsExtension (determine_extension d)
unfolding determine_extension extension_of
determine_extension-IsExtension d = elim (kind d.request_type) [
  | inl e ↦ rw e (codes "ts", refl, ground arith)
  | inr e ↦ rw e (file_extension-IsExtension d.file.url)
]
  where
    kind : (t : RequestType) → (t ≡ stream) ⊎ (t ≡ file)
    kind stream = inl refl
    kind file = inr refl
