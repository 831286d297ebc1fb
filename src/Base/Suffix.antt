-- ===== src/Base/Suffix.antt =====
-- strings.HasSuffix and strings.TrimSuffix, read from the end.
use mathlib.Core.List.{reverse, reverse-append, reverse-reverse}
use majmun.Base.Tests.{if◌then◌else◌}
use majmun.Base.Lists.{length, drop, length-append}
use majmun.Base.Text.{Text, starts_with}
use mathlib.Core.Path.{◌≡◌, refl, sym, ap, ◌∙◌}
use mathlib.Core.Bool.{Bool, true}
use mathlib.Core.List.{[], ◌∷◌, ◌++◌}
use native.Mathlib.Omega.{arith}

unfoldable pub ends_with : Text → Text → Bool
unfolding starts_with
ends_with suffix s = starts_with (reverse suffix) (reverse s)

unfoldable pub trim_suffix : Text → Text → Text
trim_suffix s suffix = if ends_with suffix s then reverse (drop (length suffix) (reverse s)) else s

starts_with-append : (p s : Text) → starts_with p (p ++ s) ≡ true
unfolding starts_with
starts_with-append [] s = refl
starts_with-append (c ∷ p) s = ground (arith, starts_with-append p s)

pub ends_with-append : (s suffix : Text) → ends_with suffix (s ++ suffix) ≡ true
unfolding ends_with
ends_with-append s suffix =
    rw (reverse-append s suffix) (starts_with-append (reverse suffix) (reverse s))

starts_with-split : (p s : Text) → starts_with p s ≡ true → p ++ drop (length p) s ≡ s
unfolding starts_with
starts_with-split [] s h = refl
starts_with-split (c ∷ p) [] h = cc
starts_with-split (c ∷ p) (d ∷ s) h = ground (arith, starts_with-split p s)

length-reverse : (s : Text) → length (reverse s) ≡ length s
length-reverse [] = refl
length-reverse (c ∷ s) =
    ap length (reverse-append (c ∷ []) s)
    ∙ omega (arith, length-append (reverse s) (c ∷ []), length-reverse s)

-- What is cut off and what is left make up the text.
pub trim_suffix-append :
    (s suffix : Text) → ends_with suffix s ≡ true → trim_suffix s suffix ++ suffix ≡ s
unfolding trim_suffix ends_with
trim_suffix-append s suffix h = rw h (
    ap (λ t. reverse (drop (length suffix) (reverse s)) ++ t) (sym (reverse-reverse suffix))
    ∙ sym (reverse-append (reverse suffix) (drop (length suffix) (reverse s)))
    ∙ ap (λ n. reverse (reverse suffix ++ drop n (reverse s))) (sym (length-reverse suffix))
    ∙ ap reverse (starts_with-split (reverse suffix) (reverse s) h)
    ∙ reverse-reverse s)

pub append_cancel : (s t suffix : Text) → s ++ suffix ≡ t ++ suffix → s ≡ t
append_cancel s t suffix h =
    sym (reverse-reverse s)
    ∙ ap reverse (
        cancel (reverse suffix) (reverse s) (reverse t)
          (sym (reverse-append s suffix) ∙ ap reverse h ∙ reverse-append t suffix))
    ∙ reverse-reverse t
  where
    cancel : (p a b : Text) → p ++ a ≡ p ++ b → a ≡ b
    cancel [] a b e = e
    cancel (c ∷ p) a b e = cancel p a b (cc)
