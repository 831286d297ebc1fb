-- ===== src/Sorting/Order.antt =====
-- The comparisons of the sort rule are strict weak orders, so sort.Slice sorts by them.
use majmun.Base.{◌≡◌, refl, ◌⊎◌, inl, inr, Bool, true, false, Option, none, some, arith}
use majmun.Base.Text.{Text}
use majmun.Base.Weak.{IsStrictWeak}
use majmun.Channel.{get_field_value}
use majmun.Natural.Order.{natural_less-IsStrictWeak}
use majmun.Sorting.{Sort, field_less, channel_less, group_less}

field_less_trans :
    (a b c : Option Text) → field_less a b ≡ true → field_less b c ≡ true → field_less a c ≡ true
unfolding field_less
field_less_trans none b c h k = cc
field_less_trans (some u) none c h k = cc
field_less_trans (some u) (some v) none h k = refl
field_less_trans (some u) (some v) (some w) h k = natural_less-IsStrictWeak.trans u v w h k

field_less_cotrans :
    (a b c : Option Text)
    → field_less a c ≡ true
    → (field_less a b ≡ true) ⊎ (field_less b c ≡ true)
unfolding field_less
field_less_cotrans none b c h = inl h
field_less_cotrans (some u) none c h = inl refl
field_less_cotrans (some u) (some v) none h = inr refl
field_less_cotrans (some u) (some v) (some w) h = natural_less-IsStrictWeak.cotrans u v w h

field_less_irrefl : (a : Option Text) → field_less a a ≡ false
unfolding field_less
field_less_irrefl none = refl
field_less_irrefl (some v) = natural_less-IsStrictWeak.irrefl v

-- The comparison of channels is a strict weak order: nothing comes before itself, it is transitive,
-- and what lies between two channels is separated from one of them.
pub channel_less-IsStrictWeak : (rule : Sort) → IsStrictWeak (channel_less rule)
unfolding channel_less
channel_less-IsStrictWeak rule = record {
  irrefl = λ a. ground (arith, field_less_irrefl (get_field_value rule.selector a));
  trans = λ a b c h k. ground (
    arith,
    field_less_trans (get_field_value rule.selector a) (get_field_value rule.selector b)
        (get_field_value rule.selector c),
  );
  cotrans = λ a b c h. ground (
    arith,
    field_less_cotrans (get_field_value rule.selector a) (get_field_value rule.selector b)
        (get_field_value rule.selector c),
  );
}

-- The comparison of groups is a strict weak order.
pub group_less-IsStrictWeak : (rule : Sort) → IsStrictWeak (group_less rule)
unfolding group_less
group_less-IsStrictWeak rule = record {
  irrefl = λ a. ground (arith, natural_less-IsStrictWeak.irrefl a);
  trans = λ a b c h k. ground (arith, natural_less-IsStrictWeak.trans a b c);
  cotrans = λ a b c h. ground (arith, natural_less-IsStrictWeak.cotrans a b c);
}

-- A strict weak order of one side of the entries is one of the entries.
pub IsStrictWeak-pull {ℓ κ} :
    {A : Type ℓ} {B : Type κ} (f : A → B) (less : B → B → Bool)
    → IsStrictWeak less
    → IsStrictWeak (λ a b. less (f a) (f b))
IsStrictWeak-pull f less w = record {
  irrefl = λ a. w.irrefl (f a);
  trans = λ a b c. w.trans (f a) (f b) (f c);
  cotrans = λ a b c. w.cotrans (f a) (f b) (f c);
}
