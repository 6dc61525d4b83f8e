-- ===== src/PoolConfig/Tags.antt =====
-- Tags of outbounds, and the search for one.

use radar_node.Base.{
  ◌≡◌, refl, ◌∙◌, inl, inr, arith, Bool, false, Bool-cases, String, Option, none, some, List, [],
  ◌∷◌, ◌++◌, str_eq, eq_refl, if◌then◌else◌, if_both,
}
use radar_node.Wire.{Value, Members, get_member, put_member, get_member-put_member}
use radar_node.Netbind.{Library, Binding}
use radar_node.PoolConfig.{apply_domain_strategy, send_through, apply_binding, mux, add_mux}

-- The tag of an outbound stays when other keys are put.
abbrev pub tag_of : Members → Option Value
tag_of ms = get_member "tag" ms

tag_of-put :
    (key : String) (v : Value) (ms : Members)
    → str_eq key "tag" ≡ false
    → tag_of (put_member key v ms) ≡ tag_of ms
tag_of-put key v ms other = rw (get_member-put_member key "tag" v ms, other) refl

pub apply_domain_strategy-tag :
    (strategy : String) (ms : Members) → tag_of (apply_domain_strategy strategy ms) ≡ tag_of ms
unfolding apply_domain_strategy
apply_domain_strategy-tag strategy ms =
    if_both (λ (o : Members). tag_of o ≡ tag_of ms) _ refl (tag_of-put "streamSettings" _ ms refl)

pub add_mux-tag : (ms : Members) → tag_of (add_mux ms) ≡ tag_of ms
unfolding add_mux
add_mux-tag ms =
    if_both (λ (o : Members). tag_of o ≡ tag_of ms) _ refl (tag_of-put "mux" mux ms refl)

module _ {Addr : Type 0} (lib : Library Addr) where
  send_through-tag : (a : Option Addr) (ms : Members) → tag_of (send_through lib a ms) ≡ tag_of ms
  send_through-tag none ms = refl
  send_through-tag (some a) ms =
      if_both (λ (o : Members). tag_of o ≡ tag_of ms) _ refl (tag_of-put "sendThrough" _ ms refl)

  pub apply_binding-tag :
      (b : Binding Addr) (ms : Members) → tag_of (apply_binding lib b ms) ≡ tag_of ms
  unfolding apply_binding
  apply_binding-tag b ms =
      let sent = send_through-tag b.source_ip ms in
      if_both (λ (o : Members). tag_of o ≡ tag_of ms) _ refl
        (if_both (λ (o : Members). tag_of o ≡ tag_of ms) _ sent
          (tag_of-put "streamSettings" _ (send_through lib b.source_ip ms) refl ∙ sent))

-- The first item that passes a test.
abbrev pub first {ℓ} : {A : Type ℓ} → (A → Bool) → List A → Option A
first p [] = none
first p (x ∷ xs) = if p x then some x else first p xs

pub first-append-none {ℓ} :
    {A : Type ℓ} (p : A → Bool) (xs ys : List A)
    → first p xs ≡ none
    → first p (xs ++ ys) ≡ first p ys
first-append-none p [] ys h = refl
first-append-none p (x ∷ xs) ys h = elim (Bool-cases (p x)) [
  | inl e ↦ absurd (ground (arith, h, e))
  | inr e ↦ ground (arith, h, e, first-append-none p xs ys)
]

pub first-append-some {ℓ} :
    {A : Type ℓ} (p : A → Bool) (xs ys : List A) (x : A)
    → first p xs ≡ some x
    → first p (xs ++ ys) ≡ some x
first-append-some p [] ys x h = absurd (ground (arith, h))
first-append-some p (y ∷ xs) ys x h = elim (Bool-cases (p y)) [
  | inl e ↦ ground (arith, h, e)
  | inr e ↦ ground (arith, h, e, first-append-some p xs ys x)
]

pub get_member_self :
    (key : String) (v : Value) (ms : Members) → get_member key (put_member key v ms) ≡ some v
get_member_self key v ms = rw (get_member-put_member key key v ms, eq_refl key) refl
