-- ===== src/Gateway/Routes.antt =====
-- The routing table of services/gateway/internal/gateway.go under any order of the range over it.
use pokecatch.Prelude.{
  String, ◌≡◌, refl, sym, ◌∙◌, ap, Bool, true, false, not, ◌&&◌, ◌||◌, ◌⊎◌, ◌↔◌, inl, inr, none,
  some, List, [], ◌∷◌, str_eq, eq_iff, arith, Bool-cases, Option-cases,
}
use pokecatch.Prelude.Text.{has_prefix, has_prefix_chain}
use pokecatch.Gateway.{Route, new_router, upstream, public_prefixes, has_some_prefix, is_public}

-- `r` stands in the list.
abbrev pub Holds : List Route → Route → Type 0
Holds [] r = ⊥
Holds (x ∷ xs) r = (x ≡ r) ⊎ Holds xs r

-- What a range over the map meets: its routes, in any order.
abbrev pub IsRange : List Route → Type 0
IsRange order = (r : Route) → Holds order r ↔ Holds new_router r

abbrev comparable : String → String → Bool
comparable p q = has_prefix p q || has_prefix q p

abbrev apart_from : Route → List Route → Bool
apart_from r [] = true
apart_from r (x ∷ xs) = not (comparable r.prefix x.prefix) && apart_from r xs

abbrev are_apart : List Route → Bool
are_apart [] = true
are_apart (r ∷ rs) = apart_from r rs && are_apart rs

new_router-are_apart : are_apart new_router ≡ true
unfolding has_prefix
new_router-are_apart = refl

not_both :
    (path p q : String)
    → has_prefix path p ≡ true
    → has_prefix path q ≡ true
    → comparable p q ≡ true
not_both path p q h k = elim (has_prefix_chain path p q h k) [
  | inl a ↦ ground (arith, a)
  | inr a ↦ ground (arith, a)
]

apart_from-Holds :
    (r x : Route) (rs : List Route) (path : String)
    → apart_from r rs ≡ true
    → Holds rs x
    → has_prefix path r.prefix ≡ true
    → has_prefix path x.prefix ≡ false
apart_from-Holds r x [] path h m k = elim m [ ]
apart_from-Holds r x (y ∷ ys) path h (inl e) k = elim (Bool-cases (has_prefix path y.prefix)) [
  | inl a ↦ absurd (ground (arith, h, not_both path r.prefix y.prefix k a))
  | inr a ↦ ap (λ z. has_prefix path z.prefix) (sym e) ∙ a
]
apart_from-Holds r x (y ∷ ys) path h (inr m) k =
    apart_from-Holds r x ys path (ground (arith, h)) m k

only_match :
    (r x : Route) (rs : List Route) (path : String)
    → are_apart rs ≡ true
    → Holds rs r
    → Holds rs x
    → has_prefix path r.prefix ≡ true
    → has_prefix path x.prefix ≡ true
    → r ≡ x
only_match r x [] path h m n j k = elim m [ ]
only_match r x (y ∷ ys) path h (inl e) (inl d) j k = sym e ∙ d
only_match r x (y ∷ ys) path h (inl e) (inr m) j k = absurd (
    ground (
      arith,
      k,
      apart_from-Holds y x ys path (ground (arith, h)) m (ap (λ z. has_prefix path z.prefix) e ∙ j),
    ))
only_match r x (y ∷ ys) path h (inr m) (inl e) j k = absurd (
    ground (
      arith,
      j,
      apart_from-Holds y r ys path (ground (arith, h)) m (ap (λ z. has_prefix path z.prefix) e ∙ k),
    ))
only_match r x (y ∷ ys) path h (inr m) (inr n) j k =
    only_match r x ys path (ground (arith, h)) m n j k

pub upstream_some :
    (rs : List Route) (path up : String)
    → upstream rs path ≡ some up
    → (r : Route) × Holds rs r × (has_prefix path r.prefix ≡ true) × (r.upstream ≡ up)
unfolding upstream
upstream_some [] path up h = absurd (cc h)
upstream_some (r ∷ rs) path up h = elim (Bool-cases (has_prefix path r.prefix)) [
  | inl e ↦ (r, inl refl, e, ground (arith, h, e))
  | inr e ↦ let (x, m, j, k) = upstream_some rs path up (ground (arith, h, e)) in (x, inr m, j, k)
]

upstream_none :
    (rs : List Route) (path : String) (r : Route)
    → upstream rs path ≡ none
    → Holds rs r
    → has_prefix path r.prefix ≡ false
unfolding upstream
upstream_none [] path r h m = elim m [ ]
upstream_none (x ∷ xs) path r h m = elim (Bool-cases (has_prefix path x.prefix)) [
  | inl e ↦ absurd (ground (arith, h, e))
  | inr e ↦ elim m [
    | inl d ↦ ap (λ z. has_prefix path z.prefix) (sym d) ∙ e
    | inr n ↦ upstream_none xs path r (ground (arith, h, e)) n
  ]
]

-- Whatever the order in which the range meets the routes of NewRouter, a path leads to the same
-- upstream, or to none.
pub upstream_any_order :
    (order : List Route) (path : String)
    → IsRange order
    → upstream order path ≡ upstream new_router path
upstream_any_order order path range = elim (Option-cases (upstream order path)) [
  | inl e ↦ elim (Option-cases (upstream new_router path)) [
    | inl d ↦ e ∙ sym d
    | inr (up, d) ↦
        let (r, m, j, k) = upstream_some new_router path up d in
        absurd (ground (arith, j, upstream_none order path r e ((range r).1 m)))
  ]
  | inr (up, e) ↦
      let (r, m, j, k) = upstream_some order path up e in
      elim (Option-cases (upstream new_router path)) [
        | inl d ↦ absurd (ground (arith, j, upstream_none new_router path r d ((range r).0 m)))
        | inr (other, d) ↦
            let (x, n, a, b) = upstream_some new_router path other d in
            let same = only_match r x new_router path new_router-are_apart ((range r).0 m) n j a in
            e ∙ ap some (sym k ∙ ap (λ z. z.upstream) same ∙ b) ∙ sym d
      ]
]

abbrev clear_of : String → List String → Bool
clear_of prefix [] = true
clear_of prefix (p ∷ ps) = not (comparable prefix p) && clear_of prefix ps

abbrev pub auth_upstream : String
auth_upstream = "http://auth:8080"

-- A route other than the one to the auth service shares no path with the public prefixes.
abbrev are_guarded : List Route → Bool
are_guarded [] = true
are_guarded (r ∷ rs) =
    (str_eq r.upstream auth_upstream || clear_of r.prefix public_prefixes) && are_guarded rs

new_router-are_guarded : are_guarded new_router ≡ true
unfolding has_prefix
new_router-are_guarded = refl

clear_of-has_some_prefix :
    (ps : List String) (prefix path : String)
    → clear_of prefix ps ≡ true
    → has_prefix path prefix ≡ true
    → has_some_prefix ps path ≡ false
clear_of-has_some_prefix [] prefix path h k = refl
clear_of-has_some_prefix (p ∷ ps) prefix path h k = elim (Bool-cases (has_prefix path p)) [
  | inl e ↦ absurd (ground (arith, h, not_both path prefix p k e))
  | inr e ↦ ground (arith, e, clear_of-has_some_prefix ps prefix path (ground (arith, h)) k)
]

guarded-Holds :
    (rs : List Route) (r : Route) (path : String)
    → are_guarded rs ≡ true
    → Holds rs r
    → has_prefix path r.prefix ≡ true
    → (r.upstream ≡ auth_upstream) ⊎ (has_some_prefix public_prefixes path ≡ false)
guarded-Holds [] r path h m k = elim m [ ]
guarded-Holds (x ∷ xs) r path h (inr m) k = guarded-Holds xs r path (ground (arith, h)) m k
guarded-Holds (x ∷ xs) r path h (inl e) k = elim (Bool-cases (str_eq x.upstream auth_upstream)) [
  | inl a ↦ inl (ap (λ z. z.upstream) (sym e) ∙ (eq_iff x.upstream auth_upstream).0 a)
  | inr a ↦ inr (
      clear_of-has_some_prefix public_prefixes x.prefix path (ground (arith, h, a))
        (ap (λ z. has_prefix path z.prefix) e ∙ k))
]

-- A path that is served without a token leads to the auth service only.
pub public_upstream :
    (order : List Route) (path up : String)
    → IsRange order
    → upstream order path ≡ some up
    → (up ≡ auth_upstream) ⊎ (is_public path ≡ false)
unfolding is_public
public_upstream order path up range h =
    let (r, m, j, k) = upstream_some order path up h in
    elim (guarded-Holds new_router r path new_router-are_guarded ((range r).0 m) j) [
      | inl a ↦ inl (sym k ∙ a)
      | inr a ↦ inr a
    ]
