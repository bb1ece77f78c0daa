-- ===== src/Prelude/Dict.antt =====
-- Go's maps with string keys. The representation is private: clients have `dict_laws`. Where the
-- program ranges over a map, the order of iteration is a list that the model takes as an argument.
use pokecatch.Prelude.{
  String, ◌≡◌, refl, Option, none, some, List, [], ◌∷◌, arith, str_eq, str_eq_refl, ◌∙◌, eq_iff,
  if◌then◌else◌,
}

record Entry {ℓ} (V : Type ℓ) : Type ℓ where
  key : String
  value : V

pub record Dict {ℓ} (V : Type ℓ) : Type ℓ where
  entries : List (Entry V)

module _ {ℓ} {V : Type ℓ} where
  abbrev value_at : List (Entry V) → String → Option V
  value_at [] wanted = none
  value_at (e ∷ rest) wanted = if str_eq e.key wanted then some e.value else value_at rest wanted

  abbrev replace : List (Entry V) → Entry V → List (Entry V)
  replace [] new = new ∷ []
  replace (e ∷ rest) new = if str_eq e.key new.key then new ∷ rest else e ∷ replace rest new

  value_at-replace :
      (d : List (Entry V)) (new : Entry V) (wanted : String)
      → value_at (replace d new) wanted
        ≡ (if str_eq new.key wanted then some new.value else value_at d wanted)
  value_at-replace [] new wanted = refl
  value_at-replace (e ∷ rest) new wanted = ground (
    arith,
    eq_iff new.key wanted,
    eq_iff e.key new.key,
    eq_iff e.key wanted,
    value_at-replace rest new wanted,
  )

  abbrev remove : List (Entry V) → String → List (Entry V)
  remove [] k = []
  remove (e ∷ rest) k = if str_eq e.key k then remove rest k else e ∷ remove rest k

  value_at-remove :
      (d : List (Entry V)) (k wanted : String)
      → value_at (remove d k) wanted ≡ (if str_eq k wanted then none else value_at d wanted)
  value_at-remove [] k wanted = ground arith
  value_at-remove (e ∷ rest) k wanted =
      ground
        (arith, eq_iff k wanted, eq_iff e.key k, eq_iff e.key wanted, value_at-remove rest k wanted)

  unfoldable pub empty : Dict V
  empty = record { entries = [] }

  -- v, ok := d[k]
  unfoldable pub get : Dict V → String → Option V
  get d k = value_at d.entries k

  -- d[k] = v
  unfoldable pub put : Dict V → String → V → Dict V
  put d k v = record { entries = replace d.entries (record { key = k; value = v }) }

  -- delete(d, k)
  unfoldable pub delete : Dict V → String → Dict V
  delete d k = record { entries = remove d.entries k }

  pub get-delete :
      (d : Dict V) (k wanted : String)
      → get (delete d k) wanted ≡ (if str_eq k wanted then none else get d wanted)
  unfolding get delete
  get-delete d k wanted = value_at-remove d.entries k wanted

  pub get-put :
      (d : Dict V) (k wanted : String) (v : V)
      → get (put d k v) wanted ≡ (if str_eq k wanted then some v else get d wanted)
  unfolding get put
  get-put d k wanted v = value_at-replace d.entries (record { key = k; value = v }) wanted

  pub get-put_self : (d : Dict V) (k : String) (v : V) → get (put d k v) k ≡ some v
  get-put_self d k v = get-put d k k v ∙ rw (str_eq_refl k) refl

  pub get-empty : (wanted : String) → get empty wanted ≡ none
  unfolding get empty
  get-empty wanted = refl

pub ruleset dict_laws = (get-empty, get-put, get-delete)
