-- ===== src/Prelude/Maps.antt =====
-- `Record<string, V>` and `Map<string, V>`: entries in insertion order. A write to a key that is
-- present replaces its value in place.
use Prim.Native.String.{String}
use mathlib.Core.Path.{◌≡◌, refl}
use mathlib.Core.Bool.{true}
use mathlib.Core.Option.{Option, none, some}
use mathlib.Core.List.{List, [], ◌∷◌}
use native.Mathlib.Omega.{arith}
use text.Mathlib.TextEquality.{eq_iff}
use pi_build_conductor.Prelude.Tests.{◌==◌, string_eq, if◌then◌else◌, is_some}
use pi_build_conductor.Prelude.Lists.{includes}

abbrev pub Dict {ℓ} : Type ℓ → Type ℓ
Dict V = List (String × V)

module _ {ℓ} {V : Type ℓ} where
  -- `dict[key]`.
  abbrev pub get : String → Dict V → Option V
  get k [] = none
  get k ((j, v) ∷ m) = if j == k then some v else get k m

  -- `dict[key] = value`.
  abbrev pub put : String → V → Dict V → Dict V
  put k v [] = (k, v) ∷ []
  put k v ((j, w) ∷ m) = if j == k then (j, v) ∷ m else (j, w) ∷ put k v m

  abbrev pub keys : Dict V → List String
  keys [] = []
  keys ((k, v) ∷ m) = k ∷ keys m

  abbrev pub values : Dict V → List V
  values [] = []
  values ((k, v) ∷ m) = v ∷ values m

  pub get-put :
      (k j : String) (v : V) (m : Dict V) → get j (put k v m) ≡ (if k == j then some v else get j m)
  get-put k j v [] = refl
  get-put k j v ((i, w) ∷ m) = ground (arith, eq_iff k j, eq_iff i k, eq_iff i j, get-put k j v m)

  pub includes-keys : (k : String) (m : Dict V) → includes k (keys m) ≡ is_some (get k m)
  includes-keys k [] = refl
  includes-keys k ((j, v) ∷ m) = ground (arith, includes-keys k m)

  -- A write to a present key keeps the keys and their order.
  pub keys-put_present :
      (k : String) (v : V) (m : Dict V) → is_some (get k m) ≡ true → keys (put k v m) ≡ keys m
  keys-put_present k v [] h = absurd (cc)
  keys-put_present k v ((j, w) ∷ m) h = ground (arith, keys-put_present k v m)
