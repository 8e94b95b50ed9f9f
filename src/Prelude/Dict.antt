-- ===== src/Prelude/Dict.antt =====
-- Python's `dict`, in insertion order: an assignment to a key that is there keeps its place.
use mathlib.Core.Path.{◌≡◌, refl}
use mathlib.Core.Bool.{Bool, true, false, ◌||◌}
use mathlib.Core.Option.{Option, none, some}
use mathlib.Core.List.{List, [], ◌∷◌}
use native.Mathlib.Omega.{arith}
use roboparty_rp_server.Prelude.Tests.{Eq, ◌==◌, if◌then◌else◌}

abbrev pub Dict {ℓ κ} : Type ℓ → Type κ → Type (ℓ ⊔ κ)
Dict K V = List (K × V)

abbrev pub is_some {ℓ} : {A : Type ℓ} → Option A → Bool
is_some none = false
is_some (some _) = true

abbrev pub picks {ℓ} : {A : Type ℓ} → (A → Bool) → Option A → Bool
picks test none = false
picks test (some v) = test v

module _ {ℓ} {K : Type ℓ} ⦃e : Eq K⦄ where
  abbrev pub contains : List K → K → Bool
  contains [] j = false
  contains (k ∷ ks) j = k == j || contains ks j

module _ {ℓ κ} {K : Type ℓ} {V : Type κ} ⦃e : Eq K⦄ where
  -- d.get(k)
  unfoldable pub get : Dict K V → K → Option V
  get [] k = none
  get ((j, v) ∷ d) k = if j == k then some v else get d k

  -- d[k] = v
  unfoldable pub put : Dict K V → K → V → Dict K V
  put [] k v = (k, v) ∷ []
  put ((j, w) ∷ d) k v = if j == k then (j, v) ∷ d else (j, w) ∷ put d k v

  -- del d[k], d.pop(k, None)
  unfoldable pub remove : Dict K V → K → Dict K V
  remove [] k = []
  remove ((j, v) ∷ d) k = let rest = remove d k in if j == k then rest else (j, v) ∷ rest

  pub get-put :
      (d : Dict K V) (k j : K) (v : V) → get (put d k v) j ≡ (if k == j then some v else get d j)
  unfolding get put
  get-put [] k j v = refl
  get-put ((i, w) ∷ d) k j v =
      ground (arith, e.same_iff k j, e.same_iff i k, e.same_iff i j, get-put d k j v)

  pub get-remove :
      (d : Dict K V) (k j : K) → get (remove d k) j ≡ (if k == j then none else get d j)
  unfolding get remove
  get-remove [] k j = ground arith
  get-remove ((i, w) ∷ d) k j =
      ground (arith, e.same_iff k j, e.same_iff i k, e.same_iff i j, get-remove d k j)

pub same_self {ℓ} : {K : Type ℓ} ⦃e : Eq K⦄ (k : K) → (k == k) ≡ true
same_self ⦃e⦄ k = (e.same_iff k k).1 refl

pub ruleset dict_laws = (get-put, get-remove, same_self)

module _ {ℓ κ} {K : Type ℓ} {V : Type κ} ⦃e : Eq K⦄ where
  -- k in d
  abbrev pub has : Dict K V → K → Bool
  has d k = is_some (get d k)

  -- The keys of the entries that a test picks, as a list comprehension over `d.items()` has them.
  unfoldable pub keys_where : (V → Bool) → Dict K V → List K
  keys_where test [] = []
  keys_where test ((k, v) ∷ d) = let rest = keys_where test d in if test v then k ∷ rest else rest

  -- for k in ks: del d[k]
  unfoldable pub remove_all : List K → Dict K V → Dict K V
  remove_all [] d = d
  remove_all (k ∷ ks) d = remove_all ks (remove d k)

  unfoldable pub values : Dict K V → List V
  values [] = []
  values ((k, v) ∷ d) = v ∷ values d

  -- No key stands twice.
  abbrev pub IsDict : Dict K V → Type (ℓ ⊔ κ)
  IsDict [] = Unit
  IsDict ((k, v) ∷ d) = (get d k ≡ none) × IsDict d

  pub put-IsDict : (d : Dict K V) (k : K) (v : V) → IsDict d → IsDict (put d k v)
  unfolding put get
  put-IsDict [] k v h = (refl, tt)
  put-IsDict ((j, w) ∷ d) k v h =
      ground (arith, get-put d k j v, put-IsDict d k v, e.same_iff j k, e.same_iff k j)

  pub remove-IsDict : (d : Dict K V) (k : K) → IsDict d → IsDict (remove d k)
  unfolding remove
  remove-IsDict [] k h = tt
  remove-IsDict ((j, w) ∷ d) k h = ground (arith, get-remove d k j, remove-IsDict d k)

  pub get-remove_all-contains :
      (ks : List K) (d : Dict K V) (j : K)
      → get (remove_all ks d) j ≡ (if contains ks j then none else get d j)
  unfolding remove_all
  get-remove_all-contains [] d j = refl
  get-remove_all-contains (k ∷ ks) d j =
      ground (arith, get-remove_all-contains ks (remove d k) j, get-remove d k j)

  contains-keys_where :
      (test : V → Bool) (d : Dict K V) (j : K)
      → IsDict d
      → contains (keys_where test d) j ≡ picks test (get d j)
  unfolding keys_where get
  contains-keys_where test [] j h = refl
  contains-keys_where test ((k, v) ∷ d) j h =
      ground (arith, contains-keys_where test d j, e.same_iff k j)

  -- Deleting the entries that a test picks leaves the others as they are.
  pub get-remove_all :
      (test : V → Bool) (d : Dict K V) (j : K)
      → IsDict d
      → get (remove_all (keys_where test d) d) j ≡ (if picks test (get d j) then none else get d j)
  get-remove_all test d j h =
      rw (← contains-keys_where test d j h) (get-remove_all-contains (keys_where test d) d j)

  pub remove_all-IsDict : (ks : List K) (d : Dict K V) → IsDict d → IsDict (remove_all ks d)
  unfolding remove_all
  remove_all-IsDict [] d h = h
  remove_all-IsDict (k ∷ ks) d h = remove_all-IsDict ks (remove d k) (remove-IsDict d k h)
