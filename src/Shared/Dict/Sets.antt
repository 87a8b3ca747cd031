-- ===== src/Shared/Dict/Sets.antt =====
-- `HashSet` and `BTreeSet`: maps to nothing.
use mathlib.Core.Path.{◌≡◌, refl}
use mathlib.Core.Bool.{Bool, true, false, not, ◌&&◌, ◌||◌}
use mathlib.Core.Logic.{inl, inr}
use mathlib.Core.List.{[], ◌∷◌}
use native.Mathlib.Omega.{arith}
use ess_p2p_rs.Shared.Tests.{Bool-cases}
use ess_p2p_rs.Shared.Order.{Ord}
use ess_p2p_rs.Shared.Dict.Base.{
  Dict, lookup, contains_key, insert, remove, lookup-insert, lookup-remove,
}

-- A `HashSet` or `BTreeSet`.
abbrev pub KeySet {ℓ} : Type ℓ → Type ℓ
KeySet K = Dict K (Unit {0})

abbrev pub add {ℓ} : {K : Type ℓ} ⦃o : Ord K⦄ → K → KeySet K → KeySet K
add k s = insert k tt s

module _ {ℓ} {K : Type ℓ} ⦃o : Ord K⦄ where
  abbrev pub contains : K → KeySet K → Bool
  contains k s = contains_key k s

  -- `s.iter().any(p)`
  unfoldable pub any_key : (K → Bool) → KeySet K → Bool
  any_key p [] = false
  any_key p ((k, u) ∷ s) = p k || any_key p s

  -- `for k in t { s.insert(k) }`
  unfoldable pub union : KeySet K → KeySet K → KeySet K
  union s [] = s
  union s ((k, u) ∷ t) = union (add k s) t

  pub contains-nil : (k : K) → contains k [] ≡ false
  unfolding lookup
  contains-nil k = refl

  pub contains-add : (k q : K) (s : KeySet K) → contains q (add k s) ≡ (o.beq k q || contains q s)
  contains-add k q s = ground (arith, lookup-insert k q tt s)

  pub contains-union :
      (q : K) (s t : KeySet K) → contains q (union s t) ≡ (contains q s || contains q t)
  unfolding union lookup
  contains-union q s [] = ground arith
  contains-union q s ((k, u) ∷ t) = ground (arith, contains-union q (add k s) t, contains-add k q s)

  pub contains-remove :
      (k q : K) (s : KeySet K) → contains q (remove k s) ≡ (not (o.beq k q) && contains q s)
  contains-remove k q s = ground (arith, lookup-remove k q s)

  -- `any` finds a key that passes the test.
  pub any_key_sound :
      (p : K → Bool) (s : KeySet K)
      → any_key p s ≡ true
      → (k : K) × (contains k s ≡ true) × (p k ≡ true)
  unfolding any_key lookup
  any_key_sound p [] h = cc
  any_key_sound p ((k, u) ∷ s) h = elim (Bool-cases (p k)) [
    | inl pass ↦ (k, ground (arith, o.beq_iff k k), pass)
    | inr fail ↦ let (q, c, d) = any_key_sound p s (ground arith) in (q, ground arith, d)
  ]

  pub any_key_complete :
      (p : K → Bool) (k : K) (s : KeySet K) → contains k s ≡ true → p k ≡ true → any_key p s ≡ true
  unfolding any_key lookup
  any_key_complete p k [] c h = cc
  any_key_complete p k ((j, u) ∷ s) c h = ground (arith, o.beq_iff j k, any_key_complete p k s)
