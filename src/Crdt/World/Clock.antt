-- ===== src/Crdt/World/Clock.antt =====
-- src/crdt_state.rs: the vector clock of a `CrdtWorldState` and `dominates`.
use ess_p2p_rs.Shared.{
  ℕ, suc, ◌≤◌, ◌<◌, ◌≡◌, refl, Bool, true, false, ◌||◌, none, some, [], ◌∷◌, inl, inr, ◌⊎◌, ◌↔◌,
  Text, ltb, ltb→lt, unwrap_or, Bool-cases, Option-cases, arith,
}
use ess_p2p_rs.Shared.Order.{text_ord}
use ess_p2p_rs.Shared.Dict.{Dict, lookup, IsSorted, lookup_head, lookup_rest}
use ess_p2p_rs.Crdt.World.{CrdtWorldState, dominates_loop, dominates}

abbrev count : Text → Dict Text ℕ → ℕ
count node m = unwrap_or (lookup node m) 0

-- No entry of `m` is behind `other`'s count for its node.
abbrev pub NowhereBehind : Dict Text ℕ → Dict Text ℕ → Type 0
NowhereBehind m other = (node : Text) (c : ℕ) → lookup node m ≡ some c → count node other ≤ c

-- Some entry of `m` is ahead.
abbrev pub SomewhereAhead : Dict Text ℕ → Dict Text ℕ → Type 0
SomewhereAhead m other = (node : Text) × (c : ℕ) × (lookup node m ≡ some c) × (count node other < c)

ahead_rest :
    (k : Text) (v : ℕ) (m other : Dict Text ℕ)
    → IsSorted ((k, v) ∷ m)
    → SomewhereAhead m other
    → SomewhereAhead ((k, v) ∷ m) other
ahead_rest k v m other w (q, c, e, h) = (q, c, lookup_rest k q v c m w.0 e, h)

or_ahead :
    (k : Text) (v : ℕ) (m other : Dict Text ℕ) (greater : Bool)
    → IsSorted ((k, v) ∷ m)
    → ((greater || ltb (count k other) v) ≡ true) ⊎ SomewhereAhead m other
    → (greater ≡ true) ⊎ SomewhereAhead ((k, v) ∷ m) other
or_ahead k v m other true w h = inl refl
or_ahead k v m other false w (inl h) = inr (k, v, lookup_head k v m, ltb→lt (count k other) v h)
or_ahead k v m other false w (inr a) = inr (ahead_rest k v m other w a)

loop_sound :
    (other m : Dict Text ℕ) (greater : Bool)
    → IsSorted m
    → dominates_loop other greater m ≡ true
    → NowhereBehind m other × ((greater ≡ true) ⊎ SomewhereAhead m other)
unfolding dominates_loop lookup
loop_sound other [] greater w h = (λ q c e. absurd (ground arith), inl h)
loop_sound other ((k, v) ∷ m) greater w h =
    let (behind, ahead) =
      loop_sound other m (greater || ltb (count k other) v) w.1 (ground arith) in
    (
      λ q c e. ground (arith, behind q c, text_ord.beq_iff k q),
      or_ahead k v m other greater w ahead,
    )

none-some : (q : Text) (c : ℕ) → lookup q [] ≡ some c → ⊥
unfolding lookup
none-some q c e = cc

ahead_of_tail :
    (k : Text) (v : ℕ) (m other : Dict Text ℕ) (greater : Bool)
    → (greater ≡ true) ⊎ SomewhereAhead ((k, v) ∷ m) other
    → ((greater || ltb (count k other) v) ≡ true) ⊎ SomewhereAhead m other
unfolding lookup
ahead_of_tail k v m other greater (inl g) = inl (ground arith)
ahead_of_tail k v m other greater (inr (q, c, e, h)) = elim (Bool-cases (text_ord.beq k q)) [
  | inl same ↦ let f : k ≡ q = (text_ord.beq_iff k q).0 same in inl (ground (arith, f))
  | inr differ ↦ inr (q, c, ground arith, h)
]

loop_complete :
    (other m : Dict Text ℕ) (greater : Bool)
    → IsSorted m
    → NowhereBehind m other
    → (greater ≡ true) ⊎ SomewhereAhead m other
    → dominates_loop other greater m ≡ true
unfolding dominates_loop
loop_complete other [] greater w behind (inl g) = g
loop_complete other [] greater w behind (inr (q, c, e, h)) = absurd (none-some q c e)
loop_complete other ((k, v) ∷ m) greater w behind ahead =
    let here : count k other ≤ v = behind k v (lookup_head k v m) in
    let rest =
      loop_complete other m (greater || ltb (count k other) v) w.1
        (λ q c e. behind q c (lookup_rest k q v c m w.0 e))
        (ahead_of_tail k v m other greater ahead) in
    ground (arith, rest)

-- The two clocks name no common node.
abbrev pub Apart : Dict Text ℕ → Dict Text ℕ → Type 0
Apart own other = (q : Text) (k : ℕ) → lookup q own ≡ some k → lookup q other ≡ none

absent :
    (own other : Dict Text ℕ)
    → Apart own other
    → (q : Text) (k : ℕ) → lookup q other ≡ some k
    → lookup q own ≡ none
absent own other apart q k e = elim (Option-cases (lookup q own)) [
  | inl gone ↦ gone
  | inr (j, there) ↦ ground (arith, apart q j there)
]

module _ {ℓ} {Score : Type ℓ} where
  -- A state dominates another exactly when no count of its own clock is behind the other's and one
  -- is ahead. Nodes that only the other knows are not looked at.
  pub dominates_iff :
      (s other : CrdtWorldState Score)
      → IsSorted s.vector_clock
      → (dominates s other ≡ true) ↔ (
          NowhereBehind s.vector_clock other.vector_clock
          × SomewhereAhead s.vector_clock other.vector_clock)
  unfolding dominates
  dominates_iff s other w = (
    λ h.
        let (behind, ahead) = loop_sound other.vector_clock s.vector_clock false w h in
        (behind, elim ahead [ inl no_start ↦ absurd (cc) | inr a ↦ a ]),
    λ p. loop_complete other.vector_clock s.vector_clock false w p.0 (inr p.1),
  )

  -- Two states with sorted clocks that name no common node, each with a count above zero, dominate
  -- each other.
  pub dominates_mutual :
      (s other : CrdtWorldState Score) (n m : Text) (c d : ℕ)
      → IsSorted s.vector_clock
      → IsSorted other.vector_clock
      → Apart s.vector_clock other.vector_clock
      → lookup n s.vector_clock ≡ some (suc c)
      → lookup m other.vector_clock ≡ some (suc d)
      → (dominates s other ≡ true) × (dominates other s ≡ true)
  dominates_mutual s other n m c d ws wo apart hn hm = (
    (dominates_iff s other ws).1
        (λ q k e. ground (arith, apart q k e), (n, suc c, hn, ground (arith, apart n (suc c) hn))),
    (dominates_iff other s wo).1 (
      λ q k e. ground (arith, absent s.vector_clock other.vector_clock apart q k e),
      (m, suc d, hm, ground (arith, absent s.vector_clock other.vector_clock apart m (suc d) hm)),
    ),
  )
