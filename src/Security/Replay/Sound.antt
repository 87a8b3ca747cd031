-- ===== src/Security/Replay/Sound.antt =====
-- src/security_runtime.rs: the replay cache is a map of maps.
use ess_p2p_rs.Shared.{
  ℕ, ◌≡◌, Bool, true, not, inl, inr, some, [], ◌∷◌, Text, is_empty, arith, Bool-cases,
}
use ess_p2p_rs.Shared.Order.{text_ord}
use ess_p2p_rs.Shared.Dict.{
  Dict, lookup, insert, retain, IsSorted, Above, Above-trans, retain-IsSorted,
}
use ess_p2p_rs.Security.Replay.{Seen, recent, refresh_all, cleanup}

-- Each peer has one bucket, and each nonce one entry in it.
abbrev pub IsSound : Seen → Type 0
IsSound [] = Unit
IsSound ((peer, bucket) ∷ rest) = Above peer rest × IsSorted bucket × IsSound rest

pub IsSound-IsSorted : (seen : Seen) → IsSound seen → IsSorted seen
IsSound-IsSorted [] s = tt
IsSound-IsSorted ((peer, bucket) ∷ rest) s = (s.0, IsSound-IsSorted rest s.2)

pub lookup-IsSound :
    (peer : Text) (bucket : Dict Text ℕ) (seen : Seen)
    → IsSound seen
    → lookup peer seen ≡ some bucket
    → IsSorted bucket
unfolding lookup
lookup-IsSound peer bucket [] s h = cc
lookup-IsSound peer bucket ((q, b) ∷ rest) s h = elim (Bool-cases (text_ord.beq q peer)) [
  | inl same ↦ ground (arith, s.1)
  | inr other ↦ lookup-IsSound peer bucket rest s.2 (ground arith)
]

Above-insert :
    (q peer : Text) (bucket : Dict Text ℕ) (seen : Seen)
    → text_ord.blt q peer ≡ true
    → Above q seen
    → Above q (insert peer bucket seen)
unfolding insert
Above-insert q peer bucket [] h a = (h, tt)
Above-insert q peer bucket ((j, b) ∷ rest) h a =
    ground (arith, a.0, a.1, Above-insert q peer bucket rest h a.1)

pub insert-IsSound :
    (peer : Text) (bucket : Dict Text ℕ) (seen : Seen)
    → IsSorted bucket
    → IsSound seen
    → IsSound (insert peer bucket seen)
unfolding insert
insert-IsSound peer bucket [] b s = (tt, b, tt)
insert-IsSound peer bucket ((j, c) ∷ rest) b s = ground (
  arith,
  s.0,
  s.1,
  text_ord.blt_total j peer,
  text_ord.blt_total peer j,
  text_ord.beq_iff j peer,
  Above-insert j peer bucket rest,
  Above-trans peer j rest,
  insert-IsSound peer bucket rest b s.2,
)

Above-refresh_all :
    (window now : ℕ) (q : Text) (seen : Seen) → Above q seen → Above q (refresh_all window now seen)
unfolding refresh_all
Above-refresh_all window now q [] a = tt
Above-refresh_all window now q ((peer, bucket) ∷ rest) a =
    (a.0, Above-refresh_all window now q rest a.1)

pub refresh_all-IsSound :
    (window now : ℕ) (seen : Seen) → IsSound seen → IsSound (refresh_all window now seen)
unfolding refresh_all
refresh_all-IsSound window now [] s = tt
refresh_all-IsSound window now ((peer, bucket) ∷ rest) s = (
  Above-refresh_all window now peer rest s.0,
  retain-IsSorted (recent window now) bucket s.1,
  refresh_all-IsSound window now rest s.2,
)

Above-retain :
    (p : Text → Dict Text ℕ → Bool) (q : Text) (seen : Seen)
    → Above q seen
    → Above q (retain p seen)
unfolding retain
Above-retain p q [] a = tt
Above-retain p q ((peer, bucket) ∷ rest) a = ground (arith, a.0, Above-retain p q rest a.1)

retain-IsSound :
    (p : Text → Dict Text ℕ → Bool) (seen : Seen) → IsSound seen → IsSound (retain p seen)
unfolding retain
retain-IsSound p [] s = tt
retain-IsSound p ((peer, bucket) ∷ rest) s =
    ground (arith, Above-retain p peer rest s.0, s.1, retain-IsSound p rest s.2)

pub cleanup-IsSound :
    (window now : ℕ) (seen : Seen) → IsSound seen → IsSound (cleanup window now seen)
unfolding cleanup
cleanup-IsSound window now seen s = ground (
  arith,
  s,
  retain-IsSound (λ _ bucket. not (is_empty bucket)) (refresh_all window now seen)
      (refresh_all-IsSound window now seen s),
)
