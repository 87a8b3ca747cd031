-- ===== src/Security/Replay/Window.antt =====
-- src/security_runtime.rs: how long the replay cache remembers a nonce.
use ess_p2p_rs.Shared.{
  ℕ, ◌≤◌, ◌≡◌, refl, Bool, true, false, not, inl, inr, Option, none, some, [], ◌∷◌, Text, is_empty,
  unwrap_or, arith, Option-cases,
}
use ess_p2p_rs.Shared.Order.{text_ord, beq_refl}
use ess_p2p_rs.Shared.Dict.{
  Dict, lookup, insert, IsSorted, lookup-insert, lookup-retain, insert-IsSorted, retain-IsSorted,
}
use ess_p2p_rs.Security.{Result, ok, err}
use ess_p2p_rs.Security.Replay.{Seen, recent, abs_diff, refresh, refresh_all, cleanup, check_common}
use ess_p2p_rs.Security.Replay.Sound.{
  IsSound, IsSound-IsSorted, lookup-IsSound, insert-IsSound, refresh_all-IsSound, cleanup-IsSound,
}

-- When a nonce of a peer came, as far as the cache remembers.
unfoldable pub time_of : Text → Text → Seen → Option ℕ
time_of peer nonce seen = elim (lookup peer seen) [
  | none ↦ none
  | some bucket ↦ lookup nonce bucket
]

lookup-refresh_all :
    (window now : ℕ) (q : Text) (seen : Seen)
    → lookup q (refresh_all window now seen)
      ≡ (elim (lookup q seen) [ none ↦ none | some bucket ↦ some (refresh window now bucket) ])
unfolding lookup refresh_all
lookup-refresh_all window now q [] = refl
lookup-refresh_all window now q ((peer, bucket) ∷ rest) =
    ground (arith, lookup-refresh_all window now q rest)

-- A bucket keeps the entries of its window.
lookup-refresh :
    (window now : ℕ) (nonce : Text) (bucket : Dict Text ℕ) (t : ℕ)
    → IsSorted bucket
    → lookup nonce bucket ≡ some t
    → abs_diff now t ≤ window
    → lookup nonce (refresh window now bucket) ≡ some t
lookup-refresh window now nonce bucket t s h near =
    ground (arith, lookup-retain nonce (recent window now) bucket s)

lookup-not_empty :
    (nonce : Text) (bucket : Dict Text ℕ) (t : ℕ)
    → lookup nonce bucket ≡ some t
    → is_empty bucket ≡ false
unfolding lookup
lookup-not_empty nonce [] t h = cc
lookup-not_empty nonce (e ∷ bucket) t h = refl

time_of-cleanup :
    (window now : ℕ) (peer nonce : Text) (seen : Seen) (t : ℕ)
    → IsSound seen
    → time_of peer nonce seen ≡ some t
    → abs_diff now t ≤ window
    → time_of peer nonce (cleanup window now seen) ≡ some t
unfolding cleanup time_of
time_of-cleanup window now peer nonce seen t s h near = elim (Option-cases (lookup peer seen)) [
  | inl absent ↦ ground arith
  | inr (bucket, found) ↦
      let kept =
        lookup-refresh window now nonce bucket t (lookup-IsSound peer bucket seen s found)
          (ground arith) near in
      ground (
        arith,
        kept,
        lookup-refresh_all window now peer seen,
        lookup-not_empty nonce (refresh window now bucket) t kept,
        lookup-retain peer (λ _ b. not (is_empty b)) (refresh_all window now seen)
            (IsSound-IsSorted (refresh_all window now seen)
              (refresh_all-IsSound window now seen s)),
      )
]

-- The bucket that `check_common` works on.
abbrev pub bucket_of : ℕ → ℕ → Text → Seen → Dict Text ℕ
bucket_of window now peer seen =
    refresh window now (unwrap_or (lookup peer (cleanup window now seen)) [])

bucket_of-IsSorted :
    (window now : ℕ) (peer : Text) (seen : Seen)
    → IsSound seen
    → IsSorted (bucket_of window now peer seen)
bucket_of-IsSorted window now peer seen s =
    let kept = cleanup window now seen in
    elim (Option-cases (lookup peer kept)) [
      | inl absent ↦ ground (arith, retain-IsSorted (recent window now) [] tt)
      | inr (bucket, found) ↦ ground (
        arith,
        retain-IsSorted (recent window now) bucket
            (lookup-IsSound peer bucket kept (cleanup-IsSound window now seen s) found),
      )
    ]

pub check_common-IsSound :
    (window : ℕ) (seen : Seen) (peer : Text) (ts : ℕ) (nonce : Text) (checked now : ℕ)
    → IsSound seen
    → IsSound (check_common window seen peer ts nonce checked now).0
unfolding check_common
check_common-IsSound window seen peer ts nonce checked now s =
    let kept = cleanup window now seen in
    let kept-IsSound = cleanup-IsSound window now seen s in
    let bucket = bucket_of window now peer seen in
    let sorted = bucket_of-IsSorted window now peer seen s in
    ground (
      arith,
      insert-IsSound peer bucket kept sorted kept-IsSound,
      insert-IsSound peer (insert nonce now bucket) kept (insert-IsSorted nonce now bucket sorted)
          kept-IsSound,
    )

lookup-bucket_of :
    (window now : ℕ) (peer nonce : Text) (seen : Seen) (t : ℕ)
    → IsSound seen
    → time_of peer nonce seen ≡ some t
    → abs_diff now t ≤ window
    → lookup nonce (bucket_of window now peer seen) ≡ some t
unfolding time_of
lookup-bucket_of window now peer nonce seen t s h near =
    let kept = cleanup window now seen in
    let there = time_of-cleanup window now peer nonce seen t s h near in
    elim (Option-cases (lookup peer kept)) [
      | inl absent ↦ ground (arith, there)
      | inr (bucket, found) ↦ ground (
        arith,
        lookup-refresh window now nonce bucket t
            (lookup-IsSound peer bucket kept (cleanup-IsSound window now seen s) found)
            (ground (arith, there)) near,
      )
    ]

-- A nonce whose time is in the window is remembered, whatever is checked.
pub check_common-time_of :
    (window : ℕ) (seen : Seen) (q : Text) (ts : ℕ) (other : Text) (checked now : ℕ)
    (peer nonce : Text) (t : ℕ)
    → IsSound seen
    → time_of peer nonce seen ≡ some t
    → abs_diff now t ≤ window
    → time_of peer nonce (check_common window seen q ts other checked now).0 ≡ some t
unfolding check_common time_of
check_common-time_of window seen q ts other checked now peer nonce t s h near =
    let kept = cleanup window now seen in
    let bucket = bucket_of window now q seen in
    ground (
      arith,
      h,
      text_ord.beq_iff q peer,
      text_ord.beq_iff other nonce,
      lookup-bucket_of window now peer nonce seen t s h near,
      time_of-cleanup window now peer nonce seen t s h near,
      lookup-insert q peer bucket kept,
      lookup-insert q peer (insert other now bucket) kept,
      lookup-insert other nonce now bucket,
    )

abbrev pub is_ok {ℓ} : {A : Type ℓ} → Result A → Bool
is_ok (ok a) = true
is_ok (err e) = false

-- What was accepted is remembered.
pub accepted-time_of :
    (window : ℕ) (seen : Seen) (peer : Text) (ts : ℕ) (nonce : Text) (checked now : ℕ)
    → is_ok (check_common window seen peer ts nonce checked now).1 ≡ true
    → time_of peer nonce (check_common window seen peer ts nonce checked now).0 ≡ some now
unfolding check_common time_of
accepted-time_of window seen peer ts nonce checked now accepted =
    let kept = cleanup window now seen in
    let bucket = bucket_of window now peer seen in
    ground (
      arith,
      accepted,
      lookup-insert peer peer (insert nonce now bucket) kept,
      lookup-insert nonce nonce now bucket,
      beq_refl peer,
      beq_refl nonce,
    )

-- What is remembered is refused.
pub check_common-refuses :
    (window : ℕ) (seen : Seen) (peer : Text) (ts : ℕ) (nonce : Text) (checked now t : ℕ)
    → IsSound seen
    → time_of peer nonce seen ≡ some t
    → abs_diff now t ≤ window
    → is_ok (check_common window seen peer ts nonce checked now).1 ≡ false
unfolding check_common
check_common-refuses window seen peer ts nonce checked now t s h near =
    ground (arith, lookup-bucket_of window now peer nonce seen t s h near)
