-- ===== src/Security/Limits/Rate.antt =====
-- src/security_runtime.rs: `RateLimiter` lets at most so many attempts of a key pass in a window.
use ess_p2p_rs.Shared.{
  ℕ, suc, ◌+◌, All, if_either, ◌≤◌, ◌≡◌, refl, sym, ap, ◌&&◌, inl, inr, Bool-cases, List, [], ◌∷◌,
  ◌++◌, Text, ltb, length, unwrap_or, if◌then◌else◌, arith,
}
use ess_p2p_rs.Shared.Order.{text_ord}
use ess_p2p_rs.Shared.Dict.{lookup, lookup-insert}
use mathlib.Core.List.{append_assoc, append-nil}
use ess_p2p_rs.Security.Limits.{RateLimiter, new, within, check}

-- An attempt: its key, and when it came.
abbrev pub Attempt : Type 0
Attempt = Text × ℕ

unfoldable pub attempt_all : RateLimiter → List Attempt → RateLimiter
attempt_all limiter [] = limiter
attempt_all limiter ((key, now) ∷ rest) = attempt_all (check limiter key now).0 rest

-- When the attempts of a key came that passed.
unfoldable pub passed : RateLimiter → Text → List Attempt → List ℕ
passed limiter key [] = []
passed limiter key ((k, now) ∷ rest) =
    let later = passed (check limiter k now).0 key rest in
    if text_ord.beq k key && (check limiter k now).1 then now ∷ later else later

-- The clock does not run backwards, from an instant on.
abbrev pub InOrder : ℕ → List Attempt → Type 0
InOrder t [] = Unit
InOrder t ((key, now) ∷ rest) = (t ≤ now) × InOrder now rest

abbrev pub last_instant : ℕ → List Attempt → ℕ
last_instant t [] = t
last_instant t ((key, now) ∷ rest) = last_instant now rest

entry_of : RateLimiter → Text → List ℕ
entry_of limiter key = unwrap_or (lookup key limiter.attempts) []

within-append :
    (window now : ℕ) (xs ys : List ℕ)
    → within window now (xs ++ ys) ≡ within window now xs ++ within window now ys
unfolding within
within-append window now [] ys = refl
within-append window now (x ∷ xs) ys = ground (arith, within-append window now xs ys)

-- What is out of the window stays out of it.
within_later :
    (window now later : ℕ) (ts : List ℕ)
    → now ≤ later
    → within window later (within window now ts) ≡ within window later ts
unfolding within
within_later window now later [] h = refl
within_later window now later (t ∷ ts) h = ground (arith, within_later window now later ts h)

check-entry_of :
    (limiter : RateLimiter) (k key : Text) (now : ℕ)
    → entry_of (check limiter k now).0 key ≡ (
        if text_ord.beq k key
        then within limiter.window now (entry_of limiter key)
          ++ (if (check limiter k now).1 then now ∷ [] else [])
        else entry_of limiter key)
unfolding entry_of check
check-entry_of limiter k key now =
    let entry = within limiter.window now (unwrap_or (lookup k limiter.attempts) []) in
    elim (Bool-cases (text_ord.beq k key)) [
      | inl same ↦
          let one : k ≡ key = (text_ord.beq_iff k key).0 same in
          ground (
            arith,
            one,
            append-nil entry,
            lookup-insert k key entry limiter.attempts,
            lookup-insert k key (entry ++ now ∷ []) limiter.attempts,
          )
      | inr other ↦ ground (
        arith,
        lookup-insert k key entry limiter.attempts,
        lookup-insert k key (entry ++ now ∷ []) limiter.attempts,
      )
    ]

check-window :
    (limiter : RateLimiter) (k : Text) (now : ℕ) → (check limiter k now).0.window ≡ limiter.window
unfolding check
check-window limiter k now = ground arith

check-max_attempts :
    (limiter : RateLimiter) (k : Text) (now : ℕ)
    → (check limiter k now).0.max_attempts ≡ limiter.max_attempts
unfolding check
check-max_attempts limiter k now = ground arith

attempt_all-max_attempts :
    (limiter : RateLimiter) (attempts : List Attempt)
    → (attempt_all limiter attempts).max_attempts ≡ limiter.max_attempts
unfolding attempt_all
attempt_all-max_attempts limiter [] = refl
attempt_all-max_attempts limiter ((k, now) ∷ rest) =
    ground (
      arith,
      check-max_attempts limiter k now,
      attempt_all-max_attempts (check limiter k now).0 rest,
    )

attempt_all-window :
    (limiter : RateLimiter) (attempts : List Attempt)
    → (attempt_all limiter attempts).window ≡ limiter.window
unfolding attempt_all
attempt_all-window limiter [] = refl
attempt_all-window limiter ((k, now) ∷ rest) =
    ground (arith, check-window limiter k now, attempt_all-window (check limiter k now).0 rest)

last_instant_above :
    (t : ℕ) (attempts : List Attempt) → InOrder t attempts → t ≤ last_instant t attempts
last_instant_above t [] h = ground arith
last_instant_above t ((k, now) ∷ rest) h = ground (arith, h.0, last_instant_above now rest h.1)

-- In the window of a later instant, one attempt adds to the entry of a key what it lets pass.
within-check :
    (limiter : RateLimiter) (k key : Text) (now later : ℕ) (others : List ℕ)
    → now ≤ later
    → within limiter.window later (entry_of (check limiter k now).0 key ++ others)
      ≡ within limiter.window later (
          entry_of limiter key
          ++ (if text_ord.beq k key && (check limiter k now).1 then now ∷ others else others))
within-check limiter k key now later others h =
    let w = limiter.window in
    let entry = entry_of limiter key in
    let new_instants = if (check limiter k now).1 then now ∷ [] else [] in
    elim (Bool-cases (text_ord.beq k key)) [
      | inl same ↦
          let split = within-append w later (within w now entry ++ new_instants) others in
          let inner = within-append w later (within w now entry) new_instants in
          let gone = within_later w now later entry h in
          grind (
            arith,
            check-entry_of limiter k key now,
            split,
            inner,
            gone,
            append_assoc (within w later entry) (within w later new_instants)
                (within w later others),
            within-append w later new_instants others,
            within-append w later entry (new_instants ++ others),
          )
      | inr other ↦ ground (arith, check-entry_of limiter k key now)
    ]

-- In the window, the entry of a key is what it was and what has passed since.
within-attempt_all :
    (limiter : RateLimiter) (key : Text) (t later : ℕ) (attempts : List Attempt)
    → InOrder t attempts
    → last_instant t attempts ≤ later
    → within limiter.window later (entry_of (attempt_all limiter attempts) key)
      ≡ within limiter.window later (entry_of limiter key ++ passed limiter key attempts)
unfolding attempt_all passed
within-attempt_all limiter key t later [] h last =
    ap (within limiter.window later) (sym (append-nil (entry_of limiter key)))
within-attempt_all limiter key t later ((k, now) ∷ rest) h last =
    let next = (check limiter k now).0 in
    let before : now ≤ later = ground (arith, last_instant_above now rest h.1, last) in
    grind (
      arith,
      within-attempt_all next key now later rest h.1 last,
      check-window limiter k now,
      within-check limiter k key now later (passed next key rest) before,
    )

-- How many of the instants lie less than a window before now.
unfoldable pub recent : ℕ → ℕ → List ℕ → ℕ
recent window now [] = 0
recent window now (t ∷ ts) =
    let rest = recent window now ts in if ltb now (t + window) then suc rest else rest

length-within :
    (window now : ℕ) (ts : List ℕ)
    → All (λ t. t ≤ now) ts
    → length (within window now ts) ≡ recent window now ts
unfolding within recent
length-within window now [] h = refl
length-within window now (t ∷ ts) h = ground (arith, h.0, length-within window now ts h.1)

-- What passed is not later than the last attempt.
passed_before :
    (limiter : RateLimiter) (key : Text) (t now : ℕ) (attempts : List Attempt)
    → InOrder t attempts
    → last_instant t attempts ≤ now
    → All (λ u. u ≤ now) (passed limiter key attempts)
unfolding passed
passed_before limiter key t now [] h last = tt
passed_before limiter key t now ((k, u) ∷ rest) h last =
    let next = (check limiter k u).0 in
    let later = passed_before next key u now rest h.1 last in
    if_either (All (λ v. v ≤ now)) (text_ord.beq k key && (check limiter k u).1)
      (u ∷ passed next key rest) (passed next key rest)
      (ground (arith, last_instant_above u rest h.1, last), later) later

-- On a new limiter, after any attempts in the order of the clock, an attempt passes exactly if, of
-- the attempts of its key that have passed, fewer than the maximum came less than a window before
-- it.
pub check_iff :
    (max_attempts window_secs : ℕ) (attempts : List Attempt) (key : Text) (now : ℕ)
    → InOrder 0 attempts
    → last_instant 0 attempts ≤ now
    → (check (attempt_all (new max_attempts window_secs) attempts) key now).1
      ≡ ltb
          (recent window_secs now (passed (new max_attempts window_secs) key attempts))
          max_attempts
unfolding entry_of check lookup
check_iff max_attempts window_secs attempts key now h last =
    let limiter = new max_attempts window_secs in
    ground (
      arith,
      within-attempt_all limiter key 0 now attempts h last,
      attempt_all-window limiter attempts,
      attempt_all-max_attempts limiter attempts,
      length-within window_secs now (passed limiter key attempts)
          (passed_before limiter key 0 now attempts h last),
    )
