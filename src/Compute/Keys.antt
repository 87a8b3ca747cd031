-- ===== src/Compute/Keys.antt =====
-- src/compute/store.rs: the keys of the queue, whose order is that of the dates, and an abstract queue.
use ess_p2p_rs.Shared.{
  ℕ, zero, suc, ◌/◌, ◌%◌, ◌^◌, ◌≡◌, ◌<◌, ◌==◌, ◌&&◌, refl, sym, ap, ◌∙◌, Bool, true, List, [], ◌∷◌,
  ◌++◌, Text, length, length-append, ltb, All, arith, if◌then◌else◌, Bool-cases, inl, inr,
}
use ess_p2p_rs.Shared.Order.{text_ord, text_eq, text_lt, text_eq_iff}
use ess_p2p_rs.Shared.Dict.{Dict, insert}
use ess_p2p_rs.Compute.Store.{be_bytes, queue_key}

length-be_bytes : (n v : ℕ) → length (be_bytes n v) ≡ n
unfolding be_bytes
length-be_bytes zero v = refl
length-be_bytes (suc n) v =
    length-append (be_bytes n (v / 256)) ((v % 256) ∷ [])
    ∙ omega (arith, length-be_bytes n (v / 256))

text_eq-append :
    (x y s t : Text)
    → length x ≡ length y
    → text_eq (x ++ s) (y ++ t) ≡ (text_eq x y && text_eq s t)
text_eq-append [] [] s t e = refl
text_eq-append [] (b ∷ y) s t e = ground (arith, e)
text_eq-append (a ∷ x) [] s t e = ground (arith, e)
text_eq-append (a ∷ x) (b ∷ y) s t e = ground (arith, e, text_eq-append x y s t)

text_lt-append :
    (x y s t : Text)
    → length x ≡ length y
    → text_lt (x ++ s) (y ++ t) ≡ (if text_eq x y then text_lt s t else text_lt x y)
text_lt-append [] [] s t e = refl
text_lt-append [] (b ∷ y) s t e = ground (arith, e)
text_lt-append (a ∷ x) [] s t e = ground (arith, e)
text_lt-append (a ∷ x) (b ∷ y) s t e = ground (arith, e, text_lt-append x y s t)

be_bytes_eq :
    (n a b : ℕ) → a < 256 ^ n → b < 256 ^ n → text_eq (be_bytes n a) (be_bytes n b) ≡ (a == b)
unfolding be_bytes
be_bytes_eq zero a b sa sb = ground (arith, sa, sb)
be_bytes_eq (suc n) a b sa sb =
    let ih = be_bytes_eq n (a / 256) (b / 256) (omega (arith, sa)) (omega (arith, sb)) in
    let h =
      text_eq-append (be_bytes n (a / 256)) (be_bytes n (b / 256)) ((a % 256) ∷ []) ((b % 256) ∷ [])
        (length-be_bytes n (a / 256) ∙ sym (length-be_bytes n (b / 256))) in
    h ∙ rw ih (ground arith)

be_bytes_lt :
    (n a b : ℕ) → a < 256 ^ n → b < 256 ^ n → text_lt (be_bytes n a) (be_bytes n b) ≡ ltb a b
unfolding be_bytes
be_bytes_lt zero a b sa sb = ground (arith, sa, sb)
be_bytes_lt (suc n) a b sa sb =
    let lt = be_bytes_lt n (a / 256) (b / 256) (omega (arith, sa)) (omega (arith, sb)) in
    let eq = be_bytes_eq n (a / 256) (b / 256) (omega (arith, sa)) (omega (arith, sb)) in
    let h =
      text_lt-append (be_bytes n (a / 256)) (be_bytes n (b / 256)) ((a % 256) ∷ []) ((b % 256) ∷ [])
        (length-be_bytes n (a / 256) ∙ sym (length-be_bytes n (b / 256))) in
    h ∙ rw (eq, lt) (ground arith)

-- A job that waits: its date and its identifier.
abbrev pub Waiting : Type 0
Waiting = ℕ × Text

-- A date that is a `u64`.
abbrev pub IsDate : Waiting → Type 0
IsDate e = e.0 < 256 ^ 8

abbrev pub before : Waiting → Waiting → Bool
before e f = if e.0 == f.0 then text_lt e.1 f.1 else ltb e.0 f.0

key_eq :
    (e f : Waiting)
    → IsDate e
    → IsDate f
    → text_eq (queue_key e.0 e.1) (queue_key f.0 f.1) ≡ (e.0 == f.0 && text_eq e.1 f.1)
key_eq e f de df =
    text_eq-append (be_bytes 8 e.0) (be_bytes 8 f.0) e.1 f.1
      (length-be_bytes 8 e.0 ∙ sym (length-be_bytes 8 f.0))
    ∙ ap (λ b. b && text_eq e.1 f.1) (be_bytes_eq 8 e.0 f.0 de df)

key_lt :
    (e f : Waiting)
    → IsDate e
    → IsDate f
    → text_lt (queue_key e.0 e.1) (queue_key f.0 f.1) ≡ before e f
key_lt e f de df =
    text_lt-append (be_bytes 8 e.0) (be_bytes 8 f.0) e.1 f.1
      (length-be_bytes 8 e.0 ∙ sym (length-be_bytes 8 f.0))
    ∙ rw (be_bytes_eq 8 e.0 f.0 de df, be_bytes_lt 8 e.0 f.0 de df) refl

-- The abstract queue: a job goes behind those of older dates, once.
unfoldable pub place_job : Waiting → List Waiting → List Waiting
place_job e [] = e ∷ []
place_job e (f ∷ q) =
    let rest = f ∷ place_job e q in
    if f.0 == e.0 && text_eq f.1 e.1 then f ∷ q else if before e f then e ∷ f ∷ q else rest

abbrev pub entries : List Waiting → Dict Text Text
entries [] = []
entries (e ∷ q) = (queue_key e.0 e.1, e.1) ∷ entries q

place_job-entries :
    (e f : Waiting) (q : List Waiting)
    → entries (place_job e (f ∷ q)) ≡ (
        if f.0 == e.0 && text_eq f.1 e.1
        then entries (f ∷ q)
        else if before e f
        then entries (e ∷ f ∷ q)
        else (queue_key f.0 f.1, f.1) ∷ entries (place_job e q))
unfolding place_job
place_job-entries e f q = elim (Bool-cases (f.0 == e.0 && text_eq f.1 e.1)) [
  | inl same ↦ rw same refl
  | inr apart ↦ elim (Bool-cases (before e f)) [
    | inl front ↦ rw (apart, front) refl
    | inr back ↦ rw (apart, back) refl
  ]
]

merged :
    (e f : Waiting) (q : List Waiting)
    → (if f.0 == e.0 && text_eq f.1 e.1
        then (queue_key f.0 f.1, e.1) ∷ entries q
        else if before e f
        then entries (e ∷ f ∷ q)
        else (queue_key f.0 f.1, f.1) ∷ entries (place_job e q))
      ≡ (if f.0 == e.0 && text_eq f.1 e.1
          then entries (f ∷ q)
          else if before e f
          then entries (e ∷ f ∷ q)
          else (queue_key f.0 f.1, f.1) ∷ entries (place_job e q))
merged e f q = elim (Bool-cases (f.0 == e.0 && text_eq f.1 e.1)) [
  | inl same ↦
      let id : text_eq f.1 e.1 ≡ true = ground (arith, same) in
      rw same
        (ap (λ (t : Text). (queue_key f.0 f.1, t) ∷ entries q) (sym ((text_eq_iff f.1 e.1).0 id)))
  | inr apart ↦ rw apart refl
]

pub insert-entries :
    (e : Waiting) (q : List Waiting)
    → IsDate e
    → All IsDate q
    → insert (queue_key e.0 e.1) e.1 (entries q) ≡ entries (place_job e q)
unfolding insert place_job
insert-entries e [] de dq = refl
insert-entries e (f ∷ q) de dq =
    let eq = key_eq f e dq.0 de in
    let lt = key_lt e f de dq.0 in
    let ih = insert-entries e q de dq.1 in
    let step : insert (queue_key e.0 e.1) e.1 (entries (f ∷ q)) ≡ (
        if f.0 == e.0 && text_eq f.1 e.1
        then (queue_key f.0 f.1, e.1) ∷ entries q
        else if before e f
        then entries (e ∷ f ∷ q)
        else (queue_key f.0 f.1, f.1) ∷ entries (place_job e q)) =
      rw (eq, lt, ih) refl in
    let pushed : entries (place_job e (f ∷ q)) ≡ (
        if f.0 == e.0 && text_eq f.1 e.1
        then entries (f ∷ q)
        else if before e f
        then entries (e ∷ f ∷ q)
        else (queue_key f.0 f.1, f.1) ∷ entries (place_job e q)) =
      place_job-entries e f q in
    step ∙ (merged e f q ∙ sym pushed)

pub place_job-All :
    (P : Waiting → Type 0) (e : Waiting) (q : List Waiting) → P e → All P q → All P (place_job e q)
unfolding place_job
place_job-All P e [] pe pq = (pe, tt)
place_job-All P e (f ∷ q) pe pq = elim (Bool-cases (f.0 == e.0 && text_eq f.1 e.1)) [
  | inl same ↦ rw same pq
  | inr apart ↦ elim (Bool-cases (before e f)) [
    | inl front ↦ rw (apart, front) (pe, pq)
    | inr back ↦ rw (apart, back) (pq.0, place_job-All P e q pe pq.1)
  ]
]
