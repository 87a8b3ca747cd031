-- ===== src/Sss/Recover.antt =====
-- src/sss.rs: what the loops of `poly_eval` and `reconstruct` compute, in the field of bytes.
use ess_p2p_rs.Shared.{
  ℕ, suc, ◌≡◌, ◌≢◌, ◌<◌, refl, sym, ap, ◌∙◌, List, [], ◌∷◌, ◌++◌, map, length, length-append,
  length-map, get_elem?, get_elem?-map, All, All-map, AllDistinct, none, some, arith,
}
use mathlib.Core.List.{append_assoc}
use ess_p2p_rs.Sss.{ok, gf_add, gf_mul, gf_div}
use ess_p2p_rs.Sss.Lagrange.{weight, interpolated}
use ess_p2p_rs.Sss.Powers.{poly, constant_term}
use ess_p2p_rs.Sss.CharTwo.{◌+F◌, ◌*F◌, nil_add}
use ess_p2p_rs.Sss.Bytes.{Byte, byte, byte_field}
use ess_p2p_rs.Sss.Shares.{poly_eval, Shard, basis_loop, Outcome, and_then, value_loop}
use ess_p2p_rs.Sss.Weights.{byte_id, poly_eval-poly, point, points, points-append, basis-weight}

length-points : (shards : List Shard) → length (points shards) ≡ length shards
length-points [] = refl
length-points (s ∷ shards) = ap suc (length-points shards)

-- The shard is what the polynomials give at its point.
abbrev pub IsShare : List (List ℕ) → Shard → Type 0
IsShare coeffs s = (s.x < 256) × (s.y ≡ map (λ c. poly_eval c s.x) coeffs)

abbrev pub Small : List ℕ → Type 0
Small = All (λ c. c < 256)

All-middle :
    (P : Byte → Type 0) (seen : List Shard) (s : Shard) (rest : List Shard)
    → All P (points (seen ++ s ∷ rest))
    → P (point s) × All P (points (seen ++ rest))
All-middle P [] s rest h = h
All-middle P (z ∷ seen) s rest h =
    let later = All-middle P seen s rest h.1 in (later.0, (h.0, later.1))

apart_middle :
    (seen : List Shard) (s : Shard) (rest : List Shard)
    → AllDistinct (points (seen ++ s ∷ rest))
    → All (λ z. point s ≢ z) (points (seen ++ rest))
apart_middle [] s rest d = d.0
apart_middle (z ∷ seen) s rest d =
    let h = All-middle (λ q. point z ≢ q) seen s rest d.0 in
    ((λ e. h.0 (sym e)), apart_middle seen s rest d.1)

shares_middle :
    (P : Shard → Type 0) (seen : List Shard) (s : Shard) (rest : List Shard)
    → All P (seen ++ s ∷ rest)
    → P s × All P (seen ++ rest)
shares_middle P [] s rest h = h
shares_middle P (z ∷ seen) s rest h =
    let later = shares_middle P seen s rest h.1 in (later.0, (h.0, later.1))

value_loop_step :
    (shards : List Shard) (byte_idx i : ℕ) (s : Shard) (rest : List Shard) (value yi basis : ℕ)
    → get_elem? s.y byte_idx ≡ some yi
    → gf_div (basis_loop i s.x 0 shards 1 1).0 (basis_loop i s.x 0 shards 1 1).1 ≡ ok basis
    → value_loop shards byte_idx i (s ∷ rest) value
      ≡ value_loop shards byte_idx (suc i) rest (gf_add value (gf_mul yi basis))
unfolding value_loop
value_loop_step shards byte_idx i s rest value yi basis ey eb =
    let parts = basis_loop i s.x 0 shards 1 1 in
    ap
      (λ o. elim o as (λ _. Outcome ℕ) [
        | none ↦ none
        | some y ↦
            and_then (some (gf_div parts.0 parts.1))
              (λ b. value_loop shards byte_idx (suc i) rest (gf_add value (gf_mul y b)))
      ])
      ey
    ∙ ap
        (λ r.
          and_then (some r)
            (λ b. value_loop shards byte_idx (suc i) rest (gf_add value (gf_mul yi b))))
        eb

-- The loop over the shards adds up the weighted values of the polynomial.
value_loop-interpolated :
    (coeffs : List (List ℕ)) (cs : List ℕ) (byte_idx : ℕ) (seen rest : List Shard) (value : Byte)
    → get_elem? coeffs byte_idx ≡ some cs
    → Small cs
    → All (IsShare coeffs) (seen ++ rest)
    → AllDistinct (points (seen ++ rest))
    → value_loop (seen ++ rest) byte_idx (length seen) rest value.0
      ≡ some (ok (value +F interpolated (poly (map byte cs) 0) (points seen) (points rest)).0)
unfolding value_loop interpolated
value_loop-interpolated coeffs cs byte_idx seen [] value at small shares apart =
    ap (λ (b : Byte). some (ok b.0)) (sym (byte_field.add-nil value))
value_loop-interpolated coeffs cs byte_idx seen (s ∷ rest) value at small shares apart =
    let f = poly (map byte cs) 0 in
    let x = point s in
    let share = shares_middle (IsShare coeffs) seen s rest shares in
    let yi : get_elem? s.y byte_idx ≡ some (f x).0 =
      ap (λ y. get_elem? y byte_idx) share.0.1
      ∙ (get_elem?-map (λ c. poly_eval c s.x) coeffs byte_idx cs at
          ∙ (ap (λ n. some (poly_eval cs n)) (sym (byte_id s.x share.0.0))
              ∙ ap some (poly_eval-poly cs x small))) in
    let basis =
      basis-weight s seen rest
        (All-map (IsShare coeffs) (λ z. z.x < 256) (seen ++ rest) (λ z h. h.0) share.1) share.0.0
        (apart_middle seen s rest apart) in
    let step = f x *F weight x (points seen ++ points rest) in
    let moved : (seen ++ s ∷ []) ++ rest ≡ seen ++ s ∷ rest = append_assoc seen (s ∷ []) rest in
    let ih =
      value_loop-interpolated coeffs cs byte_idx (seen ++ s ∷ []) rest (value +F step) at small
        (rw moved shares) (rw moved apart) in
    let len : length (seen ++ s ∷ []) ≡ suc (length seen) =
      omega (arith, length-append seen (s ∷ [])) in
    let last : points (seen ++ s ∷ []) ≡ points seen ++ point s ∷ [] =
      points-append seen (s ∷ []) in
    value_loop_step (seen ++ s ∷ rest) byte_idx (length seen) s rest value.0 (f x).0
      (weight x (points (seen ++ rest))).0 yi basis
    ∙ (ap
          (λ l.
            value_loop (seen ++ s ∷ rest) byte_idx (suc (length seen)) rest
              (value +F f x *F weight x l).0)
          (points-append seen rest)
        ∙ (ap (λ l. value_loop l byte_idx (suc (length seen)) rest (value +F step).0) (sym moved)
            ∙ (ap (λ n. value_loop ((seen ++ s ∷ []) ++ rest) byte_idx n rest (value +F step).0)
                  (sym len)
                ∙ (ih
                    ∙ (ap (λ l. some (ok ((value +F step) +F interpolated f l (points rest)).0))
                          last
                        ∙ ap (λ (b : Byte). some (ok b.0))
                            (byte_field.add_assoc value step
                              (interpolated f (points seen ++ x ∷ []) (points rest))))))))

-- Enough shards give the byte that the polynomial starts with.
pub value_loop-constant :
    (coeffs : List (List ℕ)) (c : ℕ) (cs : List ℕ) (byte_idx : ℕ) (shards : List Shard)
    → get_elem? coeffs byte_idx ≡ some (c ∷ cs)
    → Small (c ∷ cs)
    → All (IsShare coeffs) shards
    → AllDistinct (points shards)
    → length cs < length shards
    → value_loop shards byte_idx 0 shards 0 ≡ some (ok c)
value_loop-constant coeffs c cs byte_idx shards at small shares apart enough =
    let h =
      value_loop-interpolated coeffs (c ∷ cs) byte_idx [] shards byte_field.nil at small shares
        apart in
    let n = length-points shards in
    let m : length (map byte cs) ≡ length cs = length-map byte cs in
    let sum =
      constant_term (byte c) (map byte cs) (points shards) apart (omega (arith, m, n, enough)) in
    h
    ∙ (ap (λ (b : Byte). some (ok b.0))
          (nil_add (interpolated (poly (byte c ∷ map byte cs) 0) [] (points shards)) ∙ sum)
        ∙ ap (λ b. some (ok b)) (byte_id c small.0))
