-- ===== src/Compute/Results.antt =====
-- src/compute/store.rs: the table of results and its bound.
use ess_p2p_rs.Shared.{
  ℕ, zero, suc, ◌/◌, ◌≡◌, ◌≤◌, ◌<◌, refl, sym, ap, ◌∙◌, true, false, none, some, List, [], ◌∷◌,
  Text, length, length-drop, drop, leb, arith, if◌then◌else◌, Bool-cases, inl, inr,
}
use ess_p2p_rs.Shared.Order.{text_ord, text_eq, text_eq_iff, text_irrefl}
use ess_p2p_rs.Shared.Dict.{Dict, lookup, insert, lookup-insert, lookup-Above, Above}
use ess_p2p_rs.Compute.{ok, and_then, ComputeResult}
use ess_p2p_rs.Compute.Store.{
  Codec, ComputeStore, max_stored_results, result_key, gc_results_if_needed, save_result,
  get_result, read_result, result_count,
}
use ess_p2p_rs.Compute.Spec.{and_then_ok}

gc_bounded :
    (s : ComputeStore)
    → result_count s ≤ suc max_stored_results
    → result_count (gc_results_if_needed s) ≤ max_stored_results
unfolding gc_results_if_needed
gc_bounded s le = ground (arith, le, length-drop (length s.results / 10) s.results)

length-insert :
    (k : Text) (v : List ℕ) (m : Dict Text (List ℕ)) → length (insert k v m) ≤ suc (length m)
unfolding insert
length-insert k v [] = ground arith
length-insert k v ((j, w) ∷ m) = ground (arith, length-insert k v m)

pub save_result-bounded :
    (codec : Codec ComputeResult) (store after : ComputeStore) (result : ComputeResult)
    → result_count store ≤ max_stored_results
    → save_result codec store result ≡ ok after
    → result_count after ≤ max_stored_results
unfolding save_result
save_result-bounded codec store after result le e =
    let (value, written, saved) = and_then_ok (codec.serialize result) _ after e in
    let stored : ComputeStore = record store {
      results = insert (result_key result.job_id) value store.results;
    } in
    let small =
      gc_bounded stored
        (omega (arith, le, length-insert (result_key result.job_id) value store.results)) in
    let same : gc_results_if_needed stored ≡ after = ground (arith, saved) in rw same at small

-- Once a result is saved while fewer than 10,000 are kept, its job has this result and every other
-- job the result that it had, if bincode reads the result back as it was written.
pub get_result-save_result :
    (codec : Codec ComputeResult) (store after : ComputeStore) (result : ComputeResult)
    (job_id : Text)
    → ((value : List ℕ) → codec.serialize result ≡ ok value → codec.deserialize value ≡ ok result)
    → result_count store < max_stored_results
    → save_result codec store result ≡ ok after
    → get_result codec after job_id
      ≡ (if text_eq result.job_id job_id then ok (some result) else get_result codec store job_id)
unfolding save_result get_result gc_results_if_needed
get_result-save_result codec store after result job_id inverse room e =
    let (value, written, saved) = and_then_ok (codec.serialize result) _ after e in
    let results = insert (result_key result.job_id) value store.results in
    let within : leb (length results) max_stored_results ≡ true =
      ground (arith, room, length-insert (result_key result.job_id) value store.results) in
    let stored : record store { results = results } ≡ after = ground (arith, saved, within) in
    let found = lookup-insert (result_key result.job_id) (result_key job_id) value store.results in
    rw (← stored) (elim (Bool-cases (text_eq result.job_id job_id)) [
      | inl same ↦
          let there : lookup (result_key job_id) results ≡ some value = found ∙ rw same refl in
          rw same (
            ap (read_result codec) there
            ∙ ap (λ r. and_then r (λ res. ok (some res))) (inverse value written))
      | inr apart ↦
          let there : lookup (result_key job_id) results
              ≡ lookup (result_key job_id) store.results =
            found ∙ rw apart refl in
          rw apart (ap (read_result codec) there)
    ])

Above-drop : (k : Text) (n : ℕ) (m : Dict Text (List ℕ)) → Above k m → Above k (drop n m)
Above-drop k zero m a = a
Above-drop k (suc n) [] a = tt
Above-drop k (suc n) (e ∷ m) a = Above-drop k n m a.1

insert_front :
    (k : Text) (v : List ℕ) (m : Dict Text (List ℕ)) → Above k m → insert k v m ≡ (k, v) ∷ m
unfolding insert
insert_front k v [] a = refl
insert_front k v ((j, w) ∷ m) a = ground (arith, a.0, text_eq_iff j k, text_irrefl k)

pub get_result_lost :
    (codec : Codec ComputeResult) (store after : ComputeStore) (result : ComputeResult)
    → result_count store ≡ max_stored_results
    → Above (result_key result.job_id) store.results
    → save_result codec store result ≡ ok after
    → get_result codec after result.job_id ≡ ok none
unfolding save_result get_result gc_results_if_needed
get_result_lost codec store after result full front e =
    let (value, written, saved) = and_then_ok (codec.serialize result) _ after e in
    let k = result_key result.job_id in
    let placed : insert k value store.results ≡ (k, value) ∷ store.results =
      insert_front k value store.results front in
    let count : length (insert k value store.results) ≡ suc max_stored_results =
      ap length placed ∙ ap suc full in
    let over : leb (length (insert k value store.results)) max_stored_results ≡ false =
      ground (arith, count) in
    let tenth : length (insert k value store.results) / 10 ≡ suc 999 = omega (arith, count) in
    let kept : record store { results = drop 999 store.results } ≡ after =
      ap (λ m. record store { results = m })
        (sym (ap (λ n. drop n (insert k value store.results)) tenth ∙ ap (drop (suc 999)) placed))
      ∙ ground (arith, saved, over) in
    rw (← kept) (
      ap (read_result codec)
        (lookup-Above k (drop 999 store.results) (Above-drop k 999 store.results front)))
