-- ===== src/Crdt/Registry/Laws.antt =====
-- src/crdt_state.rs: when merges of a `PeerRegistry` agree in any order, and when they do not.
use ess_p2p_rs.Shared.{ℕ, ◌≡◌, ◌≢◌, some, Text, if◌then◌else◌, inl, inr, Option-cases, arith}
use ess_p2p_rs.Shared.Order.{text_ord}
use ess_p2p_rs.Shared.Dict.{lookup, Dict-ext}
use ess_p2p_rs.Crdt.Registry.{
  PeerEntry, PeerRegistry, merge, upsert, later, IsWellFormed, merge-IsWellFormed, lookup-merge,
  lookup-put_newer,
}

module _ {ℓ} {Score : Type ℓ} where
  -- Two writes to one peer at one time wrote one entry.
  abbrev pub AgreesOnTie : PeerRegistry Score → PeerRegistry Score → Type ℓ
  AgreesOnTie a b =
      (q : Text) (x y : PeerEntry Score) (ts : ℕ)
      → lookup q a.entries ≡ some (x, ts)
      → lookup q b.entries ≡ some (y, ts)
      → x ≡ y

  eq_of_entries : (a b : PeerRegistry Score) → a.entries ≡ b.entries → a ≡ b
  eq_of_entries a b e = ground (arith, e)

  pub merge_idem : (a : PeerRegistry Score) → IsWellFormed a → merge a a ≡ a
  merge_idem a w = eq_of_entries (merge a a) a (
      Dict-ext (merge a a).entries a.entries (merge-IsWellFormed a a w) w
        (λ q. ground (arith, lookup-merge q a a w)))

  pub merge_assoc :
      (a b c : PeerRegistry Score)
      → IsWellFormed a
      → IsWellFormed b
      → IsWellFormed c
      → merge (merge a b) c ≡ merge a (merge b c)
  merge_assoc a b c wa wb wc =
      let wab = merge-IsWellFormed a b wa in
      let wbc = merge-IsWellFormed b c wb in
      eq_of_entries (merge (merge a b) c) (merge a (merge b c)) (
        Dict-ext (merge (merge a b) c).entries (merge a (merge b c)).entries
          (merge-IsWellFormed (merge a b) c wab) (merge-IsWellFormed a (merge b c) wa)
          (λ q. ground (
            arith,
            lookup-merge q (merge a b) c wc,
            lookup-merge q a b wb,
            lookup-merge q a (merge b c) wbc,
            lookup-merge q b c wc,
          )))

  later_comm :
      (a b : PeerRegistry Score) (q : Text)
      → IsWellFormed a
      → IsWellFormed b
      → AgreesOnTie a b
      → lookup q (merge a b).entries ≡ lookup q (merge b a).entries
  later_comm a b q wa wb t = elim (Option-cases (lookup q a.entries)) [
    | inl ea ↦ ground (arith, ea, lookup-merge q a b wb, lookup-merge q b a wa)
    | inr ((x, s), ea) ↦ elim (Option-cases (lookup q b.entries)) [
      | inl eb ↦ ground (arith, ea, eb, lookup-merge q a b wb, lookup-merge q b a wa)
      | inr ((y, u), eb) ↦
          ground (arith, ea, eb, lookup-merge q a b wb, lookup-merge q b a wa, t q x y s, t q x y u)
    ]
  ]

  -- Where writes with one time agree, the order of a merge does not show.
  pub merge_comm :
      (a b : PeerRegistry Score)
      → IsWellFormed a
      → IsWellFormed b
      → AgreesOnTie a b
      → merge a b ≡ merge b a
  merge_comm a b wa wb t = eq_of_entries (merge a b) (merge b a) (
      Dict-ext (merge a b).entries (merge b a).entries (merge-IsWellFormed a b wa)
        (merge-IsWellFormed b a wb) (λ q. later_comm a b q wa wb t))

  -- If two well-formed registries hold different entries of one peer with one time, their merges in
  -- the two orders differ.
  pub merge_tie_diverges :
      (a b : PeerRegistry Score) (q : Text) (x y : PeerEntry Score) (ts : ℕ)
      → IsWellFormed a
      → IsWellFormed b
      → lookup q a.entries ≡ some (x, ts)
      → lookup q b.entries ≡ some (y, ts)
      → x ≢ y
      → merge a b ≢ merge b a
  merge_tie_diverges a b q x y ts wa wb ha hb differ same =
      differ (ground (arith, lookup-merge q a b wb, lookup-merge q b a wa, same))

  -- An upsert is the merge of one entry: the peer has the later of the two.
  pub upsert-lookup :
      (r : PeerRegistry Score) (entry : PeerEntry Score) (ts : ℕ) (q : Text)
      → lookup q (upsert r entry ts).entries ≡ (
          if text_ord.beq entry.peer_id q
          then some (later (lookup entry.peer_id r.entries) (entry, ts))
          else lookup q r.entries)
  unfolding upsert
  upsert-lookup r entry ts q = lookup-put_newer r.entries entry.peer_id q (entry, ts)
