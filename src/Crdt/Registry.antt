-- ===== src/Crdt/Registry.antt =====
-- src/crdt_state.rs: `PeerRegistry`, a map whose entries carry the time of their write. A reputation
-- score is an `f32` that is only stored: its type is a parameter.
pub mod Laws
use ess_p2p_rs.Shared.{
  ℕ, ◌≡◌, refl, Bool, true, false, Option, none, some, List, [], ◌∷◌, Text, Ord, ltb, leb, is_some,
  length, map, if◌then◌else◌, inl, inr, Bool-cases, Option-cases, arith,
}
use ess_p2p_rs.Shared.Order.{text_ord}
use ess_p2p_rs.Shared.Dict.{
  Dict, lookup, insert, lookup-insert, insert-IsSorted, IsSorted, Dict-ext, for_entries, joined,
  lookup-for_entries, for_entries_inv,
}

pub record PeerEntry {ℓ} (Score : Type ℓ) : Type ℓ where
  pub peer_id : Text
  pub role : Text
  pub connected : Bool
  pub trusted : Bool
  pub reputation_score : Score
  pub last_seen : ℕ

pub record PeerRegistry {ℓ} (Score : Type ℓ) : Type ℓ where
  pub entries : Dict Text (PeerEntry Score × ℕ)

abbrev pub empty {ℓ} : {Score : Type ℓ} → PeerRegistry Score
empty = record { entries = [] }

module _ {ℓ} {Score : Type ℓ} where
  -- The match of `upsert` and `merge`: an entry that is as new stays.
  unfoldable pub put_newer :
      Dict Text (PeerEntry Score × ℕ) → Text → PeerEntry Score × ℕ → Dict Text (PeerEntry Score × ℕ)
  put_newer own peer_id (entry, ts) = elim (lookup peer_id own) [
    | none ↦ insert peer_id (entry, ts) own
    | some (e, existing_ts) ↦ if leb ts existing_ts then own else insert peer_id (entry, ts) own
  ]

  unfoldable pub upsert : PeerRegistry Score → PeerEntry Score → ℕ → PeerRegistry Score
  upsert r entry ts = record { entries = put_newer r.entries entry.peer_id (entry, ts) }

  unfoldable pub merge : PeerRegistry Score → PeerRegistry Score → PeerRegistry Score
  merge r other = record { entries = for_entries put_newer r.entries other.entries }

  abbrev entry_of : Option (PeerEntry Score × ℕ) → Option (PeerEntry Score)
  entry_of none = none
  entry_of (some (e, ts)) = some e

  unfoldable pub get : PeerRegistry Score → Text → Option (PeerEntry Score)
  get r peer_id = entry_of (lookup peer_id r.entries)

  unfoldable pub all_peers : PeerRegistry Score → List (PeerEntry Score)
  all_peers r = map (λ e. e.1.0) r.entries

  pub connected_of : Dict Text (PeerEntry Score × ℕ) → List (PeerEntry Score)
  connected_of [] = []
  connected_of ((k, (e, ts)) ∷ m) =
      let rest = connected_of m in if e.connected then e ∷ rest else rest

  unfoldable pub connected_peers : PeerRegistry Score → List (PeerEntry Score)
  unfolding connected_of
  connected_peers r = connected_of r.entries

  abbrev pub IsWellFormed : PeerRegistry Score → Type 0
  IsWellFormed r = IsSorted r.entries

  -- The later of two writes to one peer, and this replica's own at one time.
  abbrev pub later : Option (PeerEntry Score × ℕ) → PeerEntry Score × ℕ → PeerEntry Score × ℕ
  later none write = write
  later (some own) write = if leb write.1 own.1 then own else write

  pub lookup-put_newer :
      (m : Dict Text (PeerEntry Score × ℕ)) (k q : Text) (write : PeerEntry Score × ℕ)
      → lookup q (put_newer m k write)
        ≡ (if text_ord.beq k q then some (later (lookup k m) write) else lookup q m)
  unfolding put_newer
  lookup-put_newer m k q (e, ts) = elim (Option-cases (lookup k m)) [
    | inl h ↦ ground (arith, h, lookup-insert k q (e, ts) m)
    | inr ((own, existing), h) ↦
        ground (arith, h, lookup-insert k q (e, ts) m, text_ord.beq_iff k q)
  ]

  put_newer-IsSorted :
      (m : Dict Text (PeerEntry Score × ℕ)) (k : Text) (write : PeerEntry Score × ℕ)
      → IsSorted m
      → IsSorted (put_newer m k write)
  unfolding put_newer
  put_newer-IsSorted m k (e, ts) w = ground (arith, insert-IsSorted k (e, ts) m w)

  pub upsert-IsWellFormed :
      (r : PeerRegistry Score) (entry : PeerEntry Score) (ts : ℕ)
      → IsWellFormed r
      → IsWellFormed (upsert r entry ts)
  unfolding upsert
  upsert-IsWellFormed r entry ts w = put_newer-IsSorted r.entries entry.peer_id (entry, ts) w

  pub merge-IsWellFormed : (a b : PeerRegistry Score) → IsWellFormed a → IsWellFormed (merge a b)
  unfolding merge
  merge-IsWellFormed a b w =
      for_entries_inv IsSorted put_newer put_newer-IsSorted a.entries b.entries w

  -- After a merge a peer has the later of its two entries.
  pub lookup-merge :
      (q : Text) (a b : PeerRegistry Score)
      → IsWellFormed b
      → lookup q (merge a b).entries ≡ joined later (lookup q a.entries) (lookup q b.entries)
  unfolding merge
  lookup-merge q a b w = lookup-for_entries later put_newer lookup-put_newer q a.entries b.entries w
