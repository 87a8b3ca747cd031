-- ===== src/Authority/Manager/Signing.antt =====
-- src/authority.rs: what the signature of an authority covers, and its canonical form.
use ess_p2p_rs.Shared.{◌≡◌, refl, ap, ◌∙◌, List, Text, arith}
use mathlib.Core.List.{Perm}
use ess_p2p_rs.Shared.Order.{text_ord}
use ess_p2p_rs.Shared.Sort.{
  sort, dedup, has, has-sort, has-dedup, IsStrict, dedup-sort-IsStrict, sort_strict, dedup_strict,
  sort-perm,
}
use ess_p2p_rs.Authority.{AuthorityState}
use ess_p2p_rs.Authority.Manager.{Crypto, hash_material, compute_hash, canonicalize, verify}

hash_material_blind :
    (s t : AuthorityState)
    → s.version ≡ t.version
    → s.root.issuer ≡ t.root.issuer
    → sort s.supernodes ≡ sort t.supernodes
    → hash_material s ≡ hash_material t
unfolding hash_material
hash_material_blind s t v i n = rw (v, i, n) refl

module _ {ℓ} {Key : Type ℓ} (crypto : Crypto Key) where
  compute_hash_blind :
      (s t : AuthorityState)
      → s.version ≡ t.version
      → s.root.issuer ≡ t.root.issuer
      → sort s.supernodes ≡ sort t.supernodes
      → compute_hash crypto s ≡ compute_hash crypto t
  unfolding compute_hash
  compute_hash_blind s t v i n = ap crypto.sha256 (hash_material_blind s t v i n)

  -- Two authorities with the same version, issuer, supernodes and signature verify alike under
  -- every key, whatever their other fields are.
  pub verify_blind :
      (s t : AuthorityState) (pubkey : Key)
      → s.version ≡ t.version
      → s.root.issuer ≡ t.root.issuer
      → s.supernodes ≡ t.supernodes
      → s.signature ≡ t.signature
      → verify crypto s pubkey ≡ verify crypto t pubkey
  unfolding verify
  verify_blind s t pubkey v i n g = ground (arith, compute_hash_blind s t v i (ap sort n))

  canonicalize_twice :
      (s : AuthorityState) → canonicalize crypto (canonicalize crypto s) ≡ canonicalize crypto s
  unfolding canonicalize
  canonicalize_twice s =
      let once = dedup (sort s.supernodes) in
      let strict = dedup-sort-IsStrict s.supernodes in
      let again : dedup (sort once) ≡ once =
        ap dedup (sort_strict once strict) ∙ dedup_strict once strict in
      ground (
        arith,
        again,
        compute_hash_blind (record (canonicalize crypto s) { supernodes = dedup (sort once) })
            (record s { supernodes = once }) refl refl (ap sort again),
      )

  -- The canonical form of an authority lists each supernode once, in order, and no other; it is its
  -- own canonical form, and carries its own hash.
  pub canonicalize_lem :
      (s : AuthorityState) (peer : Text)
      → IsStrict (canonicalize crypto s).supernodes
        × (has peer (canonicalize crypto s).supernodes ≡ has peer s.supernodes)
        × (canonicalize crypto (canonicalize crypto s) ≡ canonicalize crypto s)
        × ((canonicalize crypto s).hash ≡ compute_hash crypto (canonicalize crypto s))
  unfolding canonicalize
  canonicalize_lem s peer = (
    dedup-sort-IsStrict s.supernodes,
    ground (arith, has-dedup peer (sort s.supernodes), has-sort peer s.supernodes),
    canonicalize_twice s,
    compute_hash_blind _ _ refl refl refl,
  )

  -- The hash does not depend on the order in which supernodes are listed.
  pub compute_hash-perm :
      (s : AuthorityState) (others : List Text)
      → Perm s.supernodes others
      → compute_hash crypto s ≡ compute_hash crypto (record s { supernodes = others })
  compute_hash-perm s others p = compute_hash_blind s _ refl refl (sort-perm (hlevel) p)
