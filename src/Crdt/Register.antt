-- ===== src/Crdt/Register.antt =====
-- src/crdt_state.rs: `LwwRegister`, where the last write wins. The clock is an argument.
use ess_p2p_rs.Shared.{ℕ, ◌≡◌, Bool, ◌&&◌, ◌||◌, Text, ltb, ◌==◌, if◌then◌else◌, arith}
use ess_p2p_rs.Shared.Order.{text_ord}

pub record LwwRegister {ℓ} (T : Type ℓ) : Type ℓ where
  pub value : T
  pub ts : ℕ
  pub node_id : Text

module _ {ℓ} {T : Type ℓ} where
  pub new : T → Text → ℕ → LwwRegister T
  new value node_id now_ms = record { value = value; ts = now_ms; node_id = node_id }

  pub set : LwwRegister T → T → Text → ℕ → LwwRegister T
  set r value node_id now_ms = record r { value = value; ts = now_ms; node_id = node_id }

  -- The test of `merge`: `other` was written later, or by a greater node at the same time.
  abbrev pub newer : LwwRegister T → LwwRegister T → Bool
  newer r other = ltb r.ts other.ts || (other.ts == r.ts && text_ord.blt r.node_id other.node_id)

  unfoldable pub merge : LwwRegister T → LwwRegister T → LwwRegister T
  merge r other =
      if newer r other
      then record r { value = other.value; ts = other.ts; node_id = other.node_id }
      else r

  -- Two writes with one stamp wrote one value.
  abbrev pub AgreesOnTie : LwwRegister T → LwwRegister T → Type ℓ
  AgreesOnTie a b = a.ts ≡ b.ts → a.node_id ≡ b.node_id → a.value ≡ b.value

  pub merge_idem : (a : LwwRegister T) → merge a a ≡ a
  unfolding merge
  merge_idem a = ground (arith, text_ord.blt_irrefl a.node_id)

  pub merge_assoc : (a b c : LwwRegister T) → merge (merge a b) c ≡ merge a (merge b c)
  unfolding merge
  merge_assoc a b c = ground (
    arith,
    text_ord.blt_trans a.node_id b.node_id c.node_id,
    text_ord.blt_total b.node_id a.node_id,
    text_ord.blt_total c.node_id b.node_id,
    text_ord.beq_iff b.node_id a.node_id,
    text_ord.beq_iff c.node_id b.node_id,
    text_ord.blt_trans a.node_id c.node_id b.node_id,
  )

  pub merge_comm : (a b : LwwRegister T) → AgreesOnTie a b → merge a b ≡ merge b a
  unfolding merge
  merge_comm a b h = ground (
    arith,
    text_ord.blt_trans a.node_id b.node_id a.node_id,
    text_ord.blt_irrefl a.node_id,
    text_ord.blt_total a.node_id b.node_id,
    text_ord.beq_iff a.node_id b.node_id,
  )

  -- With one stamp, each side keeps its own value.
  pub merge_tie :
      (a b : LwwRegister T)
      → a.ts ≡ b.ts
      → a.node_id ≡ b.node_id
      → (merge a b ≡ a) × (merge b a ≡ b)
  unfolding merge
  merge_tie a b h k = ground (arith, text_ord.blt_irrefl a.node_id, text_ord.blt_irrefl b.node_id)
