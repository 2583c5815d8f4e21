-- ===== src/Forwarder/Host/Lawful.antt =====
-- A host is lawful if what it shows of itself behaves as documented.
use aurora_forwarder_contrac.Base.{ℕ, ◌≡◌, refl, List, Bytes}
use aurora_forwarder_contrac.Forwarder.Host.{Host}
use aurora_forwarder_contrac.Forwarder.Host.Machine.{Machine, machine}

-- An answer together with what is seen of the state behind it.
abbrev pub seen {ℓ} : {A W V : Type ℓ} → (W → V) → A × W → A × V
seen view (a, w) = (a, view w)

pub record IsLawful (h : Host) (view : h.World → Machine) : Type 0 where
  pub read_register_lem :
      (r : ℕ) (w : h.World) → h.read_register r w ≡ machine.read_register r (view w)
  pub register_len_lem :
      (r : ℕ) (w : h.World) → h.register_len r w ≡ machine.register_len r (view w)
  pub current_account_id_lem :
      (r : ℕ) (w : h.World)
      → view (h.current_account_id r w) ≡ machine.current_account_id r (view w)
  pub signer_account_id_lem :
      (r : ℕ) (w : h.World) → view (h.signer_account_id r w) ≡ machine.signer_account_id r (view w)
  pub predecessor_account_id_lem :
      (r : ℕ) (w : h.World)
      → view (h.predecessor_account_id r w) ≡ machine.predecessor_account_id r (view w)
  pub input_lem : (r : ℕ) (w : h.World) → view (h.input r w) ≡ machine.input r (view w)
  pub block_index_lem : (w : h.World) → h.block_index w ≡ machine.block_index (view w)
  pub account_balance_lem : (w : h.World) → h.account_balance w ≡ machine.account_balance (view w)
  pub attached_deposit_lem :
      (w : h.World) → h.attached_deposit w ≡ machine.attached_deposit (view w)
  pub value_return_lem :
      (v : Bytes) (w : h.World) → view (h.value_return v w) ≡ machine.value_return v (view w)
  pub promise_create_lem :
      (a f x : Bytes) (d g : ℕ) (w : h.World)
      → seen view (h.promise_create a f x d g w) ≡ machine.promise_create a f x d g (view w)
  pub promise_then_lem :
      (p : ℕ) (a f x : Bytes) (d g : ℕ) (w : h.World)
      → seen view (h.promise_then p a f x d g w) ≡ machine.promise_then p a f x d g (view w)
  pub promise_and_lem :
      (ps : List ℕ) (w : h.World) → seen view (h.promise_and ps w) ≡ machine.promise_and ps (view w)
  pub promise_batch_create_lem :
      (a : Bytes) (w : h.World)
      → seen view (h.promise_batch_create a w) ≡ machine.promise_batch_create a (view w)
  pub add_key_with_full_access_lem :
      (p : ℕ) (k : Bytes) (n : ℕ) (w : h.World)
      → view (h.add_key_with_full_access p k n w) ≡ machine.add_key_with_full_access p k n (view w)
  pub delete_account_lem :
      (p : ℕ) (b : Bytes) (w : h.World)
      → view (h.delete_account p b w) ≡ machine.delete_account p b (view w)
  pub promise_result_lem :
      (i r : ℕ) (w : h.World)
      → seen view (h.promise_result i r w) ≡ machine.promise_result i r (view w)
  pub promise_return_lem :
      (p : ℕ) (w : h.World) → view (h.promise_return p w) ≡ machine.promise_return p (view w)
  pub storage_write_lem :
      (k v : Bytes) (r : ℕ) (w : h.World)
      → seen view (h.storage_write k v r w) ≡ machine.storage_write k v r (view w)
  pub storage_write_register_lem :
      (k : Bytes) (s r : ℕ) (w : h.World)
      → seen view (h.storage_write_register k s r w) ≡ machine.storage_write_register k s r (view w)
  pub storage_read_lem :
      (k : Bytes) (r : ℕ) (w : h.World)
      → seen view (h.storage_read k r w) ≡ machine.storage_read k r (view w)
  pub storage_remove_lem :
      (k : Bytes) (r : ℕ) (w : h.World)
      → seen view (h.storage_remove k r w) ≡ machine.storage_remove k r (view w)
  pub storage_has_key_lem :
      (k : Bytes) (w : h.World) → h.storage_has_key k w ≡ machine.storage_has_key k (view w)

-- The machine itself is lawful.
pub machine-IsLawful : IsLawful machine (λ m. m)
machine-IsLawful = record {
  read_register_lem = λ r w. refl;
  register_len_lem = λ r w. refl;
  current_account_id_lem = λ r w. refl;
  signer_account_id_lem = λ r w. refl;
  predecessor_account_id_lem = λ r w. refl;
  input_lem = λ r w. refl;
  block_index_lem = λ w. refl;
  account_balance_lem = λ w. refl;
  attached_deposit_lem = λ w. refl;
  value_return_lem = λ v w. refl;
  promise_create_lem = λ a f x d g w. refl;
  promise_then_lem = λ p a f x d g w. refl;
  promise_and_lem = λ ps w. refl;
  promise_batch_create_lem = λ a w. refl;
  add_key_with_full_access_lem = λ p k n w. refl;
  delete_account_lem = λ p b w. refl;
  promise_result_lem = λ i r w. refl;
  promise_return_lem = λ p w. refl;
  storage_write_lem = λ k v r w. refl;
  storage_write_register_lem = λ k s r w. refl;
  storage_read_lem = λ k r w. refl;
  storage_remove_lem = λ k r w. refl;
  storage_has_key_lem = λ k w. refl;
}
