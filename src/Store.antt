-- ===== src/Store.antt =====
-- The objects that `new` and `delete` manage, behind pointers. `new` is the language's, and so is
-- what happens on a wrong use: a call through a pointer to no object, a second `delete`, a lock of
-- a mutex that the same thread holds and a `front()` of an empty queue are faults, which end the
-- run of the model. So are a read through a null pointer, the use of a name without an object, and
-- a second object under one name. `out_of_fuel` is the end of the rounds that the model allows a loop.
use simpwire.Prelude.{ℕ, suc, Option, none, some, ◌==◌, if◌then◌else◌}
use simpwire.ISocket.{ISocket, Method}

pub data Fault : Type 0 where
  dangling_pointer relocked_mutex unlocked_mutex empty_front out_of_range out_of_fuel : Fault
  null_pointer no_object object_in_use : Fault

pub data Result {ℓ} (A : Type ℓ) : Type ℓ where
  ok : A → Result A
  fault : Fault → Result A

-- Socket objects by address, the next unused address, and the world.
pub record Store (I : ISocket) : Type 0 where
  pub cell : ℕ → Option I.Sock
  pub next : ℕ
  pub world : I.World

module _ {ℓ} {A : Type ℓ} where
  abbrev pub update : (ℕ → A) → ℕ → A → ℕ → A
  update f a v b = if b == a then v else f b

module _ {I : ISocket} where
  -- `new`
  unfoldable pub new_object : I.Sock → Store I → ℕ × Store I
  new_object o m = (m.next, record m { cell = update m.cell m.next (some o); next = suc m.next })

  -- A method that may change the object it is called on.
  unfoldable pub call : {A : Type 0} → Method I.Sock I.World A → ℕ → Store I → Result (A × Store I)
  call f a m = elim (m.cell a) [
    | none ↦ fault dangling_pointer
    | some o ↦
        let (r, o', w') = f o m.world in
        ok (r, record m { cell = update m.cell a (some o'); world = w' })
  ]

  -- A getter.
  unfoldable pub get : {A : Type 0} → (I.Sock → A) → ℕ → Store I → Result A
  get f a m = elim (m.cell a) [ none ↦ fault dangling_pointer | some o ↦ ok (f o) ]

  -- `delete`, on a pointer that is not null.
  unfoldable pub delete_object : ℕ → Store I → Result (Store I)
  delete_object a m = elim (m.cell a) [
    | none ↦ fault dangling_pointer
    | some o ↦ ok (record m { cell = update m.cell a none; world = I.destroy o m.world })
  ]
