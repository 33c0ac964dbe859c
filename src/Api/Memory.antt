-- ===== src/Api/Memory.antt =====
-- Go's memory as far as the API types use it: the arrays behind slices, and slices and pointers
-- that share them.
pub mod Slices
pub mod Loop
use zoneroute.Base.{ℕ, zero, suc, ◌+◌, List, [], ◌∷◌, Option, none, some, ◌==◌, if◌then◌else◌}
use zoneroute.Base.Items.{take, drop, replicate, get_or, set, overwrite}

-- The arrays of items of one type: `next` is the first address that is not in use.
pub record Arena (A : Type 0) : Type 0 where
  pub next : ℕ
  pub block : ℕ → List A

-- A slice that is not nil: `count` items of the array at `address`, from `offset` on.
pub record Slice : Type 0 where
  pub address : ℕ
  pub offset : ℕ
  pub count : ℕ

-- A pointer that is not nil: a variable, or an item of an array.
pub record Place : Type 0 where
  pub address : ℕ
  pub offset : ℕ

module _ {A : Type 0} where
  unfoldable pub put : Arena A → ℕ → List A → Arena A
  put ar a l = record ar { block = λ p. if p == a then l else ar.block p }

  -- A new array, at the address `next`.
  unfoldable pub alloc : Arena A → List A → Arena A
  unfolding put
  alloc ar l = record (put ar ar.next l) { next = suc ar.next }

  unfoldable pub items : Arena A → Slice → List A
  unfolding take drop
  items ar s = take s.count (drop s.offset (ar.block s.address))

  -- `make([]A, n)`, whose items are `zero_value`.
  unfoldable pub make : A → Arena A → ℕ → Arena A × Slice
  unfolding alloc replicate
  make zero_value ar n =
      (alloc ar (replicate n zero_value), record { address = ar.next; offset = 0; count = n })

  -- `s[i] = v`
  unfoldable pub store : Arena A → Slice → ℕ → A → Arena A
  unfolding put set
  store ar s i v = put ar s.address (set (ar.block s.address) (s.offset + i) v)

  -- `copy(to, from)`, for `to` as `make` returns it.
  unfoldable pub copy : Arena A → Slice → Slice → Arena A
  unfolding put overwrite items
  copy ar to from = put ar to.address (overwrite (ar.block to.address) (items ar from))

  -- `*p`
  unfoldable pub load : A → Arena A → Place → A
  unfolding get_or
  load zero_value ar p = get_or (ar.block p.address) p.offset zero_value

  -- `*p = v`
  unfoldable pub assign : Arena A → Place → A → Arena A
  unfolding put set
  assign ar p v = put ar p.address (set (ar.block p.address) p.offset v)

  -- The loop `for i := range from { from[i].DeepCopyInto(&to[i]) }` from the index `i` on, for the
  -- last `n` items. `into` is `DeepCopyInto`, from the value behind `in` to the one that it leaves
  -- behind `out`, and changes the memory that it allocates in.
  unfoldable pub copy_each :
      {S : Type 0} → (S → A → S × A) → A → S → Arena A → Slice → Slice → ℕ → ℕ → S × Arena A
  unfolding store items get_or
  copy_each into zero_value s ar to from i zero = (s, ar)
  copy_each into zero_value s ar to from i (suc n) =
      let (s', v) = into s (get_or (items ar from) i zero_value) in
      copy_each into zero_value s' (store ar to i v) to from (suc i) n

  -- `DeepCopy`: a nil pointer is returned, and else `new(A)`, after `in.DeepCopyInto(out)`.
  unfoldable pub new_copy :
      {S : Type 0} → (S → A → S × A) → A → S → Arena A → Option Place → S × Arena A × Option Place
  unfolding alloc load assign
  new_copy into zero_value s ar none = (s, ar, none)
  new_copy into zero_value s ar (some p) =
      let out : Place = record { address = ar.next; offset = 0 } in
      let fresh = alloc ar (zero_value ∷ []) in
      let (s', v) = into s (load zero_value fresh p) in (s', assign fresh out v, some out)
