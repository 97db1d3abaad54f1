-- ===== src/K8s/Heap.antt =====
-- Memory for the structs of the two operators that hold pointers and slices: cells at addresses, the
-- ones below `next` in use. `C` is the type of what a cell holds.
pub mod Deep
pub mod Copies
pub mod Optional
pub mod Pointers
pub mod Structs
use koko.Base.{ℕ, zero, suc, ◌+◌, ◌≡◌, Option, none, some, ◌==◌, if◌then◌else◌}

pub record Heap (C : Type 0) : Type 0 where
  pub next : ℕ
  pub cell : ℕ → C

-- A type of values that a cell can hold. Memory is typed in Go, so what `out` makes of a cell that
-- holds another type is of no use.
pub record Kind (V C : Type 0) : Type 0 where
  pub into : V → C
  pub out : C → V
  pub out-into : (v : V) → out (into v) ≡ v

-- A slice that is not nil: its elements stand one after the other.
pub record Slice : Type 0 where
  pub ptr : ℕ
  pub len : ℕ

module _ {C : Type 0} where
  -- `new` and `make`: `n` cells that were not in use. They are zeroed, and here always written before
  -- they are read.
  abbrev pub alloc : ℕ → Heap C → ℕ × Heap C
  alloc n h = (h.next, record h { next = h.next + n })

  abbrev pub store : ℕ → C → Heap C → Heap C
  store a c h = record h { cell = λ b. if b == a then c else h.cell b }

-- Functions that use memory.
abbrev pub H : Type 0 → Type 0 → Type 0
H C A = Heap C → A × Heap C

infixl 5 ◌>>=◌
abbrev pub ◌>>=◌ : {C A B : Type 0} → H C A → (A → H C B) → H C B
◌>>=◌ m f h = let (a, h') = m h in f a h'

abbrev pub pure : {C A : Type 0} → A → H C A
pure a h = (a, h)

module _ {C V : Type 0} (K : Kind V C) (copy : V → Heap C → V × Heap C) where
  -- `for i := range *in { (*in)[i].DeepCopyInto(&(*out)[i]) }` over `n` elements
  unfoldable pub copy_elems : ℕ → ℕ → ℕ → Heap C → Heap C
  copy_elems src dst zero h = h
  copy_elems src dst (suc n) h =
      let (v, h') = copy (K.out (h.cell src)) h in
      copy_elems (suc src) (suc dst) n (store dst (K.into v) h')

  -- `*out = make([]T, len(*in))`, and the loop
  unfoldable pub copy_slice : Slice → Heap C → Slice × Heap C
  unfolding copy_elems
  copy_slice s h =
      let (p, h') = alloc s.len h in (record { ptr = p; len = s.len }, copy_elems s.ptr p s.len h')

  -- `out := new(T); in.DeepCopyInto(out); return out`
  unfoldable pub copy_pointer : ℕ → Heap C → ℕ × Heap C
  copy_pointer a h =
      let (p, h') = alloc 1 h in
      let (v, h'') = copy (K.out (h'.cell a)) h' in (p, store p (K.into v) h'')

-- `if in != nil { … }`, where nil gives nil
unfoldable pub if_not_nil : {C X : Type 0} → (X → Heap C → X × Heap C) → Option X → H C (Option X)
if_not_nil copy none h = (none, h)
if_not_nil copy (some x) h = let (x', h') = copy x h in (some x', h')
