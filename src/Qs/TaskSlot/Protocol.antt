-- ===== src/Qs/TaskSlot/Protocol.antt =====
-- The claim slot (crates/bsrs/src/qs/task_slot.rs) under any interleaving of its users: the request
-- thread that claims, registers and revokes, and the workers that drop their guards.
use bsrs.Prelude.{
  ℕ, ◌+◌, ◌<◌, ◌≡◌, ◌≢◌, refl, ◌⊎◌, inl, inr, Bool, true, false, Option, none, some, List, [], ◌∷◌,
  arith, ◌==◌, if◌then◌else◌, any, All, Bool-cases,
}
use bsrs.Qs.TaskSlot.{
  Entry, Slot, u64_mod, new, claim, register, take, finish, take_worker_finished,
}

abbrev pub mem : ℕ → List ℕ → Bool
mem x = any (λ y. y == x)

-- The list without a number.
abbrev pub without : ℕ → List ℕ → List ℕ
without g [] = []
without g (x ∷ xs) = if x == g then without g xs else x ∷ without g xs

pub mem-without :
    (x g : ℕ) (xs : List ℕ) → mem x (without g xs) ≡ (if x == g then false else mem x xs)
mem-without x g [] = ground arith
mem-without x g (y ∷ ys) = ground (arith, mem-without x g ys)

-- The slot, the guards not yet dropped, each handle registered for a generation, and the handles
-- that were aborted or handed out to be aborted.
pub record World : Type 0 where
  pub slot : Slot
  pub guards : List ℕ
  pub registered : List (ℕ × ℕ)
  pub ended : List ℕ

abbrev pub add_ended : Option ℕ → List ℕ → List ℕ
add_ended none xs = xs
add_ended (some h) xs = h ∷ xs

abbrev pub start : World
start = record { slot = new; guards = []; registered = []; ended = [] }

-- One step of any of the users. Fewer than 2^64 claims are made, and the spawner registers one
-- handle for a generation that it was given.
pub data Step (w : World) : World → Type 0 where
  claims :
      (g : ℕ)
      → (claim w.slot).1 ≡ some g
      → w.slot.next_gen + 1 < u64_mod
      → Step w (record w { slot = (claim w.slot).0; guards = g ∷ w.guards })
  registers :
      (g h : ℕ)
      → g < w.slot.next_gen
      → All (λ p. p.0 ≢ g) w.registered
      → Step w (record w {
        slot = (register w.slot g h).0;
        registered = (g, h) ∷ w.registered;
        ended = add_ended (register w.slot g h).1 w.ended;
      })
  revokes : Step w (record w { slot = (take w.slot).0; ended = add_ended (take w.slot).1 w.ended })
  drops :
      (g : ℕ)
      → mem g w.guards ≡ true
      → Step w (record w { slot = finish w.slot g; guards = without g w.guards })
  polls : Step w (record w { slot = (take_worker_finished w.slot).0 })

pub data Reach : World → Type 0 where
  here : Reach start
  next : {w w' : World} → Reach w → Step w w' → Reach w'

-- A registered handle was ended, or its worker has returned, or the slot still holds it.
abbrev pub Tracked : World → ℕ × ℕ → Type 0
Tracked w p =
    (mem p.1 w.ended ≡ true)
    ⊎ (mem p.0 w.guards ≡ false)
    ⊎ (w.slot.entry ≡ some (record { generation = p.0; handle = some p.1 }))

abbrev pub EntryHeld : World → Option Entry → Type 0
EntryHeld w none = Unit
EntryHeld w (some e) = mem e.generation w.guards ≡ true

pub record Inv (w : World) : Type 0 where
  pub guards_old : All (λ g. g < w.slot.next_gen) w.guards
  pub registered_old : All (λ p. p.0 < w.slot.next_gen) w.registered
  pub entry_held : EntryHeld w w.slot.entry
  pub tracked : All (Tracked w) w.registered

pub All-map₂ {ℓ κ μ ν} :
    {A : Type ℓ} (P : A → Type κ) (Q : A → Type μ) (R : A → Type ν)
    → ((a : A) → P a → Q a → R a)
    → (xs : List A) → All P xs
    → All Q xs
    → All R xs
All-map₂ P Q R f [] h k = tt
All-map₂ P Q R f (x ∷ xs) h k = (f x h.0 k.0, All-map₂ P Q R f xs h.1 k.1)

pub All-without : (P : ℕ → Type 0) (g : ℕ) (xs : List ℕ) → All P xs → All P (without g xs)
All-without P g [] h = tt
All-without P g (x ∷ xs) h = elim (Bool-cases (x == g)) [
  | inl e ↦ rw e (All-without P g xs h.1)
  | inr e ↦ rw e (h.0, All-without P g xs h.1)
]

pub not-mem_of_lt : (n : ℕ) (xs : List ℕ) → All (λ g. g < n) xs → mem n xs ≡ false
not-mem_of_lt n [] h = refl
not-mem_of_lt n (x ∷ xs) h = ground (arith, h.0, not-mem_of_lt n xs h.1)
