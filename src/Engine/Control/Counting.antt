-- ===== src/Engine/Control/Counting.antt =====
-- The counts behind the holds of crates/bsrs/src/engine/run_engine.rs.
use bsrs.Prelude.{
  ℕ, zero, suc, ◌+◌, ◌-◌, ◌%◌, ◌≤◌, ◌<◌, ◌≡◌, refl, sym, ap, ◌∙◌, inl, inr, Bool, true, false, not,
  none, some, List, [], ◌∷◌, ◌++◌, map, arith, ◌==◌, if◌then◌else◌, get_elem?, remove_idx, All, any,
  Bool-cases,
}
use native.Mathlib.Nat.{mod-eq_of_lt}
use bsrs.Prelude.Alls.{All-append}
use bsrs.Prelude.Rows.{All-weaken, get_elem?-map}
use bsrs.Engine.Control.{u64_mod}
use bsrs.Engine.Control.Spec.{id_test, of_run}

-- How many are true.
abbrev pub count : List Bool → ℕ
count [] = 0
count (true ∷ bs) = suc (count bs)
count (false ∷ bs) = count bs

pub count-append : (bs : List Bool) → count (bs ++ true ∷ []) ≡ suc (count bs)
count-append [] = refl
count-append (true ∷ bs) = ap suc (count-append bs)
count-append (false ∷ bs) = count-append bs

pub count-falses : (bs : List Bool) → count (map (λ b. false) bs) ≡ 0
count-falses [] = refl
count-falses (b ∷ bs) = count-falses bs

pub count-current_gone :
    (bs : List Bool) (i : ℕ) → get_elem? bs i ≡ some true → suc (count (remove_idx bs i)) ≡ count bs
count-current_gone [] i h = absurd (ground (arith, h))
count-current_gone (true ∷ bs) zero h = refl
count-current_gone (false ∷ bs) zero h = absurd (ground (arith, h))
count-current_gone (true ∷ bs) (suc i) h = ap suc (count-current_gone bs i h)
count-current_gone (false ∷ bs) (suc i) h = count-current_gone bs i h

pub count-older_gone :
    (bs : List Bool) (i : ℕ) → get_elem? bs i ≡ some false → count (remove_idx bs i) ≡ count bs
count-older_gone [] i h = absurd (ground (arith, h))
count-older_gone (true ∷ bs) zero h = absurd (ground (arith, h))
count-older_gone (false ∷ bs) zero h = refl
count-older_gone (true ∷ bs) (suc i) h = ap suc (count-older_gone bs i h)
count-older_gone (false ∷ bs) (suc i) h = count-older_gone bs i h

-- One is there when the count is not 0.
pub any-count : (bs : List Bool) → any id_test bs ≡ not (count bs == 0)
any-count [] = refl
any-count (true ∷ bs) = ground arith
any-count (false ∷ bs) = any-count bs

-- The tasks of a run that begins belong to earlier runs.
pub of_run-older :
    (gen next : ℕ) (gs : List ℕ)
    → All (λ g. g < next) gs
    → of_run next gs ≡ map (λ b. false) (of_run gen gs)
of_run-older gen next [] h = refl
of_run-older gen next (g ∷ gs) h = ground (arith, h.0, of_run-older gen next gs h.1)

pub of_run-append :
    (gen : ℕ) (gs : List ℕ) → of_run gen (gs ++ gen ∷ []) ≡ of_run gen gs ++ true ∷ []
of_run-append gen [] = ground arith
of_run-append gen (g ∷ gs) = ap (◌∷◌ (g == gen)) (of_run-append gen gs)

pub map-remove_idx :
    {A B : Type 0} (f : A → B) (xs : List A) (i : ℕ)
    → map f (remove_idx xs i) ≡ remove_idx (map f xs) i
map-remove_idx f [] i = refl
map-remove_idx f (x ∷ xs) zero = refl
map-remove_idx f (x ∷ xs) (suc i) = ap (◌∷◌ (f x)) (map-remove_idx f xs i)

pub get_elem?-absent :
    {A B : Type 0} (f : A → B) (xs : List A) (i : ℕ)
    → get_elem? xs i ≡ none
    → get_elem? (map f xs) i ≡ none
get_elem?-absent f [] i h = refl
get_elem?-absent f (x ∷ xs) zero h = absurd (ground (arith, h))
get_elem?-absent f (x ∷ xs) (suc i) h = get_elem?-absent f xs i h

pub All-remove_idx :
    {A : Type 0} (P : A → Type 0) (xs : List A) (i : ℕ) → All P xs → All P (remove_idx xs i)
All-remove_idx P [] i h = tt
All-remove_idx P (x ∷ xs) zero h = h.1
All-remove_idx P (x ∷ xs) (suc i) h = (h.0, All-remove_idx P xs i h.1)

-- After at most n steps: the holds count the tasks of this run, and no counter has wrapped.
pub record Counted (n holds gen : ℕ) (tasks : List ℕ) : Type 0 where
  pub holds_count : holds ≡ count (of_run gen tasks)
  pub older : All (λ g. g ≤ gen) tasks
  pub few_runs : gen ≤ n
  pub few_holds : holds ≤ n

pub no_wrap : (a n : ℕ) → a ≤ n → suc n < u64_mod → (a + 1) % u64_mod ≡ suc a
no_wrap a n h b = mod-eq_of_lt {n = a + 1} {m = u64_mod} (omega (arith, h, b)) ∙ omega arith

pub Counted-suc :
    {n holds gen : ℕ} {tasks : List ℕ} → Counted n holds gen tasks → Counted (suc n) holds gen tasks
Counted-suc c = record {
  holds_count = c.holds_count;
  older = c.older;
  few_runs = omega (arith, c.few_runs);
  few_holds = omega (arith, c.few_holds);
}

pub Counted-begin :
    (n holds gen : ℕ) (tasks : List ℕ)
    → Counted n holds gen tasks
    → Counted (suc n) 0 (suc gen) tasks
Counted-begin n holds gen tasks c = record {
  holds_count = sym (
      ap count (
        of_run-older gen (suc gen) tasks
          (All-weaken (λ g. g ≤ gen) (λ g. g < suc gen) (λ g l. omega arith) tasks c.older))
      ∙ count-falses (of_run gen tasks));
  older = All-weaken (λ g. g ≤ gen) (λ g. g ≤ suc gen) (λ g l. omega arith) tasks c.older;
  few_runs = omega (arith, c.few_runs);
  few_holds = omega arith;
}

pub Counted-suspend :
    (n holds gen : ℕ) (tasks : List ℕ)
    → Counted n holds gen tasks
    → Counted (suc n) (suc holds) gen (tasks ++ gen ∷ [])
Counted-suspend n holds gen tasks c = record {
  holds_count =
      ap suc c.holds_count
      ∙ sym (ap count (of_run-append gen tasks) ∙ count-append (of_run gen tasks));
  older = All-append (λ g. g ≤ gen) tasks (gen ∷ []) c.older (omega arith, tt);
  few_runs = omega (arith, c.few_runs);
  few_holds = omega (arith, c.few_holds);
}

pub Counted-lift :
    (n holds gen i g : ℕ) (tasks : List ℕ)
    → get_elem? tasks i ≡ some g
    → Counted n holds gen tasks
    → Counted (suc n) (if g == gen then holds - 1 else holds) gen (remove_idx tasks i)
Counted-lift n holds gen i g tasks e c = record {
  holds_count = elim (Bool-cases (g == gen)) [
    | inl h ↦ rw h (
        omega (
          arith,
          c.holds_count,
          count-current_gone (of_run gen tasks) i
              (get_elem?-map (λ k. k == gen) i g tasks e ∙ ap some h),
          ap count (map-remove_idx (λ k. k == gen) tasks i),
        ))
    | inr h ↦ rw h (
        omega (
          arith,
          c.holds_count,
          count-older_gone (of_run gen tasks) i
              (get_elem?-map (λ k. k == gen) i g tasks e ∙ ap some h),
          ap count (map-remove_idx (λ k. k == gen) tasks i),
        ))
  ];
  older = All-remove_idx (λ k. k ≤ gen) tasks i c.older;
  few_runs = omega (arith, c.few_runs);
  few_holds = elim (Bool-cases (g == gen)) [
    | inl h ↦ rw h (omega (arith, c.few_holds))
    | inr h ↦ rw h (omega (arith, c.few_holds))
  ];
}
