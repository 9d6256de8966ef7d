-- ===== src/Qs/Tasks/Newest.antt =====
-- Which tasks the tracker (crates/bsrs/src/qs/tasks.rs) remembers after any number of starts.
use bsrs.Prelude.{
  ℕ, zero, suc, ◌-◌, ◌≤◌, ◌≡◌, refl, sym, ap, ◌∙◌, true, false, String, none, List, [], ◌∷◌, ◌++◌,
  arith, if◌then◌else◌, leb, length, drop, All, length-append, length-map, Bool-cases, str_eq, inl,
  inr,
}
use mathlib.Core.List.{map-append, append_assoc, append-nil}
use bsrs.Prelude.Alls.{All-split}
use bsrs.Prelude.Maps.{lookup, keys}
use bsrs.Qs.Tasks.{TaskEntry, TaskTracker, max_tasks, new, start}
use bsrs.Qs.Tasks.Eviction.{Inv, kept, start-fresh, tracker-Inv}

-- No two of the uids are one.
abbrev pub Apart : List String → Type 0
Apart [] = Unit
Apart (x ∷ xs) = All (λ y. str_eq x y ≡ false) xs × Apart xs

-- A task started under each uid in turn, by one method.
unfoldable pub starts : String → TaskTracker → List String → TaskTracker
starts m t [] = t
starts m t (u ∷ us) = starts m (start t u m) us

drop-snoc :
    (n : ℕ) (xs : List String) (u : String)
    → n ≤ length xs
    → drop n (xs ++ u ∷ []) ≡ drop n xs ++ u ∷ []
drop-snoc zero xs u h = refl
drop-snoc (suc n) [] u h = absurd (omega arith)
drop-snoc (suc n) (x ∷ xs) u h = drop-snoc n xs u (omega arith)

abbrev tail : List String → List String
tail [] = []
tail (x ∷ xs) = xs

tail-drop : (n : ℕ) (xs : List String) → tail (drop n xs) ≡ drop (suc n) xs
tail-drop zero [] = refl
tail-drop zero (x ∷ xs) = refl
tail-drop (suc n) [] = refl
tail-drop (suc n) (x ∷ xs) = tail-drop n xs

length-drop : (n : ℕ) (xs : List String) → length (drop n xs) ≡ length xs - n
length-drop zero xs = omega arith
length-drop (suc n) [] = omega arith
length-drop (suc n) (x ∷ xs) = omega (arith, length-drop n xs)

keys-kept :
    (es : List (String × TaskEntry))
    → keys (kept es) ≡ (if leb max_tasks (length (keys es)) then tail (keys es) else keys es)
keys-kept [] = refl
keys-kept (e ∷ es) = ground (arith, length-map (λ (x : String × TaskEntry). x.0) es)

All-of_eq : (P : String → Type 0) {xs ys : List String} → ys ≡ xs → All P ys → All P xs
All-of_eq P e h = rw (← e) h

Apart-of_eq : {xs ys : List String} → xs ≡ ys → Apart ys → Apart xs
Apart-of_eq e h = rw e h

-- The last `max_tasks` uids of a list.
abbrev pub newest : List String → List String
newest xs = drop (length xs - max_tasks) xs

newest-snoc :
    (xs : List String) (u : String)
    → (if leb max_tasks (length (newest xs)) then tail (newest xs) else newest xs) ++ u ∷ []
      ≡ newest (xs ++ u ∷ [])
newest-snoc xs u = elim (Bool-cases (leb max_tasks (length xs))) [
  | inl h ↦
      let n = length xs - max_tasks in
      let grown : length (xs ++ u ∷ []) - max_tasks ≡ suc n =
        ground (arith, length-append {0} xs (u ∷ [])) in
      let full : leb max_tasks (length (drop n xs)) ≡ true = ground (arith, length-drop n xs) in
      ap (λ b. (if b then tail (drop n xs) else drop n xs) ++ u ∷ []) full
      ∙ (ap (λ z. z ++ u ∷ []) (tail-drop n xs)
          ∙ (sym (drop-snoc (suc n) xs u (ground arith))
              ∙ ap (λ k. drop k (xs ++ u ∷ [])) (sym grown)))
  | inr h ↦
      let n = length xs - max_tasks in
      let none_over : n ≡ 0 = ground arith in
      let grown : length (xs ++ u ∷ []) - max_tasks ≡ 0 =
        ground (arith, length-append {0} xs (u ∷ [])) in
      let all_in : drop n xs ≡ xs = ap (λ k. drop k xs) none_over in
      ap (λ z. (if leb max_tasks (length z) then tail z else z) ++ u ∷ []) all_in
      ∙ (ap (λ b. (if b then tail xs else xs) ++ u ∷ []) h
          ∙ ap (λ k. drop k (xs ++ u ∷ [])) (sym grown))
]

keys-start :
    (t : TaskTracker) (hist : List String) (u m : String)
    → Inv t
    → lookup u t.entries ≡ none
    → keys t.entries ≡ newest hist
    → keys (start t u m).entries ≡ newest (hist ++ u ∷ [])
keys-start t hist u m v h e =
    ap (λ t'. keys t'.entries) (start-fresh t u m v h)
    ∙ (map-append (λ (x : String × TaskEntry). x.0) (kept t.entries) _
        ∙ (ap (λ z. z ++ u ∷ []) (keys-kept t.entries)
            ∙ (ap (λ ks. (if leb max_tasks (length ks) then tail ks else ks) ++ u ∷ []) e
                ∙ newest-snoc hist u)))

-- A uid apart from a history is not among the entries that it left.
lookup-none :
    (u : String) (es : List (String × TaskEntry))
    → All (λ y. str_eq y u ≡ false) (keys es)
    → lookup u es ≡ none
unfolding lookup
lookup-none u [] h = refl
lookup-none u (e ∷ es) h = rw h.0 (lookup-none u es h.1)

All-drop : (P : String → Type 0) (n : ℕ) (xs : List String) → All P xs → All P (drop n xs)
All-drop P zero xs h = h
All-drop P (suc n) [] h = h
All-drop P (suc n) (x ∷ xs) h = All-drop P n xs h.1

Apart-middle :
    (xs : List String) (u : String) (ys : List String)
    → Apart (xs ++ u ∷ ys)
    → All (λ y. str_eq y u ≡ false) xs
Apart-middle [] u ys h = tt
Apart-middle (x ∷ xs) u ys h = ((All-split _ xs (u ∷ ys) h.0).1.0, Apart-middle xs u ys h.1)

starts-newest :
    (m : String) (t : TaskTracker) (hist us : List String)
    → Inv t
    → keys t.entries ≡ newest hist
    → Apart (hist ++ us)
    → keys (starts m t us).entries ≡ newest (hist ++ us)
unfolding starts
starts-newest m t hist [] v e a = e ∙ ap newest (sym (append-nil hist))
starts-newest m t hist (u ∷ us) v e a =
    let gone = lookup-none u t.entries (
      All-of_eq (λ y. str_eq y u ≡ false) (sym e)
        (All-drop _ (length hist - max_tasks) hist (Apart-middle hist u us a))) in
    starts-newest m (start t u m) (hist ++ u ∷ []) us (tracker-Inv.1 t u m v gone)
      (keys-start t hist u m v gone e) (Apart-of_eq (append_assoc hist (u ∷ []) us) a)
    ∙ ap newest (append_assoc hist (u ∷ []) us)

-- After any number of starts under different uids, the tracker remembers exactly the last 256 of
-- them, oldest first: what it forgets is always the oldest.
pub starts-remembers_newest :
    (m : String) (us : List String)
    → Apart us
    → keys (starts m new us).entries ≡ drop (length us - max_tasks) us
unfolding new
starts-remembers_newest m us a = starts-newest m new [] us tracker-Inv.0 refl a
