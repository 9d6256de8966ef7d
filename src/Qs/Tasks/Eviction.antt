-- ===== src/Qs/Tasks/Eviction.antt =====
-- The bound of the task tracker (crates/bsrs/src/qs/tasks.rs) and the order in which it forgets.
use bsrs.Prelude.{
  suc, ◌≤◌, ◌≡◌, refl, sym, ap, ◌∙◌, String, none, some, List, [], ◌∷◌, ◌++◌, arith, if◌then◌else◌,
  leb, length, length-append, Bool-cases, str_eq, str_eq_iff, str_eq_refl,
}
use mathlib.Core.List.{map-append}
use mathlib.Core.Logic.{inl, inr}
use bsrs.Prelude.Maps.{
  lookup, remove, modify, keys, lookup-insert, lookup-modify, keys-modify, keys-insert_new,
  remove_absent, HasKeysApart,
}
use bsrs.Qs.Tasks.{
  EvalResult, TaskEntry, TaskTracker, max_tasks, running, completed, new, make_room, start,
  complete,
}

pub record Inv (t : TaskTracker) : Type 0 where
  pub order_keys : t.order ≡ keys t.entries
  pub apart : HasKeysApart t.entries
  pub bounded : length t.entries ≤ max_tasks

-- Below capacity nothing goes; at capacity the oldest entry goes.
abbrev tail : {A : Type 0} → List A → List A
tail [] = []
tail (x ∷ xs) = xs

abbrev pub kept : {A : Type 0} → List A → List A
kept xs = if leb max_tasks (length xs) then tail xs else xs

HasKeysApart-of_eq :
    {xs ys : List (String × TaskEntry)} → xs ≡ ys → HasKeysApart xs → HasKeysApart ys
HasKeysApart-of_eq e a = rw (← e) a

Inv-of_eq : {t u : TaskTracker} → t ≡ u → Inv u → Inv t
Inv-of_eq e v = rw e v

lookup_rest :
    (u k : String) (y : TaskEntry) (es : List (String × TaskEntry))
    → lookup u ((k, y) ∷ es) ≡ none
    → lookup u es ≡ none
unfolding lookup
lookup_rest u k y es h = ground arith

lookup-kept :
    (u : String) (es : List (String × TaskEntry)) → lookup u es ≡ none → lookup u (kept es) ≡ none
lookup-kept u [] h = h
lookup-kept u ((k, y) ∷ es) h = ground (arith, lookup_rest u k y es h)

modify-apart :
    (u : String) (f : TaskEntry → TaskEntry) (es : List (String × TaskEntry))
    → HasKeysApart es
    → HasKeysApart (modify u f es)
unfolding modify
modify-apart u f [] a = tt
modify-apart u f ((k, y) ∷ es) a = elim (Bool-cases (str_eq k u)) [
  | inl h ↦ rw h a
  | inr h ↦ rw h (lookup-modify u k f es ∙ ground (arith, a.0), modify-apart u f es a.1)
]

length-modify :
    (u : String) (f : TaskEntry → TaskEntry) (es : List (String × TaskEntry))
    → length (modify u f es) ≡ length es
unfolding modify
length-modify u f [] = refl
length-modify u f ((k, y) ∷ es) = ground (arith, length-modify u f es)

room_of :
    (t : TaskTracker) (es : List (String × TaskEntry))
    → t.entries ≡ es
    → Inv t
    → make_room t ≡ record { entries = kept es; order = keys (kept es) }
unfolding make_room remove
room_of t [] e v = ground (arith, v.order_keys)
room_of t ((k, x) ∷ es) e v =
    let apart = HasKeysApart-of_eq e v.apart in
    ground (arith, v.order_keys, str_eq_refl k, remove_absent k es apart.0)

-- `start` with a uid that is not tracked.
pub start-fresh :
    (t : TaskTracker) (uid m : String)
    → Inv t
    → lookup uid t.entries ≡ none
    → let es = kept t.entries ++ (uid, record { state = running; source = m }) ∷ [] in
      start t uid m ≡ record { entries = es; order = keys es }
unfolding start
start-fresh t uid m v h =
    let x : TaskEntry = record { state = running; source = m } in
    let es = kept t.entries in
    rw (room_of t t.entries refl v)
      (rw (keys-insert_new uid x es (lookup-kept uid t.entries h), map-append) refl)

lookup-snoc :
    (k u : String) (x : TaskEntry) (es : List (String × TaskEntry))
    → lookup u es ≡ none
    → lookup k (es ++ (u, x) ∷ []) ≡ (if str_eq u k then some x else lookup k es)
lookup-snoc k u x es h = ap (lookup k) (sym (keys-insert_new u x es h)) ∙ lookup-insert u k x es

apart-snoc :
    (u : String) (x : TaskEntry) (es : List (String × TaskEntry))
    → HasKeysApart es
    → lookup u es ≡ none
    → HasKeysApart (es ++ (u, x) ∷ [])
unfolding lookup
apart-snoc u x [] a h = (refl, tt)
apart-snoc u x ((k, y) ∷ es) a h = (
  lookup-snoc k u x es (lookup_rest u k y es h)
      ∙ ground (arith, a.0, str_eq_iff u k, str_eq_iff k u),
  apart-snoc u x es a.1 (lookup_rest u k y es h),
)

kept-apart : (es : List (String × TaskEntry)) → HasKeysApart es → HasKeysApart (kept es)
kept-apart [] a = tt
kept-apart (e ∷ es) a = elim (Bool-cases (leb max_tasks (length (e ∷ es)))) [
  | inl h ↦ rw h a.1
  | inr h ↦ rw h a
]

kept-length :
    (es : List (String × TaskEntry)) → length es ≤ max_tasks → suc (length (kept es)) ≤ max_tasks
kept-length [] h = omega arith
kept-length (e ∷ es) h = ground arith

-- `Inv` of a new tracker, and after `start` and `complete`.
pub tracker-Inv :
    Inv new
    × ((t : TaskTracker) (uid m : String)
        → Inv t
        → lookup uid t.entries ≡ none
        → Inv (start t uid m))
    × ((t : TaskTracker) (uid : String) (r : EvalResult) → Inv t → Inv (complete t uid r))
unfolding new complete
tracker-Inv = (
  record { order_keys = refl; apart = tt; bounded = omega arith },
  λ t uid m v h. Inv-of_eq (start-fresh t uid m v h) (record {
    order_keys = refl;
    apart =
        apart-snoc uid _ (kept t.entries) (kept-apart t.entries v.apart)
          (lookup-kept uid t.entries h);
    bounded = omega (
      arith,
      length-append {0} (kept t.entries) ((uid, record { state = running; source = m }) ∷ []),
      kept-length t.entries v.bounded,
    );
  }),
  λ t uid r v. record {
    order_keys = v.order_keys ∙ sym (keys-modify uid _ t.entries);
    apart = modify-apart uid _ t.entries v.apart;
    bounded = rw (length-modify uid (λ e. record e { state = completed r }) t.entries) v.bounded;
  },
)

-- `start` with an untracked uid keeps the tracker well formed: at most 256 tasks are tracked, each
-- of them listed once in `order`.
pub start-Inv :
    (t : TaskTracker) (uid m : String) → Inv t → lookup uid t.entries ≡ none → Inv (start t uid m)
start-Inv t uid m v gone = tracker-Inv.1 t uid m v gone
