-- ===== src/Tests/Pages.antt =====
-- The theorems on event pages, each at an input.
use bsrs.Prelude.{
  ℕ, ◌≡◌, refl, sym, ◌∙◌, inl, inr, Bool-cases, str_eq, some, List, [], ◌∷◌, arith, String,
}
use bsrs.Prelude.Rows.{Pairwise}
use bsrs.Runs.Documents.{Payload, Event, EventPage}
use bsrs.Runs.Columns.{has}
use bsrs.Runs.Pages.{pack_event_page, unpack_event_page}
use bsrs.Runs.Pages.RoundTrip.{AlikeEvents, pack_event_page-unpack}
use bsrs.Prelude.Maps.{lookup}

abbrev P : Payload
P = record { Value = ℕ; Float = ℕ }

abbrev event_of : String → ℕ → ℕ → ℕ → Event P
event_of uid n x y = record {
  uid = uid;
  descriptor = "d1";
  time = n;
  seq_num = n;
  «data» = ("x", x) ∷ ("y", y) ∷ [];
  timestamps = ("x", n) ∷ ("y", n) ∷ [];
  filled = [];
}

abbrev second : Event P
second = record (event_of "e2" 2 30 40) { «data» = ("y", 40) ∷ ("x", 30) ∷ [] }

abbrev third : Event P
third = event_of "e3" 3 50 60

has_two :
    (j k l : String) (a b c d : ℕ) → has j ((k, a) ∷ (l, b) ∷ []) ≡ has j ((l, c) ∷ (k, d) ∷ [])
unfolding lookup
has_two j k l a b c d = elim (Bool-cases (str_eq k j)) [
  | inl e ↦ elim (Bool-cases (str_eq l j)) [
    | inl f ↦ ground (arith, e, f)
    | inr f ↦ ground (arith, e, f)
  ]
  | inr e ↦ elim (Bool-cases (str_eq l j)) [
    | inl f ↦ ground (arith, e, f)
    | inr f ↦ ground (arith, e, f)
  ]
]

-- The entries of two rows with the keys x and y.
has_xy :
    (j : String) (a b c d : ℕ) → has j (("x", a) ∷ ("y", b) ∷ []) ≡ has j (("x", c) ∷ ("y", d) ∷ [])
has_xy j a b c d = has_two j "x" "y" a b d c ∙ sym (has_two j "x" "y" c d d c)

-- The second event has its entries in another order.
pack_event_page-unpack_example :
    (page : EventPage P) × (out : List (Event P)) × (pack_event_page
        (event_of "e1" 1 10 20 ∷ second ∷ third ∷ [])
      ≡ some page)
    × (unpack_event_page page ≡ some out)
    × Pairwise AlikeEvents (event_of "e1" 1 10 20 ∷ second ∷ third ∷ []) out
unfolding lookup
pack_event_page-unpack_example =
    pack_event_page-unpack (event_of "e1" 1 10 20) (second ∷ third ∷ [])
      (
        ((refl, (refl, tt)), (refl, (refl, tt)), tt),
        (
          ((refl, (refl, tt)), (refl, (refl, tt)), tt),
          (((refl, (refl, tt)), (refl, (refl, tt)), tt), tt),
        ),
      )
      (
        (refl, (λ j. has_two j "y" "x" 40 30 10 20), (λ j. has_xy j 2 2 1 1), (λ j. refl)),
        ((refl, (λ j. has_xy j 50 60 10 20), (λ j. has_xy j 3 3 1 1), (λ j. refl)), tt),
      )

abbrev page_of : List String → List ℕ → List ℕ → EventPage P
page_of uids ns xs = record {
  uid = uids;
  descriptor = "d1";
  time = ns;
  seq_num = ns;
  «data» = ("x", xs) ∷ [];
  timestamps = ("x", ns) ∷ [];
  filled = [];
}

abbrev two_pages : List (EventPage P)
two_pages =
    page_of ("a" ∷ "b" ∷ "c" ∷ []) (1 ∷ 2 ∷ 3 ∷ []) (10 ∷ 20 ∷ 30 ∷ [])
    ∷ page_of ("d" ∷ "e" ∷ []) (4 ∷ 5 ∷ []) (40 ∷ 50 ∷ [])
    ∷ []
