-- ===== src/Runs/Compose/Sequences.antt =====
-- The sequence numbers that a run's composer (crates/bsrs/src/event_model/compose.rs) gives out.
use bsrs.Prelude.{
  ℕ, zero, suc, ◌+◌, ◌<◌, ◌≡◌, refl, sym, ap, ◌∙◌, inl, inr, true, ◌&&◌, String, Option, none, some,
  List, [], ◌∷◌, ◌++◌, arith, if◌then◌else◌, str_eq, str_eq_iff, length, length-append,
  Option-cases, Bool-cases,
}
use bsrs.Prelude.Maps.{lookup, over, lookup-insert, lookup-modify, lookup-map}
use bsrs.Runs.Documents.{
  Payload, Fields, DataKey, Configuration, PerObjectHint, EventDescriptor, Event, EventPage,
  from_str,
}
use bsrs.Runs.Compose.{
  RunBundle, StreamState, u64_modulus, wrapping_add, seq_run, or_zero, open_run, descriptor,
  install_descriptor, bump_seq, event, event_page, advance_seq, snapshot_seq_nums, stop,
}

-- The n numbers after c.
abbrev pub count_up : ℕ → ℕ → List ℕ
count_up c zero = []
count_up c (suc n) = suc c ∷ count_up (suc c) n

wrapping_add-small : (a b : ℕ) → a + b < u64_modulus → wrapping_add a b ≡ a + b
wrapping_add-small a b h = omega arith

seq_run-count_up : (c n : ℕ) → c + n < u64_modulus → seq_run c n ≡ count_up c n
unfolding seq_run
seq_run-count_up c zero h = refl
seq_run-count_up c (suc n) h =
    cons_at (wrapping_add c 1) (suc c) n (wrapping_add-small c 1 (omega arith) ∙ omega arith)
      (seq_run-count_up (suc c) n (omega arith))
  where
    cons_at : (x y k : ℕ) → x ≡ y → seq_run y k ≡ count_up y k → x ∷ seq_run x k ≡ y ∷ count_up y k
    cons_at x y k e h = rw e (ap (λ l. y ∷ l) h)

length-count_up : (c n : ℕ) → length (count_up c n) ≡ n
length-count_up c zero = refl
length-count_up c (suc n) = ap suc (length-count_up (suc c) n)

count_up-append : (c m n : ℕ) → count_up c m ++ count_up (c + m) n ≡ count_up c (m + n)
count_up-append c zero n = ground arith
count_up-append c (suc m) n =
    let (x, y) : ((c + suc m ≡ suc c + m) × (suc (m + n) ≡ suc m + n)) =
      (omega arith, omega arith) in
    ap (λ k. suc c ∷ (count_up (suc c) m ++ count_up k n)) x
    ∙ (ap (λ l. suc c ∷ l) (count_up-append (suc c) m n) ∙ ap (count_up c) y)

length-seq_run : (c n : ℕ) → length (seq_run c n) ≡ n
unfolding seq_run
length-seq_run c zero = refl
length-seq_run c (suc n) = ap suc (length-seq_run (wrapping_add c 1) n)

-- What is done to a run's composer between its start and its stop, by the engine and by the pumps,
-- other than the rewind of `restore_seq_nums`, after which numbers are taken again.
pub data Step (P : Payload) : Type 0 where
  describe :
      String
      → P.Float
      → String
      → Fields (DataKey P)
      → Fields (Configuration P)
      → Option (Fields PerObjectHint)
      → Fields (List String)
      → Step P
  reconfigure : String → EventDescriptor P → Step P
  emit : String → P.Float → String → Fields P.Value → Fields P.Float → Step P
  emit_page :
      (ℕ → String) → P.Float → String → Fields (List P.Value) → Fields (List P.Float) → ℕ → Step P
  advance : String → ℕ → Step P

module _ {P : Payload} where
  unfoldable pub step : RunBundle P → Step P → RunBundle P
  step b (describe uid time name ks cs hs os) = (descriptor uid time b name ks cs hs os).0
  step b (reconfigure name d) = install_descriptor b name d
  step b (emit uid time name vs ts) = (event uid time b name vs ts).0
  step b (emit_page uids time name vs ts n) = (event_page uids time b name vs ts n).0
  step b (advance name n) = (advance_seq b name n).0

  unfoldable pub run : RunBundle P → List (Step P) → RunBundle P
  run b [] = b
  run b (s ∷ steps) = run (step b s) steps

  -- The counter of a stream, 0 before the stream is declared.
  abbrev pub counter : String → RunBundle P → ℕ
  counter s b = or_zero (over (λ st. st.seq_num) (lookup s b.streams))

  -- The numbers that a step takes on a stream: those of its documents, or those it skips.
  abbrev event_seqs : Option (Event P) → List ℕ
  event_seqs none = []
  event_seqs (some e) = e.seq_num ∷ []

  abbrev page_seqs : Option (EventPage P) → List ℕ
  page_seqs none = []
  page_seqs (some p) = p.seq_num

  unfoldable pub taken : String → RunBundle P → Step P → List ℕ
  taken s b (describe uid time name ks cs hs os) = []
  taken s b (reconfigure name d) = []
  taken s b (emit uid time name vs ts) =
      if str_eq name s then event_seqs (event uid time b name vs ts).1 else []
  taken s b (emit_page uids time name vs ts n) =
      if str_eq name s then page_seqs (event_page uids time b name vs ts n).1 else []
  taken s b (advance name n) =
      if str_eq name s && (advance_seq b name n).1 then seq_run (counter s b) n else []

  unfoldable pub all_taken : String → RunBundle P → List (Step P) → List ℕ
  all_taken s b [] = []
  all_taken s b (t ∷ steps) = taken s b t ++ all_taken s (step b t) steps

  -- A step takes the next k numbers, and moves the counter by k.
  abbrev TakesNext : String → RunBundle P → Step P → Type 0
  TakesNext s b t =
      (taken s b t ≡ count_up (counter s b) (length (taken s b t)))
      × (counter s (step b t) ≡ counter s b + length (taken s b t))

  takes :
      (s : String) (b : RunBundle P) (t : Step P) (k : ℕ)
      → taken s b t ≡ count_up (counter s b) k
      → counter s (step b t) ≡ counter s b + k
      → TakesNext s b t
  takes s b t k e f =
      let n = ap length e ∙ length-count_up (counter s b) k in
      (e ∙ ap (count_up (counter s b)) (sym n), f ∙ ap (λ m. counter s b + m) (sym n))

  -- A step on a stream adds k to its counter, and to that of no other.
  counter-bump_seq :
      (s name : String) (b : RunBundle P) (k : ℕ) (st : StreamState P)
      → lookup name b.streams ≡ some st
      → counter s (bump_seq b name k)
        ≡ (if str_eq name s then wrapping_add (counter s b) k else counter s b)
  unfolding bump_seq
  counter-bump_seq s name b k st e = ground (
    arith,
    str_eq_iff name s,
    lookup-modify name s (λ st. record st { seq_num = wrapping_add st.seq_num k }) b.streams,
    Option-cases (lookup s b.streams),
    e,
  )

  step-describe :
      (s uid : String) (time : P.Float) (b : RunBundle P) (name : String) (ks : Fields (DataKey P))
      (cs : Fields (Configuration P)) (hs : Option (Fields PerObjectHint))
      (os : Fields (List String))
      → counter s (descriptor uid time b name ks cs hs os).0 ≡ counter s b
  unfolding descriptor
  step-describe s uid time b name ks cs hs os = elim (Option-cases (lookup name b.streams)) [
    | inr (st, e) ↦ ground (arith, e)
    | inl e ↦
        let d : EventDescriptor P = record {
          uid = uid;
          run_start = b.start_uid;
          time = time;
          data_keys = ks;
          configuration = cs;
          name = some name;
          hints = hs;
          object_keys = os;
        } in
        ground (
          arith,
          e,
          str_eq_iff name s,
          lookup-insert name s (record { descriptor = d; seq_num = 0 }) b.streams,
        )
  ]

  step-install :
      (s : String) (b : RunBundle P) (name : String) (d : EventDescriptor P)
      → counter s (install_descriptor b name d) ≡ counter s b
  unfolding install_descriptor
  step-install s b name d = ground (
    arith,
    lookup-modify name s (λ st. record st { descriptor = d }) b.streams,
    Option-cases (lookup s b.streams),
  )

  counter_of :
      (s name : String) (b : RunBundle P) (st : StreamState P)
      → lookup name b.streams ≡ some st
      → str_eq name s ≡ true
      → counter s b ≡ st.seq_num
  counter_of s name b st e eq = ground (arith, e, eq, str_eq_iff name s)

  -- A step that takes k numbers on `name`, where it is declared.
  takes_on :
      (s name : String) (b : RunBundle P) (t : Step P) (k : ℕ) (st : StreamState P)
      → lookup name b.streams ≡ some st
      → step b t ≡ bump_seq b name k
      → taken s b t ≡ (if str_eq name s then seq_run st.seq_num k else [])
      → length (seq_run st.seq_num k) ≡ k
      → counter s b + length (taken s b t) < u64_modulus
      → TakesNext s b t
  takes_on s name b t k st e f g n h = elim (Bool-cases (str_eq name s)) [
    | inr ne ↦
        takes s b t 0 (ground (arith, g, ne))
          (ground (arith, f, ne, counter-bump_seq s name b k st e))
    | inl eq ↦
        let c = counter_of s name b st e eq in
        let l : (length (taken s b t) ≡ k) = ground (arith, g, eq, n) in
        let w : (st.seq_num + k < u64_modulus) = ground (arith, c, l, h) in
        takes s b t k (ground (arith, g, eq, seq_run-count_up st.seq_num k w, c)) (
          ground
            (arith, f, eq, counter-bump_seq s name b k st e, c, wrapping_add-small st.seq_num k w))
  ]

  step-TakesNext :
      (s : String) (b : RunBundle P) (t : Step P)
      → counter s b + length (taken s b t) < u64_modulus
      → TakesNext s b t
  unfolding taken step event event_page advance_seq
  step-TakesNext s b (describe uid time name ks cs hs os) h =
      takes s b (describe uid time name ks cs hs os) 0 refl
        (step-describe s uid time b name ks cs hs os ∙ omega arith)
  step-TakesNext s b (reconfigure name d) h =
      takes s b (reconfigure name d) 0 refl (step-install s b name d ∙ omega arith)
  step-TakesNext s b (emit uid time name vs ts) h = elim (Option-cases (lookup name b.streams)) [
    | inl e ↦ takes s b (emit uid time name vs ts) 0 (ground (arith, e)) (ground (arith, e))
    | inr (st, e) ↦
        takes_on s name b (emit uid time name vs ts) 1 st e (ground (arith, e)) (ground (arith, e))
          (length-seq_run st.seq_num 1) h
  ]
  step-TakesNext s b (emit_page uids time name vs ts n) h =
      elim (Option-cases (lookup name b.streams)) [
        | inl e ↦
            takes s b (emit_page uids time name vs ts n) 0 (ground (arith, e)) (ground (arith, e))
        | inr (st, e) ↦
            takes_on s name b (emit_page uids time name vs ts n) n st e (ground (arith, e))
              (ground (arith, e)) (length-seq_run st.seq_num n) h
      ]
  step-TakesNext s b (advance name n) h = elim (Option-cases (lookup name b.streams)) [
    | inl e ↦ takes s b (advance name n) 0 (ground (arith, e)) (ground (arith, e))
    | inr (st, e) ↦
        takes_on s name b (advance name n) n st e (ground (arith, e))
          (ground (arith, e, str_eq_iff name s)) (length-seq_run st.seq_num n) h
  ]

  -- The snapshot's entry for a stream, which is also that of `num_events`.
  pub lookup-snapshot :
      (s : String) (b : RunBundle P) → or_zero (lookup s (snapshot_seq_nums b)) ≡ counter s b
  unfolding snapshot_seq_nums
  lookup-snapshot s b = ap or_zero (lookup-map s (λ st. st.seq_num) b.streams)

  all_taken-count_up :
      (s : String) (b : RunBundle P) (steps : List (Step P))
      → counter s b + length (all_taken s b steps) < u64_modulus
      → (all_taken s b steps ≡ count_up (counter s b) (length (all_taken s b steps)))
        × (counter s (run b steps) ≡ counter s b + length (all_taken s b steps))
  unfolding all_taken run
  all_taken-count_up s b [] h = (refl, omega arith)
  all_taken-count_up s b (t ∷ steps) h =
      let xs = taken s b t in
      let ys = all_taken s (step b t) steps in
      let l = length-append xs ys in
      let (now, moved) = step-TakesNext s b t (omega (arith, l, h)) in
      let (rest, end) = all_taken-count_up s (step b t) steps (omega (arith, l, h, moved)) in
      let g = ap (λ c. count_up c (length ys)) moved in
      (
        ground (arith, now, rest, g, l, count_up-append (counter s b) (length xs) (length ys)),
        omega (arith, end, moved, l),
      )

  -- In a run without a rewind, a stream's events, event pages and advances take the numbers 1, 2,
  -- 3, ... in order, whatever is done to its descriptor and to other streams between, and
  -- `num_events` of the stop document that is then composed has how many were taken, where a
  -- stream that is not there counts 0; below 2 ^ 64 of them. An exit status outside the schema has
  -- no stop document.
  pub run-seq_nums :
      (s start_uid stop_uid exit_status : String) (time : P.Float) (reason : Option String)
      (steps : List (Step P))
      → let b : RunBundle P = open_run start_uid in
        length (all_taken s b steps) < u64_modulus
        → (all_taken s b steps ≡ count_up 0 (length (all_taken s b steps)))
          × (over
                (λ d. or_zero (lookup s d.num_events))
                (stop stop_uid time (run b steps) exit_status reason)
              ≡ over (λ x. length (all_taken s b steps)) (from_str exit_status))
  unfolding open_run lookup stop
  run-seq_nums s start_uid stop_uid exit_status time reason steps h =
      let (e, n) = all_taken-count_up s (open_run start_uid) steps (omega (arith, h)) in
      let c : (or_zero (lookup s (snapshot_seq_nums (run (open_run start_uid) steps)))
          ≡ length (all_taken s (open_run start_uid) steps)) =
        omega (arith, lookup-snapshot s (run (open_run start_uid) steps), n) in
      (
        e,
        elim (Option-cases (from_str exit_status)) [
          | inl f ↦ rw f refl
          | inr (x, f) ↦ rw f (ap some c)
        ],
      )
