-- ===== src/Qs/Items/Adding.antt =====
-- The responses of `queue_item_add` (crates/bsrs/src/qs/dispatch.rs).
use bsrs.Prelude.{◌≡◌, refl, ap, ◌⊎◌, inl, inr, Bool, String, arith, length, Option-cases}
use bsrs.Qs.Json.{Json, str_param}
use bsrs.Qs.Queue
use bsrs.Qs.Queue.{PlanQueue}
use bsrs.Qs.Items.{
  Item, ItemError, missing_item, name_required, Placed, placed, refused, Reply, ok, err, Added,
  insert_positioned, place_item, build_item, queue_item_add, ambiguous, with_user, or_default,
}
use bsrs.Qs.Items.Placing.{Inserted, Placing, insert_positioned-Placing}

Reply-cases : {A : Type 0} (r : Reply A) → ((e : ItemError) × (r ≡ err e)) ⊎ ((a : A) × (r ≡ ok a))
Reply-cases (err e) = inl (e, refl)
Reply-cases (ok a) = inr (a, refl)

module _ (J : Json) (uid fresh : String) (q : PlanQueue J.Value) where
  -- An error with the queue as it was, or the reported item inserted once.
  abbrev pub AddOutcome : PlanQueue J.Value × Reply (Added J) → Type 0
  AddOutcome (q', err e) = q' ≡ q
  AddOutcome (q', ok a) =
      Inserted fresh q a.item q'
      × (a.item.item_uid ≡ uid)
      × (a.qsize ≡ length q'.items)
      × (a.plan_queue_uid ≡ fresh)

  outcome_of_eq :
      {r : PlanQueue J.Value × Reply (Added J)} (r' : PlanQueue J.Value × Reply (Added J))
      → r ≡ r'
      → AddOutcome r'
      → AddOutcome r
  outcome_of_eq r' e h = rw e h

  build_item-uid :
      (known : String → Bool) (t n : String) (item : J.Value) {it : Item J}
      → build_item J known uid t n item ≡ ok it
      → it.item_uid ≡ uid
  unfolding build_item
  build_item-uid known t n item h = ground arith

  outcome_placed :
      (it : Item J) (r : PlanQueue J.Value × Placed)
      → it.item_uid ≡ uid
      → Placing J fresh q it r
      → AddOutcome (elim (r.1) [
        | refused e ↦ (r.0, err e)
        | placed ↦
            (r.0, ok (record { qsize = Queue.len r.0; item = it; plan_queue_uid = r.0.queue_uid }))
      ])
  unfolding Queue.len
  outcome_placed it (q', refused e) u h = h
  outcome_placed it (q', placed) u h = (h, u, refl, ap (λ t. t.queue_uid) h.now)

  place_item-outcome :
      (it : Item J) (params : J.Value)
      → it.item_uid ≡ uid
      → AddOutcome (place_item J fresh q it params)
  unfolding place_item
  place_item-outcome it params u =
      outcome_placed it
        (insert_positioned J fresh q it (J.get params "pos") (str_param J params "before_uid")
          (str_param J params "after_uid"))
        u
        (insert_positioned-Placing J fresh q it (J.get params "pos")
          (str_param J params "before_uid") (str_param J params "after_uid"))

  -- `queue_item_add`: an error response leaves the queue exactly as it was; a success inserts the
  -- item that it reports once, with the uid that was drawn, and reports the new size and queue uid.
  pub queue_item_add-outcome :
      (known : String → Bool) (params : J.Value)
      → AddOutcome (queue_item_add J known uid fresh q params)
  unfolding queue_item_add
  queue_item_add-outcome known params = elim (Option-cases (J.get params "item")) [
    | inl e ↦ outcome_of_eq (q, err missing_item) (ground (arith, e)) refl
    | inr x ↦
        let (item, e) = x in
        elim (Option-cases (str_param J item "name")) [
          | inl n ↦ outcome_of_eq (q, err name_required) (ground (arith, e, n)) refl
          | inr y ↦
              let (name, f) = y in
              elim (Option-cases (
                ambiguous J (J.get params "pos") (str_param J params "before_uid")
                  (str_param J params "after_uid"))) [
                    | inr z ↦
                        let (b, g) = z in outcome_of_eq (q, err b) (ground (arith, e, f, g)) refl
                    | inl g ↦
                        let t = or_default "plan" (str_param J item "item_type") in
                        elim (Reply-cases (build_item J known uid t name item)) [
                          | inl k ↦
                              let (b, h) = k in
                              outcome_of_eq (q, err b) (ground (arith, e, f, g, h)) refl
                          | inr k ↦
                              let (it, h) = k in
                              outcome_of_eq (place_item J fresh q (with_user J params it) params)
                                (ground (arith, e, f, g, h))
                                (place_item-outcome (with_user J params it) params
                                  (build_item-uid known t name item h))
                        ]
                  ]
        ]
  ]
