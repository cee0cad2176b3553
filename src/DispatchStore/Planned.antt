-- ===== src/DispatchStore/Planned.antt =====
-- A plan that has been persisted hands out its segments.
use Prim.Native.String.{◌++◌ as text_append}
use clx_preprocessing.DispatchStore.Persist.{
  owner_or_raise, persist_checked, persist_owned, persist_under_lock, written,
}
use clx_preprocessing.DispatchStore.Next.{
  PublicStep, finish, instruction_text, next_dispatch_step, next_under_lock, public_step, text,
}
use clx_preprocessing.Dispatch.Persist.{
  owner_from_bundle as owner_from_bundle, owner_of_fields as owner_of_fields,
  validated_schema_version as validated_schema_version,
}
use clx_preprocessing.Ledger.{int_of as int_of}
use clx_preprocessing.Prelude.{
  List, Option, String, [], ap, eq_iff, false, length, map, pos, refl, some, suc, true, ℕ, ℤ, ◌==◌,
  ◌∷◌, ◌≡◌, comparable_texts, comparable_numbers,
}
use clx_preprocessing.Json.{field_is, get?, get_or, is_str, obj, put, str_of}
use clx_preprocessing.Types.{QueueSegment}
use clx_preprocessing.Result.{ok}
use clx_preprocessing.Owner.{Owner, owner_of_values, valid}
use clx_preprocessing.Dispatch.Steps.{step_objects-items_of as step_objects-items_of}
use clx_preprocessing.Dispatch.{
  Leaf, Python, Store, absent, document, mark_claimed, steps_of, validated_work_id, write_leaf,
}
use clx_preprocessing.DispatchStore.{
  can_claim, claim_step, is_hashable, is_waiting, load_dispatch_bundle, remaining_count, status_in,
}
use clx_preprocessing.DispatchStore.Plan.{
  Paths, Plan, bundle_from_plan, bundle_with_owner, conclude, owner_fields, owner_from_item,
  persist_dispatch_bundle, step_from_segment,
}

pub steps_of-bundle :
    (now : ℕ) (plan : Plan) (owner : Owner)
    → steps_of (bundle_with_owner now plan owner) ≡ ok (map (step_from_segment now) plan.segments)
unfolding steps_of bundle_with_owner get?
steps_of-bundle now plan owner =
    unfold steps_of in step_objects-items_of (map (step_from_segment now) plan.segments)

pub left-queued :
    (now : ℕ) (segments : List QueueSegment)
    → remaining_count (map (step_from_segment now) segments) ≡ ok (length segments)
unfolding remaining_count status_in is_hashable step_from_segment get? field_is is_str
left-queued now [] = refl
left-queued now (s ∷ segments) = rw (left-queued now segments) refl

-- The owner of a bundle that a plan gives is read back as it was.
owner_from_bundle-bundle :
    (now : ℕ) (plan : Plan) (owner : Owner)
    → (owner.cwd == "") ≡ false
    → (owner.scope == "") ≡ false
    → owner_from_bundle (bundle_with_owner now plan owner) ≡ valid (some owner)
unfolding owner_from_bundle validated_schema_version owner_of_fields bundle_with_owner owner_fields
    get? owner_of_values
owner_from_bundle-bundle now plan owner h k = rw (h, k) refl

-- The step of a segment as it is handed out.
abbrev pub handed : QueueSegment → PublicStep
handed segment = record {
  step_id = text_append "exec_" segment.segment_id;
  segment_id = segment.segment_id;
  checksum = segment.checksum;
  token_estimate = pos segment.token_estimate;
  content = segment.content;
  instruction = instruction_text;
}

module _ (py : Python) (int_of_text : String → Option ℤ) (now later stamp : ℕ) where
  pub claim_step-queued :
      (segment : QueueSegment) (segments : List QueueSegment)
      → claim_step later stamp (map (step_from_segment now) (segment ∷ segments))
        ≡ ok (
            some (
              mark_claimed stamp (step_from_segment now segment),
              mark_claimed stamp (step_from_segment now segment)
                  ∷ map (step_from_segment now) segments,
            ))
  unfolding claim_step can_claim status_in is_hashable is_waiting step_from_segment get? field_is
      is_str
  claim_step-queued segment segments = refl

  pub left-claimed :
      (segment : QueueSegment) (segments : List QueueSegment)
      → remaining_count (
          mark_claimed stamp (step_from_segment now segment) ∷ map (step_from_segment now) segments)
        ≡ ok (suc (length segments))
  unfolding remaining_count status_in is_hashable mark_claimed put step_from_segment get? field_is
      is_str
  left-claimed segment segments = rw (left-queued now segments) refl

  pub handed-claimed :
      (segment : QueueSegment)
      → public_step py int_of_text (mark_claimed stamp (step_from_segment now segment))
        ≡ ok (handed segment)
  unfolding public_step mark_claimed put step_from_segment get? text get_or str_of int_of
  handed-claimed segment = refl

  next-planned :
      (plan : Plan) (owner : Owner) (segment : QueueSegment) (segments : List QueueSegment)
      → plan.segments ≡ segment ∷ segments
      → (next_under_lock py int_of_text later stamp
          (document (obj (bundle_with_owner now plan owner)))).0
        ≡ ok (record {
          step = some (handed segment);
          remaining = suc (length segments);
          synthesis_ready = false;
        })
  unfolding next_under_lock load_dispatch_bundle finish
  next-planned plan owner segment segments e =
      rw
        (
          steps_of-bundle now plan owner,
          e,
          claim_step-queued segment segments,
          handed-claimed segment,
          left-claimed segment segments,
        )
        refl

pub write_leaf_self : (w : String) (leaf : Leaf) (store : Store) → write_leaf w leaf store w ≡ leaf
unfolding write_leaf
write_leaf_self w leaf store = rw ((eq_iff w w).1 refl) refl

module _ (py : Python) (int_of_text : String → Option ℤ) (paths : Paths) where
  persisted :
      (now : ℕ) (plan : Plan) (owner : Owner) (w : String) (store : Store)
      → plan.queue_required ≡ true
      → validated_work_id py plan.item.work_id ≡ ok w
      → owner_from_item paths plan.item.metadata ≡ ok owner
      → (owner.cwd == "") ≡ false
      → (owner.scope == "") ≡ false
      → store w ≡ absent
      → persist_dispatch_bundle py paths now plan store
        ≡ (ok true, write_leaf w (document (obj (bundle_with_owner now plan owner))) store)
  unfolding persist_dispatch_bundle
  persisted now plan owner w store queue id own cwd scope free =
      let b : bundle_from_plan paths now plan ≡ ok (bundle_with_owner now plan owner) =
        (unfold bundle_from_plan in rw (own) refl) in
      let p : persist_under_lock py (bundle_with_owner now plan owner) absent
          ≡ (ok written, document (obj (bundle_with_owner now plan owner))) =
        (unfold persist_under_lock persist_checked persist_owned owner_or_raise in
          rw (owner_from_bundle-bundle now plan owner cwd scope) refl) in
      rw (b, id, free, p, queue) (unfold conclude in refl)

  -- Where nothing stands at the path of a plan that needs the queue, whose work id is accepted and
  -- whose owner is complete, `persist_dispatch_bundle` returns a path, and the next
  -- `next_dispatch_step` hands out the plan's first segment, with all the segments remaining.
  pub persist_then_next :
      (now later stamp : ℕ) (plan : Plan) (owner : Owner) (segment : QueueSegment)
      (segments : List QueueSegment) (w : String) (store : Store)
      → plan.queue_required ≡ true
      → validated_work_id py plan.item.work_id ≡ ok w
      → owner_from_item paths plan.item.metadata ≡ ok owner
      → (owner.cwd == "") ≡ false
      → (owner.scope == "") ≡ false
      → plan.segments ≡ segment ∷ segments
      → store w ≡ absent
      → ((persist_dispatch_bundle py paths now plan store).0 ≡ ok true)
        × ((next_dispatch_step py int_of_text plan.item.work_id later stamp
              (persist_dispatch_bundle py paths now plan store).1).0
            ≡ ok (record {
              step = some (handed segment);
              remaining = suc (length segments);
              synthesis_ready = false;
            }))
  unfolding next_dispatch_step
  persist_then_next now later stamp plan owner segment segments w store queue id own cwd scope e
        free =
      let leaf = document (obj (bundle_with_owner now plan owner)) in
      let p = persisted now plan owner w store queue id own cwd scope free in
      (
        ap (λ r. r.0) p,
        rw (p, id)
            (rw (write_leaf_self w leaf store)
              (next-planned py int_of_text now later stamp plan owner segment segments e)),
      )
