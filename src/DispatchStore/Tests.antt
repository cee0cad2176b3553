-- ===== src/DispatchStore/Tests.antt =====
-- The in-process store on the bundle of a plan of two segments.
use clx_preprocessing.Dispatch.Next.{next_under_lock as py_next_under_lock}
use clx_preprocessing.Dispatch.Record.{record_under_lock as py_record_under_lock}
use clx_preprocessing.DispatchStore.Record.{
  record_under_lock as core_record_under_lock, report as report,
}
use clx_preprocessing.Dispatch.Persist.{persist_under_lock as py_persist_under_lock}
use clx_preprocessing.Prelude.{
  List, Option, String, [], false, none, pos, refl, some, true, ℤ, ◌∷◌, ◌≡◌,
}
use clx_preprocessing.Json.{Fields, get?, obj}
use clx_preprocessing.Types.{QueueSegment, hermes, normal}
use clx_preprocessing.Result.{ok, ◌>>=◌}
use clx_preprocessing.Owner.{Owner}
use clx_preprocessing.DispatchStore.Next.{next_dispatch_step, next_under_lock}
use clx_preprocessing.DispatchStore.{is_hashable}
use clx_preprocessing.DispatchStore.Hashable.{AllHashable}
use clx_preprocessing.DispatchStore.Persist.{decision_of, persist_owned, persist_owned_twin}
use clx_preprocessing.DispatchStore.Plan.{
  Paths, Plan, bundle_with_owner, is_some, owner_from_item, persist_dispatch_bundle, project_owner,
  step_from_segment,
}
use clx_preprocessing.DispatchStore.Planned.{handed, persist_then_next, steps_of-bundle}
use clx_preprocessing.DispatchStore.Twin.{
  next_under_lock_twin, record_under_lock_twin, reply_as_texts,
}
use clx_preprocessing.Ledger.Event.{meta}
use clx_preprocessing.Dispatch.{
  Leaf, Python, Store, absent, document, is_safe, read_bundle, validated_work_id,
}

abbrev py : Python
py = record { is_alnum = λ _. true; render = λ _. "" }

abbrev no_numbers : String → Option ℤ
no_numbers _ = none

abbrev segment : String → String → QueueSegment
segment id content = record {
  segment_id = id;
  char_start = 0;
  char_end = 9;
  token_estimate = 3;
  checksum = "00ff";
  preview = content;
  content = content;
}

abbrev plan : Plan
plan = record {
  item = record {
    work_id = "w";
    prompt = "a long prompt";
    surface = hermes;
    priority = normal;
    model_route = "auto";
    expected_ram_mb = pos 0;
    context_tokens = pos 0;
    metadata = [];
  };
  normalized_prompt = "a long prompt";
  answer_policy = record {
    response_contract = "synthesize_from_segment_evidence";
    verification_required = true;
    citation_required = false;
    uncertainty_level = "high";
    required_checks = "preserve_segment_checksums_in_synthesis" ∷ [];
    rules = [];
  };
  segments = segment "seg_000" "a long" ∷ segment "seg_001" "prompt" ∷ [];
  queue_required = true;
}

abbrev paths : Paths
paths = record { cwd = "/work"; resolve = λ t. t; holds_nul = λ _. false }

abbrev owner : Owner
owner = record { cwd = "/work"; session_id = ""; scope = "project:/work" }

abbrev steps : List Fields
steps =
    step_from_segment 5 (segment "seg_000" "a long")
    ∷ step_from_segment 5 (segment "seg_001" "prompt")
    ∷ []

abbrev bundle : Fields
bundle = bundle_with_owner 5 plan owner

abbrev leaf : Leaf
leaf = document (obj bundle)

steps-hashable : AllHashable steps
unfolding is_hashable step_from_segment get?
steps-hashable = (refl, (refl, tt))

readable : read_bundle leaf ≡ ok bundle
unfolding read_bundle
readable = refl

next_under_lock_twin_example : next_under_lock py no_numbers 7 8 leaf ≡ (
  ((py_next_under_lock 7 8 leaf).0 >>= reply_as_texts py no_numbers),
  (py_next_under_lock 7 8 leaf).1,
)
next_under_lock_twin_example =
    next_under_lock_twin py leaf bundle steps readable (steps_of-bundle 5 plan owner) steps-hashable
      no_numbers 7 8

record_under_lock_twin_example :
    core_record_under_lock py 8 (report "exec_seg_000" "done" "" true false) leaf
    ≡ py_record_under_lock py 8 (report "exec_seg_000" "done" "" true false) leaf
record_under_lock_twin_example =
    record_under_lock_twin py leaf bundle steps readable (steps_of-bundle 5 plan owner)
      steps-hashable 8 (report "exec_seg_000" "done" "" true false)

persist_owned_twin_example : persist_owned py (some owner) bundle leaf ≡ (
  ((py_persist_under_lock py (some owner) bundle leaf).0 >>= decision_of),
  (py_persist_under_lock py (some owner) bundle leaf).1,
)
persist_owned_twin_example = persist_owned_twin py (some owner) bundle leaf

abbrev nothing : Store
nothing _ = absent

accepted : validated_work_id py plan.item.work_id ≡ ok "w"
unfolding validated_work_id is_safe
accepted = refl

owned : owner_from_item paths plan.item.metadata ≡ ok owner
unfolding owner_from_item meta is_some project_owner
owned = refl

persist_then_next_example :
    ((persist_dispatch_bundle py paths 5 plan nothing).0 ≡ ok true)
    × ((next_dispatch_step py no_numbers "w" 7 8
          (persist_dispatch_bundle py paths 5 plan nothing).1).0
        ≡ ok (record {
          step = some (handed (segment "seg_000" "a long"));
          remaining = 2;
          synthesis_ready = false;
        }))
persist_then_next_example =
    persist_then_next py no_numbers paths 5 7 8 plan owner (segment "seg_000" "a long")
      (segment "seg_001" "prompt" ∷ []) "w" nothing refl accepted owned refl refl refl refl
