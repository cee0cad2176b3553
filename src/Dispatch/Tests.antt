-- ===== src/Dispatch/Tests.antt =====
-- A bundle of two steps, and the theorems at it.
use Prim.Native.Char.{code}
use clx_preprocessing.Owner.{Owner}
use clx_preprocessing.Dispatch.Lasting.{KeptAll}
use clx_preprocessing.Dispatch.Next.{next_step}
use clx_preprocessing.Dispatch.Record.{
  Report, find_step, idempotent, mark_recorded, mark_step, record_under_lock, recorded, status_of,
  terminal_status,
}
use clx_preprocessing.Dispatch.Brief.{brief_leaf, briefing_prompt, not_ready, ready}
use clx_preprocessing.Dispatch.History.{here, next, nexts, steps_last}
use clx_preprocessing.Dispatch.Settled.{record_again}
use clx_preprocessing.Dispatch.Ready.{brief_lem}
use clx_preprocessing.Dispatch.Paths.{AllSafe, validated_work_id_iff}
use clx_preprocessing.Prelude.{
  List, String, [], arith, count, false, if◌then◌else◌, keep, leb, length, ltb, map, not, pos, refl,
  some, true, ℕ, ◌&&◌, ◌++◌, ◌+◌, ◌||◌, ◌↔◌, ◌∷◌, ◌≡◌, ◌≢◌,
}
use clx_preprocessing.Json.{
  Fields, Json, arr, cons, end, field, field_is, float, get?, get_or, int, is_str, nil,
  number_or_zero, obj, put, str,
}
use clx_preprocessing.Result.{err, ok, work_id_invalid}
use clx_preprocessing.Dispatch.{
  Leaf, Python, Store, claim, claimable, document, is_safe, mark_claimed, read_bundle, remaining,
  running_lease, stale_running, step_objects, steps_of, synthesis_ready, validated_work_id,
  with_steps,
}
use clx_preprocessing.Dispatch.Persist.{idempotent as same_again}
use clx_preprocessing.Dispatch.Steps.{claimable-mark_claimed}
use clx_preprocessing.Dispatch.Claim.{Claimed, claim_lem, claim_twice}

-- `isalnum` on ASCII, and one text for all that is no text.
abbrev ascii : Python
ascii = record {
  is_alnum = λ c.
      (leb b'0' (code c) && leb (code c) b'9')
      || (leb b'A' (code c) && leb (code c) b'Z')
      || (leb b'a' (code c) && leb (code c) b'z');
  render = λ _. "None";
}

abbrev step : String → String → Fields
step id status =
    field "step_id" (str id) (field "checksum" (str "c0") (field "status" (str status) end))

abbrev owner_json : Json
owner_json =
    obj
      (field "cwd" (str "/w") (field "session_id" (str "") (field "scope" (str "project:/w") end)))

abbrev bundle : Fields
bundle = field "schema_version" (int (pos 2)) (
    field "owner" owner_json (
      field "steps" (arr (cons (obj (step "e0" "succeeded")) (cons (obj (step "e1" "queued")) nil)))
        end))

abbrev leaf : Leaf
leaf = document (obj bundle)

abbrev steps : List Fields
steps = step "e0" "succeeded" ∷ step "e1" "queued" ∷ []

steps_of-bundle : steps_of bundle ≡ ok steps
unfolding steps_of step_objects get?
steps_of-bundle = refl

read_bundle-leaf : read_bundle leaf ≡ ok bundle
unfolding read_bundle
read_bundle-leaf = refl

abbrev claimed_step : Fields
claimed_step = field "step_id" (str "e1") (
    field "checksum" (str "c0")
      (field "status" (str "running") (field "updated_at" (float (pos 10)) end)))

abbrev claimed_steps : List Fields
claimed_steps = step "e0" "succeeded" ∷ claimed_step ∷ []

first_claim : claim 9 10 steps ≡ some (claimed_step, claimed_steps)
unfolding claim claimable stale_running field_is is_str get? mark_claimed put number_or_zero
first_claim = refl

claim_lem_example : Claimed 9 10 steps claimed_step claimed_steps
claim_lem_example = claim_lem 9 10 steps claimed_step claimed_steps first_claim

claimable-mark_claimed_example :
    claimable 20 (mark_claimed 10 (step "e1" "queued")) ≡ ltb (10 + running_lease) 20
claimable-mark_claimed_example = claimable-mark_claimed 20 10 (step "e1" "queued")

abbrev queued_pair : List Fields
queued_pair = step "e1" "queued" ∷ step "e2" "queued" ∷ []

abbrev running_at : String → ℕ → Fields
running_at id t = field "step_id" (str id) (
    field "checksum" (str "c0")
      (field "status" (str "running") (field "updated_at" (float (pos t)) end)))

claim_one :
    claim 9 10 queued_pair ≡ some (running_at "e1" 10, running_at "e1" 10 ∷ step "e2" "queued" ∷ [])
unfolding claim claimable stale_running field_is is_str get? mark_claimed put number_or_zero
claim_one = refl

claim_two :
    claim 11 12 (running_at "e1" 10 ∷ step "e2" "queued" ∷ [])
    ≡ some (running_at "e2" 12, running_at "e1" 10 ∷ running_at "e2" 12 ∷ [])
unfolding claim claimable stale_running field_is is_str get? mark_claimed put number_or_zero
claim_two = refl

claim_twice_example :
    (before rest before' rest' : List Fields) × (old old' : Fields) × (queued_pair
      ≡ before ++ old ∷ rest)
    × (running_at "e1" 10 ∷ step "e2" "queued" ∷ [] ≡ before ++ running_at "e1" 10 ∷ rest)
    × (running_at "e1" 10 ∷ step "e2" "queued" ∷ [] ≡ before' ++ old' ∷ rest')
    × (running_at "e1" 10 ∷ running_at "e2" 12 ∷ [] ≡ before' ++ running_at "e2" 12 ∷ rest')
    × (length before ≢ length before')
claim_twice_example =
    claim_twice 9 10 11 12 queued_pair (running_at "e1" 10 ∷ step "e2" "queued" ∷ [])
      (running_at "e1" 10 ∷ running_at "e2" 12 ∷ []) (running_at "e1" 10) (running_at "e2" 12)
      claim_one claim_two (omega arith)

abbrev done : Report
done = record {
  step_id = "e1";
  failed = false;
  retryable = false;
  result = str "fine";
  error = str "";
}

abbrev recorded_bundle : Fields
recorded_bundle = field "schema_version" (int (pos 2)) (
    field "owner" owner_json (
      field "steps"
        (arr (
          cons (obj (step "e0" "succeeded")) (
            cons
              (obj (
                field "step_id" (str "e1") (
                  field "checksum" (str "c0") (
                    field "status" (str "succeeded") (
                      field "result" (str "fine")
                        (field "error" (str "") (field "updated_at" (float (pos 30)) end)))))))
              nil)))
        end))

first_record :
    record_under_lock ascii 30 done leaf
    ≡ (ok (recorded "succeeded" 0 true), document (obj recorded_bundle))
unfolding record_under_lock read_bundle steps_of step_objects get? find_step mark_step mark_recorded
    status_of field_is is_str put terminal_status remaining synthesis_ready count with_steps
first_record = refl

record_again_example :
    record_under_lock ascii 99 done (document (obj recorded_bundle))
    ≡ (ok (idempotent "succeeded" 0 true), document (obj recorded_bundle))
record_again_example =
    record_again ascii 30 99 done "fine" "" leaf (document (obj recorded_bundle)) "succeeded" 0 true
      refl refl refl first_record

brief_lem_example :
    brief_leaf ascii leaf
    ≡ ok (
        if synthesis_ready steps
        then ready (briefing_prompt ascii bundle steps) 2
        else not_ready (
            map
              (get_or "step_id" (str ""))
              (keep (λ s. not (field_is "status" "succeeded" s)) steps)))
brief_lem_example = brief_lem ascii leaf bundle steps read_bundle-leaf steps_of-bundle

validated_work_id_iff_example :
    (validated_work_id ascii "job-1" ≡ ok "job-1")
    ↔ (◌≡◌ {A = String} "job-1" "job-1" × ◌≢◌ {A = String} "job-1" "" × AllSafe ascii "job-1")
validated_work_id_iff_example = validated_work_id_iff ascii "job-1" "job-1"

validated_work_id_test : validated_work_id ascii "../job" ≡ err work_id_invalid
unfolding validated_work_id is_safe
validated_work_id_test = refl

abbrev project : Owner
project = record { cwd = "/w"; session_id = ""; scope = "project:/w" }

abbrev store : Store
store _ = leaf

steps_last_example :
    (bundle' : Fields) × (steps' : List Fields) × ((next_step ascii
          (some (str "job-1"))
          9
          10
          store).1
        "job-1"
      ≡ document (obj bundle'))
    × (steps_of bundle' ≡ ok steps')
    × KeptAll steps steps'
steps_last_example =
    steps_last ascii (next here (nexts (some (str "job-1")) 9 10)) "job-1" bundle steps refl
      steps_of-bundle
