-- ===== src/Ledger/Codec.antt =====
-- src/cluxion_runtime/core/ledger_codec.py: work items as JSON objects.
use clx_preprocessing.Prelude.{
  List, String, [], ap, if◌then◌else◌, negsuc, pos, refl, ℤ, ◌==◌, ◌∷◌, ◌≡◌, comparable_texts,
  comparable_numbers,
}
use clx_preprocessing.Json.{Fields, Json, end, field, get?, int, obj, str, str_of}
use clx_preprocessing.Result.{Result, err, ok, type_error, value_error, ◌>>=◌}
use clx_preprocessing.Types.{
  AgentSurface, WorkItem, WorkPriority, api, claude, codex, critical, grok_build, hermes, high,
  local, low, normal, priority_int,
}
use clx_preprocessing.Ledger.{Python, dict_of, int_at, item_at, text_at}

-- `surface.value`
unfoldable pub surface_value : AgentSurface → String
surface_value hermes = "hermes"
surface_value codex = "codex"
surface_value claude = "claude"
surface_value grok_build = "grok_build"
surface_value local = "local"
surface_value api = "api"

-- `AgentSurface(text)`
unfoldable pub surface_of : String → Result AgentSurface
surface_of s =
    if s == "hermes"
    then ok hermes
    else if s == "codex"
    then ok codex
    else if s == "claude"
    then ok claude
    else if s == "grok_build"
    then ok grok_build
    else if s == "local"
    then ok local
    else if s == "api"
    then ok api
    else err value_error

-- `WorkPriority(number)`
unfoldable pub priority_of : ℤ → Result WorkPriority
priority_of (negsuc _) = err value_error
priority_of (pos n) =
    if n == 0
    then ok critical
    else if n == 1
    then ok high
    else if n == 2
    then ok normal
    else if n == 3
    then ok low
    else err value_error

metadata_fields : List (String × String) → Fields
metadata_fields [] = end
metadata_fields ((k, v) ∷ l) = field k (str v) (metadata_fields l)

unfoldable pub item_to_dict : WorkItem → Fields
unfolding metadata_fields
item_to_dict item = field "work_id" (str item.work_id) (
    field "prompt" (str item.prompt) (
      field "surface" (str (surface_value item.surface)) (
        field "priority" (int (pos (priority_int item.priority))) (
          field "model_route" (str item.model_route) (
            field "expected_ram_mb" (int item.expected_ram_mb) (
              field "context_tokens" (int item.context_tokens)
                (field "metadata" (obj (metadata_fields item.metadata)) end)))))))

module _ (py : Python) where
  -- `{str(key): str(value) for …}`
  metadata_of : Fields → List (String × String)
  metadata_of end = []
  metadata_of (field k v m) = (k, str_of py.render v) ∷ metadata_of m

  item_of_fields : Fields → Result WorkItem
  unfolding metadata_of
  item_of_fields m = do
    work_id ← text_at py "work_id" m
    prompt ← text_at py "prompt" m
    surface_text ← text_at py "surface" m
    surface ← surface_of surface_text
    priority_number ← int_at py "priority" m
    priority ← priority_of priority_number
    model_route ← text_at py "model_route" m
    expected_ram_mb ← int_at py "expected_ram_mb" m
    context_tokens ← int_at py "context_tokens" m
    metadata_value ← item_at "metadata" m
    metadata ← dict_of py metadata_value
    ok (record {
      work_id = work_id;
      prompt = prompt;
      surface = surface;
      priority = priority;
      model_route = model_route;
      expected_ram_mb = expected_ram_mb;
      context_tokens = context_tokens;
      metadata = metadata_of metadata;
    })

  unfoldable pub item_from_dict : Json → Result WorkItem
  unfolding item_of_fields
  item_from_dict (obj m) = item_of_fields m
  item_from_dict _ = err type_error

surface_of-surface_value : (s : AgentSurface) → surface_of (surface_value s) ≡ ok s
unfolding surface_of surface_value
surface_of-surface_value hermes = refl
surface_of-surface_value codex = refl
surface_of-surface_value claude = refl
surface_of-surface_value grok_build = refl
surface_of-surface_value local = refl
surface_of-surface_value api = refl

priority_of-priority_int : (p : WorkPriority) → priority_of (pos (priority_int p)) ≡ ok p
unfolding priority_of priority_int
priority_of-priority_int critical = refl
priority_of-priority_int high = refl
priority_of-priority_int normal = refl
priority_of-priority_int low = refl

metadata_of-metadata_fields :
    (py : Python) (l : List (String × String)) → metadata_of py (metadata_fields l) ≡ l
unfolding metadata_of metadata_fields str_of
metadata_of-metadata_fields py [] = refl
metadata_of-metadata_fields py ((k, v) ∷ l) = ap (◌∷◌ (k, v)) (metadata_of-metadata_fields py l)

-- Every work item is restored as it was from the object that the codec makes of it.
pub item_from_dict-item_to_dict :
    (py : Python) (item : WorkItem) → item_from_dict py (obj (item_to_dict item)) ≡ ok item
unfolding item_from_dict item_to_dict text_at int_at dict_of item_at get? surface_of str_of
item_from_dict-item_to_dict py item =
    rw
      (
        surface_of-surface_value item.surface,
        priority_of-priority_int item.priority,
        metadata_of-metadata_fields py item.metadata,
      )
      refl
