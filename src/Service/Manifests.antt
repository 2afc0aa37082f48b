-- ===== src/Service/Manifests.antt =====
-- internal/task/types.go: an artifact manifest as the event `artifact.manifest_created` carries it.
-- Decoding is encoding/json's into the struct: an absent or null field keeps its zero value, a value
-- of another kind is an error. Keys are matched as they are spelled in the tags. `time_of` is the
-- decoding of a JSON value as a time.
use orbit_control.Prelude.{
  ℕ, String, Bool, true, false, Option, none, some, List, [], ◌∷◌, ◌++◌, if◌then◌else◌,
}
use orbit_control.Prelude.Int.{ℤ, pos, ltb_ℤ}
use orbit_control.Value.{
  Value, null, number, text, list, object, Values, nil, cons, Fields, end, field, get,
}
use orbit_control.Service.{ArtifactManifest, ManifestOmitted}

infixl 5 ◌>>=◌
abbrev pub ◌>>=◌ {ℓ κ} : {A : Type ℓ} {B : Type κ} → Option A → (A → Option B) → Option B
none >>= f = none
some a >>= f = f a

unfoldable pub decode_text : Option Value → Option String
decode_text none = some ""
decode_text (some null) = some ""
decode_text (some (text s)) = some s
decode_text (some _) = none

unfoldable pub decode_int : Option Value → Option ℤ
decode_int none = some (pos 0)
decode_int (some null) = some (pos 0)
decode_int (some (number n)) = some n
decode_int (some _) = none

decode_counts : Fields → Option (List (String × ℤ))
decode_counts end = some []
decode_counts (field key value fs) = do
  n ← decode_int (some value)
  rest ← decode_counts fs
  some ((key, n) ∷ rest)

decode_reasons : Option Value → Option (List (String × ℤ))
decode_reasons none = some []
decode_reasons (some null) = some []
decode_reasons (some (object fs)) = decode_counts fs
decode_reasons (some _) = none

omitted_of : Fields → Option ManifestOmitted
omitted_of fs = do
  count ← decode_int (get "count" fs)
  bytes ← decode_int (get "bytes" fs)
  reasons ← decode_reasons (get "reasons" fs)
  some (record { count = count; bytes = bytes; reasons = reasons })

-- The value as the pointer field `Omitted` holds it.
decode_omitted : Option Value → Option (Option ManifestOmitted)
decode_omitted none = some none
decode_omitted (some null) = some none
decode_omitted (some (object fs)) = do some (some (← omitted_of fs))
decode_omitted (some _) = none

decode_entries : Values → Option (List Fields)
decode_entries nil = some []
decode_entries (cons (object fs) vs) = do some (fs ∷ (← decode_entries vs))
decode_entries (cons null vs) = do some (end ∷ (← decode_entries vs))
decode_entries (cons _ vs) = none

decode_list : Option Value → Option (List Fields)
decode_list none = some []
decode_list (some null) = some []
decode_list (some (list vs)) = decode_entries vs
decode_list (some _) = none

module _ (time_of : Value → Option ℕ) where
  unfoldable pub decode_time : Option Value → Option ℕ
  decode_time none = some 0
  decode_time (some null) = some 0
  decode_time (some value) = time_of value

  unfoldable pub decode_manifest : Fields → Option ArtifactManifest
  unfolding decode_text decode_int decode_counts decode_reasons omitted_of decode_omitted
      decode_entries decode_list decode_time
  decode_manifest payload = do
    manifest_id ← decode_text (get "manifest_id" payload)
    task_id ← decode_text (get "task_id" payload)
    attempt_id ← decode_text (get "attempt_id" payload)
    entries ← decode_list (get "entries" payload)
    omitted ← decode_omitted (get "omitted" payload)
    hash ← decode_text (get "manifest_hash" payload)
    created_at ← decode_time (get "created_at" payload)
    some (record {
      manifest_id = manifest_id;
      task_id = task_id;
      attempt_id = attempt_id;
      entries = entries;
      omitted = omitted;
      hash = hash;
      created_at = created_at;
    })

-- The omission record in an entry that is marked and has no name, if it decodes with a count above 0.
abbrev pub is_mark : Fields → Bool
is_mark entry = elim (get "name" entry) [
  | some _ ↦ false
  | none ↦ elim (get "omitted" entry) [ some _ ↦ true | none ↦ false ]
]

-- `json.Unmarshal` into a struct: null leaves it zero, whose count is no more than 0.
omission : Option Value → Option ManifestOmitted
unfolding omitted_of decode_int decode_reasons decode_counts
omission (some (object fs)) = omitted_of fs
omission _ = none

counted : Option ManifestOmitted → Option ManifestOmitted → Option ManifestOmitted
counted none before = before
counted (some o) before = if ltb_ℤ (pos 0) o.count then some o else before

-- The loop of `LiftOmitted`: the entries that are kept, and the last omission record.
pub lift : List Fields → List Fields → Option ManifestOmitted → List Fields × Option ManifestOmitted
unfolding omission counted
lift [] kept omitted = (kept, omitted)
lift (entry ∷ entries) kept omitted =
    lift entries (if is_mark entry then kept else kept ++ entry ∷ [])
      (if is_mark entry then counted (omission (get "omitted" entry)) omitted else omitted)

unfoldable pub lift_omitted : ArtifactManifest → ArtifactManifest
unfolding lift
lift_omitted m =
    let (kept, omitted) = lift m.entries [] m.omitted in
    record m { entries = kept; omitted = omitted }
