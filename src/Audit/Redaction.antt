-- ===== src/Audit/Redaction.antt =====
-- security/pii.py: after redaction no personal field has its value, at any depth.
use post_call_processing_pip.Common.{
  ◌≡◌, refl, true, false, inl, inr, Bool-cases, ◌⊎◌, if◌then◌else◌, List, [], ◌∷◌, ◌++◌, Option,
}
use post_call_processing_pip.Text.{Text}
use post_call_processing_pip.Json.{
  Json, null, bool, num, str, arr, obj, Items, nil, cons, Fields, end, field,
}
use post_call_processing_pip.Models.{Db, AuditEvent}
use post_call_processing_pip.Audit.{
  is_pii, redacted, redact_pii, redact_items, redact_fields, AuditContext, event_of, emit,
}

-- Every field with a personal name is struck out, in nested dicts and lists too.
mutual
  pub IsClean : Json → Type 0
  IsClean null = Unit
  IsClean (bool b) = Unit
  IsClean (num z) = Unit
  IsClean (str s) = Unit
  IsClean (arr xs) = AreClean xs
  IsClean (obj d) = HasCleanFields d

  pub AreClean : Items → Type 0
  AreClean nil = Unit
  AreClean (cons x xs) = IsClean x × AreClean xs

  pub HasCleanFields : Fields → Type 0
  HasCleanFields end = Unit
  HasCleanFields (field k v d) =
      ((is_pii k ≡ true) × (v ≡ redacted) ⊎ (is_pii k ≡ false) × IsClean v) × HasCleanFields d

IsClean-field :
    (k : Text) (v : Json)
    → IsClean v
    → let w = if is_pii k then redacted else v in
      ((is_pii k ≡ true) × (w ≡ redacted)) ⊎ ((is_pii k ≡ false) × IsClean w)
IsClean-field k v h = elim (Bool-cases (is_pii k)) [
  | inl e ↦ rw e (inl (refl, refl))
  | inr e ↦ rw e (inr (refl, h))
]

mutual
  unfolding IsClean redact_pii

  clean : (v : Json) → IsClean (redact_pii v)
  clean null = tt
  clean (bool b) = tt
  clean (num z) = tt
  clean (str s) = tt
  clean (arr xs) = clean_items xs
  clean (obj d) = clean_fields d

  clean_items : (xs : Items) → AreClean (redact_items xs)
  clean_items nil = tt
  clean_items (cons x xs) = (clean x, clean_items xs)

  clean_fields : (d : Fields) → HasCleanFields (redact_fields d)
  clean_fields end = tt
  clean_fields (field k v d) = (IsClean-field k (redact_pii v) (clean v), clean_fields d)

-- The names of a dict's fields, in order.
abbrev pub keys : Fields → List Text
keys end = []
keys (field k v d) = k ∷ keys d

keys-redact_fields : (d : Fields) → keys (redact_fields d) ≡ keys d
unfolding redact_fields
keys-redact_fields end = refl
keys-redact_fields (field k v d) = rw (keys-redact_fields d)

-- An emitted event adds one row to the audit table. Its metadata has the given names in the given
-- order, and at any depth of dicts and lists a field with a personal name holds the placeholder.
pub emit-HasCleanFields :
    (context : AuditContext) (status message : Text) (error_code : Option Text) (metadata : Fields)
    (db : Db)
    → (event : AuditEvent) × ((emit context status message error_code metadata db).audit
        ≡ db.audit ++ event ∷ [])
      × HasCleanFields event.event_metadata
      × (keys event.event_metadata ≡ keys metadata)
unfolding emit
emit-HasCleanFields context status message error_code metadata db = (
  event_of context status message error_code metadata,
  refl,
  clean_fields metadata,
  keys-redact_fields metadata,
)
