-- ===== src/Json/Lookup.antt =====
-- Python's dicts: a key is read as it was written.
use post_call_processing_pip.Common.{
  ◌≡◌, refl, ap, sym, true, false, some, if◌then◌else◌, Bool-cases, inl, inr,
}
use post_call_processing_pip.Text.{Text, text_eq, text_eq_iff}
use post_call_processing_pip.Json.{Json, Fields, end, field, get, set}

text_eq-same : (k : Text) → text_eq k k ≡ true
text_eq-same k = (text_eq_iff k k).1 refl

pub get-set : (k : Text) (v : Json) (d : Fields) → get k (set k v d) ≡ some v
unfolding get set
get-set k v end = rw (text_eq-same k) refl
get-set k v (field j w d) = elim (Bool-cases (text_eq k j)) [
  | inl e ↦ rw (e, get) (rw e refl)
  | inr e ↦ rw (e, get) (rw e (get-set k v d))
]

pub get-set_other :
    (k j : Text) (v : Json) (d : Fields) → text_eq k j ≡ false → get k (set j v d) ≡ get k d
unfolding get set
get-set_other k j v end other = rw other refl
get-set_other k j v (field i w d) other = elim (Bool-cases (text_eq j i)) [
  | inl e ↦
      let same : text_eq k i ≡ false = rw (sym ((text_eq_iff j i).0 e)) other in
      rw (e, set) (rw same refl)
  | inr e ↦ rw (e, set) (ap (λ r. if text_eq k i then some w else r) (get-set_other k j v d other))
]
