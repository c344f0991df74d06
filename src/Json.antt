-- ===== src/Json.antt =====
-- The JSON values of the payload columns, as Python reads them: `dict` as its entries in order.
-- Fractional numbers do not occur in the model.
pub mod Lookup
use post_call_processing_pip.Common.{
  ℤ, pos, negsuc, zero, suc, Bool, true, false, Option, none, some, if◌then◌else◌,
}
use post_call_processing_pip.Text.{Text, text_eq, is_nonempty}

mutual
  pub data Json : Type 0 where
    null : Json
    bool : Bool → Json
    num : ℤ → Json
    str : Text → Json
    arr : Items → Json
    obj : Fields → Json

  pub data Items : Type 0 where
    nil : Items
    cons : Json → Items → Items

  pub data Fields : Type 0 where
    end : Fields
    field : Text → Json → Fields → Fields

-- `d.get(k)`
unfoldable pub get : Text → Fields → Option Json
get k end = none
get k (field j v d) = if text_eq k j then some v else get k d

-- `d[k] = v`
unfoldable pub set : Text → Json → Fields → Fields
set k v end = field k v end
set k v (field j w d) = if text_eq k j then field j v d else field j w (set k v d)

-- `a.update(b)`
unfoldable pub update : Fields → Fields → Fields
unfolding set
update a end = a
update a (field k v b) = update (set k v a) b

-- `bool(v)`
unfoldable pub is_truthy : Json → Bool
is_truthy null = false
is_truthy (bool b) = b
is_truthy (num (pos zero)) = false
is_truthy (num (pos (suc n))) = true
is_truthy (num (negsuc n)) = true
is_truthy (str s) = is_nonempty s
is_truthy (arr nil) = false
is_truthy (arr (cons x xs)) = true
is_truthy (obj end) = false
is_truthy (obj (field k v d)) = true

-- `d.get(k) or other`
unfoldable pub get_or : Text → Json → Fields → Json
unfolding get is_truthy
get_or k other d = elim (get k d) [ none ↦ other | some v ↦ if is_truthy v then v else other ]
