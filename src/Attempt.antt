-- ===== src/Attempt.antt =====
-- A step that returns or raises; what is raised carries the exception's class.
use post_call_processing_pip.Common.{
  ℕ, leb, length, ◌≤◌, if◌then◌else◌, ◌≡◌, refl, ap, ◌⊎◌, inl, inr, Option, arith,
}
use post_call_processing_pip.Text.{Text, text}
use post_call_processing_pip.Json
use post_call_processing_pip.Json.{Json, obj}

pub data Attempt {ℓ} (A : Type ℓ) : Type ℓ where
  ok : A → Attempt A
  raise : Text → Attempt A

infixl 5 ◌>>=◌
abbrev pub ◌>>=◌ {ℓ κ} : {A : Type ℓ} {B : Type κ} → Attempt A → (A → Attempt B) → Attempt B
ok a >>= f = f a
raise e >>= f = raise e

pub Attempt-cases {ℓ} :
    {A : Type ℓ} (m : Attempt A) → ((a : A) × (m ≡ ok a)) ⊎ ((e : Text) × (m ≡ raise e))
Attempt-cases (ok a) = inl (a, refl)
Attempt-cases (raise e) = inr (e, refl)

-- `v.get(key)` of a value that need not be a dict.
unfoldable pub get_of : Text → Json → Attempt (Option Json)
get_of key (obj d) = ok (Json.get key d)
get_of key v = raise (text "AttributeError")

-- A text as a column `String(width)` takes it at the flush.
unfoldable pub stored : ℕ → Text → Attempt Text
stored width t = if leb (length t) width then ok t else raise (text "DBAPIError")

-- A chain that returns went through its first step.
pub bind-ok {ℓ κ} :
    {A : Type ℓ} {B : Type κ} (m : Attempt A) (f : A → Attempt B) {b : B}
    → m >>= f ≡ ok b
    → (a : A) × (m ≡ ok a) × (f a ≡ ok b)
bind-ok (ok a) f e = (a, refl, e)
bind-ok (raise _) f e = absurd (ground arith)

pub ok-injective {ℓ} : {A : Type ℓ} (a b : A) → ok a ≡ ok b → a ≡ b
ok-injective a b e = ap (λ m. elim m [ ok x ↦ x | raise _ ↦ a ]) e

pub stored-ok : (width : ℕ) (t : Text) → length t ≤ width → stored width t ≡ ok t
unfolding stored
stored-ok width t h = ground arith
