-- ===== src/Interactions/Log.antt =====
-- repositories/interactions.py: the error log of a call, and its counter.
use post_call_processing_pip.Common.{
  ℕ, ◌+◌, ◌≡◌, refl, Option, List, [], ◌∷◌, ◌++◌, length, All, All-update_where, ℤ, arith,
}
use post_call_processing_pip.Text.{Text}
use post_call_processing_pip.Json.{Json}
use post_call_processing_pip.Runtime.{Runtime}
use post_call_processing_pip.Models.{Db, Interaction}
use post_call_processing_pip.Interactions.{
  modify, mark_ended, mark_processing, update_analysis_result, mark_short_call,
  update_recording_key, append_error, error_entry, update_lead_stage,
}

-- The counter of a call is the number of the errors in its log.
abbrev pub IsCounted : Interaction → Type 0
IsCounted i = i.retry_count ≡ length i.error_log

-- A call of the repository that changes something.
pub data Update : Type 0 where
  ends : Interaction → ℕ → Option ℤ → Option Text → Update
  processes : ℕ → Text → Update
  analyses : ℕ → ℕ → Json → Json → Json → Json → Text → Text → Update
  skips : ℕ → Update
  records : ℕ → Text → Update
  fails : ℕ → ℕ → Text → Text → Text → Update
  moves_lead : ℕ → Text → Update

unfoldable pub apply : Runtime → Update → Db → Db
unfolding mark_ended mark_processing update_analysis_result mark_short_call update_recording_key
    append_error update_lead_stage
apply rt (ends i at duration call_sid) db = mark_ended i at duration call_sid db
apply rt (processes i status) db = mark_processing i status db
apply rt (analyses now i stage entities summary tokens provider model) db =
    update_analysis_result rt now i stage entities summary tokens provider model db
apply rt (skips i) db = mark_short_call i db
apply rt (records i key) db = update_recording_key i key db
apply rt (fails now i stage code message) db = append_error rt now i stage code message db
apply rt (moves_lead i stage) db = update_lead_stage i stage db

unfoldable pub apply_all : Runtime → List Update → Db → Db
unfolding apply
apply_all rt [] db = db
apply_all rt (u ∷ us) db = apply_all rt us (apply rt u db)

length-append_one {ℓ} : {A : Type ℓ} (xs : List A) (x : A) → length (xs ++ x ∷ []) ≡ length xs + 1
length-append_one [] x = refl
length-append_one (y ∷ xs) x = rw (length-append_one xs x) (omega arith)

modify-IsCounted :
    (i : ℕ) (f : Interaction → Interaction) (db : Db)
    → ((x : Interaction) → IsCounted x → IsCounted (f x))
    → All IsCounted db.interactions
    → All IsCounted (modify i f db).interactions
unfolding modify
modify-IsCounted i f db keep = All-update_where _ _ f (λ x _ h. keep x h) db.interactions

pub apply-IsCounted :
    (rt : Runtime) (u : Update) (db : Db)
    → All IsCounted db.interactions
    → All IsCounted (apply rt u db).interactions
unfolding apply modify
apply-IsCounted rt (ends i at duration call_sid) db = modify-IsCounted i.id _ db (λ _ h. h)
apply-IsCounted rt (processes i status) db = modify-IsCounted i _ db (λ _ h. h)
apply-IsCounted rt (analyses now i stage entities summary tokens provider model) db =
    modify-IsCounted i _ db (λ _ h. h)
apply-IsCounted rt (skips i) db = modify-IsCounted i _ db (λ _ h. h)
apply-IsCounted rt (records i key) db = modify-IsCounted i _ db (λ _ h. h)
apply-IsCounted rt (fails now i stage code message) db =
    modify-IsCounted i _ db
      (λ x h. rw (h, length-append_one x.error_log (error_entry rt now stage code message)) refl)
apply-IsCounted rt (moves_lead i stage) db = λ h. h

-- From tables where this holds: through any sequence of the repository's updates, the retry counter
-- of each call is the number of entries of its error log.
pub apply_all-IsCounted :
    (rt : Runtime) (us : List Update) (db : Db)
    → All IsCounted db.interactions
    → All IsCounted (apply_all rt us db).interactions
unfolding apply_all
apply_all-IsCounted rt [] db h = h
apply_all-IsCounted rt (u ∷ us) db h = apply_all-IsCounted rt us _ (apply-IsCounted rt u db h)
