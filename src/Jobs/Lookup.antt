-- ===== src/Jobs/Lookup.antt =====
-- repositories/jobs.py: an assignment to one job leaves the rows of the others.
use post_call_processing_pip.Common.{
  ℕ, ◌≡◌, ◌≢◌, refl, List, [], ◌∷◌, ◌==◌, find, update_where, arith,
}
use post_call_processing_pip.Models.{InteractionJob}

pub find-update_where_ne :
    (i k : ℕ) (f : InteractionJob → InteractionJob) (xs : List InteractionJob)
    → i ≢ k
    → ((j : InteractionJob) → (f j).id ≡ j.id)
    → find (λ j. j.id == i) (update_where (λ j. j.id == k) f xs) ≡ find (λ j. j.id == i) xs
unfolding update_where
find-update_where_ne i k f [] ne same = refl
find-update_where_ne i k f (x ∷ xs) ne same =
    ground (arith, same x, find-update_where_ne i k f xs ne same)
