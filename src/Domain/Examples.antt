-- ===== src/Domain/Examples.antt =====
-- Concrete cases of repo/internal/domain/state.go, models.go and password.go.
use task.Base.{◌≤◌, ◌≡◌, ◌↔◌, refl, true, false, ◌&&◌, any, codes, leb, ◌==◌}
use Prim.Native.String.{len}
use task.Domain.Errors.{ok}
use task.Domain.Status.{pending_confirmation, checked_in, completed, can_transition, status_eq}
use task.Domain.Status.Machine.{Trail, stay, move, visited, completed_after_check_in}
use task.Domain.Password.{Unicode, validate_password}
use task.Domain.Password.Policy.{counts_upper, counts_digit, counts_symbol, validate_password_iff}

visit : Trail pending_confirmation completed
unfolding can_transition
visit = move {t = checked_in} refl (move refl stay)

completed_after_check_in_example : any (status_eq checked_in) (visited visit) ≡ true
completed_after_check_in_example = completed_after_check_in visit refl (λ e. cc)

abbrev ascii : Unicode
ascii = record {
  is_lower = λ c. leb 97 c && leb c 122;
  is_upper = λ c. leb 65 c && leb c 90;
  is_digit = λ c. leb 48 c && leb c 57;
  is_space = λ c. c == 32;
  is_punct = λ c. leb 33 c && leb c 47;
  is_symbol = λ c. false;
}

validate_password_iff_example : (validate_password ascii "Correct-Horse1" ≡ ok tt) ↔ (
    (12 ≤ len "Correct-Horse1")
    × (any ascii.is_lower (codes "Correct-Horse1") ≡ true)
    × (any (counts_upper ascii) (codes "Correct-Horse1") ≡ true)
    × (any (counts_digit ascii) (codes "Correct-Horse1") ≡ true)
    × (any (counts_symbol ascii) (codes "Correct-Horse1") ≡ true))
validate_password_iff_example = validate_password_iff ascii "Correct-Horse1"
